-- ===== src/Examples.antt =====
-- The theorems at concrete inputs: runs of the services on the bank of `Scenario`.
mod Moving
mod Balancing
mod Signing
mod Owning
mod Serving
mod Admitting
mod Racing
mod Routing
mod Working
mod Migrating
