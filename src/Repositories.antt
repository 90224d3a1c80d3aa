-- ===== src/Repositories.antt =====
-- app/repositories/: the queries and the writes of each table. A query answers from what the
-- session has flushed; a write flushes at once, and there the constraints of the table are checked.
pub mod AuditLogs
pub mod Transactions
pub mod Accounts
pub mod Users
pub mod RefreshTokens
pub mod ResetTokens
pub mod Devices
pub mod Cards
