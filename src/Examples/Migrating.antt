-- ===== src/Examples/Migrating.antt =====
-- The first revision on an empty schema.
use nexobank_backend.Base.{◌≡◌, refl, Option, none, some, []}
use nexobank_backend.Migrations.{Schema, run}
use nexobank_backend.Migrations.Revisions.{upgrade_initial, downgrade_initial}
use nexobank_backend.Migrations.Leftovers.{downgrade_initial_undoes}
use nexobank_backend.Migrations.{apply}

abbrev blank : Schema
blank = record { tables = []; types = [] }

abbrev or_blank : Option Schema → Schema
or_blank none = blank
or_blank (some s) = s

abbrev upgraded : Schema
upgraded = or_blank (run upgrade_initial blank)

upgrades : run upgrade_initial blank ≡ some upgraded
unfolding run upgrade_initial apply
upgrades = refl

downgrade_initial_undoes_example :
    (run downgrade_initial upgraded ≡ some (record blank { types = upgraded.types }))
    × (run upgrade_initial (record blank { types = upgraded.types }) ≡ none)
downgrade_initial_undoes_example = downgrade_initial_undoes blank upgraded tt upgrades
