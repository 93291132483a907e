-- ===== src/Examples/Migrating.antt =====
-- The migrations on a schema kept as its tables.
use chatterbox.Prelude.{◌≡◌, refl, none, some, [], ◌∷◌, ◌++◌, codes, false}
use chatterbox.Migrations.Catalog.{Catalog, apply, run, Database, new_table}
use chatterbox.Migrations.Revisions.{
  presence_receipts, upgrade, downgrade, column, key, create_users, direct_messaging,
}
use chatterbox.Migrations.Catalog.{uuid, Table}
use chatterbox.Migrations.Reversal.{execute_all, downgrade_restores}

abbrev tables_only : Database Catalog
tables_only = record { catalog = λ c. c; execute = apply; executes = λ o s c e. (c, e, refl) }

abbrev audit_log : Table
audit_log = new_table (codes "audit_log") (column "id" uuid false ∷ []) (key "id" ∷ [])

-- the schema of the second revision, with a table of someone else's
abbrev direct_schema : Catalog
direct_schema = elim (run (upgrade create_users ++ upgrade direct_messaging) (audit_log ∷ [])) [
  | none ↦ []
  | some c ↦ c
]

abbrev receipts_schema : Catalog
receipts_schema = elim (run (upgrade presence_receipts) direct_schema) [ none ↦ [] | some c ↦ c ]

downgrade_restores_example :
    (up : Catalog) × (down : Catalog) × (execute_all tables_only
        (upgrade presence_receipts)
        direct_schema
      ≡ some up)
    × (execute_all tables_only (downgrade presence_receipts) up ≡ some down)
    × (up ≡ receipts_schema)
    × (down ≡ direct_schema)
unfolding upgrade run apply
downgrade_restores_example =
    downgrade_restores tables_only presence_receipts direct_schema receipts_schema refl refl
