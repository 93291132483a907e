-- ===== src/Migrations/Head.antt =====
-- `alembic upgrade head`: the revisions one after the other make the tables that the models declare.
use chatterbox.Prelude.{◌≡◌, Bool, true, false, not, none, some, List, [], ◌∷◌, ◌++◌, map}
use chatterbox.Prelude.Every.{all}
use chatterbox.Models.{Text}
use chatterbox.Migrations.Catalog.{
  Table, Operation, create_table, create_index, add_column, drop_table, drop_column, Catalog, apply,
  run, name_taken,
}
use chatterbox.Migrations.Revisions.{Revision, message_attachments, upgrade, history}
use chatterbox.Migrations.Metadata.{metadata}

-- no upgrade drops anything
only_adds : Operation → Bool
only_adds (drop_table _) = false
only_adds (drop_column _ _) = false
only_adds _ = true

-- the table and the index that an operation names
named : Operation → List Text
named (create_table n _ _) = n ∷ []
named (create_index n i) = n ∷ i.name ∷ []
named (add_column n _) = n ∷ []
named (drop_table n) = n ∷ []
named (drop_column n _) = n ∷ []

Apart : Catalog → Operation → Type 0
unfolding named
Apart c o = all (λ n. not (name_taken c n)) (named o) ≡ true

-- the operations of several revisions
pub upgrades : List Revision → List Operation
upgrades [] = []
upgrades (r ∷ rs) = upgrade r ++ upgrades rs

-- the names of the tables and indexes of the models
unfoldable pub names_of : List Table → List Text
names_of [] = []
names_of (t ∷ ts) = t.name ∷ (map (λ i. i.name) t.indexes ++ names_of ts)

-- no table or index of a schema has a name of the models
unfoldable pub IsForeign : Catalog → Type 0
unfolding names_of metadata
IsForeign c = all (λ n. not (name_taken c n)) (names_of metadata) ≡ true

abbrev to_head : List Operation
to_head = upgrades (history message_attachments)

-- the tables that the upgrades make of an empty schema
head_tables : Catalog
unfolding upgrades history upgrade run apply
head_tables = elim (run to_head []) [ none ↦ [] | some c ↦ c ]

all_named : List Operation → List Text
all_named [] = []
all_named (o ∷ os) = named o ++ all_named os
