-- ===== src/Migrations/Reversal.antt =====
-- `downgrade` takes back what `upgrade` did.
use chatterbox.Prelude.{
  ◌≡◌, refl, Option, none, some, List, [], ◌∷◌, ◌++◌, map, arith, inl, inr, Option-cases,
}
use chatterbox.Models.{Text}
use chatterbox.Migrations.Catalog.{
  Column, Constraint, Index, Operation, create_table, create_index, add_column, drop_table,
  drop_column, Catalog, apply, run, and_then, Database,
}
use chatterbox.Migrations.Revisions.{
  Revision, create_users, direct_messaging, presence_receipts, message_attachments, upgrade,
  downgrade,
}
use chatterbox.Migrations.Soundness.{IsSound}
use chatterbox.Migrations.Dropping.{apply-IsSound}
use chatterbox.Migrations.Steps.{unmake_table, unmake_column}

-- What an upgrade is made of: a table with its indexes, or a column.
data Step : Type 0 where
  table : Text → List Column → List Constraint → List Index → Step
  column : Text → Column → Step

made : Step → List Operation
made (table n cols cons ixs) = create_table n cols cons ∷ map (create_index n) ixs
made (column n col) = add_column n col ∷ []

unmade : Step → Operation
unmade (table n cols cons ixs) = drop_table n
unmade (column n col) = drop_column n col.name

all_made : List Step → List Operation
all_made [] = []
all_made (s ∷ ss) = made s ++ all_made ss

all_unmade : List Step → List Operation
all_unmade [] = []
all_unmade (s ∷ ss) = all_unmade ss ++ unmade s ∷ []

run-append :
    (os ps : List Operation) (c : Catalog) → run (os ++ ps) c ≡ and_then (run os c) (run ps)
unfolding run
run-append [] ps c = refl
run-append (o ∷ os) ps c = elim (Option-cases (apply o c)) [
  | inl e ↦ ground arith
  | inr (d, e) ↦ ground (arith, run-append os ps d)
]

run-append_inv :
    (os ps : List Operation) (c d : Catalog)
    → run (os ++ ps) c ≡ some d
    → (b : Catalog) × (run os c ≡ some b) × (run ps b ≡ some d)
run-append_inv os ps c d e = elim (Option-cases (run os c)) [
  | inl n ↦ absurd (ground (arith, run-append os ps c))
  | inr (b, m) ↦ (b, m, ground (arith, run-append os ps c))
]

-- A schema stays sound through any operations that succeed.
pub run-IsSound : (os : List Operation) (c d : Catalog) → IsSound c → run os c ≡ some d → IsSound d
unfolding run
run-IsSound [] c d h e = ground arith
run-IsSound (o ∷ os) c d h e = elim (Option-cases (apply o c)) [
  | inl n ↦ absurd (ground arith)
  | inr (b, m) ↦ run-IsSound os b d (apply-IsSound o c b h m) (ground arith)
]

made-unmade :
    (s : Step) (c d : Catalog) → IsSound c → run (made s) c ≡ some d → apply (unmade s) d ≡ some c
unfolding made unmade
made-unmade (table n cols cons ixs) c d s r = unmake_table n cols cons ixs c d s r
made-unmade (column n col) c d s r =
    unmake_column n col.name col c d refl s (unfold run in ground arith)

all_made-all_unmade :
    (ss : List Step) (c d : Catalog)
    → IsSound c
    → run (all_made ss) c ≡ some d
    → run (all_unmade ss) d ≡ some c
unfolding all_made all_unmade run
all_made-all_unmade [] c d s r = unfold run in ground arith
all_made-all_unmade (x ∷ xs) c d s r =
    let (b, p, q) = run-append_inv (made x) (all_made xs) c d r in
    let back = all_made-all_unmade xs b d (run-IsSound (made x) c b s p) q in
    let last = made-unmade x c b s p in
    rw (run-append (all_unmade xs) (unmade x ∷ []) d, back, run, last) refl

-- an upgrade as steps: each table with the indexes that follow it
leading_indexes : List Operation → List Index
leading_indexes (create_index n i ∷ os) = i ∷ leading_indexes os
leading_indexes _ = []

grouped : List Operation → List Step
unfolding leading_indexes
grouped [] = []
grouped (create_table n cols cons ∷ os) = table n cols cons (leading_indexes os) ∷ grouped os
grouped (create_index n i ∷ os) = grouped os
grouped (add_column n col ∷ os) = column n col ∷ grouped os
grouped (drop_table n ∷ os) = grouped os
grouped (drop_column n m ∷ os) = grouped os

upgrade-all_made : (r : Revision) → upgrade r ≡ all_made (grouped (upgrade r))
unfolding upgrade grouped all_made made
upgrade-all_made create_users = refl
upgrade-all_made direct_messaging = refl
upgrade-all_made presence_receipts = refl
upgrade-all_made message_attachments = refl

downgrade-all_unmade : (r : Revision) → downgrade r ≡ all_unmade (grouped (upgrade r))
unfolding upgrade downgrade grouped all_unmade unmade
downgrade-all_unmade create_users = refl
downgrade-all_unmade direct_messaging = refl
downgrade-all_unmade presence_receipts = refl
downgrade-all_unmade message_attachments = refl

pub downgrade-upgrade :
    (r : Revision) (c d : Catalog)
    → IsSound c
    → run (upgrade r) c ≡ some d
    → run (downgrade r) d ≡ some c
downgrade-upgrade r c d s e =
    rw (downgrade-all_unmade r)
      (all_made-all_unmade (grouped (upgrade r)) c d s (rw (← upgrade-all_made r) e))

module _ {ℓ} {S : Type ℓ} (database : Database S) where
  open database use {catalog, execute, executes}

  -- what Alembic does with the operations of a revision
  pub execute_all : List Operation → S → Option S
  execute_all [] s = some s
  execute_all (o ∷ os) s = elim (execute o s) [ none ↦ none | some s' ↦ execute_all os s' ]

  pub execute_all-run :
      (os : List Operation) (s : S) (c : Catalog)
      → run os (catalog s) ≡ some c
      → (s' : S) × (execute_all os s ≡ some s') × (catalog s' ≡ c)
  unfolding execute_all run
  execute_all-run [] s c e = (s, refl, cc)
  execute_all-run (o ∷ os) s c e = elim (Option-cases (apply o (catalog s))) [
    | inl n ↦ absurd (ground arith)
    | inr (d, m) ↦
        (let (s', p, q) = executes o s d m in
          let (s'', x, y) = execute_all-run os s' c (rw q (ground arith)) in
          (s'', rw (p, execute_all) x, y))
  ]

  -- The downgrade of a revision takes back its upgrade: on a sound schema on which the operations
  -- of the upgrade succeed, so do then those of the downgrade, and leave the schema that was there.
  pub downgrade_restores :
      (r : Revision) (s : S) (c : Catalog)
      → IsSound (catalog s)
      → run (upgrade r) (catalog s) ≡ some c
      → (up : S) × (down : S) × (execute_all (upgrade r) s ≡ some up)
        × (execute_all (downgrade r) up ≡ some down)
        × (catalog up ≡ c)
        × (catalog down ≡ catalog s)
  downgrade_restores r s c sound e =
      let (up, p, q) = execute_all-run (upgrade r) s c e in
      let (down, x, y) =
        execute_all-run (downgrade r) up (catalog s)
          (rw q (downgrade-upgrade r (catalog s) c sound e)) in
      (up, down, p, x, q, y)
