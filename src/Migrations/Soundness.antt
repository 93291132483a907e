-- ===== src/Migrations/Soundness.antt =====
-- Every operation leaves the schema sound: whatever a constraint or an index speaks of is there.
use chatterbox.Prelude.{◌≡◌, true, not, ◌&&◌, ◌||◌, [], ◌∷◌, update_where, arith}
use chatterbox.Prelude.Every.{
  all, all_mono, all-update_where, all-and, any-update_where, all-append, any-append,
}
use chatterbox.Models.{Text}
use chatterbox.Migrations.Catalog.{
  Column, Constraint, primary_key, foreign_key, unique_key, check_in, Index, Table, Catalog,
  is_named, is_column, has_column, has_target, holds_together, indexes_columns, sound, with_index,
  with_column,
}

abbrev pub IsSound : Catalog → Type 0
IsSound c = all (sound c) c ≡ true

-- what a foreign key can refer to in `c`, it can in `d`
abbrev pub Reaches : Catalog → Catalog → Type 0
Reaches c d = (n m : Text) → has_target c n m ≡ true → has_target d n m ≡ true

holds_together_mono :
    (c d : Catalog) (t : Table) (con : Constraint)
    → Reaches c d
    → holds_together c t con ≡ true
    → holds_together d t con ≡ true
holds_together_mono c d t (primary_key cols) r h = h
holds_together_mono c d t (foreign_key col n m _) r h = ground (arith, r n m)
holds_together_mono c d t (unique_key _ cols) r h = h
holds_together_mono c d t (check_in _ col _) r h = h

pub sound_mono : (c d : Catalog) (t : Table) → Reaches c d → sound c t ≡ true → sound d t ≡ true
sound_mono c d t r h = ground (
  arith,
  all_mono (holds_together c t) (holds_together d t) t.constraints
      (λ con. holds_together_mono c d t con r),
)

-- a table in front
pub sound-cons : (c : Catalog) (t : Table) → IsSound c → sound (t ∷ c) t ≡ true → IsSound (t ∷ c)
sound-cons c t h e = ground (
  arith,
  all_mono (sound c) (sound (t ∷ c)) c (λ x. sound_mono c (t ∷ c) x (λ n m r. ground arith)) h,
)

-- one column more
has_column-with_column :
    (col : Column) (t : Table) (n : Text)
    → has_column t n ≡ true
    → has_column (with_column col t) n ≡ true
has_column-with_column col t n h = any-append (is_column n) t.columns (col ∷ []) h

holds_together-with_column :
    (c d : Catalog) (col : Column) (t : Table) (con : Constraint)
    → Reaches c d
    → holds_together c t con ≡ true
    → holds_together d (with_column col t) con ≡ true
holds_together-with_column c d col t (primary_key cols) r h =
    all_mono (has_column t) (has_column (with_column col t)) cols (has_column-with_column col t) h
holds_together-with_column c d col t (foreign_key own n m _) r h =
    ground (arith, r n m, has_column-with_column col t own)
holds_together-with_column c d col t (unique_key _ cols) r h =
    all_mono (has_column t) (has_column (with_column col t)) cols (has_column-with_column col t) h
holds_together-with_column c d col t (check_in _ own _) r h = has_column-with_column col t own h

Reaches-with_column :
    (n : Text) (col : Column) (c : Catalog)
    → Reaches c (update_where (is_named n) (with_column col) c)
Reaches-with_column n col c m k h =
    any-update_where (is_named n) (λ t. is_named m t && has_column t k)
      (λ t. is_named m t && has_column t k) (with_column col) c
      (λ t p q. ground (arith, has_column-with_column col t k)) (λ t p q. q) h

pub add_column-IsSound :
    (n : Text) (col : Column) (c : Catalog)
    → IsSound c
    → IsSound (update_where (is_named n) (with_column col) c)
add_column-IsSound n col c h =
    let d = update_where (is_named n) (with_column col) c in
    let r = Reaches-with_column n col c in
    all-update_where (is_named n) (sound c) (sound d) (with_column col) c
      (λ t p q. ground (
        arith,
        all_mono (holds_together c t) (holds_together d (with_column col t)) t.constraints
            (λ con. holds_together-with_column c d col t con r),
        all_mono (indexes_columns t) (indexes_columns (with_column col t)) t.indexes (λ i.
            all_mono (has_column t) (has_column (with_column col t)) i.columns
              (has_column-with_column col t)),
      ))
      (λ t p q. sound_mono c d t r q) h

-- one index more
Reaches-with_index :
    (n : Text) (i : Index) (c : Catalog) → Reaches c (update_where (is_named n) (with_index i) c)
Reaches-with_index n i c m k h =
    any-update_where (is_named n) (λ t. is_named m t && has_column t k)
      (λ t. is_named m t && has_column t k) (with_index i) c (λ t p q. q) (λ t p q. q) h

pub create_index-IsSound :
    (n : Text) (i : Index) (c : Catalog)
    → IsSound c
    → all (λ t. not (is_named n t) || indexes_columns t i) c ≡ true
    → IsSound (update_where (is_named n) (with_index i) c)
create_index-IsSound n i c h fits =
    let d = update_where (is_named n) (with_index i) c in
    let r = Reaches-with_index n i c in
    all-update_where (is_named n) (λ t. sound c t && (not (is_named n t) || indexes_columns t i))
      (sound d) (with_index i) c
      (λ t p q.
        ground (arith, sound_mono c d t r, all-append (indexes_columns t) t.indexes (i ∷ [])))
      (λ t p q. sound_mono c d t r (ground arith))
      (all-and (sound c) (λ t. not (is_named n t) || indexes_columns t i) c h fits)
