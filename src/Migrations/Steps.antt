-- ===== src/Migrations/Steps.antt =====
-- A table made with its indexes, and a column added, can be taken back.
use chatterbox.Prelude.{
  ◌≡◌, refl, ap, Bool, true, false, not, ◌&&◌, ◌||◌, some, List, [], ◌∷◌, map, text_eq, text_eq_iff,
  any, update_where, arith, Bool-cases, inl, inr,
}
use chatterbox.Prelude.Every.{
  all, all_mono, all-and, all-update_where, any-update_where, any-all-not, update_where_none,
  filter_none, any-last, filter-last, update_where-update_where, any-or_false, any-and_false,
}
use chatterbox.Models.{Text}
use chatterbox.Migrations.Catalog.{
  Column, Constraint, primary_key, foreign_key, unique_key, check_in, Index, Table, create_table,
  create_index, add_column, drop_table, drop_column, Catalog, is_named, is_column, has_column,
  has_table, has_target, holds_together, indexes_columns, sound, refers_to_table, mentions,
  mentions_column, new_table, with_index, with_column, without_column, apply, run, name_taken,
}
use chatterbox.Migrations.Soundness.{IsSound}

-- a table that is not there
no_refers :
    (n : Text) (c : Catalog) (con : Constraint) (t : Table)
    → has_table c n ≡ false
    → holds_together c t con ≡ true
    → not (refers_to_table n con) ≡ true
no_refers n c (primary_key cols) t h e = refl
no_refers n c (foreign_key own target m _) t h e = elim (Bool-cases (text_eq target n)) [
  | inl y ↦
      (let gone : has_target c target m ≡ false =
          rw ((text_eq_iff target n).0 y) (any-and_false (is_named n) (λ x. has_column x m) c h) in
        absurd (ground arith))
  | inr other ↦ rw other refl
]
no_refers n c (unique_key _ cols) t h e = refl
no_refers n c (check_in _ own _) t h e = refl

free_table :
    (n : Text) (c : Catalog)
    → has_table c n ≡ false
    → IsSound c
    → all (λ t. is_named n t || not (any (refers_to_table n) t.constraints)) c ≡ true
free_table n c h s =
    all_mono (sound c) (λ t. is_named n t || not (any (refers_to_table n) t.constraints)) c
      (λ t e. ground (
        arith,
        any-all-not (refers_to_table n) t.constraints,
        all_mono (holds_together c t) (λ con. not (refers_to_table n con)) t.constraints
            (λ con. no_refers n c con t h),
      ))
      s

-- The indexes change the table in front alone.
indexed :
    (n : Text) (ixs : List Index) (t : Table) (c d : Catalog)
    → is_named n t ≡ true
    → has_table c n ≡ false
    → run (map (create_index n) ixs) (t ∷ c) ≡ some d
    → (t' : Table) × (d ≡ t' ∷ c) × (is_named n t' ≡ true)
unfolding run apply
indexed n [] t c d e h r = (t, ground arith, e)
indexed n (i ∷ ixs) t c d e h r =
    indexed n ixs (with_index i t) c d e h
      (ground (arith, update_where_none (is_named n) (with_index i) c h))

pub unmake_table :
    (n : Text) (cols : List Column) (cons : List Constraint) (ixs : List Index) (c d : Catalog)
    → IsSound c
    → run (create_table n cols cons ∷ map (create_index n) ixs) c ≡ some d
    → apply (drop_table n) d ≡ some c
unfolding run apply
unmake_table n cols cons ixs c d s r =
    let untaken : name_taken c n ≡ false = ground arith in
    let h = any-or_false (is_named n) (λ t. any (λ i. text_eq i.name n) t.indexes) c untaken in
    let named : text_eq n n ≡ true = (text_eq_iff n n).1 refl in
    let (t, e, y) = indexed n ixs (new_table n cols cons) c d named h (ground arith) in
    rw e (ground (arith, free_table n c h s, filter_none (is_named n) c h))

-- a column that its table does not have
module _ (n m : Text) where
  lacks : Table → Bool
  lacks t = not (is_named n t) || not (has_column t m)

  no_target : (c : Catalog) → all lacks c ≡ true → has_target c n m ≡ false
  unfolding lacks
  no_target c h =
      any-all-not (λ t. is_named n t && has_column t m) c
        (all_mono lacks (λ t. not (is_named n t && has_column t m)) c (λ t e. ground arith) h)

  no_columns :
      (t : Table) (cols : List Text)
      → has_column t m ≡ false
      → all (has_column t) cols ≡ true
      → any (λ k. text_eq k m) cols ≡ false
  no_columns t cols h e =
      any-all-not (λ k. text_eq k m) cols
        (all_mono (has_column t) (λ k. not (text_eq k m)) cols
          (λ k q. elim (Bool-cases (text_eq k m)) [
            | inl y ↦ absurd (let f = (text_eq_iff k m).0 y in cc (ap (has_column t) f))
            | inr other ↦ rw other refl
          ])
          e)

  no_column :
      (t : Table) (k : Text) → has_column t m ≡ false → has_column t k ≡ true → text_eq k m ≡ false
  no_column t k h e = ground (arith, no_columns t (k ∷ []) h)

  no_mentions :
      (c : Catalog) (t : Table) (con : Constraint)
      → has_target c n m ≡ false
      → lacks t ≡ true
      → holds_together c t con ≡ true
      → not (mentions n m t con) ≡ true
  unfolding lacks
  no_mentions c t (primary_key cols) g l h = ground (arith, no_columns t cols)
  no_mentions c t (foreign_key own target k _) g l h =
      elim (Bool-cases (text_eq target n && text_eq k m)) [
        | inl y ↦
            (let reached : has_target c n m ≡ true =
                rw (← (text_eq_iff target n).0 (ground arith), ← (text_eq_iff k m).0 (ground arith))
                  (ground arith) in
              absurd (cc))
        | inr other ↦ ground (arith, no_column t own)
      ]
  no_mentions c t (unique_key _ cols) g l h = ground (arith, no_columns t cols)
  no_mentions c t (check_in _ own _) g l h = ground (arith, no_column t own)

  -- nothing speaks of it, also once it is there
  unmentioned :
      (c : Catalog) (t : Table)
      → has_target c n m ≡ false
      → lacks t ≡ true
      → sound c t ≡ true
      → mentions_column n m t ≡ false
  unfolding lacks
  unmentioned c t g l s = ground (
    arith,
    any-all-not (mentions n m t) t.constraints,
    all_mono (holds_together c t) (λ con. not (mentions n m t con)) t.constraints
        (λ con. no_mentions c t con g l),
    any-all-not (λ i. any (λ k. text_eq k m) i.columns) t.indexes,
    λ (e : has_column t m ≡ false).
        all_mono (indexes_columns t) (λ i. not (any (λ k. text_eq k m) i.columns)) t.indexes
          (λ i b. rw (no_columns t i.columns e b) refl),
  )

  with_column_lacks :
      (col : Column) (t : Table)
      → col.name ≡ m
      → has_column t m ≡ false
      → without_column m (with_column col t) ≡ t
  with_column_lacks col t e h =
      ap (λ cols. record t { columns = cols })
        (filter-last (is_column m) t.columns col h ((text_eq_iff col.name m).1 e))

  pub unmake_column :
      (col : Column) (c d : Catalog)
      → col.name ≡ m
      → IsSound c
      → apply (add_column n col) c ≡ some d
      → apply (drop_column n m) d ≡ some c
  unfolding apply
  unmake_column col c d e s r =
      let same : d ≡ update_where (is_named n) (with_column col) c = ground arith in
      let l : all lacks c ≡ true = unfold lacks in rw (← e) (ground arith) in
      let g = no_target c l in
      rw same (
        ground (
          arith,
          any-update_where (is_named n) (is_named n) (λ t. is_named n t && has_column t m)
              (with_column col) c
              (λ t p q.
                rw (p, any-last (is_column m) t.columns col ((text_eq_iff col.name m).1 e)) refl)
              (λ t p q. cc),
          all-update_where (is_named n) (λ t. lacks t && sound c t)
              (λ t. not (mentions_column n m t)) (with_column col) c
              (λ t p q. rw (unmentioned c t g (ground arith) (ground arith)) refl)
              (λ t p q. rw (unmentioned c t g (ground arith) (ground arith)) refl),
          all-and lacks (sound c) c l s,
          update_where-update_where (is_named n) lacks (with_column col) (without_column m) c
              (λ t p q. p) (λ t p q. with_column_lacks col t e (unfold lacks in ground arith)),
        ))
