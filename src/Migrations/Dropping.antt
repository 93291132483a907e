-- ===== src/Migrations/Dropping.antt =====
-- Dropping a table or a column leaves the schema sound.
use chatterbox.Prelude.{
  ◌≡◌, refl, true, false, not, ◌&&◌, ◌||◌, some, List, text_eq, text_eq_iff, any, filter,
  update_where, arith,
}
use chatterbox.Prelude.Every.{
  all, all_mono2, all-update_where, all-filter, all-and, any-update_where, any-filter, all-not-any,
}
use chatterbox.Models.{Text}
use chatterbox.Migrations.Catalog.{
  Constraint, primary_key, foreign_key, unique_key, check_in, Table, Operation, create_table,
  create_index, add_column, drop_table, drop_column, Catalog, is_named, is_column, has_column,
  has_target, holds_together, indexes_columns, sound, refers_to_table, mentions, mentions_column,
  new_table, without_column, apply,
}
use chatterbox.Migrations.Soundness.{IsSound, sound-cons, create_index-IsSound, add_column-IsSound}

text_eq_other : (a b c : Text) → text_eq a b ≡ true → text_eq b c ≡ false → text_eq a c ≡ false
text_eq_other a b c p q = rw ((text_eq_iff a b).0 p) q

-- a table less
module _ (n : Text) (c : Catalog) where
  abbrev others : Catalog
  others = filter (λ t. not (is_named n t)) c

  has_target-others :
      (m k : Text) → text_eq m n ≡ false → has_target c m k ≡ true → has_target others m k ≡ true
  has_target-others m k other h =
      any-filter (λ t. not (is_named n t)) (λ t. is_named m t && has_column t k) c
        (λ t q. ground (arith, text_eq_other t.name m n)) h

  holds_together-others :
      (t : Table) (con : Constraint)
      → holds_together c t con ≡ true
      → not (refers_to_table n con) ≡ true
      → holds_together others t con ≡ true
  holds_together-others t (primary_key cols) h q = h
  holds_together-others t (foreign_key own m k _) h q = ground (arith, has_target-others m k)
  holds_together-others t (unique_key _ cols) h q = h
  holds_together-others t (check_in _ own _) h q = h

  pub drop_table-IsSound :
      IsSound c
      → all (λ t. is_named n t || not (any (refers_to_table n) t.constraints)) c ≡ true
      → IsSound others
  drop_table-IsSound h free =
      all-filter (λ t. not (is_named n t))
        (λ t. sound c t && (is_named n t || not (any (refers_to_table n) t.constraints)))
        (sound others) c
        (λ t p q. ground (
          arith,
          all_mono2 (holds_together c t) (λ con. not (refers_to_table n con))
              (holds_together others t) t.constraints (holds_together-others t),
          all-not-any (refers_to_table n) t.constraints,
        ))
        (all-and (sound c) (λ t. is_named n t || not (any (refers_to_table n) t.constraints)) c h
          free)

-- a column less
module _ (n m : Text) (c : Catalog) where
  abbrev narrowed : Catalog
  narrowed = update_where (is_named n) (without_column m) c

  has_column-without_column :
      (t : Table) (k : Text)
      → text_eq k m ≡ false
      → has_column t k ≡ true
      → has_column (without_column m t) k ≡ true
  has_column-without_column t k other h =
      any-filter (λ col. not (is_column m col)) (is_column k) t.columns
        (λ col q. rw (text_eq_other col.name k m q other) refl) h

  has_columns-without_column :
      (t : Table) (cols : List Text)
      → any (λ k. text_eq k m) cols ≡ false
      → all (has_column t) cols ≡ true
      → all (has_column (without_column m t)) cols ≡ true
  has_columns-without_column t cols other h =
      all_mono2 (has_column t) (λ k. not (text_eq k m)) (has_column (without_column m t)) cols
        (λ k p q. ground (arith, has_column-without_column t k)) h
        (all-not-any (λ k. text_eq k m) cols other)

  has_target-narrowed :
      (target k : Text)
      → (text_eq target n && text_eq k m) ≡ false
      → has_target c target k ≡ true
      → has_target narrowed target k ≡ true
  has_target-narrowed target k other h =
      any-update_where (is_named n) (λ t. is_named target t && has_column t k)
        (λ t. is_named target t && has_column t k) (without_column m) c
        (λ t p q.
          let same : text_eq target n ≡ true =
            rw (← (text_eq_iff t.name target).0 (ground arith)) p in
          ground (arith, has_column-without_column t k))
        (λ t p q. q) h

  holds_together-narrowed :
      (t : Table) (con : Constraint)
      → is_named n t ≡ true
      → holds_together c t con ≡ true
      → not (mentions n m t con) ≡ true
      → holds_together narrowed (without_column m t) con ≡ true
  holds_together-narrowed t (primary_key cols) p h q =
      has_columns-without_column t cols (ground arith) h
  holds_together-narrowed t (foreign_key own target k _) p h q =
      ground (arith, has_column-without_column t own, has_target-narrowed target k)
  holds_together-narrowed t (unique_key _ cols) p h q =
      has_columns-without_column t cols (ground arith) h
  holds_together-narrowed t (check_in _ own _) p h q =
      has_column-without_column t own (ground arith) h

  holds_together-elsewhere :
      (t : Table) (con : Constraint)
      → holds_together c t con ≡ true
      → not (mentions n m t con) ≡ true
      → holds_together narrowed t con ≡ true
  holds_together-elsewhere t (primary_key cols) h q = h
  holds_together-elsewhere t (foreign_key own target k _) h q =
      ground (arith, has_target-narrowed target k)
  holds_together-elsewhere t (unique_key _ cols) h q = h
  holds_together-elsewhere t (check_in _ own _) h q = h

  pub drop_column-IsSound :
      IsSound c → all (λ t. not (mentions_column n m t)) c ≡ true → IsSound narrowed
  drop_column-IsSound h free =
      all-update_where (is_named n) (λ t. sound c t && not (mentions_column n m t)) (sound narrowed)
        (without_column m) c
        (λ t p q.
          let unmentioned : any (mentions n m t) t.constraints ≡ false = ground arith in
          let unindexed : any (λ i. any (λ k. text_eq k m) i.columns) t.indexes ≡ false =
            ground arith in
          ground (
            arith,
            all_mono2 (holds_together c t) (λ con. not (mentions n m t con))
                (holds_together narrowed (without_column m t)) t.constraints
                (λ con. holds_together-narrowed t con p),
            all-not-any (mentions n m t) t.constraints unmentioned,
            all_mono2 (indexes_columns t) (λ i. not (any (λ k. text_eq k m) i.columns))
                (indexes_columns (without_column m t)) t.indexes
                (λ i a b. has_columns-without_column t i.columns (ground arith) a),
            all-not-any (λ i. any (λ k. text_eq k m) i.columns) t.indexes unindexed,
          ))
        (λ t p q.
          let unmentioned : any (mentions n m t) t.constraints ≡ false = ground arith in
          ground (
            arith,
            all_mono2 (holds_together c t) (λ con. not (mentions n m t con))
                (holds_together narrowed t) t.constraints (holds_together-elsewhere t),
            all-not-any (mentions n m t) t.constraints unmentioned,
          ))
        (all-and (sound c) (λ t. not (mentions_column n m t)) c h free)

-- An operation that succeeds leaves a sound schema sound.
pub apply-IsSound : (o : Operation) (c d : Catalog) → IsSound c → apply o c ≡ some d → IsSound d
unfolding apply
apply-IsSound (create_table n cols cons) c d h e =
    ground (arith, sound-cons c (new_table n cols cons) h)
apply-IsSound (create_index n i) c d h e = ground (arith, create_index-IsSound n i c h)
apply-IsSound (add_column n col) c d h e = ground (arith, add_column-IsSound n col c h)
apply-IsSound (drop_table n) c d h e = ground (arith, drop_table-IsSound n c h)
apply-IsSound (drop_column n m) c d h e = ground (arith, drop_column-IsSound n m c h)
