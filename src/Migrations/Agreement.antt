-- ===== src/Migrations/Agreement.antt =====
-- Two lists of tables describe one schema: the same names with the same columns, constraints and
-- indexes, in any order.
use chatterbox.Prelude.{
  ◌==◌, Bool, true, false, ◌&&◌, Option, none, some, List, [], ◌∷◌, text_eq, any, if◌then◌else◌,
}
use chatterbox.Prelude.Every.{all}
use chatterbox.Models.{Text}
use chatterbox.Migrations.Catalog.{
  ColumnType, uuid, date_time, big_integer, string, Column, OnDelete, cascade, restrict, Constraint,
  primary_key, foreign_key, unique_key, check_in, Index, Table,
}

abbrev same_bool : Bool → Bool → Bool
same_bool true b = b
same_bool false b = if b then false else true

-- the same elements, in any order
abbrev same_elements {ℓ} : {A : Type ℓ} → (A → A → Bool) → List A → List A → Bool
same_elements same xs ys = all (λ x. any (same x) ys) xs && all (λ y. any (same y) xs) ys

abbrev same_texts : List Text → List Text → Bool
same_texts [] [] = true
same_texts (x ∷ xs) (y ∷ ys) = text_eq x y && same_texts xs ys
same_texts _ _ = false

same_type : ColumnType → ColumnType → Bool
same_type uuid uuid = true
same_type date_time date_time = true
same_type big_integer big_integer = true
same_type (string n) (string m) = n == m
same_type _ _ = false

same_column : Column → Column → Bool
unfolding same_type
same_column a b =
    text_eq a.name b.name
    && same_type a.column_type b.column_type
    && same_bool a.nullable b.nullable
    && same_bool a.server_now b.server_now

same_on_delete : OnDelete → OnDelete → Bool
same_on_delete cascade cascade = true
same_on_delete restrict restrict = true
same_on_delete _ _ = false

same_name : Option Text → Option Text → Bool
same_name none none = true
same_name (some n) (some m) = text_eq n m
same_name _ _ = false

same_constraint : Constraint → Constraint → Bool
unfolding same_on_delete same_name
same_constraint (primary_key xs) (primary_key ys) = same_texts xs ys
same_constraint (foreign_key a n x d) (foreign_key b m y e) =
    text_eq a b && text_eq n m && text_eq x y && same_on_delete d e
same_constraint (unique_key n xs) (unique_key m ys) = same_name n m && same_texts xs ys
same_constraint (check_in n a xs) (check_in m b ys) = text_eq n m && text_eq a b && same_texts xs ys
same_constraint _ _ = false

same_index : Index → Index → Bool
same_index i j =
    text_eq i.name j.name && same_texts i.columns j.columns && same_bool i.unique j.unique

same_table : Table → Table → Bool
unfolding same_column same_constraint same_index
same_table t u =
    text_eq t.name u.name
    && same_elements same_column t.columns u.columns
    && same_elements same_constraint t.constraints u.constraints
    && same_elements same_index t.indexes u.indexes

unfoldable pub same_schema : List Table → List Table → Bool
unfolding same_table
same_schema = same_elements same_table
