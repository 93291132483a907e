-- ===== src/Migrations/Catalog.antt =====
-- The operations of `alembic.op` that the revisions use, and what PostgreSQL documents of them: the
-- tables of a schema, on which an operation is known to succeed, and what it makes of them. Where
-- `apply` is none nothing is claimed. The database itself is a parameter that behaves so.
use chatterbox.Prelude.{
  ℕ, ◌≡◌, Bool, false, not, ◌&&◌, ◌||◌, Option, none, some, List, [], ◌∷◌, ◌++◌, text_eq, any,
  filter, update_where, if◌then◌else◌,
}
use chatterbox.Prelude.Every.{all}
use chatterbox.Models.{Text}

-- sa.Uuid(), sa.String(length=n), sa.DateTime(timezone=True) and sa.BigInteger()
pub data ColumnType : Type 0 where
  uuid date_time big_integer : ColumnType
  string : ℕ → ColumnType

-- `server_now` is server_default=now()
pub record Column : Type 0 where
  pub name : Text
  pub column_type : ColumnType
  pub nullable : Bool
  pub server_now : Bool

pub data OnDelete : Type 0 where
  cascade restrict : OnDelete

pub data Constraint : Type 0 where
  primary_key : List Text → Constraint
  foreign_key : Text → Text → Text → OnDelete → Constraint
  unique_key : Option Text → List Text → Constraint
  check_in : Text → Text → List Text → Constraint

pub record Index : Type 0 where
  pub name : Text
  pub columns : List Text
  pub unique : Bool

pub record Table : Type 0 where
  pub name : Text
  pub columns : List Column
  pub constraints : List Constraint
  pub indexes : List Index

pub data Operation : Type 0 where
  create_table : Text → List Column → List Constraint → Operation
  create_index : Text → Index → Operation
  add_column : Text → Column → Operation
  drop_table : Text → Operation
  drop_column : Text → Text → Operation

-- the tables, the latest first
abbrev pub Catalog : Type 0
Catalog = List Table

abbrev pub is_named : Text → Table → Bool
is_named n t = text_eq t.name n

abbrev pub is_column : Text → Column → Bool
is_column n c = text_eq c.name n

abbrev pub has_column : Table → Text → Bool
has_column t n = any (is_column n) t.columns

abbrev pub has_table : Catalog → Text → Bool
has_table c n = any (is_named n) c

-- what a foreign key may refer to
abbrev pub has_target : Catalog → Text → Text → Bool
has_target c n col = any (λ t. is_named n t && has_column t col) c

-- the columns that a constraint speaks of are its table's, and a foreign key has its target
abbrev pub holds_together : Catalog → Table → Constraint → Bool
holds_together c t (primary_key cols) = all (has_column t) cols
holds_together c t (foreign_key col n target _) = has_column t col && has_target c n target
holds_together c t (unique_key _ cols) = all (has_column t) cols
holds_together c t (check_in _ col _) = has_column t col

abbrev pub indexes_columns : Table → Index → Bool
indexes_columns t i = all (has_column t) i.columns

abbrev pub sound : Catalog → Table → Bool
sound c t = all (holds_together c t) t.constraints && all (indexes_columns t) t.indexes

-- a table or an index has the name: the two share a namespace
abbrev pub name_taken : Catalog → Text → Bool
name_taken c n = any (λ t. is_named n t || any (λ i. text_eq i.name n) t.indexes) c

abbrev pub refers_to_table : Text → Constraint → Bool
refers_to_table n (foreign_key _ target _ _) = text_eq target n
refers_to_table n _ = false

-- a constraint of the table itself, or a foreign key to it, speaks of the column
abbrev pub mentions : Text → Text → Table → Constraint → Bool
mentions n col t (primary_key cols) = is_named n t && any (λ m. text_eq m col) cols
mentions n col t (foreign_key own target m _) =
    (is_named n t && text_eq own col) || (text_eq target n && text_eq m col)
mentions n col t (unique_key _ cols) = is_named n t && any (λ m. text_eq m col) cols
mentions n col t (check_in _ own _) = is_named n t && text_eq own col

abbrev pub mentions_column : Text → Text → Table → Bool
mentions_column n col t =
    any (mentions n col t) t.constraints
    || (is_named n t && any (λ i. any (λ m. text_eq m col) i.columns) t.indexes)

abbrev pub new_table : Text → List Column → List Constraint → Table
new_table n cols cons = record { name = n; columns = cols; constraints = cons; indexes = [] }

abbrev pub with_index : Index → Table → Table
with_index i t = record t { indexes = t.indexes ++ i ∷ [] }

abbrev pub with_column : Column → Table → Table
with_column col t = record t { columns = t.columns ++ col ∷ [] }

abbrev pub without_column : Text → Table → Table
without_column n t = record t { columns = filter (λ c. not (is_column n c)) t.columns }

abbrev pub when : Bool → Catalog → Option Catalog
when b c = if b then some c else none

-- A table is dropped where no other refers to it, a column where nothing speaks of it, and a column
-- is added where the rows that exist can have a value for it.
unfoldable pub apply : Operation → Catalog → Option Catalog
apply (create_table n cols cons) c =
    let t = new_table n cols cons in when (not (name_taken c n) && sound (t ∷ c) t) (t ∷ c)
apply (create_index n i) c =
    when
      (has_table c n
        && all (λ t. not (is_named n t) || indexes_columns t i) c
        && not (name_taken c i.name))
      (update_where (is_named n) (with_index i) c)
apply (add_column n col) c =
    when
      (has_table c n
        && all (λ t. not (is_named n t) || not (has_column t col.name)) c
        && (col.nullable || col.server_now))
      (update_where (is_named n) (with_column col) c)
apply (drop_table n) c =
    when (has_table c n && all (λ t. is_named n t || not (any (refers_to_table n) t.constraints)) c)
      (filter (λ t. not (is_named n t)) c)
apply (drop_column n m) c =
    when (has_target c n m && all (λ t. not (mentions_column n m t)) c)
      (update_where (is_named n) (without_column m) c)

abbrev pub and_then : Option Catalog → (Catalog → Option Catalog) → Option Catalog
and_then none f = none
and_then (some c) f = f c

unfoldable pub run : List Operation → Catalog → Option Catalog
run [] c = some c
run (o ∷ os) c = and_then (apply o c) (run os)

-- A database with a schema that can be read, and does what is documented.
pub record Database {ℓ} (S : Type ℓ) : Type ℓ where
  pub catalog : S → Catalog
  pub execute : Operation → S → Option S
  pub executes :
      (o : Operation) (s : S) (c : Catalog)
      → apply o (catalog s) ≡ some c
      → (s' : S) × (execute o s ≡ some s') × (catalog s' ≡ c)
