-- ===== src/Migrations.antt =====
-- alembic/versions/: the migrations as lists of operations, and what an operation does to a schema of
-- PostgreSQL. A table is created with the enum types of its columns; to drop it leaves them, since
-- `op.drop_table` has only its name.
pub mod Revisions
pub mod Undoing
pub mod Leftovers
use nexobank_backend.Base.{
  ℕ, String, Bool, true, false, ◌&&◌, ◌||◌, not, Option, none, some, List, [], ◌∷◌, ◌++◌, str_eq,
  if◌then◌else◌,
}

pub data ColumnType : Type 0 where
  uuid jsonb timestamp date boolean : ColumnType
  string : ℕ → ColumnType
  numeric : ℕ → ℕ → ColumnType
  enum : String → List String → ColumnType

pub record Column : Type 0 where
  pub name : String
  pub type : ColumnType
  pub nullable : Bool

pub data OnDelete : Type 0 where
  restrict cascade set_null : OnDelete

pub record ForeignKey : Type 0 where
  pub column : String
  pub references : String
  pub on_delete : OnDelete

pub record Index : Type 0 where
  pub name : String
  pub columns : List String
  pub is_unique : Bool

pub record Table : Type 0 where
  pub name : String
  pub columns : List Column
  pub foreign_keys : List ForeignKey
  pub uniques : List String
  pub indexes : List Index

-- the tables, the newest first, and the names of the enum types
pub record Schema : Type 0 where
  pub tables : List Table
  pub types : List String

pub data Op : Type 0 where
  create_table : Table → Op
  create_index : String → Index → Op
  drop_index : String → String → Op
  drop_table : String → Op

abbrev pub has_name : String → List String → Bool
has_name n [] = false
has_name n (m ∷ rest) = str_eq m n || has_name n rest

abbrev pub has_table : String → List Table → Bool
has_table n [] = false
has_table n (t ∷ rest) = str_eq t.name n || has_table n rest

-- the enum types of a table's columns
abbrev pub enum_of : ColumnType → List String
enum_of (enum name values) = name ∷ []
enum_of uuid = []
enum_of jsonb = []
enum_of timestamp = []
enum_of date = []
enum_of boolean = []
enum_of (string n) = []
enum_of (numeric p s) = []

abbrev pub enums_of : List Column → List String
enums_of [] = []
enums_of (c ∷ rest) = enum_of c.type ++ enums_of rest

abbrev pub any_name : List String → List String → Bool
any_name [] taken = false
any_name (n ∷ rest) taken = has_name n taken || any_name rest taken

-- every key refers to a table that is there
abbrev pub keys_fit : List ForeignKey → List Table → Bool
keys_fit [] tables = true
keys_fit (k ∷ rest) tables = has_table k.references tables && keys_fit rest tables

abbrev pub refers_to : String → List ForeignKey → Bool
refers_to n [] = false
refers_to n (k ∷ rest) = str_eq k.references n || refers_to n rest

abbrev pub is_referred_to : String → List Table → Bool
is_referred_to n [] = false
is_referred_to n (t ∷ rest) = refers_to n t.foreign_keys || is_referred_to n rest

abbrev pub add_index : Index → Table → Table
add_index i t = record t { indexes = i ∷ t.indexes }

-- `none`: there is no such index
abbrev pub without_index : String → List Index → Option (List Index)
without_index n [] = none
without_index n (i ∷ rest) =
    let later = without_index n rest in
    if str_eq i.name n then some rest else elim later [ none ↦ none | some r ↦ some (i ∷ r) ]

-- a change of one table; `none`: there is no such table, or it cannot change so
abbrev pub change_table : String → (Table → Option Table) → List Table → Option (List Table)
change_table n f [] = none
change_table n f (t ∷ rest) =
    let later = change_table n f rest in
    if str_eq t.name n
    then elim (f t) [ none ↦ none | some t' ↦ some (t' ∷ rest) ]
    else elim later [ none ↦ none | some r ↦ some (t ∷ r) ]

-- the table is taken out, if no other refers to it
abbrev pub without_table : String → List Table → Option (List Table)
without_table n [] = none
without_table n (t ∷ rest) =
    let later = without_table n rest in
    if str_eq t.name n
    then (if is_referred_to n rest then none else some rest)
    else if refers_to n t.foreign_keys
    then none
    else elim later [ none ↦ none | some r ↦ some (t ∷ r) ]

abbrev pub drop_one_index : String → Table → Option Table
drop_one_index n t = elim (without_index n t.indexes) [
  | none ↦ none
  | some rest ↦ some (record t { indexes = rest })
]

abbrev pub with_tables : Schema → Option (List Table) → Option Schema
with_tables s none = none
with_tables s (some tables) = some (record s { tables = tables })

unfoldable pub apply : Op → Schema → Option Schema
apply (create_table t) s =
    if has_table t.name s.tables
      || any_name (enums_of t.columns) s.types
      || not (keys_fit t.foreign_keys (t ∷ s.tables))
    then none
    else some (record { tables = t ∷ s.tables; types = enums_of t.columns ++ s.types })
apply (create_index n i) s = with_tables s (change_table n (λ t. some (add_index i t)) s.tables)
apply (drop_index i n) s = with_tables s (change_table n (drop_one_index i) s.tables)
apply (drop_table n) s = with_tables s (without_table n s.tables)

-- the operations one after the other, in one transaction: `none` when one fails
unfoldable pub run : List Op → Schema → Option Schema
run [] s = some s
run (op ∷ ops) s = elim (apply op s) [ none ↦ none | some s' ↦ run ops s' ]
