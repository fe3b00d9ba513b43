-- ===== src/Migrations.antt =====
-- The migrations of the two databases in PostgreSQL: дз_2/app/alembic/versions and
-- dz_5/aggregation-service/alembic/versions, as lists of the operations of Alembic that they call.
-- What an operation does is an argument, with what PostgreSQL documents of the statements that it
-- sends: CREATE TYPE for each `sa.Enum` of a new table, CREATE TABLE, CREATE INDEX, DROP INDEX and
-- DROP TABLE without CASCADE, each refused where its objects are there already or are missing.
pub mod Initial
pub mod DailyMetrics
pub mod Steps
pub mod Marketplace
pub mod Reversal
use text.Mathlib.Text.{◌==◌ as str_eq}
use making_soa_homework.Base.{
  ℕ, ◌≡◌, Bool, true, false, ◌&&◌, ◌||◌, not, Option, none, some, String, List, [], ◌∷◌, ◌++◌,
  select, if◌then◌else◌,
}
use making_soa_homework.Base.Exec.{Result, ok, err}

pub data ColumnType : Type 0 where
  uuid integer boolean timestamp_tz unbounded_text double_type date jsonb : ColumnType
  varchar : ℕ → ColumnType
  numeric : ℕ → ℕ → ColumnType
  enum : String → List String → ColumnType

pub record Column : Type 0 where
  pub name : String
  pub kind : ColumnType
  pub nullable : Bool
  pub server_default : Option String

pub record ForeignKey : Type 0 where
  pub column : String
  pub table : String

pub record TableDef : Type 0 where
  pub name : String
  pub columns : List Column
  pub primary_key : List String
  pub unique : List String
  pub foreign_keys : List ForeignKey

pub record Index : Type 0 where
  pub name : String
  pub table : String
  pub columns : List String
  pub unique : Bool

pub data Operation : Type 0 where
  create_table : TableDef → Operation
  drop_table : String → Operation
  create_index : Index → Operation
  drop_index : String → Operation

-- What a migration sees of a database.
pub record Catalog : Type 0 where
  pub tables : List TableDef
  pub indexes : List Index
  pub types : List String

unfoldable pub has_text : String → List String → Bool
has_text s [] = false
has_text s (t ∷ l) = str_eq t s || has_text s l

unfoldable pub has_table : String → List TableDef → Bool
has_table s [] = false
has_table s (t ∷ l) = str_eq t.name s || has_table s l

unfoldable pub has_index : String → List Index → Bool
has_index s [] = false
has_index s (i ∷ l) = str_eq i.name s || has_index s l

abbrev enum_of : ColumnType → List String → List String
enum_of (enum name values) rest = name ∷ rest
enum_of _ rest = rest

-- The types that come with the columns.
unfoldable pub enums : List Column → List String
enums [] = []
enums (c ∷ l) = enum_of c.kind (enums l)

unfoldable pub none_there : List String → List String → Bool
unfolding has_text
none_there [] types = true
none_there (s ∷ l) types = not (has_text s types) && none_there l types

unfoldable pub targets_there : List ForeignKey → List TableDef → Bool
unfolding has_table
targets_there [] tables = true
targets_there (k ∷ l) tables = has_table k.table tables && targets_there l tables

unfoldable pub points_to : String → List ForeignKey → Bool
points_to s [] = false
points_to s (k ∷ l) = str_eq k.table s || points_to s l

-- Whether another table has a foreign key to the table.
unfoldable pub is_referred : String → List TableDef → Bool
unfolding points_to
is_referred s [] = false
is_referred s (t ∷ l) = (not (str_eq t.name s) && points_to s t.foreign_keys) || is_referred s l

abbrev pub when : Bool → Catalog → Result (Unit {0}) Catalog
when true c = ok c
when false c = err tt

-- What PostgreSQL documents of the statements of an operation.
unfoldable pub step : Operation → Catalog → Result (Unit {0}) Catalog
unfolding has_table has_index enums none_there targets_there is_referred
step (create_table t) c =
    when
      (not (has_table t.name c.tables)
        && none_there (enums t.columns) c.types
        && targets_there t.foreign_keys c.tables)
      (record c { tables = t ∷ c.tables; types = enums t.columns ++ c.types })
step (drop_table s) c = when (has_table s c.tables && not (is_referred s c.tables)) (record c {
  tables = select (λ t. not (str_eq t.name s)) c.tables;
  indexes = select (λ i. not (str_eq i.table s)) c.indexes;
})
step (create_index i) c =
    when (has_table i.table c.tables && not (has_index i.name c.indexes))
      (record c { indexes = i ∷ c.indexes })
step (drop_index s) c =
    when (has_index s c.indexes)
      (record c { indexes = select (λ i. not (str_eq i.name s)) c.indexes })

-- The operations of Alembic on databases, and the catalog of a database.
pub record Alembic (S : Type 0) : Type 0 where
  pub run : Operation → S → Result (Unit {0}) S
  pub catalog : S → Catalog
  pub documented :
      (op : Operation) (s : S)
      → (elim (run op s) [ ok s' ↦ ok (catalog s') | err e ↦ err e ]) ≡ step op (catalog s)

-- The operations of a migration, one after another; the first that is refused ends it.
unfoldable pub migrate : {S : Type 0} → Alembic S → List Operation → S → Result (Unit {0}) S
migrate a [] s = ok s
migrate a (op ∷ ops) s = elim (a.run op s) [ ok s' ↦ migrate a ops s' | err e ↦ err e ]
