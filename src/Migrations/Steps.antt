-- ===== src/Migrations/Steps.antt =====
-- The operations of a migration (дз_2/app/alembic/versions, dz_5/aggregation-service/alembic/versions)
-- on the catalog of a database.
use text.Mathlib.Text.{◌==◌ as str_eq}
use making_soa_homework.Base.{
  ◌≡◌, ◌∙◌, refl, ap, Bool, true, false, ◌||◌, not, String, List, [], ◌∷◌, ◌++◌, select, arith,
}
use making_soa_homework.Base.Exec.{Result, ok, err}
use making_soa_homework.Migrations.{
  TableDef, Index, Operation, create_table, drop_table, create_index, drop_index, Catalog, has_text,
  has_table, has_index, enums, none_there, targets_there, is_referred, step,
}

-- The operations on the catalog alone.
unfoldable pub steps : List Operation → Catalog → Result (Unit {0}) Catalog
steps [] c = ok c
steps (op ∷ ops) c = elim (step op c) [ ok c' ↦ steps ops c' | err e ↦ err e ]

pub steps-nil : (c : Catalog) → steps [] c ≡ ok c
unfolding steps
steps-nil c = refl

pub steps-cons :
    (op : Operation) (ops : List Operation) (c c' : Catalog) (r : Result (Unit {0}) Catalog)
    → step op c ≡ ok c'
    → steps ops c' ≡ r
    → steps (op ∷ ops) c ≡ r
unfolding steps
steps-cons op ops c c' r h rest = ap (λ q. elim q [ ok d ↦ steps ops d | err e ↦ err e ]) h ∙ rest

pub steps-err :
    (op : Operation) (ops : List Operation) (c : Catalog)
    → step op c ≡ err tt
    → steps (op ∷ ops) c ≡ err tt
unfolding steps
steps-err op ops c h = ap (λ q. elim q [ ok d ↦ steps ops d | err e ↦ err e ]) h

-- Whether an index is on the table.
unfoldable pub is_indexed : String → List Index → Bool
is_indexed s [] = false
is_indexed s (i ∷ l) = str_eq i.table s || is_indexed s l

-- Nothing in the catalog has the name of a table, or hangs at it.
pub record Free (s : String) (c : Catalog) : Type 0 where
  pub absent : has_table s c.tables ≡ false
  pub unreferred : is_referred s c.tables ≡ false
  pub unindexed : is_indexed s c.indexes ≡ false

pub keeps_tables :
    (s : String) (l : List TableDef)
    → has_table s l ≡ false
    → select (λ t. not (str_eq t.name s)) l ≡ l
unfolding has_table select
keeps_tables s [] h = refl
keeps_tables s (t ∷ l) h = ground (arith, keeps_tables s l)

pub keeps_indexes :
    (s : String) (l : List Index)
    → is_indexed s l ≡ false
    → select (λ i. not (str_eq i.table s)) l ≡ l
unfolding is_indexed select
keeps_indexes s [] h = refl
keeps_indexes s (i ∷ l) h = ground (arith, keeps_indexes s l)

pub keeps_named :
    (s : String) (l : List Index)
    → has_index s l ≡ false
    → select (λ i. not (str_eq i.name s)) l ≡ l
unfolding has_index select
keeps_named s [] h = refl
keeps_named s (i ∷ l) h = ground (arith, keeps_named s l)

pub created :
    (t : TableDef) (c : Catalog)
    → has_table t.name c.tables ≡ false
    → none_there (enums t.columns) c.types ≡ true
    → targets_there t.foreign_keys c.tables ≡ true
    → step (create_table t) c
      ≡ ok (record c { tables = t ∷ c.tables; types = enums t.columns ++ c.types })
unfolding step
created t c absent fresh targets = rw (absent, fresh, targets) refl

pub dropped :
    (s : String) (c c' : Catalog)
    → has_table s c.tables ≡ true
    → is_referred s c.tables ≡ false
    → select (λ t. not (str_eq t.name s)) c.tables ≡ c'.tables
    → select (λ i. not (str_eq i.table s)) c.indexes ≡ c'.indexes
    → c.types ≡ c'.types
    → step (drop_table s) c ≡ ok c'
unfolding step
dropped s c c' here free tables indexes types = rw (here, free, tables, indexes, types) refl

pub indexed :
    (i : Index) (c : Catalog)
    → has_table i.table c.tables ≡ true
    → has_index i.name c.indexes ≡ false
    → step (create_index i) c ≡ ok (record c { indexes = i ∷ c.indexes })
unfolding step
indexed i c here free = rw (here, free) refl

pub removed :
    (s : String) (c c' : Catalog)
    → has_index s c.indexes ≡ true
    → c.tables ≡ c'.tables
    → select (λ i. not (str_eq i.name s)) c.indexes ≡ c'.indexes
    → c.types ≡ c'.types
    → step (drop_index s) c ≡ ok c'
unfolding step
removed s c c' here tables indexes types = rw (here, tables, indexes, types) refl

pub one_free :
    (s : String) (types : List String) → has_text s types ≡ false → none_there (s ∷ []) types ≡ true
unfolding none_there
one_free s types h = rw h refl

-- A table with a type that is there already is refused.
pub type_there :
    (t : TableDef) (c : Catalog)
    → none_there (enums t.columns) c.types ≡ false
    → step (create_table t) c ≡ err tt
unfolding step
type_there t c there = ground arith
