-- ===== src/Tests/Migrations.antt =====
-- The migrations of a database that already has a table.
use making_soa_homework.Base.{◌≡◌, refl, [], ◌∷◌}
use making_soa_homework.Base.Exec.{Result, ok, err}
use making_soa_homework.Migrations.{
  TableDef, Catalog, Alembic, has_text, has_table, has_index, is_referred, step,
}
use making_soa_homework.Migrations.Steps.{is_indexed}
use making_soa_homework.Migrations.Reversal.{Reversed, initial_schema-Reversed}

abbrev same : Result (Unit {0}) Catalog → Result (Unit {0}) Catalog
same (ok c) = ok c
same (err e) = err e

same-is : (r : Result (Unit {0}) Catalog) → same r ≡ r
same-is (ok c) = refl
same-is (err e) = refl

-- A database that is its catalog.
abbrev postgres : Alembic Catalog
postgres = record { run = step; catalog = λ c. c; documented = λ op s. same-is (step op s) }

-- The table in which Alembic keeps the revision.
abbrev alembic_version : TableDef
alembic_version = record {
  name = "alembic_version";
  columns = [];
  primary_key = "version_num" ∷ [];
  unique = [];
  foreign_keys = [];
}

abbrev before : Catalog
before = record { tables = alembic_version ∷ []; indexes = []; types = [] }

initial_schema-Reversed_example : Reversed postgres before
unfolding has_text has_table has_index is_referred is_indexed
initial_schema-Reversed_example = initial_schema-Reversed postgres before (record {
  promo_codes = record { absent = refl; unreferred = refl; unindexed = refl };
  users = record { absent = refl; unreferred = refl; unindexed = refl };
  orders = record { absent = refl; unreferred = refl; unindexed = refl };
  products = record { absent = refl; unreferred = refl; unindexed = refl };
  user_operations = record { absent = refl; unreferred = refl; unindexed = refl };
  order_items = record { absent = refl; unreferred = refl; unindexed = refl };
  index = refl;
  types = (refl, (refl, (refl, (refl, (refl, tt)))));
})
