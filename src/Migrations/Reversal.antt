-- ===== src/Migrations/Reversal.antt =====
-- The migrations there and back: дз_2/app/alembic/versions/9b6b825cc7cb_initial_schema.py and
-- dz_5/aggregation-service/alembic/versions/5e2007233592_create_daily_metrics.py.
use making_soa_homework.Base.{
  ◌≡◌, ◌∙◌, refl, sym, ap, subst, false, List, [], ◌∷◌, select, arith, inl, inr,
}
use making_soa_homework.Base.Exec.{Result, ok, err, Result-cases}
use making_soa_homework.Migrations.{
  Operation, create_table, drop_table, create_index, drop_index, Catalog, has_text, has_table,
  has_index, enums, none_there, targets_there, points_to, is_referred, step, Alembic, migrate,
}
use making_soa_homework.Migrations.Initial
use making_soa_homework.Migrations.DailyMetrics
use making_soa_homework.Migrations.Steps.{
  steps, steps-nil, steps-cons, Free, keeps_tables, keeps_indexes, keeps_named, created, dropped,
  indexed, removed, type_there, steps-err,
}
use making_soa_homework.Migrations.Marketplace.{marketplace, IsFree, upgraded, downgraded}

abbrev seen_as : {S : Type 0} → Alembic S → Result (Unit {0}) S → Result (Unit {0}) Catalog
seen_as a (ok s) = ok (a.catalog s)
seen_as a (err e) = err e

module _ {S : Type 0} (a : Alembic S) where
  run-step :
      (op : Operation) (s : S) (r : Result (Unit {0}) S)
      → a.run op s ≡ r
      → step op (a.catalog s) ≡ seen_as a r
  run-step op s (ok s') e =
      sym (a.documented op s) ∙ ap (λ q. elim q [ ok z ↦ ok (a.catalog z) | err x ↦ err x ]) e
  run-step op s (err x) e =
      sym (a.documented op s) ∙ ap (λ q. elim q [ ok z ↦ ok (a.catalog z) | err y ↦ err y ]) e

  -- A migration moves the catalog by the documented steps.
  migrate-catalog :
      (ops : List Operation) (s : S) → seen_as a (migrate a ops s) ≡ steps ops (a.catalog s)
  unfolding migrate
  migrate-catalog [] s = sym (steps-nil (a.catalog s))
  migrate-catalog (op ∷ ops) s = elim (Result-cases (a.run op s)) [
    | inl (s', e) ↦
        ap (λ q. seen_as a (elim q [ ok z ↦ migrate a ops z | err x ↦ err x ])) e
        ∙ migrate-catalog ops s'
        ∙ sym (steps-cons op ops (a.catalog s) (a.catalog s') _ (run-step op s (ok s') e) refl)
    | inr (x, e) ↦
        ap (λ q. seen_as a (elim q [ ok z ↦ migrate a ops z | err y ↦ err y ])) e
        ∙ sym (steps-err op ops (a.catalog s) (run-step op s (err x) e))
  ]

  seen_ok :
      (r : Result (Unit {0}) S) (c : Catalog)
      → seen_as a r ≡ ok c
      → (s : S) × (r ≡ ok s) × (a.catalog s ≡ c)
  seen_ok (ok s) c h = (s, refl, ground arith)
  seen_ok (err e) c h = absurd (ground arith)

  seen_err : (r : Result (Unit {0}) S) → seen_as a r ≡ err tt → r ≡ err tt
  seen_err (ok s) h = absurd (ground arith)
  seen_err (err e) h = refl

  reached :
      (ops : List Operation) (s : S) (c : Catalog)
      → steps ops (a.catalog s) ≡ ok c
      → (s' : S) × (migrate a ops s ≡ ok s') × (a.catalog s' ≡ c)
  reached ops s c h = seen_ok (migrate a ops s) c (migrate-catalog ops s ∙ h)

-- The first operation of the upgrade would create a type that is there.
refused :
    (c : Catalog) → steps Initial.upgrade (record c { types = (marketplace c).types }) ≡ err tt
unfolding has_text enums none_there Initial.upgrade
refused c =
    let left : Catalog = record c { types = (marketplace c).types } in
    steps-err (create_table Initial.promo_codes) _ left (type_there Initial.promo_codes left refl)

-- An upgrade, a downgrade, and another upgrade of the marketplace's database.
pub record Reversed {S : Type 0} (a : Alembic S) (s : S) : Type 0 where
  pub new : S
  pub up : migrate a Initial.upgrade s ≡ ok new
  pub schema : a.catalog new ≡ marketplace (a.catalog s)
  pub old : S
  pub down : migrate a Initial.downgrade new ≡ ok old
  pub tables : (a.catalog old).tables ≡ (a.catalog s).tables
  pub indexes : (a.catalog old).indexes ≡ (a.catalog s).indexes
  pub types : (a.catalog old).types ≡ (marketplace (a.catalog s)).types
  pub again : migrate a Initial.upgrade old ≡ err tt

-- If no name of the marketplace's schema is taken in a database, then the upgrade makes its six tables
-- and its index, and the downgrade after it leaves the tables and the indexes that were there before,
-- but also the five types of the upgrade; so another upgrade is refused.
pub initial_schema-Reversed :
    {S : Type 0} (a : Alembic S) (s : S) → IsFree (a.catalog s) → Reversed a s
initial_schema-Reversed a s free =
    let c = a.catalog s in
    let left : Catalog = record c { types = (marketplace c).types } in
    let (new, up, schema) = reached a Initial.upgrade s (marketplace c) (upgraded c free) in
    let (old, down, after) = reached a Initial.downgrade new left (
      subst (λ (d : Catalog). steps Initial.downgrade d ≡ ok left) (sym schema)
        (downgraded c free)) in
    record {
      new = new;
      up = up;
      schema = schema;
      old = old;
      down = down;
      tables = ap (λ d. d.tables) after;
      indexes = ap (λ d. d.indexes) after;
      types = ap (λ d. d.types) after;
      again =
          seen_err a _
            (migrate-catalog a Initial.upgrade old ∙ ap (steps Initial.upgrade) after ∙ refused c);
    }

-- The catalog with the table of metrics.
abbrev with_metrics : Catalog → Catalog
with_metrics c = record c {
  tables = DailyMetrics.daily_metrics ∷ c.tables;
  indexes = DailyMetrics.idx_daily_metrics_lookup ∷ c.indexes;
}

metrics_upgraded :
    (c : Catalog)
    → Free "daily_metrics" c
    → has_index "idx_daily_metrics_lookup" c.indexes ≡ false
    → steps DailyMetrics.upgrade c ≡ ok (with_metrics c)
unfolding has_table enums none_there targets_there DailyMetrics.upgrade
metrics_upgraded c free unnamed =
    let c1 : Catalog = record c { tables = DailyMetrics.daily_metrics ∷ c.tables } in
    steps-cons (create_table DailyMetrics.daily_metrics) _ c c1 _
      (created DailyMetrics.daily_metrics c free.absent refl refl)
      (steps-cons (create_index DailyMetrics.idx_daily_metrics_lookup) [] c1 (with_metrics c) _
        (indexed DailyMetrics.idx_daily_metrics_lookup c1 refl unnamed)
        (steps-nil (with_metrics c)))

metrics_downgraded :
    (c : Catalog)
    → Free "daily_metrics" c
    → has_index "idx_daily_metrics_lookup" c.indexes ≡ false
    → steps DailyMetrics.downgrade (with_metrics c) ≡ ok c
unfolding has_table has_index is_referred points_to select DailyMetrics.downgrade
metrics_downgraded c free unnamed =
    let c1 : Catalog = record c { tables = DailyMetrics.daily_metrics ∷ c.tables } in
    steps-cons (drop_index "idx_daily_metrics_lookup") _ (with_metrics c) c1 _
      (removed "idx_daily_metrics_lookup" (with_metrics c) c1 refl refl
        (keeps_named "idx_daily_metrics_lookup" c.indexes unnamed) refl)
      (steps-cons (drop_table "daily_metrics") [] c1 c _
        (dropped "daily_metrics" c1 c refl free.unreferred
          (keeps_tables "daily_metrics" c.tables free.absent)
          (keeps_indexes "daily_metrics" c.indexes free.unindexed) refl)
        (steps-nil c))

-- If the names of the table of metrics and of its index are free in a database, then the upgrade makes
-- them, and the downgrade after it leaves the catalog that was there before.
pub daily_metrics_reversed :
    {S : Type 0} (a : Alembic S) (s : S)
    → Free "daily_metrics" (a.catalog s)
    → has_index "idx_daily_metrics_lookup" (a.catalog s).indexes ≡ false
    → (new : S) × (migrate a DailyMetrics.upgrade s ≡ ok new)
      × (a.catalog new ≡ with_metrics (a.catalog s))
      × (old : S) × (migrate a DailyMetrics.downgrade new ≡ ok old)
      × (a.catalog old ≡ a.catalog s)
daily_metrics_reversed a s free unnamed =
    let c = a.catalog s in
    let (new, up, schema) =
      reached a DailyMetrics.upgrade s (with_metrics c) (metrics_upgraded c free unnamed) in
    let (old, down, after) = reached a DailyMetrics.downgrade new c (
      subst (λ (d : Catalog). steps DailyMetrics.downgrade d ≡ ok c) (sym schema)
        (metrics_downgraded c free unnamed)) in
    (new, up, schema, old, down, after)
