-- ===== src/Aggregation/Service.antt =====
-- `AggregationService.aggregate_for_date`: dz_5/aggregation-service/app/aggregation.py. The columns
-- `computed_at` of the reports are left out: no query reads them.
use text.Mathlib.Text.{is_le}
use Prim.Native.String.{compare as compare_text}
use making_soa_homework.Base.{
  ℕ, Bool, Option, none, some, String, List, [], ◌∷◌, map, order_by, length, leb,
}
use making_soa_homework.Base.Exec.{Result, ok, err}
use making_soa_homework.Aggregation.Warehouse.{MovieEvent, Table, read, rewrite}
use making_soa_homework.Aggregation.Queries.{
  TopMovie, CohortDay, count_raw_rows, daily_dau, daily_avg_watch_time, daily_top_movies,
  daily_conversion, daily_retention, device_distribution, retention_cohorts,
}
use making_soa_homework.Aggregation.Payload.{MetricRow, Reports, build_metric_payload}
use making_soa_homework.Aggregation.Repository.{Metric, upsert_metrics}

pub record Warehouse (F : Type 0) : Type 0 where
  pub movie_events : List MovieEvent
  pub dau : Table ℕ
  pub avg_watch_time : Table F
  pub top_movies : Table TopMovie
  pub conversion : Table (ℕ × ℕ × F)
  pub retention : Table (F × F)
  pub devices : Table (String × ℕ)
  pub cohorts : Table (CohortDay F)

-- A cell of a report, as the driver returns it.
pub data Cell (F : Type 0) : Type 0 where
  whole : ℕ → Cell F
  real : F → Cell F

-- `rows[0]`, where there are rows.
abbrev pub first {ℓ} : {A : Type ℓ} → List A → Option A
first [] = none
first (a ∷ rest) = some a

abbrev pub over {ℓ} : {A B : Type ℓ} → (A → B) → Option A → Option B
over f none = none
over f (some a) = some (f a)

pub record AggregationResult : Type 0 where
  pub metric_date : ℕ
  pub processed_rows : ℕ
  pub metrics_written : ℕ

module _ {F : Type 0} (quotient : ℕ → ℕ → F) (zero_float : F) where
  -- `_rewrite_daily_dau`, and the other six; each reads `movie_events` and rewrites its report.
  abbrev pub rewrite_daily_dau : ℕ → Warehouse F → Warehouse F
  rewrite_daily_dau date w = record w {
    dau = rewrite date (daily_dau date w.movie_events ∷ []) w.dau;
  }

  abbrev pub rewrite_avg_watch_time : ℕ → Warehouse F → Warehouse F
  rewrite_avg_watch_time date w = record w {
    avg_watch_time =
        rewrite date (daily_avg_watch_time quotient zero_float date w.movie_events ∷ [])
          w.avg_watch_time;
  }

  abbrev pub rewrite_top_movies : ℕ → Warehouse F → Warehouse F
  rewrite_top_movies date w = record w {
    top_movies = rewrite date (daily_top_movies date w.movie_events) w.top_movies;
  }

  abbrev pub rewrite_conversion : ℕ → Warehouse F → Warehouse F
  rewrite_conversion date w = record w {
    conversion =
        rewrite date (daily_conversion quotient zero_float date w.movie_events ∷ []) w.conversion;
  }

  abbrev pub rewrite_retention : ℕ → Warehouse F → Warehouse F
  rewrite_retention date w = record w {
    retention =
        rewrite date (daily_retention quotient zero_float date w.movie_events ∷ []) w.retention;
  }

  abbrev pub rewrite_device_distribution : ℕ → Warehouse F → Warehouse F
  rewrite_device_distribution date w = record w {
    devices = rewrite date (device_distribution date w.movie_events) w.devices;
  }

  abbrev pub rewrite_retention_cohorts : ℕ → Warehouse F → Warehouse F
  rewrite_retention_cohorts date w = record w {
    cohorts = rewrite date (retention_cohorts quotient zero_float date w.movie_events) w.cohorts;
  }

  -- The seven of them, in the order of `aggregate_for_date`.
  unfoldable pub rewrite_reports : ℕ → Warehouse F → Warehouse F
  rewrite_reports date w =
      let w1 = rewrite_daily_dau date w in
      let w2 = rewrite_avg_watch_time date w1 in
      let w3 = rewrite_top_movies date w2 in
      let w4 = rewrite_conversion date w3 in
      let w5 = rewrite_retention date w4 in
      let w6 = rewrite_device_distribution date w5 in rewrite_retention_cohorts date w6

  abbrev pub conversion_cells : ℕ × ℕ × F → Cell F × Cell F × Cell F
  conversion_cells (started, finished, r) = (whole started, whole finished, real r)

  abbrev pub retention_cells : F × F → Cell F × Cell F
  retention_cells (d1, d7) = (real d1, real d7)

  -- The queries of `_build_metric_payload`, in their ORDER BY.
  unfoldable pub reports_of : ℕ → Warehouse F → Reports (Cell F)
  reports_of date w = record {
    dau = over whole (first (read date w.dau));
    avg_watch = over real (first (read date w.avg_watch_time));
    conversion = over conversion_cells (first (read date w.conversion));
    retention = over retention_cells (first (read date w.retention));
    top_movies =
        map (λ (r : TopMovie). (r.movie_id, whole r.views, r.rank))
          (order_by (λ a b. leb a.rank b.rank) (read date w.top_movies));
    devices =
        map (λ (r : String × ℕ). (r.0, whole r.1))
          (order_by (λ (a b : String × ℕ). is_le (compare_text a.0 b.0)) (read date w.devices));
  }

  -- `float` and Python's test of a cell are arguments.
  unfoldable pub metrics_of : (Cell F → Bool) → ℕ → String → Warehouse F → List (MetricRow (Cell F))
  metrics_of falsy date computed_at w =
      build_metric_payload falsy (real zero_float) computed_at (reports_of date w)

  abbrev pub aggregated :
      ℕ → ℕ → ℕ → Result (Unit {0}) (Unit {0}) → Result (Unit {0}) AggregationResult
  aggregated date processed written (ok _) =
      ok (record { metric_date = date; processed_rows = processed; metrics_written = written })
  aggregated date processed written (err e) = err e

  -- The state is the warehouse, and the table `daily_metrics` in PostgreSQL.
  unfoldable pub aggregate_for_date :
      (Cell F → Bool)
      → (Cell F → Option F)
      → ℕ
      → String
      → (ℕ → Bool)
      → (ℕ → ℕ → ℕ)
      → Warehouse F × List (Metric F)
      → Result (Unit {0}) AggregationResult × (Warehouse F × List (Metric F))
  aggregate_for_date falsy float date computed_at down now (w, t) =
      let w' = rewrite_reports date w in
      let metrics = metrics_of falsy date computed_at w' in
      let (r, t') = upsert_metrics float date down now metrics t in
      (aggregated date (count_raw_rows date w.movie_events) (length metrics) r, (w', t'))
