-- ===== src/Tests/Reports.antt =====
-- A day of movie events, its reports, and their export.
use Prim.Native.String.{◌++◌ as ◌<>◌}
use mathlib.Core.List.Memᴰ.{head, tail}
use making_soa_homework.Base.{
  ℕ, zero, suc, arith, ◌/◌, ◌*◌, ◌≡◌, refl, Bool, true, false, Option, some, none, String, List, [],
  ◌∷◌, select, insert_by, order_by,
}
use making_soa_homework.Base.Count.{sum_by}
use making_soa_homework.Base.Exec.{Result, ok}
use making_soa_homework.Base.Retry.{attempts}
use making_soa_homework.Producer.Events.{view_started, view_finished, searched, mobile, tv}
use making_soa_homework.Aggregation.Warehouse.{MovieEvent, read, rewrite}
use making_soa_homework.Aggregation.Queries.{
  on_day, distinct, contains, ranked, count_raw_rows, daily_dau, daily_top_movies,
  device_distribution, daily_avg_watch_time, daily_conversion, daily_retention, retention_cohorts,
  first_date, cohort, watched,
}
use making_soa_homework.Aggregation.Payload.{build_metric_payload}
use making_soa_homework.Aggregation.Repository.{
  Key, Metric, same_key, put, put_all, entries, upsert_once, upsert_metrics,
}
use making_soa_homework.Aggregation.Service.{
  Warehouse, Cell, whole, real, AggregationResult, rewrite_reports, reports_of, metrics_of,
  aggregate_for_date,
}
use making_soa_homework.Aggregation.TopMovies.{IsTop, daily_top_movies-IsTop}
use making_soa_homework.Aggregation.Exporter.{
  ExportRow, Bucket, Failure, storage_failed, export_once, export_for_date, put_object,
  fetch_metrics_for_export, frame_of,
}
use making_soa_homework.Aggregation.Exports.{Exported}
use making_soa_homework.Aggregation.Runs.{
  Aggregated, aggregate_for_date-Aggregated, export_for_date-Exported,
}
use making_soa_homework.Aggregation.Redelivery.{CountedTwice, redelivered-CountedTwice}
use making_soa_homework.Aggregation.Pipeline.{Delivered, daily_jobs-Delivered}

abbrev finished_view : MovieEvent
finished_view = record {
  event_date = 20;
  user_id = "ann";
  movie_id = "m1";
  event_type = view_finished;
  device_type = tv;
  progress_seconds = some 3600;
}

-- Two users on day 20, and one of them again on day 21.
abbrev events : List MovieEvent
events =
    record {
      event_date = 20;
      user_id = "ann";
      movie_id = "m1";
      event_type = view_started;
      device_type = tv;
      progress_seconds = some 0;
    }
    ∷ finished_view
    ∷ record {
      event_date = 20;
      user_id = "bob";
      movie_id = "m2";
      event_type = searched;
      device_type = mobile;
      progress_seconds = some 0;
    }
    ∷ record {
      event_date = 21;
      user_id = "ann";
      movie_id = "m2";
      event_type = view_started;
      device_type = tv;
      progress_seconds = some 0;
    }
    ∷ []

-- Percent in place of binary floats.
abbrev pub percent : ℕ → ℕ → ℕ
percent n total = n * 100 / total

abbrev pub bare : Warehouse ℕ
bare = record {
  movie_events = events;
  dau = [];
  avg_watch_time = [];
  top_movies = [];
  conversion = [];
  retention = [];
  devices = [];
  cohorts = [];
}

abbrev pub cell_value : Cell ℕ → ℕ
cell_value (whole n) = n
cell_value (real x) = x

abbrev cell_float : Cell ℕ → Option ℕ
cell_float c = some (cell_value c)

abbrev pub never : ℕ → Bool
never attempt = false

abbrev pub truthy : Cell ℕ → Bool
truthy cell = false

abbrev pub clock : ℕ → ℕ → ℕ
clock attempt row = row

computes : Unit {0}
unfolding select insert_by order_by sum_by attempts read rewrite distinct contains ranked
    count_raw_rows daily_dau daily_top_movies device_distribution daily_avg_watch_time
    daily_conversion daily_retention retention_cohorts first_date cohort watched
    build_metric_payload same_key put put_all entries upsert_once upsert_metrics rewrite_reports
    reports_of metrics_of aggregate_for_date
computes = tt

day_users : daily_dau 20 events ≡ 2
unfolding computes
day_users = refl

day_retention : daily_retention percent 0 20 events ≡ (100, 0)
unfolding computes
day_retention = refl

day_top :
    daily_top_movies 20 events
    ≡ record { movie_id = "m1"; views = 1; rank = 1 }
      ∷ record { movie_id = "m2"; views = 0; rank = 2 }
      ∷ []
unfolding computes
day_top = refl

daily_top_movies-IsTop_example : IsTop (on_day 20 events) (daily_top_movies 20 events)
daily_top_movies-IsTop_example = daily_top_movies-IsTop 20 events

-- PostgreSQL is down in the first two attempts.
abbrev pub down_twice : ℕ → Bool
down_twice zero = true
down_twice (suc zero) = true
down_twice (suc (suc k)) = false

abbrev day_run : Result (Unit {0}) AggregationResult × (Warehouse ℕ × List (Metric ℕ))
day_run = aggregate_for_date percent 0 truthy cell_float 20 "2026-03-01" down_twice clock (bare, [])

abbrev metrics : List (Metric ℕ)
metrics = day_run.1.1

day_result : day_run.0 ≡ ok (record { metric_date = 20; processed_rows = 3; metrics_written = 11 })
unfolding computes
day_result = refl

aggregate_for_date-Aggregated_example :
    Aggregated percent 0 cell_value truthy 20 "2026-03-01" bare [] day_run
aggregate_for_date-Aggregated_example =
    aggregate_for_date-Aggregated percent 0 cell_value truthy 20 "2026-03-01" down_twice clock bare
      [] 2 (omega arith) refl

abbrev by_name : Key → Key → Bool
by_name a b = true

abbrev csv : List (ExportRow ℕ) → String
csv [] = ""
csv (row ∷ rows) = row.metric_name <> ";" <> csv rows

abbrev daily_key : String
daily_key = "daily/2026-03-02/aggregates.csv"

-- The store fails in the first attempt.
abbrev store_fails : ℕ → Option Failure
store_fails zero = some storage_failed
store_fails (suc k) = none

empty_export :
    export_for_date by_name (λ date. "2026-03-02") csv 0 21 (λ i. metrics) store_fails []
    ≡ (ok daily_key, (daily_key, "NO_DATA;") ∷ [])
unfolding computes export_for_date export_once put_object fetch_metrics_for_export frame_of
empty_export = refl

export_for_date-Exported_example :
    (k : String) × (bucket : Bucket) × (export_for_date by_name
        (λ date. "2026-03-02")
        csv
        0
        21
        (λ i. metrics)
        store_fails
        []
      ≡ (ok k, bucket))
    × Exported by_name (λ date. "2026-03-02") csv 0 21 (λ i. metrics) [] k bucket
export_for_date-Exported_example =
    export_for_date-Exported by_name (λ date. "2026-03-02") csv 0 21 (λ i. metrics) store_fails [] 1
      (omega arith) refl

daily_jobs-Delivered_example :
    Delivered percent 0 cell_value truthy by_name
      (λ date. "2026-03-02")
      csv
      20
      "2026-03-01"
      bare
      []
      (export_for_date by_name (λ date. "2026-03-02") csv 0 20 (λ i. metrics) store_fails [])
daily_jobs-Delivered_example =
    daily_jobs-Delivered percent 0 cell_value truthy by_name (λ date. "2026-03-02") csv 20
      "2026-03-01" down_twice clock bare [] store_fails [] 2 1 (omega arith) refl (omega arith) refl

-- Ann's view of the first movie again.
redelivered-CountedTwice_example : CountedTwice percent 0 20 finished_view events
redelivered-CountedTwice_example =
    redelivered-CountedTwice percent 0 20 finished_view events (tail (head refl)) refl
