-- ===== src/Aggregation/DayMetrics.antt =====
-- The payload of a run of `aggregate_for_date` of dz_5/aggregation-service/app/aggregation.py, by the
-- queries on the events of the date.
use text.Mathlib.Text.{is_le}
use Prim.Native.String.{compare as compare_text}
use making_soa_homework.Base.{ℕ, ◌≡◌, refl, Bool, some, String, List, map, order_by, leb, arith}
use making_soa_homework.Aggregation.Warehouse.{MovieEvent, Table, read, rewrite, read-rewrite}
use making_soa_homework.Aggregation.Queries.{
  TopMovie, daily_dau, daily_avg_watch_time, daily_top_movies, daily_conversion, daily_retention,
  device_distribution,
}
use making_soa_homework.Aggregation.Payload.{MetricRow, Reports, build_metric_payload}
use making_soa_homework.Aggregation.Service.{
  Warehouse, Cell, whole, real, conversion_cells, retention_cells, rewrite_reports, reports_of,
  metrics_of,
}

pub read_back :
    {R : Type 0} (date : ℕ) (rows : List R) (t : Table R) → read date (rewrite date rows t) ≡ rows
read_back date rows t = ground (arith, read-rewrite date date rows t)

module _ {F : Type 0} (quotient : ℕ → ℕ → F) (zero_float : F) where
  -- The results of the queries on a list of events.
  abbrev pub queried : ℕ → List MovieEvent → Reports (Cell F)
  queried date events = record {
    dau = some (whole (daily_dau date events));
    avg_watch = some (real (daily_avg_watch_time quotient zero_float date events));
    conversion =
        some
          (conversion_cells quotient zero_float (daily_conversion quotient zero_float date events));
    retention =
        some
          (retention_cells quotient zero_float (daily_retention quotient zero_float date events));
    top_movies =
        map (λ (r : TopMovie). (r.movie_id, whole r.views, r.rank))
          (order_by (λ a b. leb a.rank b.rank) (daily_top_movies date events));
    devices =
        map (λ (r : String × ℕ). (r.0, whole r.1))
          (order_by (λ (a b : String × ℕ). is_le (compare_text a.0 b.0))
            (device_distribution date events));
  }

  -- The metrics of the events of a date.
  abbrev pub day_metrics :
      (Cell F → Bool) → ℕ → String → List MovieEvent → List (MetricRow (Cell F))
  day_metrics falsy date computed_at events =
      build_metric_payload falsy (real zero_float) computed_at (queried date events)

  pub reports_of-queried :
      (date : ℕ) (w : Warehouse F)
      → reports_of quotient zero_float date (rewrite_reports quotient zero_float date w)
        ≡ queried date w.movie_events
  unfolding reports_of rewrite_reports
  reports_of-queried date w =
      rw
        (
          read_back date _ w.dau,
          read_back date _ w.avg_watch_time,
          read_back date _ w.conversion,
          read_back date _ w.retention,
          read_back date _ w.top_movies,
          read_back date _ w.devices,
        )
        refl

  pub metrics_of-day :
      (falsy : Cell F → Bool) (date : ℕ) (computed_at : String) (w : Warehouse F)
      → metrics_of quotient zero_float falsy date computed_at
          (rewrite_reports quotient zero_float date w)
        ≡ day_metrics falsy date computed_at w.movie_events
  unfolding metrics_of
  metrics_of-day falsy date computed_at w = rw (reports_of-queried date w) refl
