-- ===== src/Aggregation/Restart.antt =====
-- A run of `aggregate_for_date` after one that stopped: dz_5/aggregation-service/app/aggregation.py.
use mathlib.Core.List.{Memᴰ}
use making_soa_homework.Base.{
  ℕ, ◌<◌, ◌≡◌, refl, subst, ◌∙◌, ap, Bool, false, some, String, List, length,
}
use making_soa_homework.Base.Exec.{Result, ok}
use making_soa_homework.Aggregation.Queries.{count_raw_rows}
use making_soa_homework.Aggregation.Warehouse.{MovieEvent}
use making_soa_homework.Aggregation.Payload.{MetricRow}
use making_soa_homework.Aggregation.Repository.{Key, Metric, row_key, upsert_metrics}
use making_soa_homework.Aggregation.Upserts.{lookup}
use making_soa_homework.Aggregation.Service.{
  Warehouse, Cell, real, AggregationResult, rewrite_reports, metrics_of, aggregate_for_date,
}
use making_soa_homework.Aggregation.Metrics.{SameReports}
use making_soa_homework.Aggregation.DayMetrics.{day_metrics, queried, metrics_of-day}
use making_soa_homework.Aggregation.PayloadKeys.{key_count}
use making_soa_homework.Aggregation.Stored.{IsMetric}
use making_soa_homework.Aggregation.Runs.{Aggregated, aggregate_for_date-Aggregated}
use making_soa_homework.Aggregation.Commands.{Stop, in_reports, in_upsert, aggregate_interrupted}
use making_soa_homework.Aggregation.Recovery.{execute_all, execute_first-recovers}
use making_soa_homework.Aggregation.Absent.{payload_dated, upsert_metrics-absent}

module _ {F : Type 0} (quotient : ℕ → ℕ → F) (zero_float : F) (value : Cell F → F)
    (falsy : Cell F → Bool) (date : ℕ) (computed_at : String) (w : Warehouse F)
    (t : List (Metric F)) where
  -- The payload of the date.
  abbrev payload : List (MetricRow (Cell F))
  payload = day_metrics quotient zero_float falsy date computed_at w.movie_events

  -- What a stopped run has left alone of a warehouse `w` and a table of metrics `t`.
  record Left (v : Warehouse F) (u : List (Metric F)) : Type 0 where
    events : v.movie_events ≡ w.movie_events
    same :
        (day : ℕ)
        → SameReports day
            (rewrite_reports quotient zero_float date v)
            (rewrite_reports quotient zero_float date w)
    kept : (k : Key) → key_count date k payload ≡ 0 → lookup k u ≡ lookup k t

  aggregate_interrupted-Left :
      (before : String) (stop : Stop)
      → let left =
          aggregate_interrupted quotient zero_float falsy
            (λ c. some (value c))
            date
            before
            stop
            (w, t) in
        Left left.0 left.1
  unfolding aggregate_interrupted
  aggregate_interrupted-Left before (in_reports k) =
      let (events, same) = execute_first-recovers quotient zero_float k date w in
      record { events = events; same = same; kept = λ k absent. refl }
  aggregate_interrupted-Left before (in_upsert down now) =
      let (events, same) = execute_first-recovers quotient zero_float 14 date w in
      let rows = day_metrics quotient zero_float falsy date before w.movie_events in
      let made =
        ap (metrics_of quotient zero_float falsy date before)
          (execute_all quotient zero_float date w)
        ∙ metrics_of-day quotient zero_float falsy date before w in
      record {
        events = events;
        same = same;
        kept = λ k absent.
            ap (λ l. lookup k (upsert_metrics (λ c. some (value c)) date down now l t).1) made
            ∙ upsert_metrics-absent (λ c. some (value c)) date k down now rows t
                (payload_dated date k before computed_at falsy (real zero_float)
                    (queried quotient zero_float date w.movie_events)
                  ∙ absent);
      }

  -- The result of a run after one that stopped, and what it leaves, by what there was before both.
  pub record Recovered (run : Result (Unit {0}) AggregationResult × (Warehouse F × List (Metric F)))
      : Type 0 where
    pub warehouse : Warehouse F
    pub table : List (Metric F)
    pub returns : run ≡ (
      ok (record {
        metric_date = date;
        processed_rows = count_raw_rows date w.movie_events;
        metrics_written = length payload;
      }),
      (warehouse, table),
    )
    pub same : (day : ℕ) → SameReports day warehouse (rewrite_reports quotient zero_float date w)
    pub stored :
        (row : MetricRow (Cell F))
        → Memᴰ row payload
        → (m : Metric F) × (lookup (row_key date row) table ≡ some m)
          × IsMetric (λ c. some (value c)) date row m
    pub kept : (k : Key) → key_count date k payload ≡ 0 → lookup k table ≡ lookup k t

  recovered :
      (v : Warehouse F) (u : List (Metric F))
      (run : Result (Unit {0}) AggregationResult × (Warehouse F × List (Metric F)))
      → Left v u
      → Aggregated quotient zero_float value falsy date computed_at v u run
      → Recovered run
  recovered v u run left a =
      let rows =
        λ (e : List MovieEvent). day_metrics quotient zero_float falsy date computed_at e in
      record {
        warehouse = rewrite_reports quotient zero_float date v;
        table = a.table;
        returns =
            subst
              (λ e. run ≡ (
                ok (record {
                  metric_date = date;
                  processed_rows = count_raw_rows date e;
                  metrics_written = length (rows e);
                }),
                (rewrite_reports quotient zero_float date v, a.table),
              ))
              left.events a.returns;
        same = left.same;
        stored =
            subst
              (λ e.
                (row : MetricRow (Cell F))
                → Memᴰ row (rows e)
                → (m : Metric F) × (lookup (row_key date row) a.table ≡ some m)
                  × IsMetric (λ c. some (value c)) date row m)
              left.events a.stored;
        kept = λ k absent.
            subst (λ e. (k : Key) → key_count date k (rows e) ≡ 0 → lookup k a.table ≡ lookup k u)
              left.events a.kept k absent
            ∙ left.kept k absent;
      }

  -- If a run for the date has stopped, between its commands to ClickHouse, in the upsert or behind it,
  -- if no event has come since, and if PostgreSQL works in one of the first five attempts of the next
  -- run, then that one returns with the numbers of the date's events and metrics. The reports of
  -- every day are as a run without the stop makes them, the table of metrics has every metric that
  -- the queries give for the date under its key, and under a key that is on none of them what it had
  -- before both runs.
  pub aggregate_interrupted-Recovered :
      (before : String) (stop : Stop) (down : ℕ → Bool) (now : ℕ → ℕ → ℕ) (k : ℕ)
      → k < 5
      → down k ≡ false
      → Recovered (
          aggregate_for_date quotient zero_float falsy
            (λ c. some (value c))
            date
            computed_at
            down
            now
            (aggregate_interrupted quotient zero_float falsy
              (λ c. some (value c))
              date
              before
              stop
              (w, t)))
  aggregate_interrupted-Recovered before stop down now k lt up =
      let left =
        aggregate_interrupted quotient zero_float falsy (λ c. some (value c)) date before stop
          (w, t) in
      recovered left.0 left.1 _ (aggregate_interrupted-Left before stop) (
        aggregate_for_date-Aggregated quotient zero_float value falsy date computed_at down now
          left.0 left.1 k lt up)
