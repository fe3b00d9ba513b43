-- ===== src/Aggregation/Runs.antt =====
-- When `aggregate_for_date` of dz_5/aggregation-service/app/aggregation.py and `export_for_date` of
-- dz_5/aggregation-service/app/exporter.py return, and with what.
use mathlib.Core.List.{Memᴰ}
use making_soa_homework.Base.{
  ℕ, suc, ◌<◌, ◌≡◌, refl, ap, ◌∙◌, Bool, true, false, Option, none, some, String, List, [], ◌∷◌,
  length,
}
use making_soa_homework.Base.Exec.{Result, ok, err}
use making_soa_homework.Base.Retry.{is_ok}
use making_soa_homework.Aggregation.Queries.{count_raw_rows}
use making_soa_homework.Aggregation.Payload.{MetricRow}
use making_soa_homework.Aggregation.Repository.{
  Key, Metric, row_key, entry, entries, upsert_metrics,
}
use making_soa_homework.Aggregation.Upserts.{lookup, upsert_metrics-ok, upsert_metrics-Upserted}
use making_soa_homework.Aggregation.Service.{
  Warehouse, Cell, AggregationResult, rewrite_reports, aggregate_for_date,
}
use making_soa_homework.Aggregation.DayMetrics.{day_metrics, metrics_of-day}
use making_soa_homework.Aggregation.PayloadKeys.{key_count, day_metrics_once}
use making_soa_homework.Aggregation.Stored.{IsMetric, latest-Mem, latest-absent}
use making_soa_homework.Aggregation.Exporter.{ExportRow, Bucket, Failure, export_for_date}
use making_soa_homework.Aggregation.Exports.{Exported, export_for_date-ok, export_for_date-is_ok}

entries_total :
    {F : Type 0} (value : Cell F → F) (date : ℕ) (now : ℕ → ℕ) (i : ℕ)
    (rows : List (MetricRow (Cell F)))
    → (ms : List (Metric F)) × (entries (λ c. some (value c)) date now i rows ≡ some ms)
unfolding entries
entries_total value date now i [] = ([], refl)
entries_total value date now i (row ∷ rows) =
    let (ms, made) = entries_total value date now (suc i) rows in
    (entry (λ c. some (value c)) date (now i) row (value row.metric_value) ∷ ms, rw made refl)

pair_eq : {A B : Type 0} {a : A} (q : A × B) → q.0 ≡ a → q ≡ (a, q.1)
pair_eq q h = ap (λ x. (x, q.1)) h

-- The result of a run, and the tables after it: in the table of metrics, every metric of the date
-- under its key, and under every other key what was there.
pub record Aggregated {F : Type 0} (quotient : ℕ → ℕ → F) (zero_float : F) (value : Cell F → F)
    (falsy : Cell F → Bool) (date : ℕ) (computed_at : String) (w : Warehouse F)
    (t : List (Metric F))
    (run : Result (Unit {0}) AggregationResult × (Warehouse F × List (Metric F))) : Type 0 where
  pub table : List (Metric F)
  pub returns : run ≡ (
    ok (record {
      metric_date = date;
      processed_rows = count_raw_rows date w.movie_events;
      metrics_written =
          length (day_metrics quotient zero_float falsy date computed_at w.movie_events);
    }),
    (rewrite_reports quotient zero_float date w, table),
  )
  pub stored :
      (row : MetricRow (Cell F))
      → Memᴰ row (day_metrics quotient zero_float falsy date computed_at w.movie_events)
      → (m : Metric F) × (lookup (row_key date row) table ≡ some m)
        × IsMetric (λ c. some (value c)) date row m
  pub kept :
      (k : Key)
      → key_count date k (day_metrics quotient zero_float falsy date computed_at w.movie_events) ≡ 0
      → lookup k table ≡ lookup k t

-- If PostgreSQL works in one of the first five attempts, then the run for a date returns: it reports
-- the numbers of the date's events and metrics, ClickHouse has the reports of the date, and the table
-- of metrics has every metric that the queries give for the date under its key, with its value and
-- metadata. Under a key that is on none of them the table has what it had.
pub aggregate_for_date-Aggregated :
    {F : Type 0} (quotient : ℕ → ℕ → F) (zero_float : F) (value : Cell F → F)
    (falsy : Cell F → Bool) (date : ℕ) (computed_at : String) (down : ℕ → Bool) (now : ℕ → ℕ → ℕ)
    (w : Warehouse F) (t : List (Metric F)) (k : ℕ)
    → k < 5
    → down k ≡ false
    → Aggregated quotient zero_float value falsy date computed_at w t (
        aggregate_for_date quotient zero_float falsy
          (λ c. some (value c))
          date
          computed_at
          down
          now
          (w, t))
unfolding aggregate_for_date
aggregate_for_date-Aggregated quotient zero_float value falsy date computed_at down now w t k lt
      up =
    let float = λ (c : Cell _). some (value c) in
    let rows = day_metrics quotient zero_float falsy date computed_at w.movie_events in
    let (ms, made) = entries_total value date (now k) 0 rows in
    let done = upsert_metrics-ok float date down now rows ms t k lt up made in
    let table = (upsert_metrics float date down now rows t).1 in
    let run = pair_eq (upsert_metrics float date down now rows t) done in
    let u = upsert_metrics-Upserted float date down now rows t table run in
    record {
      table = table;
      returns = rw (metrics_of-day quotient zero_float falsy date computed_at w) (rw done refl);
      stored = λ row there.
          let (m, last, good) =
            latest-Mem float date row (now u.attempt) 0 rows u.statements
              (lookup (row_key date row) t) there
              (day_metrics_once quotient zero_float falsy date computed_at w.movie_events
                (row_key date row))
              u.made in
          (m, u.found (row_key date row) ∙ last, good);
      kept = λ key absent.
          u.found key
          ∙ latest-absent float date key (now u.attempt) 0 rows u.statements (lookup key t) absent
              u.made;
    }

returned :
    {E S A : Type 0} (r : Result E A × S) → is_ok r.0 ≡ true → (a : A) × (s : S) × (r ≡ (ok a, s))
returned (ok a, s) h = (a, s, refl)
returned (err e, s) h = cc

-- If nothing fails in one of the first five attempts, then an export returns. It has put one object,
-- under the key of the date that it returns: the CSV of what the table held in one of at most five
-- attempts, with every metric of the date as often as the table has it, or else the row without data.
-- Every other object is as it was.
pub export_for_date-Exported :
    {F : Type 0} (before : Key → Key → Bool) (iso : ℕ → String)
    (to_csv : List (ExportRow F) → String) (zero_float : F) (date : ℕ) (table : ℕ → List (Metric F))
    (fails : ℕ → Option Failure) (bucket : Bucket) (i : ℕ)
    → i < 5
    → fails i ≡ none
    → (k : String) × (bucket' : Bucket) × (export_for_date before iso to_csv zero_float date table
          fails bucket
        ≡ (ok k, bucket'))
      × Exported before iso to_csv zero_float date table bucket k bucket'
export_for_date-Exported before iso to_csv zero_float date table fails bucket i lt fine =
    let (k, bucket', run) =
      returned (export_for_date before iso to_csv zero_float date table fails bucket)
        (export_for_date-is_ok before iso to_csv zero_float date table fails bucket i lt fine) in
    (
      k,
      bucket',
      run,
      export_for_date-ok before iso to_csv zero_float date table fails bucket k bucket' run,
    )
