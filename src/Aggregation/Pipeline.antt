-- ===== src/Aggregation/Pipeline.antt =====
-- The two jobs of a day, one after the other: `aggregate_for_date` of
-- dz_5/aggregation-service/app/aggregation.py, and `export_for_date` of
-- dz_5/aggregation-service/app/exporter.py on the table that it leaves.
use text.Mathlib.Text.{◌==◌ as str_eq}
use text.Mathlib.TextPositions.{eq_refl}
use mathlib.Core.List.{Memᴰ}
use mathlib.Core.List.Memᴰ.{head, tail}
use making_soa_homework.Base.{
  ℕ, ◌<◌, ◌==◌, ◌≡◌, ◌∙◌, refl, sym, ap, Bool, false, Option, none, some, String, List, [], ◌∷◌,
  some_inj, Bool-cases, inl, inr, arith,
}
use making_soa_homework.Base.Members.{Mem-select, Mem-order_by, Mem-map}
use making_soa_homework.Base.Exec.{Result, ok}
use making_soa_homework.Aggregation.Payload.{MetricRow, metric, build_metric_payload}
use making_soa_homework.Aggregation.Repository.{Key, Metric, row_key, same_key}
use making_soa_homework.Aggregation.Upserts.{lookup}
use making_soa_homework.Aggregation.Service.{Warehouse, Cell, whole, aggregate_for_date}
use making_soa_homework.Aggregation.Queries.{daily_dau}
use making_soa_homework.Aggregation.DayMetrics.{day_metrics}
use making_soa_homework.Aggregation.Stored.{IsMetric}
use making_soa_homework.Aggregation.Exporter.{
  ExportRow, row_of, Bucket, get_object, Failure, fetch_metrics_for_export, frame_of, export_key,
  export_for_date,
}
use making_soa_homework.Aggregation.Runs.{aggregate_for_date-Aggregated, export_for_date-Exported}

lookup-Mem :
    {F : Type 0} (k : Key) (t : List (Metric F)) {m : Metric F} → lookup k t ≡ some m → Memᴰ m t
unfolding lookup
lookup-Mem k [] h = absurd (ground arith)
lookup-Mem k (q ∷ t) h = elim (Bool-cases (same_key k q.key)) [
  | inl e ↦ head (ground arith)
  | inr e ↦ tail (lookup-Mem k t (ground arith))
]

frame_of-Mem :
    {F : Type 0} (zero_float : F) (date : ℕ) (rows : List (ExportRow F)) {r : ExportRow F}
    → Memᴰ r rows
    → frame_of zero_float date rows ≡ rows
unfolding frame_of
frame_of-Mem zero_float date [] there = elim there [ ]
frame_of-Mem zero_float date (row ∷ rows) there = refl

fetch-Mem :
    {F : Type 0} (before : Key → Key → Bool) (date : ℕ) (t : List (Metric F)) (k : Key)
    {m : Metric F}
    → lookup k t ≡ some m
    → m.key.metric_date ≡ date
    → Memᴰ (row_of m) (fetch_metrics_for_export before date t)
unfolding fetch_metrics_for_export
fetch-Mem before date t k {m} found on_date = Mem-map row_of _ (
    Mem-order_by (λ a b. before a.key b.key) _
      (Mem-select (λ q. q.key.metric_date == date) t (lookup-Mem k t found) (ground arith)))

-- A metric of the payload, as a row of the export.
pub record IsExported {F : Type 0} (value : Cell F → F) (date : ℕ) (row : MetricRow (Cell F))
    (r : ExportRow F) : Type 0 where
  pub metric_date : r.metric_date ≡ date
  pub metric_name : r.metric_name ≡ row.metric_name
  pub dimension_key : r.dimension_key ≡ (row_key date row).dimension_key
  pub dimension_value : r.dimension_value ≡ (row_key date row).dimension_value
  pub metric_value : r.metric_value ≡ value row.metric_value
  pub metadata : r.metadata ≡ some row.metadata

exported_row :
    {F : Type 0} (before : Key → Key → Bool) (value : Cell F → F) (date : ℕ) (t : List (Metric F))
    (row : MetricRow (Cell F)) (m : Metric F)
    → lookup (row_key date row) t ≡ some m
    → IsMetric (λ c. some (value c)) date row m
    → (r : ExportRow F) × Memᴰ r (fetch_metrics_for_export before date t)
      × IsExported value date row r
exported_row before value date t row m found good = (
  row_of m,
  fetch-Mem before date t (row_key date row) found (ap (λ k. k.metric_date) good.key),
  record {
    metric_date = ap (λ k. k.metric_date) good.key;
    metric_name = ap (λ k. k.metric_name) good.key;
    dimension_key = ap (λ k. k.dimension_key) good.key;
    dimension_value = ap (λ k. k.dimension_value) good.key;
    metric_value = sym (some_inj good.value);
    metadata = ap some good.metadata;
  },
)

module _ {F : Type 0} (quotient : ℕ → ℕ → F) (zero_float : F) (value : Cell F → F)
    (falsy : Cell F → Bool) (before : Key → Key → Bool) (iso : ℕ → String)
    (to_csv : List (ExportRow F) → String) where
  -- What the two jobs leave in the bucket: under the key of the date the CSV of rows, which have every
  -- metric of the date.
  pub record Delivered (date : ℕ) (computed_at : String) (w : Warehouse F) (bucket : Bucket)
      (run : Result Failure String × Bucket) : Type 0 where
    pub key : run.0 ≡ ok (export_key before iso to_csv zero_float date)
    pub rows : List (ExportRow F)
    pub object :
        get_object (export_key before iso to_csv zero_float date) run.1 ≡ some (to_csv rows)
    pub metrics :
        (row : MetricRow (Cell F))
        → Memᴰ row (day_metrics quotient zero_float falsy date computed_at w.movie_events)
        → (r : ExportRow F) × Memᴰ r rows × IsExported value date row r
    pub others :
        (j : String)
        → str_eq (export_key before iso to_csv zero_float date) j ≡ false
        → get_object j run.1 ≡ get_object j bucket

  first_metric :
      (date : ℕ) (computed_at : String) (w : Warehouse F)
      → (row : MetricRow (Cell F)) × Memᴰ row
          (day_metrics quotient zero_float falsy date computed_at w.movie_events)
  unfolding build_metric_payload
  first_metric date computed_at w =
      (metric computed_at "DAU" (whole (daily_dau date w.movie_events)), head refl)

  -- If PostgreSQL works in one of the first five attempts of the aggregation of a date, and nothing
  -- fails in one of the first five attempts of the export of the date that comes next, then the export
  -- returns the key of the date, and under it the bucket has the CSV of rows with every metric that
  -- the queries give for the date: its name, its dimension, its value and its metadata. Every other
  -- object is as it was.
  pub daily_jobs-Delivered :
      (date : ℕ) (computed_at : String) (down : ℕ → Bool) (now : ℕ → ℕ → ℕ) (w : Warehouse F)
      (t : List (Metric F)) (fails : ℕ → Option Failure) (bucket : Bucket) (k i : ℕ)
      → k < 5
      → down k ≡ false
      → i < 5
      → fails i ≡ none
      → let run =
          aggregate_for_date quotient zero_float falsy
            (λ c. some (value c))
            date
            computed_at
            down
            now
            (w, t) in
        Delivered date computed_at w bucket
          (export_for_date before iso to_csv zero_float date (λ j. run.1.1) fails bucket)
  daily_jobs-Delivered date computed_at down now w t fails bucket k i k_lt up i_lt fine =
      let run =
        aggregate_for_date quotient zero_float falsy (λ c. some (value c)) date computed_at down now
          (w, t) in
      let a =
        aggregate_for_date-Aggregated quotient zero_float value falsy date computed_at down now w t
          k k_lt up in
      let (key, bucket', done, e) =
        export_for_date-Exported before iso to_csv zero_float date (λ j. run.1.1) fails bucket i
          i_lt fine in
      let same : run.1.1 ≡ a.table = ap (λ r. r.1.1) a.returns in
      let rows = fetch_metrics_for_export before date run.1.1 in
      let find_row : (row : MetricRow (Cell F))
          → Memᴰ row (day_metrics quotient zero_float falsy date computed_at w.movie_events)
          → (r : ExportRow F) × Memᴰ r rows × IsExported value date row r =
        λ row there.
          let (m, found, good) = a.stored row there in
          exported_row before value date run.1.1 row m (ap (lookup (row_key date row)) same ∙ found)
            good in
      let (row, there) = first_metric date computed_at w in
      let (first_row, there_too, good) = find_row row there in
      record {
        key = ap (λ r. r.0) done ∙ ap ok e.key;
        rows = rows;
        object =
            ap (λ r. get_object (export_key before iso to_csv zero_float date) r.1) done
            ∙ e.objects (export_key before iso to_csv zero_float date)
            ∙ rw (e.key, eq_refl (export_key before iso to_csv zero_float date))
                (ap (λ l. some (to_csv l)) (frame_of-Mem zero_float date rows there_too));
        metrics = find_row;
        others = λ j other. ap (λ r. get_object j r.1) done ∙ e.objects j ∙ rw (e.key, other) refl;
      }
