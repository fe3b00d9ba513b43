-- ===== src/Aggregation/Exporter.antt =====
-- The export of a day: `fetch_metrics_for_export` of dz_5/aggregation-service/app/repository.py, and
-- `ExportService` of dz_5/aggregation-service/app/exporter.py. The collation of the database
-- (`before`), the text of a date (`iso`) and pandas' CSV (`to_csv`) are arguments, and so is whether
-- the database and the store fail in an attempt.
use text.Mathlib.Text.{◌==◌ as str_eq}
use Prim.Native.String.{◌++◌ as ◌<>◌}
use making_soa_homework.Base.{
  ℕ, ◌==◌, Bool, Option, none, some, String, List, [], ◌∷◌, map, select, order_by, if◌then◌else◌,
}
use making_soa_homework.Base.Exec.{ok, err, Exec}
use making_soa_homework.Base.Retry.{five_attempts}
use making_soa_homework.Aggregation.Payload.{Metadata}
use making_soa_homework.Aggregation.Repository.{Key, Metric}

-- A row of the data frame; `none` is NULL, and for the metadata the empty dictionary.
pub record ExportRow (F : Type 0) : Type 0 where
  pub metric_date : ℕ
  pub metric_name : String
  pub dimension_key : String
  pub dimension_value : String
  pub metric_value : F
  pub computed_at : Option ℕ
  pub metadata : Option Metadata

abbrev pub row_of : {F : Type 0} → Metric F → ExportRow F
row_of m = record {
  metric_date = m.key.metric_date;
  metric_name = m.key.metric_name;
  dimension_key = m.key.dimension_key;
  dimension_value = m.key.dimension_value;
  metric_value = m.metric_value;
  computed_at = some m.computed_at;
  metadata = some m.metadata;
}

-- The bucket: the objects under their keys.
abbrev pub Bucket : Type 0
Bucket = List (String × String)

unfoldable pub put_object : String → String → Bucket → Bucket
put_object k body [] = (k, body) ∷ []
put_object k body ((j, b) ∷ rest) =
    let others = put_object k body rest in if str_eq j k then (k, body) ∷ rest else (j, b) ∷ others

unfoldable pub get_object : String → Bucket → Option String
get_object k [] = none
get_object k ((j, b) ∷ rest) = let found = get_object k rest in if str_eq j k then some b else found

module _ {F : Type 0} (before : Key → Key → Bool) where
  -- `SELECT … WHERE metric_date = … ORDER BY metric_name, dimension_key, dimension_value`
  unfoldable pub fetch_metrics_for_export : ℕ → List (Metric F) → List (ExportRow F)
  fetch_metrics_for_export date t =
      map row_of (order_by (λ a b. before a.key b.key) (select (λ m. m.key.metric_date == date) t))

-- The row of a day without metrics.
abbrev pub no_data : {F : Type 0} → F → ℕ → ExportRow F
no_data zero_float date = record {
  metric_date = date;
  metric_name = "NO_DATA";
  dimension_key = "";
  dimension_value = "";
  metric_value = zero_float;
  computed_at = none;
  metadata = none;
}

-- `if frame.empty: …`
unfoldable pub frame_of : {F : Type 0} → F → ℕ → List (ExportRow F) → List (ExportRow F)
frame_of zero_float date [] = no_data zero_float date ∷ []
frame_of zero_float date (row ∷ rows) = row ∷ rows

-- An attempt in which a service fails.
pub data Failure : Type 0 where
  database_failed storage_failed : Failure

module _ {F : Type 0} (before : Key → Key → Bool) (iso : ℕ → String)
    (to_csv : List (ExportRow F) → String) (zero_float : F) where
  abbrev pub export_key : ℕ → String
  export_key date = "daily/" <> iso date <> "/aggregates.csv"

  -- One attempt: what the database holds in it, and what fails in it.
  unfoldable pub export_once : ℕ → List (Metric F) → Option Failure → Exec Failure Bucket String
  export_once date t (some failure) bucket = (err failure, bucket)
  export_once date t none bucket = (
    ok (export_key date),
    put_object (export_key date)
        (to_csv (frame_of zero_float date (fetch_metrics_for_export before date t))) bucket,
  )

  unfoldable pub export_for_date :
      ℕ → (ℕ → List (Metric F)) → (ℕ → Option Failure) → Exec Failure Bucket String
  export_for_date date table fails = five_attempts (λ i. export_once date (table i) (fails i))
