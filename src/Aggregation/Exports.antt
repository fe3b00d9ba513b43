-- ===== src/Aggregation/Exports.antt =====
-- What an export of dz_5/aggregation-service/app/exporter.py leaves in the bucket.
use text.Mathlib.Text.{◌==◌ as str_eq}
use text.Mathlib.TextEquality.{eq_iff}
use making_soa_homework.Base.{
  ℕ, ◌<◌, ◌==◌, ◌≡◌, ◌∙◌, refl, ap, Bool, true, Option, none, some, String, List, [], ◌∷◌,
  if◌then◌else◌, arith,
}
use making_soa_homework.Base.Count.{sum_by, sum_by-map, sum_by-order_by, sum_by-select}
use making_soa_homework.Base.Exec.{ok, err}
use making_soa_homework.Base.Retry.{is_ok, five_attempts-ok, five_attempts-is_ok}
use making_soa_homework.Aggregation.Repository.{Key, Metric}
use making_soa_homework.Aggregation.Exporter.{
  ExportRow, row_of, Bucket, put_object, get_object, fetch_metrics_for_export, frame_of, Failure,
  export_key, export_once, export_for_date,
}

get_object-put_object :
    (j k body : String) (bucket : Bucket)
    → get_object j (put_object k body bucket)
      ≡ (if str_eq k j then some body else get_object j bucket)
unfolding get_object put_object
get_object-put_object j k body [] = refl
get_object-put_object j k body ((i, b) ∷ rest) =
    ground (arith, get_object-put_object j k body rest, eq_iff i k, eq_iff i j, eq_iff k j)

module _ {F : Type 0} (before : Key → Key → Bool) (iso : ℕ → String)
    (to_csv : List (ExportRow F) → String) (zero_float : F) where
  -- The rows that are fetched are those of the date, each as often: every sum over them is the sum
  -- over the table.
  sum_by-fetch :
      (w : ExportRow F → ℕ) (date : ℕ) (t : List (Metric F))
      → sum_by w (fetch_metrics_for_export before date t)
        ≡ sum_by (λ m. if m.key.metric_date == date then w (row_of m) else 0) t
  unfolding fetch_metrics_for_export
  sum_by-fetch w date t =
      sum_by-map w row_of _
      ∙ sum_by-order_by (λ m. w (row_of m)) (λ a b. before a.key b.key) _
      ∙ sum_by-select (λ m. w (row_of m)) (λ m. m.key.metric_date == date) t

  pub record Exported (date : ℕ) (table : ℕ → List (Metric F)) (bucket : Bucket) (k : String)
      (bucket' : Bucket) : Type 0 where
    pub attempt : ℕ
    pub in_time : attempt < 5
    pub key : k ≡ export_key before iso to_csv zero_float date
    pub objects :
        (j : String)
        → get_object j bucket' ≡ (
            if str_eq k j
            then some (
                to_csv
                  (frame_of zero_float date (fetch_metrics_for_export before date (table attempt))))
            else get_object j bucket)
    pub complete :
        (w : ExportRow F → ℕ)
        → sum_by w (fetch_metrics_for_export before date (table attempt))
          ≡ sum_by (λ m. if m.key.metric_date == date then w (row_of m) else 0) (table attempt)

  once-ok :
      (date : ℕ) (t : List (Metric F)) (fails : Option Failure) (bucket : Bucket) {k : String}
      {bucket' : Bucket}
      → export_once before iso to_csv zero_float date t fails bucket ≡ (ok k, bucket')
      → (k ≡ export_key before iso to_csv zero_float date)
        × (bucket'
            ≡ put_object k
                (to_csv (frame_of zero_float date (fetch_metrics_for_export before date t)))
                bucket)
  unfolding export_once
  once-ok date t (some failure) bucket h = absurd (ground arith)
  once-ok date t none bucket h = ground arith

  once-err :
      (date : ℕ) (t : List (Metric F)) (fails : Option Failure) (bucket : Bucket) {e : Failure}
      {bucket' : Bucket}
      → export_once before iso to_csv zero_float date t fails bucket ≡ (err e, bucket')
      → bucket' ≡ bucket
  unfolding export_once
  once-err date t (some failure) bucket h = ground arith
  once-err date t none bucket h = absurd (ground arith)

  -- An export that returns has put one object, under the key of the date that it returns: the CSV of
  -- what the table held in one of at most five attempts, with every metric of the date as often as
  -- the table has it, or else the row without data. Every other object is as it was.
  pub export_for_date-ok :
      (date : ℕ) (table : ℕ → List (Metric F)) (fails : ℕ → Option Failure) (bucket : Bucket)
      (k : String) (bucket' : Bucket)
      → export_for_date before iso to_csv zero_float date table fails bucket ≡ (ok k, bucket')
      → Exported date table bucket k bucket'
  unfolding export_for_date
  export_for_date-ok date table fails bucket k bucket' h =
      let run = λ (i : ℕ). export_once before iso to_csv zero_float date (table i) (fails i) in
      let r =
        five_attempts-ok (λ b. b ≡ bucket) run bucket refl
          (λ j b c e same failed. once-err date (table j) (fails j) b failed ∙ same) h in
      let (key, after) = once-ok date (table r.attempt) (fails r.attempt) r.from r.returns in
      record {
        attempt = r.attempt;
        in_time = r.in_time;
        key = key;
        objects =
            λ j. ap (get_object j) after ∙ get_object-put_object j k _ r.from ∙ rw r.kept refl;
        complete = λ w. sum_by-fetch w date (table r.attempt);
      }

  -- If nothing fails in one of the first five attempts, then the export returns.
  pub export_for_date-is_ok :
      (date : ℕ) (table : ℕ → List (Metric F)) (fails : ℕ → Option Failure) (bucket : Bucket)
      (i : ℕ)
      → i < 5
      → fails i ≡ none
      → is_ok (export_for_date before iso to_csv zero_float date table fails bucket).0 ≡ true
  unfolding export_for_date export_once
  export_for_date-is_ok date table fails bucket i lt fine =
      five_attempts-is_ok i (λ j. export_once before iso to_csv zero_float date (table j) (fails j))
        bucket lt (λ b. rw fine refl)
