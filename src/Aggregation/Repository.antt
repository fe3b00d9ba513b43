-- ===== src/Aggregation/Repository.antt =====
-- `MetricsRepository.upsert_metrics`: dz_5/aggregation-service/app/repository.py, on the table
-- `daily_metrics`. Whether the database fails in an attempt, the clock and `float` are arguments.
use text.Mathlib.Text.{◌==◌ as str_eq}
use making_soa_homework.Base.{
  ℕ, suc, ◌==◌, Bool, ◌&&◌, Option, none, some, List, [], ◌∷◌, String, if◌then◌else◌,
}
use making_soa_homework.Base.Retry.{five_attempts}
use making_soa_homework.Base.Exec.{ok, err, Exec}
use making_soa_homework.Aggregation.Payload.{Metadata, MetricRow}

-- The primary key of `daily_metrics`.
pub record Key : Type 0 where
  pub metric_date : ℕ
  pub metric_name : String
  pub dimension_key : String
  pub dimension_value : String

pub record Metric (F : Type 0) : Type 0 where
  pub key : Key
  pub metric_value : F
  pub computed_at : ℕ
  pub metadata : Metadata

unfoldable pub same_key : Key → Key → Bool
same_key a b =
    (a.metric_date == b.metric_date)
    && str_eq a.metric_name b.metric_name
    && str_eq a.dimension_key b.dimension_key
    && str_eq a.dimension_value b.dimension_value

abbrev or_empty : Option String → String
or_empty none = ""
or_empty (some s) = s

module _ {F : Type 0} where
  -- INSERT … ON CONFLICT DO UPDATE.
  unfoldable pub put : Metric F → List (Metric F) → List (Metric F)
  put m [] = m ∷ []
  put m (q ∷ t) =
      let rest = put m t in
      if same_key m.key q.key
      then record q {
        metric_value = m.metric_value;
        computed_at = m.computed_at;
        metadata = m.metadata;
      }
        ∷ t
      else q ∷ rest

  unfoldable pub put_all : List (Metric F) → List (Metric F) → List (Metric F)
  put_all [] t = t
  put_all (m ∷ ms) t = put_all ms (put m t)

abbrev pub row_key : {C : Type 0} → ℕ → MetricRow C → Key
row_key date row = record {
  metric_date = date;
  metric_name = row.metric_name;
  dimension_key = or_empty row.dimension_key;
  dimension_value = or_empty row.dimension_value;
}

module _ {C F : Type 0} (float : C → Option F) (date : ℕ) where
  abbrev pub entry : ℕ → MetricRow C → F → Metric F
  entry now row value = record {
    key = row_key date row;
    metric_value = value;
    computed_at = now;
    metadata = row.metadata;
  }

  abbrev pub joined :
      Option F → (F → Metric F) → Option (List (Metric F)) → Option (List (Metric F))
  joined (some v) f (some ms) = some (f v ∷ ms)
  joined _ f _ = none

  -- The statements of one attempt, with the clock at each row; `none` where `float` raises.
  unfoldable pub entries : (ℕ → ℕ) → ℕ → List (MetricRow C) → Option (List (Metric F))
  entries now i [] = some []
  entries now i (row ∷ rows) =
      joined (float row.metric_value) (entry (now i) row) (entries now (suc i) rows)

  -- One attempt: the rows are written in one transaction, which a failure rolls back.
  unfoldable pub upsert_once :
      Bool → (ℕ → ℕ) → List (MetricRow C) → Exec (Unit {0}) (List (Metric F)) (Unit {0})
  upsert_once down now rows t =
      if down
      then (err tt, t)
      else elim (entries now 0 rows) [ none ↦ (err tt, t) | some ms ↦ (ok tt, put_all ms t) ]

  -- At most five attempts; an empty payload returns at once.
  unfoldable pub upsert_metrics :
      (ℕ → Bool) → (ℕ → ℕ → ℕ) → List (MetricRow C) → Exec (Unit {0}) (List (Metric F)) (Unit {0})
  upsert_metrics down now [] t = (ok tt, t)
  upsert_metrics down now (row ∷ rows) t =
      five_attempts (λ i. upsert_once (down i) (now i) (row ∷ rows)) t
