-- ===== src/Aggregation/Stored.antt =====
-- What a run of `aggregate_for_date` of dz_5/aggregation-service/app/aggregation.py leaves in the
-- table of metrics, key by key.
use text.Mathlib.TextPositions.{eq_refl}
use text.Mathlib.TextEquality.{eq_iff}
use mathlib.Core.List.{Memᴰ}
use mathlib.Core.List.Memᴰ.{head, tail}
use making_soa_homework.Base.{
  ℕ, suc, ◌≤◌, ◌≡◌, ◌∙◌, refl, sym, ap, subst, true, false, Option, some, List, [], ◌∷◌, arith,
  if◌then◌else◌, Option-cases, inl, inr,
}
use making_soa_homework.Base.Count.{sum_by}
use making_soa_homework.Aggregation.Payload.{MetricRow}
use making_soa_homework.Aggregation.Repository.{Key, Metric, row_key, entry, same_key, entries}
use making_soa_homework.Aggregation.Upserts.{latest}
use making_soa_homework.Aggregation.PayloadKeys.{key_count}

same_key_refl : (k : Key) → same_key k k ≡ true
unfolding same_key
same_key_refl k =
    ground (arith, eq_refl k.metric_name, eq_refl k.dimension_key, eq_refl k.dimension_value)

same_key_comm : (k l : Key) → same_key k l ≡ same_key l k
unfolding same_key
same_key_comm k l = ground (
  arith,
  eq_iff k.metric_name l.metric_name,
  eq_iff l.metric_name k.metric_name,
  eq_iff k.dimension_key l.dimension_key,
  eq_iff l.dimension_key k.dimension_key,
  eq_iff k.dimension_value l.dimension_value,
  eq_iff l.dimension_value k.dimension_value,
)

module _ {C F : Type 0} (float : C → Option F) (date : ℕ) where
  entries-cons :
      (now : ℕ → ℕ) (i : ℕ) (row : MetricRow C) (rows : List (MetricRow C)) (ms : List (Metric F))
      → entries float date now i (row ∷ rows) ≡ some ms
      → (v : F) × (rest : List (Metric F)) × (ms ≡ entry float date (now i) row v ∷ rest)
        × (float row.metric_value ≡ some v)
        × (entries float date now (suc i) rows ≡ some rest)
  unfolding entries
  entries-cons now i row rows ms made = elim (Option-cases (float row.metric_value)) [
    | inl e ↦ absurd (ground arith)
    | inr (v, e) ↦ elim (Option-cases (entries float date now (suc i) rows)) [
      | inl f ↦ absurd (ground arith)
      | inr (rest, f) ↦ (v, rest, ground arith, e, f)
    ]
  ]

  latest-cons :
      (k : Key) (m : Metric F) (ms : List (Metric F)) (old : Option (Metric F))
      → latest k (m ∷ ms) old ≡ latest k ms (if same_key k m.key then some m else old)
  unfolding latest
  latest-cons k m ms old = refl

  count-cons :
      (k : Key) (row : MetricRow C) (rows : List (MetricRow C))
      → key_count date k (row ∷ rows) ≡ (
          if same_key k (row_key date row)
          then suc (key_count date k rows)
          else key_count date k rows)
  unfolding sum_by
  count-cons k row rows = ground (arith, same_key_comm k (row_key date row))

  -- The statements of rows without the key leave its metric alone.
  pub latest-absent :
      (k : Key) (now : ℕ → ℕ) (i : ℕ) (rows : List (MetricRow C)) (ms : List (Metric F))
      (old : Option (Metric F))
      → key_count date k rows ≡ 0
      → entries float date now i rows ≡ some ms
      → latest k ms old ≡ old
  unfolding entries latest
  latest-absent k now i [] ms old absent made = let e : ms ≡ [] = cc in rw e refl
  latest-absent k now i (row ∷ rows) ms old absent made =
      let (v, rest, e, value, others) = entries-cons now i row rows ms made in
      let count = count-cons k row rows in
      let skip : same_key k (row_key date row) ≡ false = ground arith in
      rw e (
        latest-cons k (entry float date (now i) row v) rest old
        ∙ rw skip (latest-absent k now (suc i) rows rest old (ground arith) others))

  count-Mem :
      (row : MetricRow C) (rows : List (MetricRow C))
      → Memᴰ row rows
      → 1 ≤ key_count date (row_key date row) rows
  count-Mem row [] there = elim there [ ]
  count-Mem row (other ∷ rows) (head e) =
      let same = ap (λ r. same_key (row_key date row) (row_key date r)) (sym e) in
      ground
        (arith, count-cons (row_key date row) other rows, same, same_key_refl (row_key date row))
  count-Mem row (other ∷ rows) (tail there) =
      ground (arith, count-cons (row_key date row) other rows, count-Mem row rows there)

  -- The metric of a row.
  pub record IsMetric (row : MetricRow C) (m : Metric F) : Type 0 where
    pub key : m.key ≡ row_key date row
    pub value : float row.metric_value ≡ some m.metric_value
    pub metadata : m.metadata ≡ row.metadata

  latest-head :
      (now : ℕ → ℕ) (i : ℕ) (row : MetricRow C) (rows : List (MetricRow C)) (ms : List (Metric F))
      (old : Option (Metric F))
      → key_count date (row_key date row) rows ≡ 0
      → entries float date now i (row ∷ rows) ≡ some ms
      → (m : Metric F) × (latest (row_key date row) ms old ≡ some m) × IsMetric row m
  latest-head now i row rows ms old absent made =
      let (v, rest, e, value, others) = entries-cons now i row rows ms made in
      let m = entry float date (now i) row v in
      (
        m,
        rw e (
            latest-cons (row_key date row) m rest old
            ∙ rw (same_key_refl (row_key date row))
                (latest-absent (row_key date row) now (suc i) rows rest (some m) absent others)),
        record { key = refl; value = value; metadata = refl },
      )

  -- The statements of rows with different keys end with the metric of every row.
  pub latest-Mem :
      (row : MetricRow C) (now : ℕ → ℕ) (i : ℕ) (rows : List (MetricRow C)) (ms : List (Metric F))
      (old : Option (Metric F))
      → Memᴰ row rows
      → key_count date (row_key date row) rows ≤ 1
      → entries float date now i rows ≡ some ms
      → (m : Metric F) × (latest (row_key date row) ms old ≡ some m) × IsMetric row m
  latest-Mem row now i [] ms old there once made = elim there [ ]
  latest-Mem row now i (other ∷ rows) ms old (head e) once made =
      let count = count-cons (row_key date row) row rows in
      let hit = same_key_refl (row_key date row) in
      let here =
        subst (λ (r : MetricRow C). key_count date (row_key date row) (r ∷ rows) ≤ 1) (sym e)
          once in
      latest-head now i row rows ms old (ground arith)
        (subst (λ (r : MetricRow C). entries float date now i (r ∷ rows) ≡ some ms) (sym e) made)
  latest-Mem row now i (other ∷ rows) ms old (tail there) once made =
      let (v, rest, e, value, others) = entries-cons now i other rows ms made in
      let m = entry float date (now i) other v in
      let count = count-cons (row_key date row) other rows in
      let below = count-Mem row rows there in
      let skip : same_key (row_key date row) (row_key date other) ≡ false = ground arith in
      let (n, last, good) = latest-Mem row now (suc i) rows rest old there (ground arith) others in
      (n, rw e (latest-cons (row_key date row) m rest old ∙ rw skip last), good)
