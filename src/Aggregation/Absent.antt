-- ===== src/Aggregation/Absent.antt =====
-- Keys that are on no row of a payload: dz_5/aggregation-service/app/aggregation.py and repository.py.
use making_soa_homework.Base.{
  ℕ, ◌≡◌, refl, ◌∙◌, Bool, Option, none, some, String, List, [], ◌∷◌, ◌++◌, map, arith,
  if◌then◌else◌, inl, inr, Option-cases,
}
use making_soa_homework.Base.Count.{sum_by, sum_by-append}
use making_soa_homework.Base.Retry.{five_attempts-keeps}
use making_soa_homework.Aggregation.Payload.{
  MetricRow, Reports, dau_rows, watch_rows, conversion_rows, retention_rows, movie_row, device_row,
  build_metric_payload,
}
use making_soa_homework.Aggregation.Repository.{
  Key, Metric, row_key, same_key, entries, upsert_once, upsert_metrics,
}
use making_soa_homework.Aggregation.Upserts.{lookup, lookup-put_all}
use making_soa_homework.Aggregation.PayloadKeys.{key_count}
use making_soa_homework.Aggregation.Stored.{latest-absent}

module _ {C : Type 0} (date : ℕ) (k : Key) (c c' : String) where
  movies_dated :
      (l : List (String × C × ℕ))
      → key_count date k (map (movie_row c) l) ≡ key_count date k (map (movie_row c') l)
  unfolding sum_by
  movies_dated [] = refl
  movies_dated (r ∷ l) = ground (arith, movies_dated l)

  devices_dated :
      (l : List (String × C))
      → key_count date k (map (device_row c) l) ≡ key_count date k (map (device_row c') l)
  unfolding sum_by
  devices_dated [] = refl
  devices_dated (r ∷ l) = ground (arith, devices_dated l)

  dau_dated : (o : Option C) → key_count date k (dau_rows c o) ≡ key_count date k (dau_rows c' o)
  unfolding sum_by
  dau_dated none = refl
  dau_dated (some v) = refl

  watch_dated :
      (falsy : C → Bool) (z : C) (o : Option C)
      → key_count date k (watch_rows falsy z c o) ≡ key_count date k (watch_rows falsy z c' o)
  unfolding sum_by
  watch_dated falsy z none = refl
  watch_dated falsy z (some v) = refl

  conversion_dated :
      (o : Option (C × C × C))
      → key_count date k (conversion_rows c o) ≡ key_count date k (conversion_rows c' o)
  unfolding sum_by
  conversion_dated none = refl
  conversion_dated (some (started, finished, rate)) = refl

  retention_dated :
      (o : Option (C × C))
      → key_count date k (retention_rows c o) ≡ key_count date k (retention_rows c' o)
  unfolding sum_by
  retention_dated none = refl
  retention_dated (some (d1, d7)) = refl

  both :
      (l l' m m' : List (MetricRow C))
      → key_count date k l ≡ key_count date k l'
      → key_count date k m ≡ key_count date k m'
      → key_count date k (l ++ m) ≡ key_count date k (l' ++ m')
  both l l' m m' p q =
      let w : MetricRow C → ℕ = λ row. if same_key (row_key date row) k then 1 else 0 in
      omega (arith, p, q, sum_by-append w l m, sum_by-append w l' m')

  -- The keys of a payload do not tell when it was computed.
  pub payload_dated :
      (falsy : C → Bool) (z : C) (r : Reports C)
      → key_count date k (build_metric_payload falsy z c r)
        ≡ key_count date k (build_metric_payload falsy z c' r)
  unfolding build_metric_payload
  payload_dated falsy z r =
      both _ _ _ _
        (both _ _ _ _
          (both _ _ _ _
            (both _ _ _ _ (both _ _ _ _ (dau_dated r.dau) (watch_dated falsy z r.avg_watch))
              (conversion_dated r.conversion))
            (retention_dated r.retention))
          (movies_dated r.top_movies))
        (devices_dated r.devices)

module _ {C F : Type 0} (float : C → Option F) (date : ℕ) (k : Key) where
  upsert_once-absent :
      (down : Bool) (now : ℕ → ℕ) (rows : List (MetricRow C)) (t : List (Metric F))
      → key_count date k rows ≡ 0
      → lookup k (upsert_once float date down now rows t).1 ≡ lookup k t
  unfolding upsert_once
  upsert_once-absent down now rows t absent = elim (Option-cases (entries float date now 0 rows)) [
    | inl fails ↦ ground arith
    | inr (ms, made) ↦ ground (
      arith,
      lookup-put_all k ms t,
      latest-absent float date k now 0 rows ms (lookup k t) absent made,
    )
  ]

  -- Whatever becomes of an upsert, a key that is on none of its rows keeps what it had.
  pub upsert_metrics-absent :
      (down : ℕ → Bool) (now : ℕ → ℕ → ℕ) (rows : List (MetricRow C)) (t : List (Metric F))
      → key_count date k rows ≡ 0
      → lookup k (upsert_metrics float date down now rows t).1 ≡ lookup k t
  unfolding upsert_metrics
  upsert_metrics-absent down now [] t absent = refl
  upsert_metrics-absent down now (row ∷ rows) t absent =
      five_attempts-keeps (λ u. lookup k u ≡ lookup k t)
        (λ i. upsert_once float date (down i) (now i) (row ∷ rows))
        (λ j u same. upsert_once-absent (down j) (now j) (row ∷ rows) u absent ∙ same) t refl
