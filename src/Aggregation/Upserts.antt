-- ===== src/Aggregation/Upserts.antt =====
-- What the upserts of dz_5/aggregation-service/app/repository.py leave in the table.
use text.Mathlib.TextEquality.{eq_iff}
use making_soa_homework.Base.{
  ℕ, ◌<◌, ◌≡◌, refl, sym, ◌∙◌, ap, subst, Bool, true, false, Option, none, some, List, [], ◌∷◌,
  arith, if◌then◌else◌, inl, inr, Bool-cases, Option-cases,
}
use making_soa_homework.Base.Retry.{is_ok, five_attempts-ok, five_attempts-is_ok}
use making_soa_homework.Base.Exec.{Result, ok, err}
use making_soa_homework.Aggregation.Payload.{MetricRow}
use making_soa_homework.Aggregation.Repository.{
  Key, Metric, same_key, put, put_all, entries, upsert_once, upsert_metrics,
}

same_key-eq : (a b : Key) → same_key a b ≡ true → a ≡ b
unfolding same_key
same_key-eq a b h = ground (
  arith,
  eq_iff a.metric_name b.metric_name,
  eq_iff a.dimension_key b.dimension_key,
  eq_iff a.dimension_value b.dimension_value,
)

module _ {F : Type 0} where
  unfoldable pub lookup : Key → List (Metric F) → Option (Metric F)
  lookup k [] = none
  lookup k (q ∷ t) = let rest = lookup k t in if same_key k q.key then some q else rest

  -- The last of the rows with the key, or else what was there.
  unfoldable pub latest : Key → List (Metric F) → Option (Metric F) → Option (Metric F)
  latest k [] old = old
  latest k (m ∷ ms) old = latest k ms (if same_key k m.key then some m else old)

  lookup-put :
      (k : Key) (m : Metric F) (t : List (Metric F))
      → lookup k (put m t) ≡ (if same_key k m.key then some m else lookup k t)
  unfolding lookup put
  lookup-put k m [] = refl
  lookup-put k m (q ∷ t) = elim (Bool-cases (same_key m.key q.key)) [
    | inl e ↦
        let same = same_key-eq m.key q.key e in
        let back : record m { key = q.key } ≡ m = ap (λ l. record m { key = l }) (sym same) in
        elim (Bool-cases (same_key k m.key)) [
          | inl f ↦ let g = subst (λ l. same_key k l ≡ true) same f in rw (e, f, g) (ap some back)
          | inr f ↦ let g = subst (λ l. same_key k l ≡ false) same f in rw (e, f, g) refl
        ]
    | inr e ↦ elim (Bool-cases (same_key k m.key)) [
      | inl f ↦
          let g = subst (λ l. same_key l q.key ≡ false) (sym (same_key-eq k m.key f)) e in
          rw (e, f, g) (lookup-put k m t ∙ rw f refl)
      | inr f ↦
          rw (e, f)
            (ap (λ o. if same_key k q.key then some q else o) (lookup-put k m t ∙ rw f refl))
    ]
  ]

  pub lookup-put_all :
      (k : Key) (ms t : List (Metric F)) → lookup k (put_all ms t) ≡ latest k ms (lookup k t)
  unfolding put_all latest
  lookup-put_all k [] t = refl
  lookup-put_all k (m ∷ ms) t = lookup-put_all k ms (put m t) ∙ ap (latest k ms) (lookup-put k m t)

module _ {C F : Type 0} (float : C → Option F) (date : ℕ) where
  -- What an upsert did: the statements of one of its attempts.
  pub record Upserted (now : ℕ → ℕ → ℕ) (rows : List (MetricRow C)) (t t' : List (Metric F))
      (bound : ℕ) : Type 0 where
    pub attempt : ℕ
    pub statements : List (Metric F)
    pub in_time : attempt < bound
    pub made : entries float date (now attempt) 0 rows ≡ some statements
    pub found : (k : Key) → lookup k t' ≡ latest k statements (lookup k t)

  upsert_once-ok :
      (down : Bool) (now : ℕ → ℕ) (rows : List (MetricRow C)) (t : List (Metric F))
      {t' : List (Metric F)}
      → upsert_once float date down now rows t ≡ (ok tt, t')
      → (ms : List (Metric F)) × (entries float date now 0 rows ≡ some ms) × (t' ≡ put_all ms t)
  unfolding upsert_once
  upsert_once-ok down now rows t h = elim (Option-cases (entries float date now 0 rows)) [
    | inl none_made ↦ ground arith
    | inr (ms, e) ↦ (ms, e, ground arith)
  ]

  upsert_once-err :
      (down : Bool) (now : ℕ → ℕ) (rows : List (MetricRow C)) (t : List (Metric F))
      {t' : List (Metric F)}
      → upsert_once float date down now rows t ≡ (err tt, t')
      → t' ≡ t
  unfolding upsert_once
  upsert_once-err down now rows t h = ground arith

  -- If the upsert returns, then the table holds under every key the last row of the payload with
  -- that key, as one of at most five attempts made it, or else what it held before.
  pub upsert_metrics-Upserted :
      (down : ℕ → Bool) (now : ℕ → ℕ → ℕ) (rows : List (MetricRow C)) (t t' : List (Metric F))
      → upsert_metrics float date down now rows t ≡ (ok tt, t')
      → Upserted now rows t t' 5
  unfolding upsert_metrics entries latest
  upsert_metrics-Upserted down now [] t t' h = record {
    attempt = 0;
    statements = [];
    in_time = omega arith;
    made = refl;
    found = λ k. ap (lookup k) (ap (λ p. p.1) (sym h));
  }
  upsert_metrics-Upserted down now (row ∷ rows) t t' h =
      let run = λ (i : ℕ). upsert_once float date (down i) (now i) (row ∷ rows) in
      let r =
        five_attempts-ok (λ u. u ≡ t) run t refl
          (λ j u v e same failed. upsert_once-err (down j) (now j) (row ∷ rows) u failed ∙ same)
          h in
      let (ms, made, e) =
        upsert_once-ok (down r.attempt) (now r.attempt) (row ∷ rows) r.from r.returns in
      record {
        attempt = r.attempt;
        statements = ms;
        in_time = r.in_time;
        made = made;
        found = λ k.
            ap (lookup k) e
            ∙ lookup-put_all k ms r.from
            ∙ ap (λ u. latest k ms (lookup k u)) r.kept;
      }

  upsert_once-runs :
      (down : Bool) (now : ℕ → ℕ) (rows : List (MetricRow C)) (ms t : List (Metric F))
      → down ≡ false
      → entries float date now 0 rows ≡ some ms
      → (upsert_once float date down now rows t).0 ≡ ok tt
  unfolding upsert_once
  upsert_once-runs down now rows ms t up made = rw (up, made) refl

  answered : (r : Result (Unit {0}) (Unit {0})) → is_ok r ≡ true → r ≡ ok tt
  answered (ok tt) h = refl
  answered (err tt) h = cc

  -- If the database works in one of the first five attempts, and `float` takes every value of the
  -- payload, then the upsert returns.
  pub upsert_metrics-ok :
      (down : ℕ → Bool) (now : ℕ → ℕ → ℕ) (rows : List (MetricRow C)) (ms t : List (Metric F))
      (k : ℕ)
      → k < 5
      → down k ≡ false
      → entries float date (now k) 0 rows ≡ some ms
      → (upsert_metrics float date down now rows t).0 ≡ ok tt
  unfolding upsert_metrics
  upsert_metrics-ok down now [] ms t k lt up made = refl
  upsert_metrics-ok down now (row ∷ rows) ms t k lt up made = answered _ (
      five_attempts-is_ok k (λ i. upsert_once float date (down i) (now i) (row ∷ rows)) t lt
        (λ u. ap is_ok (upsert_once-runs (down k) (now k) (row ∷ rows) ms u up made)))
