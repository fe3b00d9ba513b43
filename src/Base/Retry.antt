-- ===== src/Base/Retry.antt =====
-- tenacity's `@retry(reraise=True, stop=stop_after_attempt(…), retry=retry_if_exception_type(Exception))`.
use making_soa_homework.Base.Exec.{Result, ok, err, Exec}
use Prim.Native.Nat.{ℕ, zero, suc, ◌+◌, ◌≤◌, ◌<◌}
use mathlib.Core.Path.{◌≡◌, refl, subst}
use mathlib.Core.Logic.{◌⊎◌, inl, inr}
use mathlib.Core.Bool.{Bool, true, false}
use native.Mathlib.Omega.{arith}

abbrev pub is_ok : {E A : Type 0} → Result E A → Bool
is_ok (ok a) = true
is_ok (err e) = false

module _ {E S A : Type 0} where
  -- Another attempt, where the last one raised.
  abbrev pub retried : Result E A × S → Exec E S A → Result E A × S
  retried (ok a, s) more = (ok a, s)
  retried (err e, s) more = more s

  -- The attempt `i`, and up to `n` more; the exception of the last one is raised again.
  unfoldable pub attempts : ℕ → ℕ → (ℕ → Exec E S A) → Exec E S A
  attempts zero i run s = run i s
  attempts (suc n) i run s = retried (run i s) (attempts n (suc i) run)

  -- `stop_after_attempt(5)`
  abbrev pub five_attempts : (ℕ → Exec E S A) → Exec E S A
  five_attempts run = attempts 4 0 run

  retried-is_ok :
      (r : Result E A × S) (more : Exec E S A)
      → (is_ok r.0 ≡ true) ⊎ (is_ok (more r.1).0 ≡ true)
      → is_ok (retried r more).0 ≡ true
  retried-is_ok (ok a, s) more h = refl
  retried-is_ok (err e, s) more (inl h) = cc
  retried-is_ok (err e, s) more (inr h) = h

  retried-keeps :
      (I : S → Type 0) (r : Result E A × S) (more : Exec E S A)
      → I r.1
      → ((s : S) → I s → I (more s).1)
      → I (retried r more).1
  retried-keeps I (ok a, s) more h step = h
  retried-keeps I (err e, s) more h step = step s h

  module _ (I : S → Type 0) (run : ℕ → Exec E S A)
      (keeps : (j : ℕ) (t : S) → I t → I (run j t).1) where
    attempts-is_ok :
        (n i k : ℕ) (s : S)
        → I s
        → k ≤ n
        → ((t : S) → I t → is_ok (run (i + k) t).0 ≡ true)
        → is_ok (attempts n i run s).0 ≡ true
    unfolding attempts
    attempts-is_ok zero i k s start le fine =
        let here : i + k ≡ i = omega arith in
        subst (λ j. (t : S) → I t → is_ok (run j t).0 ≡ true) here fine s start
    attempts-is_ok (suc n) i zero s start le fine =
        let here : i + 0 ≡ i = omega arith in
        retried-is_ok (run i s) (attempts n (suc i) run)
          (inl (subst (λ j. (t : S) → I t → is_ok (run j t).0 ≡ true) here fine s start))
    attempts-is_ok (suc n) i (suc k) s start le fine =
        let there : i + suc k ≡ suc i + k = omega arith in
        let fine' = subst (λ j. (t : S) → I t → is_ok (run j t).0 ≡ true) there fine in
        retried-is_ok (run i s) (attempts n (suc i) run)
          (inr (attempts-is_ok n (suc i) k (run i s).1 (keeps i s start) (omega arith) fine'))

    attempts-keeps : (n i : ℕ) (s : S) → I s → I (attempts n i run s).1
    unfolding attempts
    attempts-keeps zero i s start = keeps i s start
    attempts-keeps (suc n) i s start =
        retried-keeps I (run i s) (attempts n (suc i) run) (keeps i s start)
          (λ t kept. attempts-keeps n (suc i) t kept)

    -- What each attempt keeps, the call keeps.
    pub five_attempts-keeps : (s : S) → I s → I (five_attempts run s).1
    five_attempts-keeps s start = attempts-keeps 4 0 s start

    -- If one of the five attempts returns from every state that the attempts keep to, then the call
    -- returns.
    pub five_attempts-is_ok_kept :
        (k : ℕ) (s : S)
        → I s
        → k < 5
        → ((t : S) → I t → is_ok (run k t).0 ≡ true)
        → is_ok (five_attempts run s).0 ≡ true
    five_attempts-is_ok_kept k s start lt fine =
        let here : k ≡ 0 + k = omega arith in
        attempts-is_ok 4 0 k s start (omega arith)
          (subst (λ j. (t : S) → I t → is_ok (run j t).0 ≡ true) here fine)

  -- If one of the five attempts returns whatever the state, then the call returns.
  pub five_attempts-is_ok :
      (k : ℕ) (run : ℕ → Exec E S A) (s : S)
      → k < 5
      → ((t : S) → is_ok (run k t).0 ≡ true)
      → is_ok (five_attempts run s).0 ≡ true
  five_attempts-is_ok k run s lt fine =
      five_attempts-is_ok_kept (λ t. Unit {0}) run (λ j t u. tt) k s tt lt (λ t u. fine t)

  -- The attempt that returned, from a state that the attempts before it have kept in `I`.
  pub record Returned (I : S → Type 0) (run : ℕ → Exec E S A) (a : A) (s' : S) (bound : ℕ)
      : Type 0 where
    pub attempt : ℕ
    pub from : S
    pub in_time : attempt < bound
    pub kept : I from
    pub returns : run attempt from ≡ (ok a, s')

  retried-ok :
      (r : Result E A × S) (more : Exec E S A) {a : A} {s' : S}
      → retried r more ≡ (ok a, s')
      → (r ≡ (ok a, s')) ⊎ ((e : E) × (t : S) × (r ≡ (err e, t)) × (more t ≡ (ok a, s')))
  retried-ok (ok a, s) more h = inl h
  retried-ok (err e, s) more h = inr (e, s, refl, h)

  attempts-ok :
      (I : S → Type 0) (n i : ℕ) (run : ℕ → Exec E S A) (s : S) {a : A} {s' : S}
      → I s
      → ((j : ℕ) (t u : S) (e : E) → I t → run j t ≡ (err e, u) → I u)
      → attempts n i run s ≡ (ok a, s')
      → Returned I run a s' (i + suc n)
  unfolding attempts
  attempts-ok I zero i run s start keeps h = record {
    attempt = i;
    from = s;
    in_time = omega arith;
    kept = start;
    returns = h;
  }
  attempts-ok I (suc n) i run s {a} {s'} start keeps h =
      elim (retried-ok (run i s) (attempts n (suc i) run) h) [
        | inl first ↦ record {
          attempt = i;
          from = s;
          in_time = omega arith;
          kept = start;
          returns = first;
        }
        | inr (e, t, failed, more) ↦
            let bound : suc i + suc n ≡ i + suc (suc n) = omega arith in
            subst (Returned I run a s') bound
              (attempts-ok I n (suc i) run t (keeps i s t e start failed) keeps more)
      ]

  -- A call that returns does so in one of five attempts.
  pub five_attempts-ok :
      (I : S → Type 0) (run : ℕ → Exec E S A) (s : S) {a : A} {s' : S}
      → I s
      → ((j : ℕ) (t u : S) (e : E) → I t → run j t ≡ (err e, u) → I u)
      → five_attempts run s ≡ (ok a, s')
      → Returned I run a s' 5
  five_attempts-ok I run s start keeps h = attempts-ok I 4 0 run s start keeps h

  retried-le :
      (size : S → ℕ) (r : Result E A × S) (more : Exec E S A) (m n : ℕ)
      → size r.1 ≤ suc m
      → ((s : S) → size (more s).1 ≤ n + size s)
      → size (retried r more).1 ≤ suc n + m
  retried-le size (ok a, s) more m n h rest = omega arith
  retried-le size (err e, s) more m n h rest = omega (arith, rest s)

  attempts-le :
      (size : S → ℕ) (n i : ℕ) (run : ℕ → Exec E S A) (s : S)
      → ((j : ℕ) (t : S) → size (run j t).1 ≤ suc (size t))
      → size (attempts n i run s).1 ≤ suc n + size s
  unfolding attempts
  attempts-le size zero i run s step = omega (arith, step i s)
  attempts-le size (suc n) i run s step =
      retried-le size (run i s) (attempts n (suc i) run) (size s) (suc n) (step i s)
        (λ t. attempts-le size n (suc i) run t step)

  -- Five attempts, each of which adds at most one, add at most five.
  pub five_attempts-le :
      (size : S → ℕ) (run : ℕ → Exec E S A) (s : S)
      → ((j : ℕ) (t : S) → size (run j t).1 ≤ suc (size t))
      → size (five_attempts run s).1 ≤ 5 + size s
  five_attempts-le size run s step = attempts-le size 4 0 run s step
