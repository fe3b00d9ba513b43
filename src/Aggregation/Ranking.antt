-- ===== src/Aggregation/Ranking.antt =====
-- Movies in the order of their views, and the ranks that `_rewrite_top_movies` of
-- dz_5/aggregation-service/app/aggregation.py gives them.
use mathlib.Core.List.{Memᴰ}
use mathlib.Core.List.Memᴰ.{head, tail}
use making_soa_homework.Base.{
  ℕ, suc, ◌+◌, ◌≤◌, ◌<◌, ◌≡◌, refl, sym, ap, true, false, ◌⊎◌, inl, inr, String, List, [], ◌∷◌,
  insert_by, order_by, length, All, leb, Bool-cases, arith,
}
use making_soa_homework.Base.Members.{All-Mem}
use making_soa_homework.Aggregation.Queries.{TopMovie, Viewed, ahead, ranked}

-- No movie has more views than one before it.
abbrev pub Falls : List Viewed → Type 0
Falls [] = Unit
Falls (q ∷ rest) = All (λ (r : Viewed). r.1 ≤ q.1) rest × Falls rest

bounded :
    (q : Viewed) (x : Viewed) (l : List Viewed)
    → x.1 ≤ q.1
    → All (λ (r : Viewed). r.1 ≤ q.1) l
    → All (λ (r : Viewed). r.1 ≤ q.1) (insert_by ahead x l)
unfolding insert_by
bounded q x [] le all = (le, tt)
bounded q x (y ∷ l) le all = elim (Bool-cases (ahead x y)) [
  | inl e ↦ rw e (le, all)
  | inr e ↦ rw e (all.0, bounded q x l le all.1)
]

weaken :
    (n k : ℕ) (l : List Viewed)
    → n ≤ k
    → All (λ (r : Viewed). r.1 ≤ n) l
    → All (λ (r : Viewed). r.1 ≤ k) l
weaken n k [] le all = tt
weaken n k (r ∷ l) le all = (omega (arith, le, all.0), weaken n k l le all.1)

ahead_views : (x y : Viewed) → ahead x y ≡ true → y.1 ≤ x.1
ahead_views (m, v) (n, w) h = ground arith

behind_views : (x y : Viewed) → ahead x y ≡ false → x.1 ≤ y.1
behind_views (m, v) (n, w) h = ground arith

Falls-insert_by : (x : Viewed) (l : List Viewed) → Falls l → Falls (insert_by ahead x l)
unfolding insert_by
Falls-insert_by x [] h = (tt, tt)
Falls-insert_by x (y ∷ l) h = elim (Bool-cases (ahead x y)) [
  | inl e ↦ let le = ahead_views x y e in rw e ((le, weaken y.1 x.1 l le h.0), h)
  | inr e ↦ rw e (bounded y x l (behind_views x y e) h.0, Falls-insert_by x l h.1)
]

pub Falls-order_by : (l : List Viewed) → Falls (order_by ahead l)
unfolding order_by
Falls-order_by [] = tt
Falls-order_by (x ∷ l) = Falls-insert_by x (order_by ahead l) (Falls-order_by l)

-- The ranks count from `k` on, in the order of the views.
abbrev pub Ranks : ℕ → List TopMovie → Type 0
Ranks k [] = Unit
Ranks k (r ∷ rest) =
    (r.rank ≡ k) × All (λ (s : TopMovie). s.views ≤ r.views) rest × Ranks (suc k) rest

ranked-none : (k : ℕ) (l : List Viewed) → 10 < k → ranked k l ≡ []
unfolding ranked
ranked-none k [] lt = refl
ranked-none k ((m, v) ∷ l) lt = ground (arith, ranked-none (suc k) l (omega arith))

pub ranked-length : (k : ℕ) (l : List Viewed) → k ≤ 11 → length (ranked k l) + k ≤ 11
unfolding ranked
ranked-length k [] le = omega arith
ranked-length k ((m, v) ∷ l) le = elim (Bool-cases (leb k 10)) [
  | inl e ↦ rw e (omega (arith, ranked-length (suc k) l (ground arith)))
  | inr e ↦ rw (e, ranked-none (suc k) l (ground arith)) (omega (arith, le))
]

pub All-ranked :
    (P : Viewed → Type 0) (k : ℕ) (l : List Viewed)
    → All P l
    → All (λ (r : TopMovie). P (r.movie_id, r.views)) (ranked k l)
unfolding ranked
All-ranked P k [] ps = tt
All-ranked P k ((m, v) ∷ l) ps = elim (Bool-cases (leb k 10)) [
  | inl e ↦ rw e (ps.0, All-ranked P (suc k) l ps.1)
  | inr e ↦ rw e (All-ranked P (suc k) l ps.1)
]

pub Ranks-ranked : (k : ℕ) (l : List Viewed) → Falls l → Ranks k (ranked k l)
unfolding ranked
Ranks-ranked k [] h = tt
Ranks-ranked k ((m, v) ∷ l) h = elim (Bool-cases (leb k 10)) [
  | inl e ↦
      rw e (refl, All-ranked (λ (r : Viewed). r.1 ≤ v) (suc k) l h.0, Ranks-ranked (suc k) l h.1)
  | inr e ↦ rw (e, ranked-none (suc k) l (ground arith)) tt
]

abbrev pub Listed : String → List TopMovie → Type 0
Listed m top = (r : TopMovie) × Memᴰ r top × (r.movie_id ≡ m)

Listed-cons : (m : String) (r : TopMovie) (top : List TopMovie) → Listed m top → Listed m (r ∷ top)
Listed-cons m r top (s, there, e) = (s, tail there, e)

-- Of a list of movies in order, each is listed, or else ten are that have no fewer views.
abbrev pub Placed : ℕ → Viewed → List TopMovie → Type 0
Placed k (m, v) top =
    Listed m top ⊎ ((length top + k ≡ 11) × All (λ (r : TopMovie). v ≤ r.views) top)

Placed-cons :
    (k : ℕ) (q : Viewed) (r : TopMovie) (top : List TopMovie)
    → q.1 ≤ r.views
    → Placed (suc k) q top
    → Placed k q (r ∷ top)
Placed-cons k (m, v) r top le (inl listed) = inl (Listed-cons m r top listed)
Placed-cons k (m, v) r top le (inr (full, all)) = inr (omega (arith, full), (le, all))

pub Placed-ranked :
    (k : ℕ) (q : Viewed) (l : List Viewed) → k ≤ 11 → Falls l → Memᴰ q l → Placed k q (ranked k l)
unfolding ranked
Placed-ranked k q [] le h there = elim there [ ]
Placed-ranked k (m, v) ((n, w) ∷ l) le h (head same) = elim (Bool-cases (leb k 10)) [
  | inl e ↦
      rw e (inl (record { movie_id = n; views = w; rank = k }, head refl, ap (λ q. q.0) (sym same)))
  | inr e ↦
      rw (e, ranked-none (suc k) l (ground arith))
        (inr (let full : k ≡ 11 = ground arith in omega (arith, full), tt))
]
Placed-ranked k (m, v) ((n, w) ∷ l) le h (tail there) = elim (Bool-cases (leb k 10)) [
  | inl e ↦
      let smaller = All-Mem (λ (r : Viewed). r.1 ≤ w) l h.0 there in
      rw e (
        Placed-cons k (m, v) _ (ranked (suc k) l) smaller
          (Placed-ranked (suc k) (m, v) l (ground arith) h.1 there))
  | inr e ↦
      rw (e, ranked-none (suc k) l (ground arith))
        (inr (let full : k ≡ 11 = ground arith in omega (arith, full), tt))
]
