-- ===== src/Aggregation/TopMovies.antt =====
-- The ten movies that `_rewrite_top_movies` of dz_5/aggregation-service/app/aggregation.py takes.
use text.Mathlib.Text.{◌==◌ as str_eq}
use text.Mathlib.TextEquality.{eq_iff}
use mathlib.Core.List.{Memᴰ}
use mathlib.Core.List.Memᴰ.{head, tail}
use making_soa_homework.Base.{
  ℕ, suc, ◌≤◌, ◌≡◌, ◌∙◌, refl, true, ◌⊎◌, inl, inr, String, List, [], ◌∷◌, map, order_by, length,
  All, if◌then◌else◌, Bool-cases, arith,
}
use making_soa_homework.Base.Count.{sum_by, sum_by-map, sum_by-order_by}
use making_soa_homework.Base.Members.{All-order_by, Mem-order_by, Mem-map}
use making_soa_homework.Aggregation.Warehouse.{MovieEvent}
use making_soa_homework.Aggregation.Queries.{
  TopMovie, Viewed, ahead, viewed, ranked, contains, distinct, on_day, daily_top_movies,
}
use making_soa_homework.Aggregation.Ranking.{
  Falls-order_by, Ranks, Listed, Placed, Placed-ranked, ranked-length, All-ranked, Ranks-ranked,
}

-- How often a movie is listed.
abbrev pub times : String → List TopMovie → ℕ
times m top = sum_by (λ (r : TopMovie). if str_eq r.movie_id m then 1 else 0) top

times-ranked :
    (m : String) (k : ℕ) (l : List Viewed)
    → times m (ranked k l) ≤ sum_by (λ (q : Viewed). if str_eq q.0 m then 1 else 0) l
unfolding ranked sum_by
times-ranked m k [] = omega arith
times-ranked m k ((n, v) ∷ l) = ground (arith, times-ranked m (suc k) l)

pub distinct_once :
    (m : String) (l : List String)
    → sum_by (λ s. if str_eq s m then 1 else 0) (distinct l) ≡ (if contains m l then 1 else 0)
unfolding sum_by distinct contains
distinct_once m [] = refl
distinct_once m (s ∷ l) =
    ground (arith, distinct_once m l, distinct_once s l, eq_iff s m, eq_iff m s)

pub contains-Mem : (m : String) (l : List String) → Memᴰ m l → contains m l ≡ true
unfolding contains
contains-Mem m [] there = elim there [ ]
contains-Mem m (s ∷ l) (head e) = ground (arith, e, eq_iff m s)
contains-Mem m (s ∷ l) (tail there) = ground (arith, contains-Mem m l there)

Mem-distinct : (m : String) (l : List String) → contains m l ≡ true → Memᴰ m (distinct l)
unfolding distinct contains
Mem-distinct m [] h = absurd (ground arith)
Mem-distinct m (s ∷ l) h = elim (Bool-cases (contains s l)) [
  | inl e ↦ rw e (Mem-distinct m l (ground (arith, eq_iff m s)))
  | inr e ↦ elim (Bool-cases (str_eq m s)) [
    | inl same ↦ rw e (head ((eq_iff m s).0 same))
    | inr other ↦ rw e (tail (Mem-distinct m l (ground arith)))
  ]
]

-- The views of a movie on a day.
abbrev pub views_of : List MovieEvent → String → ℕ
views_of today m = (viewed today m).1

All-viewed :
    (today : List MovieEvent) (l : List String)
    → All (λ (q : Viewed). q.1 ≡ views_of today q.0) (map (viewed today) l)
All-viewed today [] = tt
All-viewed today (m ∷ l) = (refl, All-viewed today l)

once_ranked :
    (m : String) (ids : List String) (today : List MovieEvent)
    → times m (ranked 1 (order_by ahead (map (viewed today) (distinct ids)))) ≤ 1
once_ranked m ids today =
    let w = λ (q : Viewed). if str_eq q.0 m then 1 else 0 in
    let rows = map (viewed today) (distinct ids) in
    let sum : sum_by w (order_by ahead rows) ≡ (if contains m ids then 1 else 0) =
      sum_by-order_by w ahead rows
      ∙ sum_by-map w (viewed today) (distinct ids)
      ∙ distinct_once m ids in
    ground (arith, sum, times-ranked m 1 (order_by ahead rows))

full :
    (m : String) (v : ℕ) (top : List TopMovie)
    → Placed 1 (m, v) top
    → Listed m top ⊎ ((length top ≡ 10) × All (λ (r : TopMovie). v ≤ r.views) top)
full m v top (inl listed) = inl listed
full m v top (inr (ten, all)) = inr (omega (arith, ten), all)

pub record IsTop (today : List MovieEvent) (top : List TopMovie) : Type 0 where
  pub short : length top ≤ 10
  pub ranks : Ranks 1 top
  pub views : All (λ (r : TopMovie). r.views ≡ views_of today r.movie_id) top
  pub once : (m : String) → times m top ≤ 1
  pub complete :
      (e : MovieEvent)
      → Memᴰ e today
      → Listed e.movie_id top
        ⊎ ((length top ≡ 10) × All (λ (r : TopMovie). views_of today e.movie_id ≤ r.views) top)

-- The top of a date has at most ten movies, none twice, with their views on the date, and ranked from
-- 1 on in the order of their views. A movie of the date is among them, or else they are ten, and none
-- of them has fewer views.
pub daily_top_movies-IsTop :
    (date : ℕ) (events : List MovieEvent)
    → IsTop (on_day date events) (daily_top_movies date events)
unfolding daily_top_movies
daily_top_movies-IsTop date events =
    let today = on_day date events in
    let ids = map (λ (e : MovieEvent). e.movie_id) today in
    let rows = map (viewed today) (distinct ids) in
    let l = order_by ahead rows in
    let falls = Falls-order_by rows in
    record {
      short = omega (arith, ranked-length 1 l (omega arith));
      ranks = Ranks-ranked 1 l falls;
      views =
          All-ranked (λ (q : Viewed). q.1 ≡ views_of today q.0) 1 l
            (All-order_by _ ahead rows (All-viewed today (distinct ids)));
      once = λ m. once_ranked m ids today;
      complete = λ e there. full _ _ _ (
          Placed-ranked 1 (viewed today e.movie_id) l (omega arith) falls (
            Mem-order_by ahead rows (
              Mem-map (viewed today) (distinct ids) (
                Mem-distinct e.movie_id ids (
                  contains-Mem e.movie_id ids
                    (Mem-map (λ (a : MovieEvent). a.movie_id) today there))))));
    }
