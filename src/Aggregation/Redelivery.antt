-- ===== src/Aggregation/Redelivery.antt =====
-- An event that the broker delivers twice, in the queries of
-- dz_5/aggregation-service/app/aggregation.py: `movie_events` keeps both rows.
use mathlib.Core.List.{Memᴰ}
use mathlib.Core.List.Memᴰ.{head, tail}
use text.Mathlib.Text.{◌==◌ as str_eq}
use text.Mathlib.TextPositions.{eq_refl}
use making_soa_homework.Base.{
  ℕ, suc, ◌+◌, ◌≤◌, ◌==◌, ◌≡◌, ◌∙◌, refl, sym, ap, Bool, true, ◌&&◌, some, String, List, [], ◌∷◌,
  map, select, length, ltb, if◌then◌else◌, Bool-cases, Option-cases, inl, inr, arith,
}
use making_soa_homework.Base.Members.{Mem-map, Mem-select}
use making_soa_homework.Base.Count.{sum_by}
use making_soa_homework.Aggregation.Warehouse.{MovieEvent}
use making_soa_homework.Aggregation.Queries.{
  is_watch, is_finished, is_started, on_day, distinct, count_raw_rows, daily_dau, first_date,
  is_day, cohort, watched, viewed, returned, daily_conversion, daily_retention,
}
use making_soa_homework.Aggregation.TopMovies.{contains-Mem}

distinct_again : (s : String) (l : List String) → Memᴰ s l → distinct (s ∷ l) ≡ distinct l
unfolding distinct
distinct_again s l there = rw (contains-Mem s l there) refl

-- The user watched on the day of one of his watch events, or before.
first_date-Mem :
    (u : String) (e : MovieEvent) (l : List MovieEvent)
    → Memᴰ e l
    → (str_eq e.user_id u && is_watch e.event_type) ≡ true
    → (d : ℕ) × (first_date u l ≡ some d) × (d ≤ e.event_date)
unfolding first_date
first_date-Mem u e [] there h = elim there [ ]
first_date-Mem u e (x ∷ l) (head same) h =
    let hit : (str_eq x.user_id u && is_watch x.event_type) ≡ true =
      ap (λ a. str_eq a.user_id u && is_watch a.event_type) (sym same) ∙ h in
    let date : e.event_date ≡ x.event_date = ap (λ a. a.event_date) same in
    elim (Option-cases (first_date u l)) [
      | inl absent ↦ (x.event_date, rw (hit, absent) refl, omega arith)
      | inr (d, found) ↦
          (if ltb d x.event_date then d else x.event_date, rw (hit, found) refl, ground arith)
    ]
first_date-Mem u e (x ∷ l) (tail there) h =
    let (d, found, before) = first_date-Mem u e l there h in
    elim (Bool-cases (str_eq x.user_id u && is_watch x.event_type)) [
      | inl hit ↦
          (if ltb d x.event_date then d else x.event_date, rw (hit, found) refl, ground arith)
      | inr other ↦ (d, rw other found, before)
    ]

first_date_again :
    (u : String) (e : MovieEvent) (l : List MovieEvent)
    → Memᴰ e l
    → first_date u (e ∷ l) ≡ first_date u l
unfolding first_date
first_date_again u e l there = elim (Bool-cases (str_eq e.user_id u && is_watch e.event_type)) [
  | inl h ↦ let (d, found, before) = first_date-Mem u e l there h in rw (h, found) (ground arith)
  | inr h ↦ rw h refl
]

watched-Mem :
    (u : String) (day : ℕ) (e : MovieEvent) (l : List MovieEvent)
    → Memᴰ e l
    → (str_eq e.user_id u && is_watch e.event_type && (e.event_date == day)) ≡ true
    → watched u day l ≡ true
unfolding watched
watched-Mem u day e [] there h = elim there [ ]
watched-Mem u day e (x ∷ l) (head same) h =
    let hit =
      ap (λ a. str_eq a.user_id u && is_watch a.event_type && (a.event_date == day)) (sym same)
      ∙ h in
    rw hit refl
watched-Mem u day e (x ∷ l) (tail there) h = ground (arith, watched-Mem u day e l there h)

watched_again :
    (u : String) (day : ℕ) (e : MovieEvent) (l : List MovieEvent)
    → Memᴰ e l
    → watched u day (e ∷ l) ≡ watched u day l
unfolding watched
watched_again u day e l there = ground (arith, watched-Mem u day e l there)

select_ext :
    {A : Type 0} (p q : A → Bool) (l : List A) → ((a : A) → p a ≡ q a) → select p l ≡ select q l
select_ext p q l h = ap (λ r. select r l) (λ i a. h a i)

users_again :
    (e : MovieEvent) (l : List MovieEvent)
    → Memᴰ e l
    → distinct (map (λ (a : MovieEvent). a.user_id) (e ∷ l))
      ≡ distinct (map (λ (a : MovieEvent). a.user_id) l)
users_again e l there =
    distinct_again e.user_id (map (λ (a : MovieEvent). a.user_id) l)
      (Mem-map (λ (a : MovieEvent). a.user_id) l there)

cohort_again :
    (date : ℕ) (e : MovieEvent) (l : List MovieEvent)
    → Memᴰ e l
    → cohort date (e ∷ l) ≡ cohort date l
unfolding cohort
cohort_again date e l there =
    select_ext _ _ _ (λ u. ap (is_day date) (first_date_again u e l there))
    ∙ ap (select (λ u. is_day date (first_date u l))) (users_again e l there)

returned_again :
    (date day : ℕ) (e : MovieEvent) (l : List MovieEvent)
    → Memᴰ e l
    → returned date day (e ∷ l) ≡ returned date day l
returned_again date day e l there = ap length (
    select_ext _ _ _ (λ u. watched_again u day e l there)
    ∙ ap (select (λ u. watched u day l)) (cohort_again date e l there))

module _ {F : Type 0} (quotient : ℕ → ℕ → F) (zero_float : F) where
  -- What a second delivery of an event changes in the reports of its date.
  pub record CountedTwice (date : ℕ) (e : MovieEvent) (l : List MovieEvent) : Type 0 where
    pub users : daily_dau date (e ∷ l) ≡ daily_dau date l
    pub cohort_users : cohort date (e ∷ l) ≡ cohort date l
    pub retention :
        daily_retention quotient zero_float date (e ∷ l)
        ≡ daily_retention quotient zero_float date l
    pub rows : count_raw_rows date (e ∷ l) ≡ suc (count_raw_rows date l)
    pub started :
        (daily_conversion quotient zero_float date (e ∷ l)).0
        ≡ (if is_started e.event_type then 1 else 0)
          + (daily_conversion quotient zero_float date l).0
    pub finished :
        (daily_conversion quotient zero_float date (e ∷ l)).1
        ≡ (if is_finished e.event_type then 1 else 0)
          + (daily_conversion quotient zero_float date l).1
    pub views :
        (viewed (on_day date (e ∷ l)) e.movie_id).1
        ≡ (if is_finished e.event_type then 1 else 0) + (viewed (on_day date l) e.movie_id).1

  -- If an event of a date is delivered again, then the users of the date, its cohort and its retention
  -- are the same, but the event is counted again: as a row of the date, among the views that started
  -- or finished, and in the views of its movie.
  pub redelivered-CountedTwice :
      (date : ℕ) (e : MovieEvent) (l : List MovieEvent)
      → Memᴰ e l
      → e.event_date ≡ date
      → CountedTwice date e l
  unfolding daily_dau count_raw_rows daily_conversion daily_retention sum_by select
  redelivered-CountedTwice date e l there today =
      let hit : (e.event_date == date) ≡ true = ground arith in
      let dated = Mem-select (λ a. a.event_date == date) l there hit in
      let size = ap length (cohort_again date e l there) in
      record {
        users = rw hit (ap length (users_again e (on_day date l) dated));
        cohort_users = cohort_again date e l there;
        retention =
            rw
              (
                size,
                returned_again date (date + 1) e l there,
                returned_again date (date + 7) e l there,
              )
              refl;
        rows = rw hit refl;
        started = rw hit refl;
        finished = rw hit refl;
        views = rw (hit, eq_refl e.movie_id) refl;
      }
