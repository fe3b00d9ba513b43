-- ===== src/Aggregation/Queries.antt =====
-- The queries on `movie_events` of dz_5/aggregation-service/app/aggregation.py, each as the rows that
-- it selects for a date. `F` is Float64, and `quotient` its division of two counts; `quotient 0 0` is
-- what the column keeps of the average of nothing.
use text.Mathlib.Text.{◌==◌ as str_eq, is_le}
use Prim.Native.String.{compare as compare_text}
use making_soa_homework.Base.{
  ℕ, suc, ◌+◌, ◌==◌, Bool, true, false, ◌&&◌, ◌||◌, Option, none, some, String, List, [], ◌∷◌, map,
  select, order_by, length, ltb, leb, if◌then◌else◌,
}
use making_soa_homework.Base.Count.{sum_by}
use making_soa_homework.Producer.Events.{
  EventType, view_started, view_finished, liked, searched, DeviceType, mobile, desktop, tv, tablet,
  device_type_text,
}
use making_soa_homework.Aggregation.Warehouse.{MovieEvent}

abbrev pub is_started : EventType → Bool
is_started view_started = true
is_started _ = false

abbrev pub is_finished : EventType → Bool
is_finished view_finished = true
is_finished _ = false

-- `event_type IN ('VIEW_STARTED', 'VIEW_FINISHED', 'VIEW_PAUSED', 'VIEW_RESUMED')`
abbrev pub is_watch : EventType → Bool
is_watch liked = false
is_watch searched = false
is_watch _ = true

-- `WHERE event_date = …`
abbrev pub on_day : ℕ → List MovieEvent → List MovieEvent
on_day date events = select (λ e. e.event_date == date) events

abbrev pub count_if : (MovieEvent → Bool) → List MovieEvent → ℕ
count_if p events = sum_by (λ e. if p e then 1 else 0) events

unfoldable pub contains : String → List String → Bool
contains s [] = false
contains s (t ∷ rest) = str_eq s t || contains s rest

-- Each text once: `GROUP BY`, and under `uniqExact`.
unfoldable pub distinct : List String → List String
unfolding contains
distinct [] = []
distinct (s ∷ rest) = let others = distinct rest in if contains s rest then others else s ∷ others

-- `_count_raw_rows`
unfoldable pub count_raw_rows : ℕ → List MovieEvent → ℕ
count_raw_rows date events = length (on_day date events)

-- `_rewrite_daily_dau`
unfoldable pub daily_dau : ℕ → List MovieEvent → ℕ
unfolding distinct
daily_dau date events = length (distinct (map (λ (e : MovieEvent). e.user_id) (on_day date events)))

-- `_rewrite_top_movies`
pub record TopMovie : Type 0 where
  pub movie_id : String
  pub views : ℕ
  pub rank : ℕ

abbrev pub Viewed : Type 0
Viewed = String × ℕ

-- `ORDER BY countIf(event_type = 'VIEW_FINISHED') DESC, movie_id`
abbrev pub ahead : Viewed → Viewed → Bool
ahead (m, v) (n, w) = ltb w v || ((w == v) && is_le (compare_text m n))

abbrev pub viewed : List MovieEvent → String → Viewed
viewed events m = (m, count_if (λ e. str_eq e.movie_id m && is_finished e.event_type) events)

-- `row_number()`, and `WHERE rank <= 10`.
unfoldable pub ranked : ℕ → List Viewed → List TopMovie
ranked k [] = []
ranked k ((m, v) ∷ rest) =
    let others = ranked (suc k) rest in
    if leb k 10 then record { movie_id = m; views = v; rank = k } ∷ others else others

unfoldable pub daily_top_movies : ℕ → List MovieEvent → List TopMovie
unfolding ranked distinct
daily_top_movies date events =
    let today = on_day date events in
    ranked 1
      (order_by ahead (map (viewed today) (distinct (map (λ (e : MovieEvent). e.movie_id) today))))

-- `_rewrite_device_distribution`
abbrev pub same_device : DeviceType → DeviceType → Bool
same_device mobile mobile = true
same_device desktop desktop = true
same_device tv tv = true
same_device tablet tablet = true
same_device _ _ = false

abbrev pub device_group : List MovieEvent → DeviceType → List (String × ℕ) → List (String × ℕ)
device_group events k rest =
    let n = count_if (λ e. same_device e.device_type k) events in
    if n == 0 then rest else (device_type_text k, n) ∷ rest

-- A device without an event has no group.
unfoldable pub device_distribution : ℕ → List MovieEvent → List (String × ℕ)
device_distribution date events =
    let today = on_day date events in
    device_group today mobile
      (device_group today desktop (device_group today tv (device_group today tablet [])))

-- `min(toDate(timestamp))` over the watch events of a user, where there is one.
unfoldable pub first_date : String → List MovieEvent → Option ℕ
first_date u [] = none
first_date u (e ∷ rest) =
    let later = first_date u rest in
    if str_eq e.user_id u && is_watch e.event_type
    then some (elim later [
      | none ↦ e.event_date
      | some d ↦ if ltb d e.event_date then d else e.event_date
    ])
    else later

abbrev pub is_day : ℕ → Option ℕ → Bool
is_day date none = false
is_day date (some d) = d == date

-- The users whose first watch is on the date.
unfoldable pub cohort : ℕ → List MovieEvent → List String
unfolding distinct first_date
cohort date events =
    select (λ u. is_day date (first_date u events))
      (distinct (map (λ (e : MovieEvent). e.user_id) events))

-- Whether the user has watched on the day.
unfoldable pub watched : String → ℕ → List MovieEvent → Bool
watched u day [] = false
watched u day (e ∷ rest) =
    (str_eq e.user_id u && is_watch e.event_type && (e.event_date == day)) || watched u day rest

abbrev pub returned : ℕ → ℕ → List MovieEvent → ℕ
returned date day events = length (select (λ u. watched u day events) (cohort date events))

-- `_rewrite_retention_cohorts`
pub record CohortDay (F : Type 0) : Type 0 where
  pub lifecycle_day : ℕ
  pub users : ℕ
  pub cohort_size : ℕ
  pub retention_rate : F

module _ {F : Type 0} (quotient : ℕ → ℕ → F) (zero_float : F) where
  abbrev pub rate : ℕ → ℕ → F
  rate n total = if total == 0 then zero_float else quotient n total

  abbrev pub seconds : MovieEvent → ℕ
  seconds e = elim e.progress_seconds [ none ↦ 0 | some s ↦ s ]

  abbrev pub has_progress : MovieEvent → Bool
  has_progress e = elim e.progress_seconds [ none ↦ false | some s ↦ true ]

  -- `_rewrite_avg_watch_time`
  unfoldable pub daily_avg_watch_time : ℕ → List MovieEvent → F
  daily_avg_watch_time date events =
      let finished =
        select (λ e. is_finished e.event_type && has_progress e) (on_day date events) in
      quotient (sum_by seconds finished) (length finished)

  -- `_rewrite_conversion`
  unfoldable pub daily_conversion : ℕ → List MovieEvent → ℕ × ℕ × F
  daily_conversion date events =
      let today = on_day date events in
      let started = count_if (λ e. is_started e.event_type) today in
      let finished = count_if (λ e. is_finished e.event_type) today in
      (started, finished, rate finished started)

  -- `_rewrite_retention`
  unfoldable pub daily_retention : ℕ → List MovieEvent → F × F
  unfolding cohort watched
  daily_retention date events =
      let size = length (cohort date events) in
      (rate (returned date (date + 1) events) size, rate (returned date (date + 7) events) size)

  abbrev cohort_day : ℕ → List MovieEvent → ℕ → List (CohortDay F) → List (CohortDay F)
  cohort_day date events k rest =
      let users = returned date (date + k) events in
      let size = length (cohort date events) in
      if users == 0
      then rest
      else record {
        lifecycle_day = k;
        users = users;
        cohort_size = size;
        retention_rate = rate users size;
      }
        ∷ rest

  -- A day of the cohort on which nobody has watched has no group.
  unfoldable pub retention_cohorts : ℕ → List MovieEvent → List (CohortDay F)
  unfolding cohort watched
  retention_cohorts date events =
      let day = cohort_day date events in
      day 0 (day 1 (day 2 (day 3 (day 4 (day 5 (day 6 (day 7 [])))))))
