-- ===== src/Aggregation/PayloadKeys.antt =====
-- The keys of a payload of dz_5/aggregation-service/app/aggregation.py in `daily_metrics`.
use text.Mathlib.Text.{◌==◌ as str_eq, is_le}
use Prim.Native.String.{compare as compare_text}
use making_soa_homework.Base.{
  ℕ, ◌+◌, ◌≤◌, ◌≡◌, refl, sym, subst, leb, Bool, Option, none, some, String, List, [], ◌∷◌, ◌++◌,
  map, order_by, arith, if◌then◌else◌,
}
use making_soa_homework.Base.Count.{sum_by, sum_by-append, sum_by-order_by}
use making_soa_homework.Producer.Events.{DeviceType, mobile, desktop, tv, tablet, device_type_text}
use making_soa_homework.Aggregation.Warehouse.{MovieEvent}
use making_soa_homework.Aggregation.Queries.{
  TopMovie, distinct, contains, on_day, daily_top_movies, device_group, device_distribution,
}
use making_soa_homework.Aggregation.TopMovies.{times, distinct_once, daily_top_movies-IsTop}
use making_soa_homework.Aggregation.Payload.{
  MetricRow, dau_rows, watch_rows, conversion_rows, retention_rows, movie_row, device_row,
  build_metric_payload,
}
use making_soa_homework.Aggregation.Repository.{Key, row_key, same_key}
use making_soa_homework.Aggregation.DayMetrics.{day_metrics}
use making_soa_homework.Aggregation.Service.{Cell, whole, real}

-- How many rows of a payload have the key.
abbrev pub key_count : {C : Type 0} → ℕ → Key → List (MetricRow C) → ℕ
key_count {C = C} date k rows =
    sum_by (λ (row : MetricRow C). if same_key (row_key date row) k then 1 else 0) rows

-- How often a text is the device of a row.
abbrev device_times : String → List (String × ℕ) → ℕ
device_times s rows = sum_by (λ (r : String × ℕ). if str_eq r.0 s then 1 else 0) rows

abbrev is_text : String → String → ℕ
is_text a b = if str_eq a b then 1 else 0

-- A text is at most one of texts that are different.
once_in : (s : String) (l : List String) → distinct l ≡ l → sum_by (λ t. is_text t s) l ≤ 1
once_in s l different =
    subst (λ (t : List String). sum_by (λ u. is_text u s) t ≤ 1) different
      (ground (arith, distinct_once s l))

names_once :
    (s : String)
    → is_text "DAU" s
        + is_text "AVG_WATCH_SECONDS" s
        + (is_text "VIEW_STARTED" s + is_text "VIEW_FINISHED" s + is_text "CONVERSION_RATE" s)
        + (is_text "RETENTION_D1" s + is_text "RETENTION_D7" s)
        + is_text "TOP_MOVIE_VIEWS" s
        + is_text "DEVICE_EVENTS" s
      ≤ 1
unfolding sum_by distinct contains
names_once s = omega (
  arith,
  once_in s
      ("DAU" ∷ "AVG_WATCH_SECONDS" ∷ "VIEW_STARTED" ∷ "VIEW_FINISHED" ∷ "CONVERSION_RATE"
        ∷ "RETENTION_D1" ∷ "RETENTION_D7" ∷ "TOP_MOVIE_VIEWS" ∷ "DEVICE_EVENTS" ∷ [])
      refl,
)

device_times-group :
    (s : String) (events : List MovieEvent) (k : DeviceType) (rest : List (String × ℕ))
    → device_times s (device_group events k rest)
      ≤ is_text (device_type_text k) s + device_times s rest
unfolding sum_by
device_times-group s events k rest = ground arith

device_names_once :
    (s : String)
    → is_text "MOBILE" s + is_text "DESKTOP" s + is_text "TV" s + is_text "TABLET" s ≤ 1
unfolding sum_by distinct contains
device_names_once s = omega (arith, once_in s ("MOBILE" ∷ "DESKTOP" ∷ "TV" ∷ "TABLET" ∷ []) refl)

below_parts :
    (a b c d e f g h : ℕ)
    → a + b + c + d ≤ 1
    → h ≤ a + g
    → g ≤ b + f
    → f ≤ c + e
    → e ≤ d + 0
    → h ≤ 1
below_parts a b c d e f g h one p q r t = omega arith

devices_once :
    (s : String) (date : ℕ) (events : List MovieEvent)
    → device_times s (device_distribution date events) ≤ 1
unfolding sum_by device_distribution
devices_once s date events =
    let today = on_day date events in
    let group = device_times-group s today in
    let l1 = device_group today tablet [] in
    let l2 = device_group today tv l1 in
    let l3 = device_group today desktop l2 in
    below_parts _ _ _ _ (device_times s l1) (device_times s l2) (device_times s l3) _
      (device_names_once s) (group mobile l3) (group desktop l2) (group tv l1) (group tablet [])

module _ {C : Type 0} (date : ℕ) (k : Key) (c : String) where
  count-dau : (o : Option C) → key_count date k (dau_rows c o) ≤ is_text "DAU" k.metric_name
  unfolding sum_by same_key
  count-dau none = omega arith
  count-dau (some v) = ground arith

  count-watch :
      (falsy : C → Bool) (zero_cell : C) (o : Option C)
      → key_count date k (watch_rows falsy zero_cell c o)
        ≤ is_text "AVG_WATCH_SECONDS" k.metric_name
  unfolding sum_by same_key
  count-watch falsy zero_cell none = omega arith
  count-watch falsy zero_cell (some v) = ground arith

  count-conversion :
      (o : Option (C × C × C))
      → key_count date k (conversion_rows c o)
        ≤ is_text "VIEW_STARTED" k.metric_name
          + is_text "VIEW_FINISHED" k.metric_name
          + is_text "CONVERSION_RATE" k.metric_name
  unfolding sum_by same_key
  count-conversion none = omega arith
  count-conversion (some (a, b, r)) = ground arith

  count-retention :
      (o : Option (C × C))
      → key_count date k (retention_rows c o)
        ≤ is_text "RETENTION_D1" k.metric_name + is_text "RETENTION_D7" k.metric_name
  unfolding sum_by same_key
  count-retention none = omega arith
  count-retention (some (a, b)) = ground arith

  count-movies :
      (number : ℕ → C) (top : List TopMovie)
      → key_count date k
          (map (movie_row c) (map (λ (r : TopMovie). (r.movie_id, number r.views, r.rank)) top))
        ≤ (if str_eq "TOP_MOVIE_VIEWS" k.metric_name then times k.dimension_value top else 0)
  unfolding sum_by same_key
  count-movies number [] = omega arith
  count-movies number (r ∷ top) = ground (arith, count-movies number top)

  count-devices :
      (number : ℕ → C) (rows : List (String × ℕ))
      → key_count date k (map (device_row c) (map (λ (r : String × ℕ). (r.0, number r.1)) rows))
        ≤ (if str_eq "DEVICE_EVENTS" k.metric_name then device_times k.dimension_value rows else 0)
  unfolding sum_by same_key
  count-devices number [] = omega arith
  count-devices number (r ∷ rows) = ground (arith, count-devices number rows)

  -- No key is on two rows of a payload.
  pub count-payload :
      (falsy : C → Bool) (zero_cell : C) (number : ℕ → C) (dau avg : Option C)
      (conversion : Option (C × C × C)) (retention : Option (C × C)) (top : List TopMovie)
      (devices : List (String × ℕ))
      → times k.dimension_value top ≤ 1
      → device_times k.dimension_value devices ≤ 1
      → key_count date k (
          build_metric_payload falsy zero_cell c (record {
            dau = dau;
            avg_watch = avg;
            conversion = conversion;
            retention = retention;
            top_movies = map (λ (r : TopMovie). (r.movie_id, number r.views, r.rank)) top;
            devices = map (λ (r : String × ℕ). (r.0, number r.1)) devices;
          }))
        ≤ 1
  unfolding build_metric_payload
  count-payload falsy zero_cell number dau avg conversion retention top devices one_movie
        one_device =
      let n1 = count-dau dau in
      let n2 = count-watch falsy zero_cell avg in
      let n3 = count-conversion conversion in
      let n4 = count-retention retention in
      let n5 = count-movies number top in
      let n6 = count-devices number devices in
      let w = λ (row : MetricRow C). if same_key (row_key date row) k then 1 else 0 in
      let a1 = dau_rows c dau in
      let a2 = watch_rows falsy zero_cell c avg in
      let a3 = conversion_rows c conversion in
      let a4 = retention_rows c retention in
      let a5 =
        map (movie_row c) (map (λ (r : TopMovie). (r.movie_id, number r.views, r.rank)) top) in
      let a6 = map (device_row c) (map (λ (r : String × ℕ). (r.0, number r.1)) devices) in
      let sums : key_count date k (a1 ++ a2 ++ a3 ++ a4 ++ a5 ++ a6)
          ≡ sum_by w a1 + sum_by w a2 + sum_by w a3 + sum_by w a4 + sum_by w a5 + sum_by w a6 =
        omega (
          arith,
          sum_by-append w (a1 ++ a2 ++ a3 ++ a4 ++ a5) a6,
          sum_by-append w (a1 ++ a2 ++ a3 ++ a4) a5,
          sum_by-append w (a1 ++ a2 ++ a3) a4,
          sum_by-append w (a1 ++ a2) a3,
          sum_by-append w a1 a2,
        ) in
      let n7 = names_once k.metric_name in
      let n8 : sum_by w a5 ≤ is_text "TOP_MOVIE_VIEWS" k.metric_name = ground arith in
      let n9 : sum_by w a6 ≤ is_text "DEVICE_EVENTS" k.metric_name = ground arith in
      subst (λ (n : ℕ). n ≤ 1) (sym sums) (omega (arith, n1, n2, n3, n4, n7, n8, n9))

module _ {F : Type 0} (quotient : ℕ → ℕ → F) (zero_float : F) where
  -- The metrics of a date have every key once at most.
  pub day_metrics_once :
      (falsy : Cell F → Bool) (date : ℕ) (c : String) (events : List MovieEvent) (k : Key)
      → key_count date k (day_metrics quotient zero_float falsy date c events) ≤ 1
  day_metrics_once falsy date c events k =
      let by_rank = λ (a b : TopMovie). leb a.rank b.rank in
      let by_device = λ (a b : String × ℕ). is_le (compare_text a.0 b.0) in
      let top = daily_top_movies date events in
      let devices = device_distribution date events in
      count-payload date k c falsy (real zero_float) whole _ _ _ _ (order_by by_rank top)
        (order_by by_device devices)
        (subst (λ (n : ℕ). n ≤ 1) (sym (sum_by-order_by _ by_rank top))
          ((daily_top_movies-IsTop date events).once k.dimension_value))
        (subst (λ (n : ℕ). n ≤ 1) (sym (sum_by-order_by _ by_device devices))
          (devices_once k.dimension_value date events))
