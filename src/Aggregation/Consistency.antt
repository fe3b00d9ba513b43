-- ===== src/Aggregation/Consistency.antt =====
-- The reports of a date fit together: dz_5/aggregation-service/app/aggregation.py.
use making_soa_homework.Base.{
  ℕ, ◌+◌, ◌≤◌, ◌≡◌, refl, Bool, String, List, [], ◌∷◌, map, select, length, arith,
}
use making_soa_homework.Base.Count.{sum_by}
use making_soa_homework.Producer.Events.{DeviceType, mobile, desktop, tv, tablet}
use making_soa_homework.Aggregation.Warehouse.{MovieEvent}
use making_soa_homework.Aggregation.Queries.{
  on_day, count_if, distinct, count_raw_rows, daily_dau, device_distribution, device_group,
  same_device, cohort, watched, returned,
}

length-select : {A : Type 0} (p : A → Bool) (l : List A) → length (select p l) ≤ length l
unfolding select
length-select p [] = omega arith
length-select p (a ∷ l) = ground (arith, length-select p l)

length-distinct : (l : List String) → length (distinct l) ≤ length l
unfolding distinct
length-distinct [] = omega arith
length-distinct (s ∷ l) = ground (arith, length-distinct l)

length-map : {A B : Type 0} (f : A → B) (l : List A) → length (map f l) ≡ length l
length-map f [] = refl
length-map f (a ∷ l) = omega (arith, length-map f l)

-- Every event has one of the four devices.
devices_count :
    (l : List MovieEvent)
    → count_if (λ e. same_device e.device_type mobile) l
        + count_if (λ e. same_device e.device_type desktop) l
        + count_if (λ e. same_device e.device_type tv) l
        + count_if (λ e. same_device e.device_type tablet) l
      ≡ length l
unfolding sum_by
devices_count [] = omega arith
devices_count (e ∷ l) = ground (arith, devices_count l)

count_if-select : (p : MovieEvent → Bool) (l : List MovieEvent) → count_if p l ≤ length l
unfolding sum_by
count_if-select p [] = omega arith
count_if-select p (e ∷ l) = ground (arith, count_if-select p l)

group_total :
    (l : List MovieEvent) (k : DeviceType) (rest : List (String × ℕ))
    → sum_by (λ (r : String × ℕ). r.1) (device_group l k rest)
      ≡ count_if (λ e. same_device e.device_type k) l + sum_by (λ (r : String × ℕ). r.1) rest
unfolding sum_by
group_total l k rest = ground arith

-- The devices' events add up to the events of the date, which are no fewer than its users; and of
-- the users whose first watch is on a date, no more return on another day than there are.
pub reports_consistent :
    (date day : ℕ) (events : List MovieEvent)
    → (sum_by (λ (r : String × ℕ). r.1) (device_distribution date events)
        ≡ count_raw_rows date events)
      × (daily_dau date events ≤ count_raw_rows date events)
      × (returned date day events ≤ length (cohort date events))
unfolding device_distribution count_raw_rows daily_dau sum_by
reports_consistent date day events =
    let today = on_day date events in
    let last = device_group today tablet [] in
    let two = device_group today tv last in
    let three = device_group today desktop two in
    (
      omega (
        arith,
        group_total today mobile three,
        group_total today desktop two,
        group_total today tv last,
        group_total today tablet [],
        devices_count today,
      ),
      omega (
        arith,
        length-distinct (map (λ (e : MovieEvent). e.user_id) today),
        length-map (λ (e : MovieEvent). e.user_id) today,
      ),
      length-select (λ u. watched u day events) (cohort date events),
    )
