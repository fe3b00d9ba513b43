-- ===== src/Aggregation/Recovery.antt =====
-- What the commands of a run of `aggregate_for_date` that stops leave for the next one:
-- dz_5/aggregation-service/app/aggregation.py.
use mathlib.Core.List.{append-nil}
use making_soa_homework.Base.{
  String, ℕ, zero, suc, ◌==◌, ◌≡◌, ◌∙◌, refl, ap, false, List, [], ◌∷◌, ◌++◌, arith,
}
use making_soa_homework.Aggregation.Warehouse.{
  Table, read, rewrite, stamped, read-rewrite, read-append, read-stamped, read-deleted,
}
use making_soa_homework.Aggregation.Queries.{
  TopMovie, CohortDay, daily_dau, daily_avg_watch_time, daily_top_movies, daily_conversion,
  daily_retention, device_distribution, retention_cohorts,
}
use making_soa_homework.Aggregation.Service.{Warehouse, rewrite_reports}
use making_soa_homework.Aggregation.Metrics.{SameReports}
use making_soa_homework.Aggregation.Commands.{
  Command, delete, insert, dau, avg_watch_time, top_movies, conversion, retention, devices, cohorts,
  commands, without, with_rows, execute, execute_first,
}

-- The rows of all days but the date are the same.
abbrev SameOutside : {R : Type 0} → ℕ → Table R → Table R → Type 0
SameOutside date t u = (day : ℕ) → (date == day) ≡ false → read day u ≡ read day t

without-SameOutside :
    {R : Type 0} (date : ℕ) (t u : Table R)
    → SameOutside date t u
    → SameOutside date t (without date u)
unfolding without
without-SameOutside date t u same day other =
    ground (arith, read-deleted day date u, same day other)

with_rows-SameOutside :
    {R : Type 0} (date : ℕ) (rows : List R) (t u : Table R)
    → SameOutside date t u
    → SameOutside date t (with_rows date rows u)
unfolding with_rows
with_rows-SameOutside date rows t u same day other =
    let nothing : read day (stamped date rows) ≡ [] = read-stamped day date rows ∙ rw other refl in
    read-append day u (stamped date rows)
    ∙ ap (λ l. read day u ++ l) nothing
    ∙ append-nil (read day u)
    ∙ same day other

-- A rewrite of the date makes the tables agree.
rewritten :
    {R : Type 0} (date day : ℕ) (rows rows' : List R) (t u : Table R)
    → rows' ≡ rows
    → SameOutside date t u
    → read day (rewrite date rows' u) ≡ read day (rewrite date rows t)
rewritten date day rows rows' t u equal same =
    rw equal (ground (arith, read-rewrite day date rows u, read-rewrite day date rows t, same day))

module _ {F : Type 0} (quotient : ℕ → ℕ → F) (zero_float : F) where
  -- What the commands of a run keep, whichever of them are done.
  abbrev Keeps : ℕ → Warehouse F → Warehouse F → Type 0
  Keeps date w v =
      (v.movie_events ≡ w.movie_events)
      × SameOutside date w.dau v.dau
      × SameOutside date w.avg_watch_time v.avg_watch_time
      × SameOutside date w.top_movies v.top_movies
      × SameOutside date w.conversion v.conversion
      × SameOutside date w.retention v.retention
      × SameOutside date w.devices v.devices
      × SameOutside date w.cohorts v.cohorts

  Keeps-refl : (date : ℕ) (w : Warehouse F) → Keeps date w w
  Keeps-refl date w = (
    refl,
    λ day e. refl,
    λ day e. refl,
    λ day e. refl,
    λ day e. refl,
    λ day e. refl,
    λ day e. refl,
    λ day e. refl,
  )

  -- A change of one report.
  module _ (date : ℕ) (w v : Warehouse F) (k : Keeps date w v) where
    in_dau : (u : Table ℕ) → SameOutside date w.dau u → Keeps date w (record v { dau = u })
    in_dau u h = (k.0, h, k.2, k.3, k.4, k.5, k.6, k.7)

    in_avg_watch_time :
        (u : Table F)
        → SameOutside date w.avg_watch_time u
        → Keeps date w (record v { avg_watch_time = u })
    in_avg_watch_time u h = (k.0, k.1, h, k.3, k.4, k.5, k.6, k.7)

    in_top_movies :
        (u : Table TopMovie)
        → SameOutside date w.top_movies u
        → Keeps date w (record v { top_movies = u })
    in_top_movies u h = (k.0, k.1, k.2, h, k.4, k.5, k.6, k.7)

    in_conversion :
        (u : Table (ℕ × ℕ × F))
        → SameOutside date w.conversion u
        → Keeps date w (record v { conversion = u })
    in_conversion u h = (k.0, k.1, k.2, k.3, h, k.5, k.6, k.7)

    in_retention :
        (u : Table (F × F))
        → SameOutside date w.retention u
        → Keeps date w (record v { retention = u })
    in_retention u h = (k.0, k.1, k.2, k.3, k.4, h, k.6, k.7)

    in_devices :
        (u : Table (String × ℕ))
        → SameOutside date w.devices u
        → Keeps date w (record v { devices = u })
    in_devices u h = (k.0, k.1, k.2, k.3, k.4, k.5, h, k.7)

    in_cohorts :
        (u : Table (CohortDay F))
        → SameOutside date w.cohorts u
        → Keeps date w (record v { cohorts = u })
    in_cohorts u h = (k.0, k.1, k.2, k.3, k.4, k.5, k.6, h)

  execute-Keeps :
      (date : ℕ) (c : Command) (w v : Warehouse F)
      → Keeps date w v
      → Keeps date w (execute quotient zero_float date c v)
  unfolding execute
  execute-Keeps date (delete dau) w v k =
      in_dau date w v k _ (without-SameOutside date w.dau v.dau k.1)
  execute-Keeps date (delete avg_watch_time) w v k =
      in_avg_watch_time date w v k _
        (without-SameOutside date w.avg_watch_time v.avg_watch_time k.2)
  execute-Keeps date (delete top_movies) w v k =
      in_top_movies date w v k _ (without-SameOutside date w.top_movies v.top_movies k.3)
  execute-Keeps date (delete conversion) w v k =
      in_conversion date w v k _ (without-SameOutside date w.conversion v.conversion k.4)
  execute-Keeps date (delete retention) w v k =
      in_retention date w v k _ (without-SameOutside date w.retention v.retention k.5)
  execute-Keeps date (delete devices) w v k =
      in_devices date w v k _ (without-SameOutside date w.devices v.devices k.6)
  execute-Keeps date (delete cohorts) w v k =
      in_cohorts date w v k _ (without-SameOutside date w.cohorts v.cohorts k.7)
  execute-Keeps date (insert dau) w v k =
      in_dau date w v k _ (with_rows-SameOutside date _ w.dau v.dau k.1)
  execute-Keeps date (insert avg_watch_time) w v k =
      in_avg_watch_time date w v k _
        (with_rows-SameOutside date _ w.avg_watch_time v.avg_watch_time k.2)
  execute-Keeps date (insert top_movies) w v k =
      in_top_movies date w v k _ (with_rows-SameOutside date _ w.top_movies v.top_movies k.3)
  execute-Keeps date (insert conversion) w v k =
      in_conversion date w v k _ (with_rows-SameOutside date _ w.conversion v.conversion k.4)
  execute-Keeps date (insert retention) w v k =
      in_retention date w v k _ (with_rows-SameOutside date _ w.retention v.retention k.5)
  execute-Keeps date (insert devices) w v k =
      in_devices date w v k _ (with_rows-SameOutside date _ w.devices v.devices k.6)
  execute-Keeps date (insert cohorts) w v k =
      in_cohorts date w v k _ (with_rows-SameOutside date _ w.cohorts v.cohorts k.7)

  execute_first-Keeps :
      (k date : ℕ) (l : List Command) (w v : Warehouse F)
      → Keeps date w v
      → Keeps date w (execute_first quotient zero_float k date l v)
  unfolding execute_first
  execute_first-Keeps k date [] w v same = same
  execute_first-Keeps zero date (c ∷ l) w v same = same
  execute_first-Keeps (suc k) date (c ∷ l) w v same =
      execute_first-Keeps k date l w (execute quotient zero_float date c v)
        (execute-Keeps date c w v same)

  -- The fourteen commands are the seven rewrites.
  pub execute_all :
      (date : ℕ) (w : Warehouse F)
      → execute_first quotient zero_float 14 date commands w
        ≡ rewrite_reports quotient zero_float date w
  unfolding execute_first execute without with_rows rewrite_reports rewrite
  execute_all date w = refl

  -- After some of the commands of a date, the events are as before, and the rewrites of the date make
  -- the reports of every day as without those commands.
  pub execute_first-recovers :
      (k date : ℕ) (w : Warehouse F)
      → let v = execute_first quotient zero_float k date commands w in
        (v.movie_events ≡ w.movie_events)
        × ((day : ℕ)
            → SameReports day
                (rewrite_reports quotient zero_float date v)
                (rewrite_reports quotient zero_float date w))
  unfolding rewrite_reports
  execute_first-recovers k date w =
      let v = execute_first quotient zero_float k date commands w in
      let same = execute_first-Keeps k date commands w w (Keeps-refl date w) in
      (
        same.0,
        λ day. (
          rewritten date day _ _ w.dau v.dau (ap (λ e. daily_dau date e ∷ []) same.0) same.1,
          rewritten date day _ _ w.avg_watch_time v.avg_watch_time
              (ap (λ e. daily_avg_watch_time quotient zero_float date e ∷ []) same.0) same.2,
          rewritten date day _ _ w.top_movies v.top_movies
              (ap (λ e. daily_top_movies date e) same.0) same.3,
          rewritten date day _ _ w.conversion v.conversion
              (ap (λ e. daily_conversion quotient zero_float date e ∷ []) same.0) same.4,
          rewritten date day _ _ w.retention v.retention
              (ap (λ e. daily_retention quotient zero_float date e ∷ []) same.0) same.5,
          rewritten date day _ _ w.devices v.devices (ap (λ e. device_distribution date e) same.0)
              same.6,
          rewritten date day _ _ w.cohorts v.cohorts
              (ap (λ e. retention_cohorts quotient zero_float date e) same.0) same.7,
        ),
      )
