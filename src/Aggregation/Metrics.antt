-- ===== src/Aggregation/Metrics.antt =====
-- Runs of `aggregate_for_date` for a date that has been aggregated before:
-- dz_5/aggregation-service/app/aggregation.py.
use making_soa_homework.Base.{ℕ, ◌≡◌, List, arith}
use making_soa_homework.Aggregation.Warehouse.{Table, read, rewrite, read-rewrite}
use making_soa_homework.Aggregation.Service.{Warehouse, rewrite_reports}

-- The reports of a day are the same in both.
abbrev pub SameReports : {F : Type 0} → ℕ → Warehouse F → Warehouse F → Type 0
SameReports day w v =
    (read day w.dau ≡ read day v.dau)
    × (read day w.avg_watch_time ≡ read day v.avg_watch_time)
    × (read day w.top_movies ≡ read day v.top_movies)
    × (read day w.conversion ≡ read day v.conversion)
    × (read day w.retention ≡ read day v.retention)
    × (read day w.devices ≡ read day v.devices)
    × (read day w.cohorts ≡ read day v.cohorts)

read_again :
    {R : Type 0} (day date : ℕ) (rows : List R) (t : Table R)
    → read day (rewrite date rows (rewrite date rows t)) ≡ read day (rewrite date rows t)
read_again day date rows t =
    ground (arith, read-rewrite day date rows (rewrite date rows t), read-rewrite day date rows t)

module _ {F : Type 0} (quotient : ℕ → ℕ → F) (zero_float : F) where
  -- To aggregate a date again changes the reports of no day.
  pub rewrite_reports-again :
      (date day : ℕ) (w : Warehouse F)
      → let w' = rewrite_reports quotient zero_float date w in
        SameReports day (rewrite_reports quotient zero_float date w') w'
  unfolding rewrite_reports
  rewrite_reports-again date day w = (
    read_again day date _ w.dau,
    read_again day date _ w.avg_watch_time,
    read_again day date _ w.top_movies,
    read_again day date _ w.conversion,
    read_again day date _ w.retention,
    read_again day date _ w.devices,
    read_again day date _ w.cohorts,
  )
