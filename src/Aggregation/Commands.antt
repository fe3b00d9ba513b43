-- ===== src/Aggregation/Commands.antt =====
-- The commands to ClickHouse of `aggregate_for_date`, one by one, and a run that stops
-- between them or in the upsert: dz_5/aggregation-service/app/aggregation.py.
use making_soa_homework.Base.{
  ℕ, zero, suc, not, ◌==◌, Bool, Option, String, List, [], ◌∷◌, ◌++◌, select,
}
use making_soa_homework.Aggregation.Warehouse.{Table, stamped}
use making_soa_homework.Aggregation.Queries.{
  daily_dau, daily_avg_watch_time, daily_top_movies, daily_conversion, daily_retention,
  device_distribution, retention_cohorts,
}
use making_soa_homework.Aggregation.Repository.{Metric, upsert_metrics}
use making_soa_homework.Aggregation.Service.{Warehouse, Cell, metrics_of}

pub data ReportTable : Type 0 where
  dau avg_watch_time top_movies conversion retention devices cohorts : ReportTable

pub data Command : Type 0 where
  delete insert : ReportTable → Command

-- In the order of the code.
abbrev pub commands : List Command
commands =
    delete dau
    ∷ insert dau
    ∷ delete avg_watch_time
    ∷ insert avg_watch_time
    ∷ delete top_movies
    ∷ insert top_movies
    ∷ delete conversion
    ∷ insert conversion
    ∷ delete retention
    ∷ insert retention
    ∷ delete devices
    ∷ insert devices
    ∷ delete cohorts
    ∷ insert cohorts
    ∷ []

-- Where a run stops: after `k` commands that are done, because the next one or a query of the payload
-- raises or the process ends; or after all of them, in the upsert or behind it. There the database
-- has failed in some of the attempts: in all of them, if the run stops before one is committed.
pub data Stop : Type 0 where
  in_reports : ℕ → Stop
  in_upsert : (ℕ → Bool) → (ℕ → ℕ → ℕ) → Stop

-- `DELETE FROM … WHERE metric_date = …`
unfoldable pub without : {R : Type 0} → ℕ → Table R → Table R
without date t = select (λ row. not (row.0 == date)) t

-- `INSERT INTO … SELECT …`
unfoldable pub with_rows : {R : Type 0} → ℕ → List R → Table R → Table R
with_rows date rows t = t ++ stamped date rows

module _ {F : Type 0} (quotient : ℕ → ℕ → F) (zero_float : F) where
  unfoldable pub execute : ℕ → Command → Warehouse F → Warehouse F
  execute date (delete dau) w = record w { dau = without date w.dau }
  execute date (delete avg_watch_time) w = record w {
    avg_watch_time = without date w.avg_watch_time;
  }
  execute date (delete top_movies) w = record w { top_movies = without date w.top_movies }
  execute date (delete conversion) w = record w { conversion = without date w.conversion }
  execute date (delete retention) w = record w { retention = without date w.retention }
  execute date (delete devices) w = record w { devices = without date w.devices }
  execute date (delete cohorts) w = record w { cohorts = without date w.cohorts }
  execute date (insert dau) w = record w {
    dau = with_rows date (daily_dau date w.movie_events ∷ []) w.dau;
  }
  execute date (insert avg_watch_time) w = record w {
    avg_watch_time =
        with_rows date (daily_avg_watch_time quotient zero_float date w.movie_events ∷ [])
          w.avg_watch_time;
  }
  execute date (insert top_movies) w = record w {
    top_movies = with_rows date (daily_top_movies date w.movie_events) w.top_movies;
  }
  execute date (insert conversion) w = record w {
    conversion =
        with_rows date (daily_conversion quotient zero_float date w.movie_events ∷ []) w.conversion;
  }
  execute date (insert retention) w = record w {
    retention =
        with_rows date (daily_retention quotient zero_float date w.movie_events ∷ []) w.retention;
  }
  execute date (insert devices) w = record w {
    devices = with_rows date (device_distribution date w.movie_events) w.devices;
  }
  execute date (insert cohorts) w = record w {
    cohorts = with_rows date (retention_cohorts quotient zero_float date w.movie_events) w.cohorts;
  }

  -- The first `k` of the commands.
  unfoldable pub execute_first : ℕ → ℕ → List Command → Warehouse F → Warehouse F
  execute_first k date [] w = w
  execute_first zero date (c ∷ rest) w = w
  execute_first (suc k) date (c ∷ rest) w = execute_first k date rest (execute date c w)

  -- What a run that stops leaves in the warehouse and in the table of metrics. A command that raises
  -- has done nothing.
  unfoldable pub aggregate_interrupted :
      (Cell F → Bool)
      → (Cell F → Option F)
      → ℕ
      → String
      → Stop
      → Warehouse F × List (Metric F)
      → Warehouse F × List (Metric F)
  aggregate_interrupted falsy float date computed_at (in_reports k) (w, t) =
      (execute_first k date commands w, t)
  aggregate_interrupted falsy float date computed_at (in_upsert down now) (w, t) =
      let w' = execute_first 14 date commands w in
      let metrics = metrics_of quotient zero_float falsy date computed_at w' in
      (w', (upsert_metrics float date down now metrics t).1)
