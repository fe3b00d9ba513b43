-- ===== src/Aggregation/Jobs.antt =====
-- The endpoints and the scheduled jobs: dz_5/aggregation-service/app/main.py and scheduler.py. A date
-- is the number of its day, and `today` the day of `datetime.now(timezone.utc)`.
use making_soa_homework.Base.{ℕ, ◌-◌, Bool, Option, none, some, String, List, [], ◌∷◌}
use making_soa_homework.Base.Exec.{Result, ok, err, Exec}
use making_soa_homework.Aggregation.Service.{AggregationResult}

pub record JobResponse : Type 0 where
  pub status : String
  pub metric_date : ℕ
  pub processed_rows : Option ℕ
  pub metrics_written : Option ℕ
  pub s3_key : Option String

-- `target_date or (datetime.now(timezone.utc) - timedelta(days=1)).date()`
abbrev pub target : Option ℕ → ℕ → ℕ
target none today = today - 1
target (some date) today = date

module _ {E S : Type 0} (aggregate_for_date : ℕ → Exec E S AggregationResult) where
  abbrev aggregate_response : AggregationResult → JobResponse
  aggregate_response result = record {
    status = "ok";
    metric_date = result.metric_date;
    processed_rows = some result.processed_rows;
    metrics_written = some result.metrics_written;
    s3_key = none;
  }

  abbrev answered : Result E AggregationResult × S → Result E JobResponse × S
  answered (ok result, s) = (ok (aggregate_response result), s)
  answered (err e, s) = (err e, s)

  -- `POST /aggregate`
  unfoldable pub aggregate : Option ℕ → ℕ → Exec E S JobResponse
  aggregate target_date today s = answered (aggregate_for_date (target target_date today) s)

  -- The job of the scheduler.
  unfoldable pub aggregate_latest : ℕ → S → S
  aggregate_latest today s = (aggregate_for_date (today - 1) s).1

module _ {E S : Type 0} (export_for_date : ℕ → Exec E S String) where
  abbrev exported : ℕ → Result E String × S → Result E JobResponse × S
  exported date (ok key, s) = (
    ok (record {
      status = "ok";
      metric_date = date;
      processed_rows = none;
      metrics_written = none;
      s3_key = some key;
    }),
    s,
  )
  exported date (err e, s) = (err e, s)

  -- `POST /export`
  unfoldable pub export : Option ℕ → ℕ → Exec E S JobResponse
  export target_date today s =
      let date = target target_date today in exported date (export_for_date date s)

  unfoldable pub export_latest : ℕ → S → S
  export_latest today s = (export_for_date (today - 1) s).1

-- A job of the scheduler, with its trigger.
pub record Job (S : Type 0) : Type 0 where
  pub id : String
  pub interval_minutes : ℕ
  pub run : ℕ → S → S

-- The jobs of `build_scheduler`; `run` takes the day of the clock.
abbrev pub build_scheduler :
    {E G S : Type 0}
    → (ℕ → Exec E S AggregationResult)
    → (ℕ → Exec G S String)
    → ℕ
    → ℕ
    → List (Job S)
build_scheduler aggregate_for_date export_for_date aggregation_minutes export_minutes =
    record {
      id = "aggregate-latest";
      interval_minutes = aggregation_minutes;
      run = aggregate_latest aggregate_for_date;
    }
    ∷ record {
      id = "export-latest";
      interval_minutes = export_minutes;
      run = export_latest export_for_date;
    }
    ∷ []

-- The settings of dz_5/aggregation-service/app/config.py.
pub record Settings : Type 0 where
  pub app_host : String
  pub app_port : ℕ
  pub clickhouse_url : String
  pub clickhouse_user : String
  pub clickhouse_password : String
  pub clickhouse_database : String
  pub postgres_dsn : String
  pub aggregation_schedule_minutes : ℕ
  pub export_schedule_minutes : ℕ
  pub minio_endpoint : String
  pub minio_access_key : String
  pub minio_secret_key : String
  pub minio_bucket : String
  pub minio_secure : Bool

-- The scheduler of main.py.
abbrev pub scheduler :
    {E G S : Type 0}
    → (ℕ → Exec E S AggregationResult)
    → (ℕ → Exec G S String)
    → Settings
    → List (Job S)
scheduler aggregate_for_date export_for_date settings =
    build_scheduler aggregate_for_date export_for_date settings.aggregation_schedule_minutes
      settings.export_schedule_minutes
