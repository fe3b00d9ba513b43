-- ===== src/Migrations/DailyMetrics.antt =====
-- The table of metrics:
-- dz_5/aggregation-service/alembic/versions/5e2007233592_create_daily_metrics.py.
use making_soa_homework.Base.{false, none, some, String, Option, List, [], ◌∷◌}
use making_soa_homework.Migrations.{
  ColumnType, timestamp_tz, unbounded_text, double_type, date, jsonb, Column, TableDef, Index,
  Operation, create_table, create_index, drop_table, drop_index,
}

abbrev metric_column : String → ColumnType → Option String → Column
metric_column name kind value = record {
  name = name;
  kind = kind;
  nullable = false;
  server_default = value;
}

abbrev pub daily_metrics : TableDef
daily_metrics = record {
  name = "daily_metrics";
  columns =
      metric_column "metric_date" date none
      ∷ metric_column "metric_name" unbounded_text none
      ∷ metric_column "dimension_key" unbounded_text (some "")
      ∷ metric_column "dimension_value" unbounded_text (some "")
      ∷ metric_column "metric_value" double_type none
      ∷ metric_column "computed_at" timestamp_tz (some "NOW()")
      ∷ metric_column "metadata" jsonb (some "'{}'::jsonb")
      ∷ [];
  primary_key = "metric_date" ∷ "metric_name" ∷ "dimension_key" ∷ "dimension_value" ∷ [];
  unique = [];
  foreign_keys = [];
}

abbrev pub idx_daily_metrics_lookup : Index
idx_daily_metrics_lookup = record {
  name = "idx_daily_metrics_lookup";
  table = "daily_metrics";
  columns = "metric_date" ∷ "metric_name" ∷ [];
  unique = false;
}

unfoldable pub upgrade : List Operation
upgrade = create_table daily_metrics ∷ create_index idx_daily_metrics_lookup ∷ []

unfoldable pub downgrade : List Operation
downgrade = drop_index "idx_daily_metrics_lookup" ∷ drop_table "daily_metrics" ∷ []
