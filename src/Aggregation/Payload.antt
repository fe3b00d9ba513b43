-- ===== src/Aggregation/Payload.antt =====
-- `_build_metric_payload` of `AggregationService`: dz_5/aggregation-service/app/aggregation.py. The
-- rows that the queries return are an argument.
use making_soa_homework.Base.{
  ℕ, Bool, Option, none, some, List, [], ◌∷◌, ◌++◌, map, String, if◌then◌else◌,
}

pub record Metadata : Type 0 where
  pub rank : Option ℕ
  pub computed_at : String

-- One dictionary of the payload; `none` is a key that it has not.
pub record MetricRow (C : Type 0) : Type 0 where
  pub metric_name : String
  pub dimension_key : Option String
  pub dimension_value : Option String
  pub metric_value : C
  pub metadata : Metadata

-- The first row of the four small tables for the date, if there is one, and the rows of the two
-- large ones. `C` is a cell.
pub record Reports (C : Type 0) : Type 0 where
  pub dau : Option C
  pub avg_watch : Option C
  pub conversion : Option (C × C × C)
  pub retention : Option (C × C)
  pub top_movies : List (String × C × ℕ)
  pub devices : List (String × C)

module _ {C : Type 0} where
  abbrev pub metric : String → String → C → MetricRow C
  metric computed_at name value = record {
    metric_name = name;
    dimension_key = none;
    dimension_value = none;
    metric_value = value;
    metadata = record { rank = none; computed_at = computed_at };
  }

  abbrev pub movie_row : String → String × C × ℕ → MetricRow C
  movie_row computed_at (movie_id, views, rank) = record {
    metric_name = "TOP_MOVIE_VIEWS";
    dimension_key = some "movie_id";
    dimension_value = some movie_id;
    metric_value = views;
    metadata = record { rank = some rank; computed_at = computed_at };
  }

  abbrev pub device_row : String → String × C → MetricRow C
  device_row computed_at (device_type, events) = record {
    metric_name = "DEVICE_EVENTS";
    dimension_key = some "device_type";
    dimension_value = some device_type;
    metric_value = events;
    metadata = record { rank = none; computed_at = computed_at };
  }

  abbrev pub dau_rows : String → Option C → List (MetricRow C)
  dau_rows computed_at none = []
  dau_rows computed_at (some v) = metric computed_at "DAU" v ∷ []

  -- `avg_watch[0][0] or 0.0`
  abbrev pub watch_rows : (C → Bool) → C → String → Option C → List (MetricRow C)
  watch_rows falsy zero computed_at none = []
  watch_rows falsy zero computed_at (some v) =
      metric computed_at "AVG_WATCH_SECONDS" (if falsy v then zero else v) ∷ []

  abbrev pub conversion_rows : String → Option (C × C × C) → List (MetricRow C)
  conversion_rows computed_at none = []
  conversion_rows computed_at (some (started, finished, rate)) =
      metric computed_at "VIEW_STARTED" started
      ∷ metric computed_at "VIEW_FINISHED" finished
      ∷ metric computed_at "CONVERSION_RATE" rate
      ∷ []

  abbrev pub retention_rows : String → Option (C × C) → List (MetricRow C)
  retention_rows computed_at none = []
  retention_rows computed_at (some (d1, d7)) =
      metric computed_at "RETENTION_D1" d1 ∷ metric computed_at "RETENTION_D7" d7 ∷ []

  -- `falsy` is Python's test of a cell, and `zero` the cell `0.0`.
  unfoldable pub build_metric_payload : (C → Bool) → C → String → Reports C → List (MetricRow C)
  build_metric_payload falsy zero computed_at r =
      dau_rows computed_at r.dau
      ++ watch_rows falsy zero computed_at r.avg_watch
      ++ conversion_rows computed_at r.conversion
      ++ retention_rows computed_at r.retention
      ++ map (movie_row computed_at) r.top_movies
      ++ map (device_row computed_at) r.devices
