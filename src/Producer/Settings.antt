-- ===== src/Producer/Settings.antt =====
-- The settings of the producer: dz_5/producer-service/app/config.py. A number of seconds is a number
-- of milliseconds.
use making_soa_homework.Base.{ℕ, Bool, false, String}

pub record Settings : Type 0 where
  pub app_host : String
  pub app_port : ℕ
  pub kafka_bootstrap_servers : String
  pub schema_registry_url : String
  pub kafka_topic : String
  pub kafka_acks : String
  pub producer_partition_key : String
  pub generator_enabled : Bool
  pub generator_interval_seconds : ℕ

-- The defaults, for the two settings that have none.
abbrev pub defaults : String → String → Settings
defaults kafka_bootstrap_servers schema_registry_url = record {
  app_host = "0.0.0.0";
  app_port = 8000;
  kafka_bootstrap_servers = kafka_bootstrap_servers;
  schema_registry_url = schema_registry_url;
  kafka_topic = "movie-events";
  kafka_acks = "all";
  producer_partition_key = "user_id";
  generator_enabled = false;
  generator_interval_seconds = 1500;
}
