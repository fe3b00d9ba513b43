-- ===== src/Aggregation.antt =====
-- The daily metrics: dz_5/aggregation-service/app.
pub mod Warehouse
pub mod Queries
pub mod Payload
pub mod Repository
pub mod Upserts
pub mod Service
pub mod Exporter
pub mod Jobs
pub mod Exports
pub mod Consistency
pub mod Metrics
pub mod DayMetrics
pub mod Runs
pub mod Ranking
pub mod TopMovies
pub mod PayloadKeys
pub mod Stored
pub mod Pipeline
pub mod Redelivery
pub mod Commands
pub mod Recovery
pub mod Absent
pub mod Restart
