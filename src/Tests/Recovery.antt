-- ===== src/Tests/Recovery.antt =====
-- A day whose first run stopped behind the upsert, and whose second one found PostgreSQL down twice.
use making_soa_homework.Base.{[], some, refl, arith}
use making_soa_homework.Aggregation.Service.{aggregate_for_date}
use making_soa_homework.Aggregation.Commands.{in_upsert, aggregate_interrupted}
use making_soa_homework.Aggregation.Restart.{Recovered, aggregate_interrupted-Recovered}
use making_soa_homework.Tests.Reports.{percent, bare, cell_value, truthy, down_twice, never, clock}

aggregate_interrupted-Recovered_example :
    Recovered percent 0 cell_value truthy 20 "2026-03-02" bare [] (
      aggregate_for_date percent 0 truthy
        (λ c. some (cell_value c))
        20
        "2026-03-02"
        down_twice
        clock
        (aggregate_interrupted percent 0 truthy
          (λ c. some (cell_value c))
          20
          "2026-03-01"
          (in_upsert never clock)
          (bare, [])))
aggregate_interrupted-Recovered_example =
    aggregate_interrupted-Recovered percent 0 cell_value truthy 20 "2026-03-02" bare [] "2026-03-01"
      (in_upsert never clock) down_twice clock 2 (omega arith) refl
