-- ===== src/Tests/Aggregation.antt =====
-- A daily payload and its upsert.
use making_soa_homework.Base.{ℕ, zero, suc, ◌≡◌, refl, Bool, true, false, some, none, List, [], ◌∷◌}
use making_soa_homework.Base.Retry.{attempts}
use making_soa_homework.Base.Exec.{ok}
use making_soa_homework.Aggregation.Payload.{Reports, MetricRow, build_metric_payload}
use making_soa_homework.Aggregation.Repository.{
  Metric, entries, put, put_all, same_key, upsert_metrics, upsert_once,
}

abbrev reports : Reports ℕ
reports = record {
  dau = some 12;
  avg_watch = none;
  conversion = none;
  retention = none;
  top_movies = ("movie-3", 7, 1) ∷ [];
  devices = ("TV", 9) ∷ [];
}

abbrev is_zero : ℕ → Bool
is_zero zero = true
is_zero (suc n) = false

abbrev payload : List (MetricRow ℕ)
payload = build_metric_payload is_zero 0 "2026-03-01" reports

-- The database is away twice.
abbrev away : ℕ → Bool
away zero = true
away (suc zero) = true
away (suc (suc n)) = false

abbrev clock : ℕ → ℕ → ℕ
clock attempt row = attempt

abbrev statements : List (Metric ℕ)
statements = elim (entries {F = ℕ} some 20 (clock 2) 0 payload) [ none ↦ [] | some ms ↦ ms ]

upsert_run : upsert_metrics some 20 away clock payload statements ≡ (ok tt, statements)
unfolding upsert_metrics attempts upsert_once entries put put_all same_key build_metric_payload
upsert_run = refl
