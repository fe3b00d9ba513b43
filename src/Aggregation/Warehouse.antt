-- ===== src/Aggregation/Warehouse.antt =====
-- The tables in ClickHouse that dz_5/aggregation-service/app/aggregation.py reads and writes. A
-- report's table is the list of its rows, each under its `metric_date`; a date is the number of its
-- day. FINAL merges the rows of one key, and a rewrite leaves one row of each.
use making_soa_homework.Base.{
  ℕ, ◌==◌, ◌≡◌, refl, not, Option, String, List, [], ◌∷◌, ◌++◌, map, select, arith, if◌then◌else◌,
}
use mathlib.Core.List.{append-nil}
use making_soa_homework.Producer.Events.{EventType, DeviceType}

-- A row of `movie_events`, without the columns that no query names.
pub record MovieEvent : Type 0 where
  pub event_date : ℕ
  pub user_id : String
  pub movie_id : String
  pub event_type : EventType
  pub device_type : DeviceType
  pub progress_seconds : Option ℕ

abbrev pub Table : Type 0 → Type 0
Table R = List (ℕ × R)

module _ {R : Type 0} where
  abbrev pub stamped : ℕ → List R → Table R
  stamped date rows = map (λ row. (date, row)) rows

  -- `SELECT … WHERE metric_date = …`
  unfoldable pub read : ℕ → Table R → List R
  read date t = map (λ row. row.1) (select (λ row. row.0 == date) t)

  -- `DELETE FROM … WHERE metric_date = …`, and then `INSERT INTO … SELECT …`.
  unfoldable pub rewrite : ℕ → List R → Table R → Table R
  unfolding read
  rewrite date rows t = select (λ row. not (row.0 == date)) t ++ stamped date rows

  pub read-append : (date : ℕ) (t u : Table R) → read date (t ++ u) ≡ read date t ++ read date u
  unfolding read select
  read-append date [] u = refl
  read-append date ((i, row) ∷ t) u = ground (arith, read-append date t u)

  pub read-stamped :
      (date day : ℕ) (rows : List R)
      → read date (stamped day rows) ≡ (if day == date then rows else [])
  unfolding read select
  read-stamped date day [] = ground arith
  read-stamped date day (row ∷ rows) = ground (arith, read-stamped date day rows)

  pub read-deleted :
      (date day : ℕ) (t : Table R)
      → read date (select (λ row. not (row.0 == day)) t) ≡ (if day == date then [] else read date t)
  unfolding read select
  read-deleted date day [] = ground arith
  read-deleted date day ((i, row) ∷ t) = ground (arith, read-deleted date day t)

  -- A rewrite replaces the rows of its date, and keeps those of the others.
  pub read-rewrite :
      (date day : ℕ) (rows : List R) (t : Table R)
      → read date (rewrite day rows t) ≡ (if day == date then rows else read date t)
  unfolding rewrite
  read-rewrite date day rows t = ground (
    arith,
    read-append date (select (λ row. not (row.0 == day)) t) (stamped day rows),
    read-stamped date day rows,
    read-deleted date day t,
    append-nil (read date t),
  )
