-- ===== src/Market/Session.antt =====
-- One request and its SQLAlchemy session (дз_2/app/src/core/db.py and the transaction contexts of
-- дз_2/app/src/main.py). The session works on `pending`; other requests see `committed`. Closing
-- the session drops what was not committed. Requests run one after another.
pub mod Outcome
use making_soa_homework.Base.{ℕ, String, Option, Bool, true, false, none, some, if◌then◌else◌}
use making_soa_homework.Base.Exec.{Result, ok, err, Exec}
use making_soa_homework.Market.Models.{Db}
use making_soa_homework.Market.Errors.{Error, database_error, Fallible}

-- `core.config.Settings`, the fields that the handlers read.
pub record Settings : Type 0 where
  pub jwt_secret_key : String
  pub jwt_refresh_secret_key : String
  pub access_token_expires_minutes : ℕ
  pub refresh_token_expires_days : ℕ
  pub order_rate_limit_minutes : ℕ

-- What a request reads from outside: the settings, `datetime.now` at the rate limit and at the
-- promo code, `now()` of the database, the draws of `uuid4`, and what a NUMERIC(12, 2) column
-- keeps of an exact amount (`none`: out of range, the flush is refused).
pub record Context : Type 0 where
  pub settings : Settings
  pub now_rate : ℕ
  pub now_promo : ℕ
  pub db_now : ℕ
  pub new_id : ℕ → ℕ
  pub numeric : ℕ → Option ℕ

-- The cents that the column keeps, at the flush.
abbrev pub stored : Context → ℕ → Fallible ℕ
stored x m = elim (x.numeric m) [ none ↦ err database_error | some c ↦ ok c ]

pub record Session : Type 0 where
  pub committed : Db
  pub pending : Db
  pub in_transaction : Bool

-- A part of a handler that cannot commit.
abbrev pub Body : Type 0 → Type 0
Body A = Exec Error Db A

abbrev pub Handler : Type 0 → Type 0
Handler A = Exec Error Session A

abbrev pub commit : Session → Session
commit s = record s { committed = s.pending; in_transaction = false }

module _ {A : Type 0} where
  -- A query, which begins a transaction if none is active, and what the code raises on its rows.
  unfoldable pub query : (Db → Fallible A) → Handler A
  query f s = (f s.pending, record s { in_transaction = true })

  abbrev pub flushed : Session → Result Error A × Db → Result Error A × Session
  flushed s (ok a, d) = (ok a, commit (record s { pending = d }))
  flushed s (err e, d) = (err e, record s { pending = d; in_transaction = true })

  -- Writes, and then `db.commit()`.
  unfoldable pub and_commit : Body A → Handler A
  and_commit body s = flushed s (body s.pending)

  -- `begin_nested()`: an exception takes the session back to the savepoint, and the code commits
  -- after the block.
  abbrev pub nested : Session → Result Error A × Db → Result Error A × Session
  nested s (ok a, d) = (ok a, commit (record s { pending = d }))
  nested s (err e, d) = (err e, s)

  -- `begin()`: the block commits at its end, and an exception rolls the transaction back.
  abbrev pub begun : Session → Result Error A × Db → Result Error A × Session
  begun s (ok a, d) = (ok a, record { committed = d; pending = d; in_transaction = false })
  begun s (err e, d) =
      (err e, record { committed = s.committed; pending = s.committed; in_transaction = false })

  -- `with transaction_context: body`
  unfoldable pub with_transaction : Body A → Handler A
  with_transaction body s =
      let r = body s.pending in if s.in_transaction then nested s r else begun s r

  -- The request: the session is opened, `get_current_user` has queried it, and it is closed behind
  -- the handler.
  unfoldable pub respond : Handler A → Db → Result Error A × Db
  respond h db =
      let (r, s) = h (record { committed = db; pending = db; in_transaction = true }) in
      (r, s.committed)
