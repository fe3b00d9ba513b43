-- ===== src/Market/Orders/Limits.antt =====
-- The two guards on the user's history: `_check_rate_limit`, and the query for an active order in
-- `create_order`, of дз_2/app/src/main.py.
use making_soa_homework.Base.{
  ℕ, ◌+◌, ◌*◌, Bool, true, false, ◌&&◌, Option, none, some, List, [], ◌∷◌, ltb, ◌==◌, if◌then◌else◌,
}
use making_soa_homework.Base.Exec.{ok}
use making_soa_homework.Market.Models.{OperationType, UserOperation, same_type, Order, is_open}
use making_soa_homework.Market.Errors.{
  Error, api_error, order_limit_exceeded, order_has_active, Fallible, raise_if,
}
use making_soa_homework.Market.Session.{Context}

abbrev pub later : ℕ → Option ℕ → ℕ
later a none = a
later a (some b) = if ltb a b then b else a

-- The instant of the user's latest operation of the kind: `order_by(created_at.desc()).first()`.
unfoldable pub last_operation : ℕ → OperationType → List UserOperation → Option ℕ
last_operation u k [] = none
last_operation u k (op ∷ ops) =
    let rest = last_operation u k ops in
    if op.user_id == u && same_type op.operation_type k
    then some (later op.created_at rest)
    else rest

-- `timedelta(minutes=settings.order_rate_limit_minutes)`
abbrev pub rate_delta : Context → ℕ
rate_delta x = x.settings.order_rate_limit_minutes * 60000000

abbrev pub limit_exceeded : Error
limit_exceeded = api_error order_limit_exceeded 429 "Order rate limit exceeded"

-- `now - created_at < delta`, without a negative difference.
unfoldable pub check_rate_limit :
    Context → ℕ → OperationType → List UserOperation → Fallible (Unit {0})
unfolding last_operation
check_rate_limit x u k ops = elim (last_operation u k ops) [
  | none ↦ ok tt
  | some at ↦ raise_if (ltb x.now_rate (at + rate_delta x)) limit_exceeded
]

abbrev pub has_active : Error
has_active = api_error order_has_active 409 "User has active order"

unfoldable pub any_open : ℕ → List Order → Bool
any_open u [] = false
any_open u (o ∷ orders) = if o.user_id == u && is_open o.status then true else any_open u orders

unfoldable pub check_no_active : ℕ → List Order → Fallible (Unit {0})
unfolding any_open
check_no_active u orders = raise_if (any_open u orders) has_active
