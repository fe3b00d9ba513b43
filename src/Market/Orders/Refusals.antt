-- ===== src/Market/Orders/Refusals.antt =====
-- The requests on orders that are refused, and with which error.
use making_soa_homework.Base.{
  ℕ, ◌+◌, ◌<◌, ◌≡◌, ◌≢◌, ◌∙◌, ap, sym, inl, inr, Option-cases, refl, true, some, List, ◌∷◌, arith,
}
use making_soa_homework.Base.Table.{find, find-modify_const, key-find}
use making_soa_homework.Base.Exec.{Result, ok, err, ◌>>=◌}
use making_soa_homework.Market.Models.{
  role_user, OperationType, UserOperation, User, Order, Db, OrderCreateRequest, OrderUpdateRequest,
  order_key,
}
use making_soa_homework.Market.Errors.{Error}
use making_soa_homework.Market.Session.{Context, respond}
use making_soa_homework.Market.Session.Outcome.{
  respond_block-ok, respond_block_raises, respond-query, respond-loaded-ok, respond-loaded_unread,
  respond-loaded_unfit,
}
use making_soa_homework.Market.Access.{
  require_order_owner, ownership_violation, has_role, customers, respond-as_role,
  respond-as_role-ok, respond-as_role-allowed,
}
use making_soa_homework.Market.Orders.{
  invalid_transition, own_order, create_body, create_order, get_order, update_order, cancel_order,
  canceled_order, cancel_body,
}
use making_soa_homework.Market.Orders.Limits.{
  last_operation, rate_delta, limit_exceeded, check_rate_limit,
}
use making_soa_homework.Market.Orders.Frame.{cancel_body-tables}
use making_soa_homework.Market.Orders.Outcome.{create_body-ok}

-- A customer is let through to the handler.
customer_passes : (user : User) → user.role ≡ role_user → has_role customers user.role ≡ true
unfolding has_role
customer_passes user h = ground arith

foreign_own_order :
    (user : User) (id : ℕ) (d : Db) (o : Order)
    → user.role ≡ role_user
    → find order_key id d.orders ≡ some o
    → o.user_id ≢ user.id
    → own_order user id d ≡ err ownership_violation
unfolding own_order require_order_owner
foreign_own_order user id d o r here other = ground arith

-- A customer who asks for, updates or cancels the order of someone else is answered with 403
-- ORDER_OWNERSHIP_VIOLATION, and nothing changes.
pub foreign_order :
    (x : Context) (user : User) (id : ℕ) (payload : OrderUpdateRequest) (d : Db) (o : Order)
    → user.role ≡ role_user
    → find order_key id d.orders ≡ some o
    → o.user_id ≢ user.id
    → (respond (get_order user id) d ≡ (err ownership_violation, d))
      × (respond (update_order x user id payload) d ≡ (err ownership_violation, d))
      × (respond (cancel_order x user id) d ≡ (err ownership_violation, d))
unfolding get_order update_order cancel_order
foreign_order x user id payload d o r here other =
    let refused = foreign_own_order user id d o r here other in
    let pass = customer_passes user r in
    (
      respond-as_role customers user _ d ∙ rw pass (respond-query _ d ∙ rw refused),
      respond-as_role customers user _ d ∙ rw pass (respond-loaded_unread _ _ _ d refused),
      respond-as_role customers user _ d ∙ rw pass (respond-loaded_unread _ _ _ d refused),
    )

-- The order is still its owner's after the cancellation, and is not open.
canceled_own_order :
    (x : Context) (user : User) (id : ℕ) (order : Order) (d : Db)
    → own_order user id d ≡ ok order
    → own_order user id (cancel_body x order d).1 ≡ ok (canceled_order x order)
unfolding own_order require_order_owner
canceled_own_order x user id order d h =
    rw (cancel_body-tables x order d).1 (elim (Option-cases (find order_key id d.orders)) [
      | inl absent ↦ ground arith
      | inr (o, here) ↦ ground (
        arith,
        key-find order_key id d.orders here,
        find-modify_const order_key order.id id (canceled_order x order) d.orders refl,
      )
    ])

recent :
    (x : Context) (u : ℕ) (op : UserOperation) (ops : List UserOperation)
    → op.user_id ≡ u
    → op.operation_type ≡ OperationType.create_order
    → x.now_rate < op.created_at + rate_delta x
    → check_rate_limit x u OperationType.create_order (op ∷ ops) ≡ err limit_exceeded
unfolding check_rate_limit last_operation
recent x u op ops mine kind soon = ground arith

limited_body :
    (x : Context) (user : User) (payload : OrderCreateRequest) (d : Db)
    → check_rate_limit x user.id OperationType.create_order d.user_operations ≡ err limit_exceeded
    → (create_body x user payload d).0 ≡ err limit_exceeded
unfolding create_body ◌>>=◌
limited_body x user payload d h = rw h

-- Once a cancellation has been answered, the same user can neither cancel nor update the order:
-- both are answered with 409 INVALID_STATE_TRANSITION, and nothing changes.
pub cancel_order-final :
    (x x' : Context) (user : User) (id : ℕ) (payload : OrderUpdateRequest) (d : Db) (o : Order)
    (d' : Db)
    → respond (cancel_order x user id) d ≡ (ok o, d')
    → (respond (cancel_order x' user id) d' ≡ (err invalid_transition, d'))
      × (respond (update_order x' user id payload) d' ≡ (err invalid_transition, d'))
unfolding update_order cancel_order
cancel_order-final x x' user id payload d o d' h =
    let inside = respond-as_role-ok customers user _ d h in
    let (order, read, fit, done) = respond-loaded-ok _ _ _ d inside in
    let after : d' ≡ (cancel_body x order d).1 =
      ap (λ (r : Result Error Order × Db). r.1) (sym done) in
    let again = canceled_own_order x user id order d read in
    let pass = respond-as_role-allowed customers user _ d h in
    rw after (
      respond-as_role customers user _ _ ∙ rw pass (respond-loaded_unfit _ _ _ _ again refl),
      respond-as_role customers user _ _ ∙ rw pass (respond-loaded_unfit _ _ _ _ again refl),
    )

-- A customer who has just made an order and asks for another one before the rate limit has passed,
-- counted from the instant that the database stored, is answered with 429 ORDER_LIMIT_EXCEEDED, and
-- nothing changes.
pub create_order-rate_limit :
    (x x' : Context) (user : User) (payload payload' : OrderCreateRequest) (d : Db) (o : Order)
    (d' : Db)
    → respond (create_order x user payload) d ≡ (ok o, d')
    → x'.now_rate < x.db_now + rate_delta x'
    → respond (create_order x' user payload') d' ≡ (err limit_exceeded, d')
unfolding create_order
create_order-rate_limit x x' user payload payload' d o d' h soon =
    let inside = respond-as_role-ok customers user _ d h in
    let c = create_body-ok x user payload d o d' (respond_block-ok _ d inside) in
    let pass = respond-as_role-allowed customers user _ d h in
    respond-as_role customers user _ d'
    ∙ rw pass (
        respond_block_raises _ d'
          (limited_body x' user payload' d' (rw c.after (recent x' user.id _ _ refl refl soon))))
