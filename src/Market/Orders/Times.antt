-- ===== src/Market/Orders/Times.antt =====
-- The instants of the orders and of the logged operations (дз_2/app/src/models) under the order
-- handlers of дз_2/app/src/main.py.
use making_soa_homework.Base.{ℕ, ◌≤◌, Bool, true, false, List, [], ◌∷◌, All, arith, if◌then◌else◌}
use making_soa_homework.Market.Models.{Order, order_key, UserOperation, Db}
use making_soa_homework.Market.Session.{Context}
use making_soa_homework.Market.Orders.{is_touched}
use making_soa_homework.Market.Orders.Lines.{requested, deduct, restore}
use making_soa_homework.Market.Orders.Frame.{
  apply_promo-SameShop, reprice-SameShop, cancel_body-tables,
}
use making_soa_homework.Market.Orders.Requests.{
  OrderRequest, serve, Effect, nothing, creates, updates, cancels, request-Effect,
}
use making_soa_homework.Market.Orders.ForeignKeys.{All-modify, All-find}

-- At `now`, an order has been created, and not updated before that or later than now.
abbrev pub Dated : ℕ → Order → Type 0
Dated now o = (o.created_at ≤ o.updated_at) × (o.updated_at ≤ now)

abbrev pub Logged : ℕ → UserOperation → Type 0
Logged now op = op.created_at ≤ now

abbrev pub InTime : ℕ → Db → Type 0
InTime now d = All (Dated now) d.orders × All (Logged now) d.user_operations

-- The clock of the database does not go back from `now` on.
abbrev pub Ticks : ℕ → List (Context × OrderRequest) → Type 0
Ticks now [] = Unit
Ticks now ((x, r) ∷ rest) = (now ≤ x.db_now) × Ticks x.db_now rest

-- The instant of the last request.
abbrev pub ends_at : ℕ → List (Context × OrderRequest) → ℕ
ends_at now [] = now
ends_at now ((x, r) ∷ rest) = ends_at x.db_now rest

orders_later :
    (now later : ℕ) (l : List Order) → now ≤ later → All (Dated now) l → All (Dated later) l
orders_later now later [] le h = tt
orders_later now later (o ∷ l) le h =
    ((h.0.0, omega (arith, le, h.0.1)), orders_later now later l le h.1)

operations_later :
    (now later : ℕ) (l : List UserOperation)
    → now ≤ later
    → All (Logged now) l
    → All (Logged later) l
operations_later now later [] le h = tt
operations_later now later (op ∷ l) le h =
    (omega (arith, le, h.0), operations_later now later l le h.1)

written :
    (b : Bool) (now made old : ℕ)
    → made ≤ old
    → old ≤ now
    → (made ≤ (if b then now else old)) × ((if b then now else old) ≤ now)
written true now made old p q = (omega arith, omega arith)
written false now made old p q = (p, q)

Effect-InTime :
    (x : Context) (now : ℕ) (d d' : Db) (r : OrderRequest)
    → now ≤ x.db_now
    → InTime now d
    → Effect x d d' r
    → InTime x.db_now d'
Effect-InTime x now d d' r le h (nothing r' same) = rw same (
  orders_later now x.db_now d.orders le h.0,
  operations_later now x.db_now d.user_operations le h.1,
)
Effect-InTime x now d d' r le h (creates user payload o c) =
    let t = deduct (requested payload.items) d.products in
    let same = apply_promo-SameShop x payload.promo_code c.total (record d { products = t }) in
    rw (c.after, same.1, same.2)
      (
        ((omega arith, omega arith), orders_later now x.db_now d.orders le h.0),
        (omega arith, operations_later now x.db_now d.user_operations le h.1),
      )
Effect-InTime x now d d' r le h (updates user id payload order o owned open_ c) =
    let t = deduct (requested payload.items) (restore order.items d.products) in
    let same = reprice-SameShop x order.promo_code_id c.total (record d { products = t }) in
    let orders = orders_later now x.db_now d.orders le h.0 in
    let old = All-find (Dated x.db_now) order_key order.id d.orders owned.here orders in
    rw (c.after, same.1, same.2)
      (
        All-modify (Dated x.db_now) order_key order.id _ d.orders
            (λ a n.
              written (is_touched order c.total c.discount c.promo) x.db_now order.created_at
                order.updated_at old.0 old.1)
            orders,
        (omega arith, operations_later now x.db_now d.user_operations le h.1),
      )
Effect-InTime x now d d' r le h (cancels user id order owned open_ done) =
    let tables = cancel_body-tables x order d in
    let orders = orders_later now x.db_now d.orders le h.0 in
    let old = All-find (Dated x.db_now) order_key order.id d.orders owned.here orders in
    rw (done, tables.1, tables.2)
      (
        All-modify (Dated x.db_now) order_key order.id _ d.orders
            (λ a n. (omega (arith, old.0, old.1), omega arith)) orders,
        operations_later now x.db_now d.user_operations le h.1,
      )

-- If the clock of the database does not go back between the requests, then after any order requests
-- every order has been updated no earlier than created, and no order and no logged operation has an
-- instant later than the last request, provided that this was so before the first one.
pub serve-InTime :
    (l : List (Context × OrderRequest)) (now : ℕ) (d : Db)
    → Ticks now l
    → InTime now d
    → InTime (ends_at now l) (serve l d)
unfolding serve
serve-InTime [] now d ticks h = h
serve-InTime ((x, r) ∷ rest) now d ticks h =
    serve-InTime rest x.db_now _ ticks.1
      (Effect-InTime x now d _ r ticks.0 h (request-Effect x r d))
