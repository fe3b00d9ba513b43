-- ===== src/Market/Orders/OneActive.antt =====
-- A customer has at most one order that is created or waits for its payment.
use making_soa_homework.Base.{ℕ, ◌≤◌, ◌≡◌, ap, ◌&&◌, List, [], ◌∷◌, arith, ◌==◌, if◌then◌else◌}
use making_soa_homework.Base.Table.{modify}
use making_soa_homework.Base.Count.{sum_by, sum_by-modify}
use making_soa_homework.Base.Exec.{ok}
use making_soa_homework.Market.Models.{Order, Db, order_key, is_open}
use making_soa_homework.Market.Session.{Context}
use making_soa_homework.Market.Orders.{changed_order, canceled_order}
use making_soa_homework.Market.Orders.Lines.{requested, deduct, restore}
use making_soa_homework.Market.Orders.Limits.{any_open, check_no_active}
use making_soa_homework.Market.Orders.Frame.{
  apply_promo-SameShop, reprice-SameShop, cancel_body-tables,
}
use making_soa_homework.Market.Orders.Requests.{
  OrderRequest, serve, Effect, nothing, creates, updates, cancels, request-Effect, serve_induction,
}

abbrev pub opens : ℕ → Order → ℕ
opens u o = if o.user_id == u && is_open o.status then 1 else 0

-- How many orders of the customer are open.
abbrev pub open_orders : ℕ → Db → ℕ
open_orders u d = sum_by (opens u) d.orders

none_open :
    (u : ℕ) (orders : List Order) → check_no_active u orders ≡ ok tt → sum_by (opens u) orders ≡ 0
unfolding check_no_active any_open sum_by
none_open u [] h = omega arith
none_open u (o ∷ orders) h = ground (arith, none_open u orders)

Effect-open_orders :
    (x : Context) (d d' : Db) (r : OrderRequest) (u : ℕ)
    → open_orders u d ≤ 1
    → Effect x d d' r
    → open_orders u d' ≤ 1
unfolding sum_by
Effect-open_orders x d d' r u one (nothing r' same) = rw same one
Effect-open_orders x d d' r u one (creates user payload o c) =
    let t = deduct (requested payload.items) d.products in
    let same = apply_promo-SameShop x payload.promo_code c.total (record d { products = t }) in
    rw c.after (ground (arith, ap (sum_by (opens u)) same.1, none_open user.id d.orders c.free))
Effect-open_orders x d d' r u one (updates user id payload order o owned open_ c) =
    let t = deduct (requested payload.items) (restore order.items d.products) in
    let same = reprice-SameShop x order.promo_code_id c.total (record d { products = t }) in
    let o' =
      changed_order x c.total c.discount order c.promo c.total_amount c.discount_amount c.lines in
    rw c.after (
      ground (
        arith,
        sum_by-modify order_key (opens u) order.id (λ _. o') d.orders owned.here,
        ap (λ (l : List Order). sum_by (opens u) (modify order_key order.id (λ _. o') l)) same.1,
      ))
Effect-open_orders x d d' r u one (cancels user id order owned open_ done) =
    let o' : Order = canceled_order x order in
    rw done (
      ground (
        arith,
        sum_by-modify order_key (opens u) order.id (λ _. o') d.orders owned.here,
        ap (sum_by (opens u)) (cancel_body-tables x order d).1,
      ))

-- If a customer has at most one open order, then so after any order requests.
pub serve-open_orders :
    (l : List (Context × OrderRequest)) (d : Db) (u : ℕ)
    → open_orders u d ≤ 1
    → open_orders u (serve l d) ≤ 1
serve-open_orders l d u one =
    serve_induction (λ e. open_orders u e ≤ 1)
      (λ x r e h. Effect-open_orders x e _ r u h (request-Effect x r e)) l d one
