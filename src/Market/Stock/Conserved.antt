-- ===== src/Market/Stock/Conserved.antt =====
-- No order request creates or loses goods.
use making_soa_homework.Base.{ℕ, ◌≡◌, ◌∙◌, ap, refl, true, false, List, arith}
use making_soa_homework.Market.Models.{OrderStatus, Db, is_created, is_open}
use making_soa_homework.Market.Session.{Context, respond}
use making_soa_homework.Market.Orders.Lines.{requested, deduct, restore}
use making_soa_homework.Market.Orders.Frame.{
  apply_promo-SameShop, reprice-SameShop, cancel_body-tables,
}
use making_soa_homework.Market.Orders.Requests.{
  OrderRequest, handle, serve, Effect, nothing, creates, updates, cancels, request-Effect,
  serve_induction,
}
use making_soa_homework.Market.Stock.{listed, is_canceled, goods}
use making_soa_homework.Market.Stock.Lines.{listed-deduct, listed-restore}
use making_soa_homework.Market.Stock.Blocks.{Created-goods, Updated-goods, cancel_body-goods}

live_of_created : (s : OrderStatus) → is_created s ≡ true → is_canceled s ≡ false
live_of_created s h = ground arith

live_of_open : (s : OrderStatus) → is_open s ≡ true → is_canceled s ≡ false
live_of_open s h = ground arith

-- The catalogue keeps its products.
Effect-listed :
    (x : Context) (d d' : Db) (r : OrderRequest) (j : ℕ)
    → Effect x d d' r
    → listed j d'.products ≡ listed j d.products
Effect-listed x d d' r j (nothing r' same) = ap (λ (e : Db). listed j e.products) same
Effect-listed x d d' r j (creates user payload o c) =
    let t = deduct (requested payload.items) d.products in
    let same = apply_promo-SameShop x payload.promo_code c.total (record d { products = t }) in
    ap (λ (e : Db). listed j e.products) c.after
    ∙ ap (listed j) same.0
    ∙ listed-deduct j (requested payload.items) d.products
Effect-listed x d d' r j (updates user id payload order o owned open_ u) =
    let back = restore order.items d.products in
    let t = deduct (requested payload.items) back in
    let same = reprice-SameShop x order.promo_code_id u.total (record d { products = t }) in
    ap (λ (e : Db). listed j e.products) u.after
    ∙ ap (listed j) same.0
    ∙ listed-deduct j (requested payload.items) back
    ∙ listed-restore j order.items d.products
Effect-listed x d d' r j (cancels user id order owned open_ done) =
    ap (λ (e : Db). listed j e.products) done
    ∙ ap (listed j) (cancel_body-tables x order d).0
    ∙ listed-restore j order.items d.products

Effect-goods :
    (x : Context) (d d' : Db) (r : OrderRequest) (j : ℕ)
    → listed j d.products ≡ true
    → Effect x d d' r
    → goods j d' ≡ goods j d
Effect-goods x d d' r j known (nothing r' same) = ap (goods j) same
Effect-goods x d d' r j known (creates user payload o c) = Created-goods x user payload d o d' j c
Effect-goods x d d' r j known (updates user id payload order o owned open_ u) =
    Updated-goods x user order payload d o d' j owned.here (live_of_created order.status open_)
      known u
Effect-goods x d d' r j known (cancels user id order owned open_ done) =
    ap (goods j) done
    ∙ cancel_body-goods x order d j owned.here (live_of_open order.status open_) known

-- Whatever an order request does, a product of the catalogue has as many pieces on the shelf and in
-- orders that are not canceled as before.
pub request-goods :
    (x : Context) (r : OrderRequest) (d : Db) (j : ℕ)
    → listed j d.products ≡ true
    → goods j (respond (handle x r) d).1 ≡ goods j d
request-goods x r d j known = Effect-goods x d _ r j known (request-Effect x r d)

-- After any order requests, in any order and with any outcomes, each product of the catalogue is
-- still in it, with as many pieces on the shelf and in orders that are not canceled as before.
pub serve-goods :
    (l : List (Context × OrderRequest)) (d : Db) (j : ℕ)
    → listed j d.products ≡ true
    → (listed j (serve l d).products ≡ true) × (goods j (serve l d) ≡ goods j d)
serve-goods l d j known =
    serve_induction (λ e. (listed j e.products ≡ true) × (goods j e ≡ goods j d))
      (λ x r e h.
        (Effect-listed x e _ r j (request-Effect x r e) ∙ h.0, request-goods x r e j h.0 ∙ h.1))
      l d (known, refl)
