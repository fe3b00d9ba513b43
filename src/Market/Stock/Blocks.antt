-- ===== src/Market/Stock/Blocks.antt =====
-- The blocks of the order handlers keep the goods of every product.
use making_soa_homework.Base.{ℕ, ◌+◌, ◌≡◌, ap, true, false, some, List, arith}
use making_soa_homework.Base.Table.{find, modify}
use making_soa_homework.Base.Count.{sum_by, sum_by-modify}
use making_soa_homework.Base.Exec.{ok, ◌>>=◌}
use making_soa_homework.Market.Models.{
  User, Product, OrderItem, OrderItemCreate, Order, Db, OrderCreateRequest, OrderUpdateRequest,
  order_key,
}
use making_soa_homework.Market.Session.{Context}
use making_soa_homework.Market.Orders.{changed_order, canceled_order, cancel_body}
use making_soa_homework.Market.Orders.Lines.{requested, check_stock, deduct, restore, price_items}
use making_soa_homework.Market.Orders.Frame.{
  apply_promo-SameShop, reprice-SameShop, release-SameShop,
}
use making_soa_homework.Market.Orders.Outcome.{Created, Updated}
use making_soa_homework.Market.Stock.{listed, stock, ordered, is_canceled, held, reserved, goods}
use making_soa_homework.Market.Stock.Quantities.{amount-requested, requested-IsDistinct}
use making_soa_homework.Market.Stock.Lines.{
  check_stock-IsCovered, stock-deduct, stock-restore, ordered-price_items,
}

-- What is requested leaves the shelf, and the lines hold it.
stock-requested :
    (new_item : ℕ → ℕ) (k : ℕ) (items : List OrderItemCreate) (t : List Product) (total : ℕ)
    (lines : List OrderItem) (j : ℕ)
    → check_stock (requested items) t ≡ ok tt
    → price_items new_item k items (deduct (requested items) t) ≡ ok (total, lines)
    → stock j (deduct (requested items) t) + ordered j lines ≡ stock j t
stock-requested new_item k items t total lines j enough priced = omega (
  arith,
  stock-deduct j (requested items) t (requested-IsDistinct items)
      (check_stock-IsCovered (requested items) t enough),
  ordered-price_items new_item k items _ total lines j priced,
  amount-requested j items,
)

pub Created-goods :
    (x : Context) (user : User) (payload : OrderCreateRequest) (d : Db) (o : Order) (d' : Db)
    (j : ℕ)
    → Created x user payload d o d'
    → goods j d' ≡ goods j d
unfolding sum_by
Created-goods x user payload d o d' j c =
    let taken : Db = record d { products = deduct (requested payload.items) d.products } in
    let same = apply_promo-SameShop x payload.promo_code c.total taken in
    rw c.after (
      omega (
        arith,
        stock-requested x.new_id 2 payload.items d.products c.total c.lines j c.enough c.priced,
        ap (stock j) same.0,
        ap (reserved j) same.1,
      ))

pub Updated-goods :
    (x : Context) (user : User) (order : Order) (payload : OrderUpdateRequest) (d : Db) (o : Order)
    (d' : Db) (j : ℕ)
    → find order_key order.id d.orders ≡ some order
    → is_canceled order.status ≡ false
    → listed j d.products ≡ true
    → Updated x user order payload d o d'
    → goods j d' ≡ goods j d
Updated-goods x user order payload d o d' j here live known u =
    let back = restore order.items d.products in
    let taken : Db = record d { products = deduct (requested payload.items) back } in
    let same = reprice-SameShop x order.promo_code_id u.total taken in
    let o' =
      changed_order x u.total u.discount order u.promo u.total_amount u.discount_amount u.lines in
    rw u.after (
      ground (
        arith,
        stock-restore j order.items d.products known,
        stock-requested x.new_id 2 payload.items back u.total u.lines j u.enough u.priced,
        sum_by-modify order_key (held j) order.id (λ _. o') d.orders here,
        ap (stock j) same.0,
        ap (λ (l : List Order). reserved j (modify order_key order.id (λ _. o') l)) same.1,
      ))

pub cancel_body-goods :
    (x : Context) (order : Order) (d : Db) (j : ℕ)
    → find order_key order.id d.orders ≡ some order
    → is_canceled order.status ≡ false
    → listed j d.products ≡ true
    → goods j (cancel_body x order d).1 ≡ goods j d
unfolding cancel_body ◌>>=◌
cancel_body-goods x order d j here live known =
    let d1 : Db = record d { products = restore order.items d.products } in
    let same = release-SameShop order.promo_code_id d1 in
    let o' : Order = canceled_order x order in
    ground (
      arith,
      stock-restore j order.items d.products known,
      sum_by-modify order_key (held j) order.id (λ _. o') d.orders here,
      ap (stock j) same.0,
      ap (λ (l : List Order). reserved j (modify order_key order.id (λ _. o') l)) same.1,
    )
