-- ===== src/Market/Orders/Races.antt =====
-- Two cancellations of one order at the same time. `cancel_order` reads the order and its status
-- before its block and without a lock, so both requests can have read the open order before either
-- block runs; the locks on the products then only put the blocks in order.
use making_soa_homework.Base.{ℕ, ◌+◌, ◌*◌, ◌≡◌, ◌∙◌, ap, true, arith}
use making_soa_homework.Base.Exec.{ok}
use making_soa_homework.Market.Models.{User, Order, Db, is_open}
use making_soa_homework.Market.Session.{Context}
use making_soa_homework.Market.Orders.{own_order, cancel_body}
use making_soa_homework.Market.Orders.Frame.{cancel_body-tables}
use making_soa_homework.Market.Stock.{listed, stock, ordered}
use making_soa_homework.Market.Stock.Lines.{listed-restore, stock-restore}

-- If two cancellations have both read the open order, and then their blocks run one after the other,
-- a product of the catalogue gains twice what the order held.
pub cancel_body_raced :
    (x x' : Context) (user : User) (id : ℕ) (d d' : Db) (order : Order) (j : ℕ)
    → own_order user id d ≡ ok order
    → is_open order.status ≡ true
    → d' ≡ (cancel_body x' order (cancel_body x order d).1).1
    → listed j d.products ≡ true
    → stock j d'.products ≡ stock j d.products + 2 * ordered j order.items
cancel_body_raced x x' user id d d' order j read fit done known =
    let d1 = (cancel_body x order d).1 in
    let first = (cancel_body-tables x order d).0 in
    let second = (cancel_body-tables x' order d1).0 in
    let known1 : listed j d1.products ≡ true =
      ap (listed j) first ∙ listed-restore j order.items d.products ∙ known in
    omega (
      arith,
      ap (λ (e : Db). stock j e.products) done,
      ap (stock j) second,
      stock-restore j order.items d1.products known1,
      ap (stock j) first,
      stock-restore j order.items d.products known,
    )
