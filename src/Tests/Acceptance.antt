-- ===== src/Tests/Acceptance.antt =====
-- Orders that are accepted, and one that the stock refuses.
use making_soa_homework.Base.{
  ℕ, ◌+◌, ◌/◌, ◌≤◌, ◌≡◌, refl, some, none, arith, ltb, List, [], ◌∷◌, inr, if◌then◌else◌,
}
use making_soa_homework.Base.Table.{find}
use making_soa_homework.Base.Exec.{ok, err}
use making_soa_homework.Market.Models.{Order, Db, created, OrderUpdateRequest}
use making_soa_homework.Market.Errors.{Shortage}
use making_soa_homework.Market.Session.{respond}
use making_soa_homework.Market.Access.{has_role}
use making_soa_homework.Market.Promo.{find_code}
use making_soa_homework.Market.Orders.{create_order, update_order}
use making_soa_homework.Market.Orders.Limits.{check_rate_limit, any_open}
use making_soa_homework.Market.Orders.Lines.{short_stock}
use making_soa_homework.Market.Orders.Keys.{names}
use making_soa_homework.Market.Orders.Shortages.{AllSold, reported, create_order-short_stock}
use making_soa_homework.Market.Orders.Accepted.{create_order-accepted}
use making_soa_homework.Market.Orders.Worth.{worth}
use making_soa_homework.Market.Orders.UpdateAccepted.{Accepted, update_order-Accepted}
use making_soa_homework.Market.Stock.{stock, asked, ordered}
use making_soa_homework.Tests.Samples.{customer, spring, shop, at, basket, greedy}
use making_soa_homework.Tests.Orders.{opened, ordered_shop, basket_order}

all_sold : AllSold basket.items shop.products
unfolding names find
all_sold j n = ground arith

greedy_sold : AllSold greedy.items shop.products
unfolding names find
greedy_sold j n = ground arith

in_stock : (j : ℕ) → asked j basket.items ≤ stock j shop.products
unfolding asked find
in_stock j = ground arith

create_order-accepted_example :
    (o : Order) × (d' : Db) × (respond (create_order (at 1000 100) customer basket) shop
      ≡ (ok o, d'))
    × (o.user_id ≡ 1)
    × (o.status ≡ created)
unfolding has_role check_rate_limit any_open worth find find_code
create_order-accepted_example =
    create_order-accepted (at 1000 100) customer basket shop refl refl refl all_sold in_stock
      (spring, refl, refl, omega arith, omega arith, omega arith, omega arith)
      (λ m le. ((m + 5000) / 10000, refl))

create_order-short_stock_example :
    (l : List Shortage) × (respond (create_order (at 1000 100) customer greedy) shop
      ≡ (err (short_stock l), shop))
    × ((j : ℕ)
        → reported j l ≡ (
            if ltb (stock j shop.products) (asked j greedy.items)
            then some (asked j greedy.items, stock j shop.products)
            else none))
unfolding has_role check_rate_limit any_open asked find
create_order-short_stock_example =
    create_order-short_stock (at 1000 100) customer greedy shop 11 refl refl refl greedy_sold
      (omega arith)

-- More tea than the shelf still has, with what the order gives back.
abbrev larger : OrderUpdateRequest
larger = record {
  items = record { product_id = 10; quantity = 6 } ∷ record { product_id = 11; quantity = 2 } ∷ [];
}

larger_sold : AllSold larger.items ordered_shop.products
unfolding names find opened
larger_sold j n = ground arith

larger_in_stock :
    (j : ℕ) → asked j larger.items ≤ stock j ordered_shop.products + ordered j basket_order.items
unfolding asked find opened
larger_in_stock j = ground arith

update_order-Accepted_example :
    (o : Order) × (d' : Db) × (respond
        (update_order (at 300001000 300) customer 100 larger)
        ordered_shop
      ≡ (ok o, d'))
    × Accepted basket_order larger ordered_shop o
unfolding opened
update_order-Accepted_example =
    update_order-Accepted (at 300001000 300) customer 100 larger ordered_shop basket_order refl refl
      (inr refl) refl refl larger_sold larger_in_stock
      (record spring { current_uses = 1 }, refl, refl, omega arith, omega arith)
      (λ m le. ((m + 5000) / 10000, refl))
