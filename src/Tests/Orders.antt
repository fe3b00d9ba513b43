-- ===== src/Tests/Orders.antt =====
-- Runs of the order handlers.
use making_soa_homework.Base.{
  ◌≢◌, ℕ, ◌+◌, ◌*◌, ◌≤◌, none, some, arith, ◌≡◌, refl, true, List, [], ◌∷◌,
}
use making_soa_homework.Base.Exec.{ok, err, ◌>>=◌}
use making_soa_homework.Market.Session.{Context, query, with_transaction, respond}
use making_soa_homework.Market.Promo.{find_code, validate_promo_basic, calculate_discount}
use making_soa_homework.Market.Access.{
  require_order_owner, require_roles, as_role, ownership_violation,
}
use making_soa_homework.Base.Table.{find, modify}
use making_soa_homework.Base.Count.{sum_by}
use making_soa_homework.Market.Errors.{key_error}
use making_soa_homework.Market.Orders.Lifecycle.{Life, view, serve-Life}
use making_soa_homework.Market.Orders.Named.{request_named}
use making_soa_homework.Market.Orders.Lines.{
  requested, check_products, check_stock, deduct, restore, price_items, short_stock,
}
use making_soa_homework.Market.Orders.Limits.{check_rate_limit, check_no_active, limit_exceeded}
use making_soa_homework.Market.Orders.{
  get_order, invalid_transition, apply_promo, reprice, create_body, create_order, own_order,
  update_body, update_order, canceled_order, cancel_body, cancel_order,
}
use making_soa_homework.Market.Orders.Requests.{
  OrderRequest, create, update, handle, serve, request_error,
}
use making_soa_homework.Market.Stock.{listed, stock, ordered, reserved, goods}
use making_soa_homework.Market.Stock.Conserved.{serve-goods}
use making_soa_homework.Market.Models.{Db, Order, created}
use making_soa_homework.Market.Orders.PromoUses.{IsFair, serve-IsFair}
use making_soa_homework.Market.Orders.OneActive.{open_orders, serve-open_orders}
use making_soa_homework.Market.Orders.Amounts.{
  RoundsToNearest, TiesUp, IsBalanced, items_total, create_order-IsBalanced,
  update_order-IsBalanced, create_order_tie,
}
use making_soa_homework.Market.Orders.Refusals.{
  foreign_order, cancel_order-final, create_order-rate_limit,
}
use making_soa_homework.Market.Orders.Races.{cancel_body_raced}
use making_soa_homework.Tests.Samples.{
  customer, other_customer, small, one_tea, shop, at, basket, smaller, greedy,
}

-- Opens the order handlers, for the runs below.
unfoldable pub opened : Unit {0}
unfolding ◌>>=◌ query with_transaction respond find_code validate_promo_basic calculate_discount
    require_order_owner require_roles as_role find modify sum_by requested check_products
    check_stock deduct restore price_items check_rate_limit check_no_active apply_promo reprice
    create_body create_order own_order get_order update_body update_order cancel_body cancel_order
    handle serve ordered
opened = tt

abbrev pub day : List (Context × OrderRequest)
day =
    (at 1000 100, create customer basket)
    ∷ (at 2000 200, create other_customer greedy)
    ∷ (at 300001000 300, update customer 100 smaller)
    ∷ []

-- The basket costs 650, less 15 percent: 97.5 in cents of discount.
created_order :
    let q = respond (create_order (at 1000 100) customer basket) shop in
    (stock 10 q.1.products ≡ 2) × (stock 11 q.1.products ≡ 1) × (reserved 10 q.1.orders ≡ 5)
unfolding opened
created_order = (refl, refl, refl)

refused_order :
    (respond (create_order (at 2000 200) other_customer greedy) shop).0
    ≡ err (short_stock (record { product_id = 11; requested = 3; available = 2 } ∷ []))
unfolding opened
refused_order = refl

served_day : (stock 10 (serve day shop).products ≡ 6) × (stock 11 (serve day shop).products ≡ 2)
unfolding opened
served_day = (refl, refl)

serve-goods_example :
    (listed 10 (serve day shop).products ≡ true) × (goods 10 (serve day shop) ≡ goods 10 shop)
unfolding find
serve-goods_example = serve-goods day shop 10 refl

-- The shop behind the customer's basket, and the order.
abbrev pub ordered_shop : Db
ordered_shop = (respond (create_order (at 1000 100) customer basket) shop).1

abbrev pub basket_order : Order
basket_order = record {
  id = 100;
  user_id = 1;
  status = created;
  promo_code_id = some 20;
  total_amount = 553;
  discount_amount = 98;
  created_at = 1000;
  updated_at = 1000;
  items =
      record { id = 102; product_id = 10; quantity = 2; price_at_order = 30 }
      ∷ record { id = 103; product_id = 11; quantity = 1; price_at_order = 500 }
      ∷ record { id = 104; product_id = 10; quantity = 3; price_at_order = 30 }
      ∷ [];
}

basket_made :
    respond (create_order (at 1000 100) customer basket) shop ≡ (ok basket_order, ordered_shop)
unfolding opened
basket_made = refl

half_up-near : (now base : ℕ) → RoundsToNearest (at now base).numeric
half_up-near now base = record { near = λ m c h. ground arith }

half_up-up : (now base : ℕ) → TiesUp (at now base).numeric
half_up-up now base = record { up = λ c k h. ground arith }

serve-IsFair_example : IsFair 20 (serve day shop)
unfolding find sum_by
serve-IsFair_example =
    serve-IsFair day shop 20
      (record { keyed = (refl, (refl, tt)); counted = refl; within = omega arith })

serve-open_orders_example : open_orders 1 (serve day shop) ≤ 1
unfolding sum_by
serve-open_orders_example = serve-open_orders day shop 1 (omega arith)

request_error_example : (respond (create_order (at 2000 200) other_customer greedy) shop).1 ≡ shop
unfolding opened
request_error_example =
    request_error (at 2000 200) (create other_customer greedy) shop
      (short_stock (record { product_id = 11; requested = 3; available = 2 } ∷ [])) _ refl

create_order-IsBalanced_example : IsBalanced basket_order
create_order-IsBalanced_example =
    create_order-IsBalanced (at 1000 100) customer basket shop basket_order ordered_shop
      (half_up-near 1000 100) basket_made

abbrev smaller_order : Order
smaller_order = record {
  id = 100;
  user_id = 1;
  status = created;
  promo_code_id = none;
  total_amount = 30;
  discount_amount = 0;
  created_at = 1000;
  updated_at = 300001000;
  items = record { id = 302; product_id = 10; quantity = 1; price_at_order = 30 } ∷ [];
}

update_order-IsBalanced_example : IsBalanced smaller_order
unfolding opened
update_order-IsBalanced_example =
    update_order-IsBalanced (at 300001000 300) customer 100 smaller ordered_shop smaller_order
      (respond (update_order (at 300001000 300) customer 100 smaller) ordered_shop).1
      (half_up-near 300001000 300) refl

abbrev tea_order : Order
tea_order = record {
  id = 100;
  user_id = 1;
  status = created;
  promo_code_id = some 21;
  total_amount = 26;
  discount_amount = 5;
  created_at = 1000;
  updated_at = 1000;
  items = record { id = 102; product_id = 10; quantity = 1; price_at_order = 30 } ∷ [];
}

create_order_tie_example : ◌≡◌ {A = ℕ} (26 + 5) (items_total tea_order.items + 1)
unfolding opened items_total
create_order_tie_example =
    create_order_tie (at 1000 100) customer one_tea shop tea_order
      (respond (create_order (at 1000 100) customer one_tea) shop).1 "SMALL" small 4
      (half_up-up 1000 100) refl refl refl (omega arith) refl refl

foreign_order_example :
    (respond (get_order other_customer 100) ordered_shop ≡ (err ownership_violation, ordered_shop))
    × (respond (update_order (at 5000 300) other_customer 100 smaller) ordered_shop
        ≡ (err ownership_violation, ordered_shop))
    × (respond (cancel_order (at 5000 300) other_customer 100) ordered_shop
        ≡ (err ownership_violation, ordered_shop))
unfolding opened
foreign_order_example =
    foreign_order (at 5000 300) other_customer 100 smaller ordered_shop basket_order refl refl
      (omega arith)

abbrev canceled_shop : Db
canceled_shop = (respond (cancel_order (at 5000 300) customer 100) ordered_shop).1

cancel_order-final_example :
    (respond (cancel_order (at 6000 400) customer 100) canceled_shop
      ≡ (err invalid_transition, canceled_shop))
    × (respond (update_order (at 6000 400) customer 100 smaller) canceled_shop
        ≡ (err invalid_transition, canceled_shop))
unfolding opened
cancel_order-final_example =
    cancel_order-final (at 5000 300) (at 6000 400) customer 100 smaller ordered_shop
      (canceled_order (at 5000 300) basket_order) canceled_shop refl

create_order-rate_limit_example :
    respond (create_order (at 2000 200) customer one_tea) ordered_shop
    ≡ (err limit_exceeded, ordered_shop)
create_order-rate_limit_example =
    create_order-rate_limit (at 1000 100) (at 2000 200) customer basket one_tea shop basket_order
      ordered_shop basket_made (omega arith)

cancel_body_raced_example :
    stock 10
      (cancel_body
        (at 6000 400)
        basket_order
        (cancel_body (at 5000 300) basket_order ordered_shop).1).1.products
    ≡ stock 10 ordered_shop.products + 2 * ordered 10 basket_order.items
unfolding opened
cancel_body_raced_example =
    cancel_body_raced (at 5000 300) (at 6000 400) customer 100 ordered_shop _ basket_order 10 refl
      refl refl refl

request_named_example :
    (respond (handle (at 1000 100) (create customer basket)) shop).0 ≢ err key_error
request_named_example = request_named (at 1000 100) (create customer basket) shop

serve-Life_example : Life (view 100 shop) (view 100 (serve day shop))
unfolding opened
serve-Life_example = serve-Life day shop 100 (refl, (refl, (refl, tt)))
