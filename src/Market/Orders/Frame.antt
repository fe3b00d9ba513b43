-- ===== src/Market/Orders/Frame.antt =====
-- What the promo code steps leave alone.
use making_soa_homework.Base.{ℕ, String, ◌≡◌, ap, Option, none, some, arith}
use making_soa_homework.Base.Table.{modify}
use making_soa_homework.Base.Exec.{◌>>=◌}
use making_soa_homework.Market.Models.{Order, Db, order_key}
use making_soa_homework.Market.Session.{Context}
use making_soa_homework.Market.Orders.Lines.{restore}
use making_soa_homework.Market.Orders.{apply_promo, reprice, release, canceled_order, cancel_body}

-- All tables but the promo codes are the same.
abbrev pub SameShop : Db → Db → Type 0
SameShop d d' =
    (d'.products ≡ d.products)
    × (d'.orders ≡ d.orders)
    × (d'.user_operations ≡ d.user_operations)
    × (d'.users ≡ d.users)

pub apply_promo-SameShop :
    (x : Context) (code : Option String) (total : ℕ) (d : Db)
    → SameShop d (apply_promo x code total d).1
unfolding apply_promo ◌>>=◌
apply_promo-SameShop x none total d = ground arith
apply_promo-SameShop x (some c) total d = ground arith

pub reprice-SameShop :
    (x : Context) (promo : Option ℕ) (total : ℕ) (d : Db) → SameShop d (reprice x promo total d).1
unfolding reprice ◌>>=◌
reprice-SameShop x none total d = ground arith
reprice-SameShop x (some id) total d = ground arith

pub release-SameShop : (promo : Option ℕ) (d : Db) → SameShop d (release promo d)
release-SameShop none d = ground arith
release-SameShop (some id) d = ground arith

-- What a cancellation does to each table but the promo codes.
pub cancel_body-tables :
    (x : Context) (order : Order) (d : Db)
    → let d' = (cancel_body x order d).1 in
      (d'.products ≡ restore order.items d.products)
      × (d'.orders ≡ modify order_key order.id (λ _. canceled_order x order) d.orders)
      × (d'.user_operations ≡ d.user_operations)
      × (d'.users ≡ d.users)
unfolding cancel_body ◌>>=◌
cancel_body-tables x order d =
    let d1 : Db = record d { products = restore order.items d.products } in
    let same = release-SameShop order.promo_code_id d1 in
    (same.0, ap (modify order_key order.id (λ _. canceled_order x order)) same.1, same.2, same.3)
