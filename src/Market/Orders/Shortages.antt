-- ===== src/Market/Orders/Shortages.antt =====
-- What `create_order` of дз_2/app/src/main.py answers when the stock is short.
use making_soa_homework.Base.{
  ℕ, ◌<◌, ◌≡◌, ◌∙◌, refl, sym, Bool, true, false, Option, none, some, List, [], ◌∷◌, arith, ltb,
  ◌==◌, if◌then◌else◌,
}
use making_soa_homework.Base.Table.{find}
use making_soa_homework.Base.Exec.{ok, err, ◌>>=◌}
use making_soa_homework.Market.Models.{
  OperationType, User, Product, product_key, Order, OrderItemCreate, OrderCreateRequest, Db,
  is_active,
}
use making_soa_homework.Market.Errors.{Shortage}
use making_soa_homework.Market.Session.{Context, respond}
use making_soa_homework.Market.Session.Outcome.{respond_block_raises}
use making_soa_homework.Market.Access.{has_role, customers, respond-as_role}
use making_soa_homework.Market.Orders.{create_body, create_order}
use making_soa_homework.Market.Orders.Limits.{check_rate_limit, check_no_active, any_open}
use making_soa_homework.Market.Orders.Lines.{
  Quantities, requested, check_products, row, shortages, short_stock, raise_shortages, check_stock,
}
use making_soa_homework.Market.Orders.Keys.{names, has_key-requested}
use making_soa_homework.Market.Stock.{listed, stock, asked}
use making_soa_homework.Market.Stock.Quantities.{
  amount, has_key, IsDistinct, amount-requested, requested-IsDistinct,
}

-- The product is in the catalogue, and active.
abbrev pub sold : ℕ → List Product → Bool
sold j t = elim (find product_key j t) [ none ↦ false | some p ↦ is_active p.status ]

-- Every product that a line names is sold.
abbrev pub AllSold : List OrderItemCreate → List Product → Type 0
AllSold items t = (j : ℕ) → names j items ≡ true → sold j t ≡ true

check_products-sold :
    (r : Quantities) (t : List Product)
    → ((j : ℕ) → has_key j r ≡ true → sold j t ≡ true)
    → check_products r t ≡ ok tt
unfolding check_products has_key
check_products-sold [] t h = refl
check_products-sold ((i, q) ∷ r) t h =
    let rest = check_products-sold r t (λ j k. h j (ground arith)) in
    ground (arith, h i (ground arith), rest)

pub requested_sold :
    (items : List OrderItemCreate) (t : List Product)
    → AllSold items t
    → (check_products (requested items) t ≡ ok tt)
      × ((j : ℕ) → has_key j (requested items) ≡ true → listed j t ≡ true)
requested_sold items t h = (
  check_products-sold (requested items) t (λ j k. h j (sym (has_key-requested j items) ∙ k)),
  λ j k. ground (arith, h j (sym (has_key-requested j items) ∙ k)),
)

-- The entries that the shelf does not cover.
unfoldable pub gaps : Quantities → List Product → List Shortage
gaps [] t = []
gaps ((i, q) ∷ r) t =
    let rest = gaps r t in
    if ltb (stock i t) q
    then record { product_id = i; requested = q; available = stock i t } ∷ rest
    else rest

shortages-gaps :
    (r : Quantities) (t : List Product)
    → ((j : ℕ) → has_key j r ≡ true → listed j t ≡ true)
    → shortages r t ≡ ok (gaps r t)
unfolding shortages gaps row has_key
shortages-gaps [] t h = refl
shortages-gaps ((i, q) ∷ r) t h =
    let rest = shortages-gaps r t (λ j k. h j (ground arith)) in
    ground (arith, h i (ground arith), rest)

pub check_stock-gaps :
    (r : Quantities) (t : List Product)
    → ((j : ℕ) → has_key j r ≡ true → listed j t ≡ true)
    → check_stock r t ≡ raise_shortages (gaps r t)
unfolding check_stock
check_stock-gaps r t h = rw (shortages-gaps r t h) refl

-- What a list of shortages says of a product: how much was requested, and how much there is.
unfoldable pub reported : ℕ → List Shortage → Option (ℕ × ℕ)
reported j [] = none
reported j (s ∷ l) = if s.product_id == j then some (s.requested, s.available) else reported j l

reported_absent :
    (j : ℕ) (r : Quantities) (t : List Product) → has_key j r ≡ false → reported j (gaps r t) ≡ none
unfolding reported gaps has_key
reported_absent j [] t h = refl
reported_absent j ((i, q) ∷ r) t h = ground (arith, reported_absent j r t)

reported-gaps :
    (j : ℕ) (r : Quantities) (t : List Product)
    → IsDistinct r
    → reported j (gaps r t)
      ≡ (if ltb (stock j t) (amount j r) then some (amount j r, stock j t) else none)
unfolding reported gaps amount
reported-gaps j [] t h = ground arith
reported-gaps j ((i, q) ∷ r) t h =
    ground (arith, reported-gaps j r t h.1, reported_absent i r t h.0)

gaps_some :
    (j : ℕ) (l : List Shortage) {v : ℕ × ℕ}
    → reported j l ≡ some v
    → raise_shortages l ≡ err (short_stock l)
unfolding reported
gaps_some j [] h = cc
gaps_some j (s ∷ l) h = refl

pub none_open : (u : ℕ) (t : List Order) → any_open u t ≡ false → check_no_active u t ≡ ok tt
unfolding check_no_active
none_open u t h = rw h refl

short_body :
    (x : Context) (user : User) (payload : OrderCreateRequest) (d : Db) (l : List Shortage)
    → check_rate_limit x user.id OperationType.create_order d.user_operations ≡ ok tt
    → check_no_active user.id d.orders ≡ ok tt
    → check_products (requested payload.items) d.products ≡ ok tt
    → check_stock (requested payload.items) d.products ≡ err (short_stock l)
    → (create_body x user payload d).0 ≡ err (short_stock l)
unfolding create_body ◌>>=◌
short_body x user payload d l rate free there short = rw (rate, free, there, short) refl

told :
    (items : List OrderItemCreate) (t : List Product) (j : ℕ)
    → reported j (gaps (requested items) t)
      ≡ (if ltb (stock j t) (asked j items) then some (asked j items, stock j t) else none)
told items t j = ground (
  arith,
  reported-gaps j (requested items) t (requested-IsDistinct items),
  amount-requested j items,
)

-- If a customer is within the rate limit, has no open order, and asks only for products that are
-- sold, but of some product for more than the shelf holds, then the request is answered with 409
-- INSUFFICIENT_STOCK, nothing changes, and the answer lists exactly the products of which too many
-- were asked for, each with the sum of its lines and with what the shelf holds.
pub create_order-short_stock :
    (x : Context) (user : User) (payload : OrderCreateRequest) (d : Db) (i : ℕ)
    → has_role customers user.role ≡ true
    → check_rate_limit x user.id OperationType.create_order d.user_operations ≡ ok tt
    → any_open user.id d.orders ≡ false
    → AllSold payload.items d.products
    → stock i d.products < asked i payload.items
    → (l : List Shortage) × (respond (create_order x user payload) d ≡ (err (short_stock l), d))
      × ((j : ℕ)
          → reported j l ≡ (
              if ltb (stock j d.products) (asked j payload.items)
              then some (asked j payload.items, stock j d.products)
              else none))
unfolding create_order
create_order-short_stock x user payload d i may rate free there short = (
  gaps (requested payload.items) d.products,
  respond-as_role customers user _ d
      ∙ rw may (
          respond_block_raises _ d (
            let (all_there, all_listed) = requested_sold payload.items d.products there in
            short_body x user payload d (gaps (requested payload.items) d.products) rate
              (none_open user.id d.orders free) all_there
              (check_stock-gaps (requested payload.items) d.products all_listed
                ∙ gaps_some i _ {v = (asked i payload.items, stock i d.products)}
                    (told payload.items d.products i ∙ ground arith)))),
  told payload.items d.products,
)
