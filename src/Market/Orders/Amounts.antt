-- ===== src/Market/Orders/Amounts.antt =====
-- The amounts of an order: what the promo code takes off, and what the columns keep of the rest.
use making_soa_homework.Base.{
  ℕ, suc, ◌+◌, ◌-◌, ◌*◌, ◌≤◌, ◌≡◌, ◌∙◌, ap, sym, Option, none, some, String, List, [], ◌∷◌, inl,
  inr, arith, Option-cases,
}
use making_soa_homework.Base.Table.{find}
use making_soa_homework.Base.Exec.{ok, ◌>>=◌, Result-cases}
use making_soa_homework.Market.Models.{
  DiscountType, percentage, fixed_amount, PromoCode, promo_key, Product, product_key, OrderItem,
  OrderItemCreate, User, Order, Db, OrderCreateRequest, OrderUpdateRequest,
}
use making_soa_homework.Market.Promo.{find_code, discount_of, calculate_discount}
use making_soa_homework.Market.Session.{Context, stored, respond}
use making_soa_homework.Market.Session.Outcome.{respond_block-ok, respond-loaded-ok}
use making_soa_homework.Market.Access.{customers, respond-as_role-ok}
use making_soa_homework.Market.Orders.{apply_promo, reprice, create_order, update_order}
use making_soa_homework.Market.Orders.Lines.{row, price_items}
use making_soa_homework.Market.Orders.Outcome.{create_body-ok, update_body-ok}

-- What the lines of an order cost, in cents.
unfoldable pub items_total : List OrderItem → ℕ
items_total [] = 0
items_total (item ∷ rest) = item.price_at_order * item.quantity + items_total rest

items_total-price_items :
    (new_item : ℕ → ℕ) (k : ℕ) (items : List OrderItemCreate) (t : List Product) (total : ℕ)
    (lines : List OrderItem)
    → price_items new_item k items t ≡ ok (total, lines)
    → items_total lines ≡ total
unfolding price_items row items_total
items_total-price_items new_item k [] t total lines h = ground arith
items_total-price_items new_item k (item ∷ rest) t total lines h =
    elim (Option-cases (find product_key item.product_id t)) [
      | inl absent ↦ ground arith
      | inr (p, here) ↦ elim (Result-cases (price_items new_item (suc k) rest t)) [
        | inl ((sum, tail), e) ↦
            ground (arith, items_total-price_items new_item (suc k) rest t sum tail e)
        | inr (e, q) ↦ ground arith
      ]
    ]

-- The discount by a percentage is at most 70 percent of the total, and a fixed one at most the total.
pub discount_of_bounds :
    (total value : ℕ)
    → (discount_of percentage value total ≤ total * 7000)
      × (discount_of fixed_amount value total ≤ total * 10000)
unfolding discount_of
discount_of_bounds total value = (ground arith, ground arith)

discount_of-le : (k : DiscountType) (total value : ℕ) → discount_of k value total ≤ total * 10000
discount_of-le percentage total value = omega (arith, (discount_of_bounds total value).0)
discount_of-le fixed_amount total value = (discount_of_bounds total value).1

calculate_discount-le :
    (promo : PromoCode) (total discount : ℕ)
    → calculate_discount promo total ≡ ok discount
    → discount ≤ total * 10000
unfolding calculate_discount
calculate_discount-le promo total discount h =
    ground (arith, discount_of-le promo.discount_type total promo.discount_value)

apply_promo-le :
    (x : Context) (code : Option String) (total : ℕ) (d : Db) (promo : Option ℕ) (discount : ℕ)
    → (apply_promo x code total d).0 ≡ ok (promo, discount)
    → discount ≤ total * 10000
unfolding apply_promo ◌>>=◌
apply_promo-le x none total d promo discount h = ground arith
apply_promo-le x (some c) total d promo discount h =
    elim (Option-cases (find_code c d.promo_codes)) [
      | inl absent ↦ ground arith
      | inr (p, here) ↦ ground (arith, calculate_discount-le p total discount)
    ]

reprice-le :
    (x : Context) (old : Option ℕ) (total : ℕ) (d : Db) (promo : Option ℕ) (discount : ℕ)
    → (reprice x old total d).0 ≡ ok (promo, discount)
    → discount ≤ total * 10000
unfolding reprice ◌>>=◌
reprice-le x none total d promo discount h = ground arith
reprice-le x (some i) total d promo discount h =
    elim (Option-cases (find promo_key i d.promo_codes)) [
      | inl absent ↦ ground arith
      | inr (p, here) ↦ ground (arith, calculate_discount-le p total discount)
    ]

-- NUMERIC(12, 2) keeps the nearest cent of an amount that it accepts.
pub record RoundsToNearest (numeric : ℕ → Option ℕ) : Type 0 where
  pub near : (m c : ℕ) → numeric m ≡ some c → (c * 10000 ≤ m + 5000) × (m ≤ c * 10000 + 5000)

-- The discount and the total of an order are those of its lines, to the cent.
abbrev pub IsBalanced : Order → Type 0
IsBalanced o =
    (items_total o.items ≤ o.total_amount + o.discount_amount + 1)
    × (o.total_amount + o.discount_amount ≤ items_total o.items + 1)

stored-near :
    (x : Context) (m c : ℕ)
    → RoundsToNearest x.numeric
    → stored x m ≡ ok c
    → (c * 10000 ≤ m + 5000) × (m ≤ c * 10000 + 5000)
stored-near x m c r h = r.near m c (ground arith)

balanced :
    (x : Context) (total discount a b : ℕ)
    → RoundsToNearest x.numeric
    → discount ≤ total * 10000
    → stored x (total * 10000 - discount) ≡ ok a
    → stored x discount ≡ ok b
    → (total ≤ a + b + 1) × (a + b ≤ total + 1)
balanced x total discount a b r le p q =
    omega (arith, stored-near x (total * 10000 - discount) a r p, stored-near x discount b r q)

-- A new order: what the customer pays and the discount make up the price of the lines, but for a
-- cent of rounding, if the columns round to the nearest cent.
pub create_order-IsBalanced :
    (x : Context) (user : User) (payload : OrderCreateRequest) (d : Db) (o : Order) (d' : Db)
    → RoundsToNearest x.numeric
    → respond (create_order x user payload) d ≡ (ok o, d')
    → IsBalanced o
unfolding create_order
create_order-IsBalanced x user payload d o d' r h =
    let done = respond_block-ok _ d (respond-as_role-ok customers user _ d h) in
    let c = create_body-ok x user payload d o d' done in
    let le = apply_promo-le x payload.promo_code c.total _ c.promo c.discount c.applied in
    let sum = items_total-price_items x.new_id 2 payload.items _ c.total c.lines c.priced in
    let near = balanced x c.total c.discount _ _ r le c.total_kept c.discount_kept in
    rw c.order_is (rw sum near)

-- An updated order: what the customer pays and the discount make up the price of the new lines, but
-- for a cent of rounding, if the columns round to the nearest cent.
pub update_order-IsBalanced :
    (x : Context) (user : User) (id : ℕ) (payload : OrderUpdateRequest) (d : Db) (o : Order)
    (d' : Db)
    → RoundsToNearest x.numeric
    → respond (update_order x user id payload) d ≡ (ok o, d')
    → IsBalanced o
unfolding update_order
update_order-IsBalanced x user id payload d o d' r h =
    let (order, read, fit, done) =
      respond-loaded-ok _ _ _ d (respond-as_role-ok customers user _ d h) in
    let c = update_body-ok x user order payload d o d' done in
    let le = reprice-le x order.promo_code_id c.total _ c.promo c.discount c.applied in
    let sum = items_total-price_items x.new_id 2 payload.items _ c.total c.lines c.priced in
    let near = balanced x c.total c.discount _ _ r le c.total_kept c.discount_kept in
    rw c.order_is (rw sum near)

-- If NUMERIC(12, 2) keeps an amount on half a cent, it keeps the cent above, which PostgreSQL
-- documents.
pub record TiesUp (numeric : ℕ → Option ℕ) : Type 0 where
  pub up : (c k : ℕ) → numeric (c * 10000 + 5000) ≡ some k → k ≡ c + 1

percentage_applied :
    (x : Context) (given : Option String) (code : String) (total : ℕ) (d : Db) (promo : Option ℕ)
    (discount : ℕ) (p : PromoCode)
    → given ≡ some code
    → find_code code d.promo_codes ≡ some p
    → p.discount_type ≡ percentage
    → p.discount_value ≤ 7000
    → (apply_promo x given total d).0 ≡ ok (promo, discount)
    → discount ≡ total * p.discount_value
unfolding apply_promo calculate_discount ◌>>=◌
percentage_applied x none code total d promo discount p coded here kind low h = cc
percentage_applied x (some c) code total d promo discount p coded here kind low h = ground (
  arith,
  uncapped total p.discount_value low,
  ap (λ (s : String). find_code s d.promo_codes) same,
)
  where
    same : c ≡ code
    same = cc

    uncapped : (t v : ℕ) → v ≤ 7000 → discount_of percentage v t ≡ t * v
    uncapped t v low = grind arith

stored-ok : (x : Context) (m a : ℕ) → stored x m ≡ ok a → x.numeric m ≡ some a
stored-ok x m a h = ground arith

tied :
    (x : Context) (total discount k a b : ℕ)
    → TiesUp x.numeric
    → discount ≤ total * 10000
    → discount ≡ k * 10000 + 5000
    → stored x (total * 10000 - discount) ≡ ok a
    → stored x discount ≡ ok b
    → a + b ≡ total + 1
tied x total discount k a b t le tie p q =
    let rest : total * 10000 - discount ≡ (total - k - 1) * 10000 + 5000 = omega arith in
    let p' : stored x ((total - k - 1) * 10000 + 5000) ≡ ok a = rw (← rest) p in
    let q' : stored x (k * 10000 + 5000) ≡ ok b = rw (← tie) q in
    omega (arith, t.up (total - k - 1) a (stored-ok x _ a p'), t.up k b (stored-ok x _ b q'))

-- A new order with a percentage that is not capped, where the discount ends on half a cent: if the
-- columns keep the cent above of each such amount that they keep, then what the customer pays and
-- the discount are together one cent more than the price of the lines.
pub create_order_tie :
    (x : Context) (user : User) (payload : OrderCreateRequest) (d : Db) (o : Order) (d' : Db)
    (code : String) (p : PromoCode) (k : ℕ)
    → TiesUp x.numeric
    → payload.promo_code ≡ some code
    → find_code code d.promo_codes ≡ some p
    → p.discount_type ≡ percentage
    → p.discount_value ≤ 7000
    → respond (create_order x user payload) d ≡ (ok o, d')
    → items_total o.items * p.discount_value ≡ k * 10000 + 5000
    → o.total_amount + o.discount_amount ≡ items_total o.items + 1
unfolding create_order
create_order_tie x user payload d o d' code p k ties coded here kind low h half =
    let done = respond_block-ok _ d (respond-as_role-ok customers user _ d h) in
    let c = create_body-ok x user payload d o d' done in
    let sum = items_total-price_items x.new_id 2 payload.items _ c.total c.lines c.priced in
    let le = apply_promo-le x payload.promo_code c.total _ c.promo c.discount c.applied in
    let cut =
      percentage_applied x payload.promo_code code c.total _ c.promo c.discount p coded here kind
        low c.applied in
    let cost : items_total o.items ≡ c.total =
      ap (λ (r : Order). items_total r.items) c.order_is ∙ sum in
    let tie : c.discount ≡ k * 10000 + 5000 =
      cut ∙ ap (λ (n : ℕ). n * p.discount_value) (sym cost) ∙ half in
    let whole = tied x c.total c.discount k _ _ ties le tie c.total_kept c.discount_kept in
    rw cost (ap (λ (r : Order). r.total_amount + r.discount_amount) c.order_is ∙ whole)
