-- ===== src/Market/Orders/Accepted.antt =====
-- The orders that `create_order` of дз_2/app/src/main.py accepts.
use making_soa_homework.Base.{
  ℕ, ◌*◌, ◌-◌, ◌<◌, ◌≤◌, ◌≡◌, ◌∙◌, refl, sym, subst, true, false, Option, none, some, List, String,
  arith,
}
use making_soa_homework.Base.Exec.{Result, ok, err, ◌>>=◌}
use making_soa_homework.Market.Models.{
  OperationType, User, Order, OrderItem, OrderCreateRequest, Db, PromoCode, DiscountType,
  percentage, fixed_amount, created,
}
use making_soa_homework.Market.Errors.{Error}
use making_soa_homework.Market.Session.{Context, respond, stored}
use making_soa_homework.Market.Session.Outcome.{settle, respond-with_transaction}
use making_soa_homework.Market.Access.{has_role, customers, respond-as_role}
use making_soa_homework.Market.Promo.{
  find_code, validate_promo_basic, calculate_discount, discount_of,
}
use making_soa_homework.Market.Orders.{apply_promo, new_order, create_body, create_order}
use making_soa_homework.Market.Orders.Limits.{check_rate_limit, check_no_active, any_open}
use making_soa_homework.Market.Orders.Amounts.{discount_of_bounds}
use making_soa_homework.Market.Orders.Lines.{
  requested, check_products, check_stock, deduct, price_items,
}
use making_soa_homework.Market.Orders.Shortages.{
  AllSold, requested_sold, check_stock-gaps, none_open,
}
use making_soa_homework.Market.Stock.{stock, asked}
use making_soa_homework.Market.Stock.Lines.{listed-deduct}
use making_soa_homework.Market.Stock.Quantities.{amount-requested, requested-IsDistinct}
use making_soa_homework.Market.Orders.Worth.{worth, price_items-worth, worth-deduct, gaps_none}

-- A promo code that a request may use on an order of `total` cents.
abbrev pub Redeemable : ℕ → Option String → ℕ → List PromoCode → Type 0
Redeemable now none total t = Unit
Redeemable now (some code) total t =
    (p : PromoCode) × (find_code code t ≡ some p)
    × (p.active ≡ true)
    × (p.current_uses < p.max_uses)
    × (p.valid_from ≤ now)
    × (now ≤ p.valid_until)
    × (p.min_order_amount ≤ total)

valid_promo :
    (now : ℕ) (p : PromoCode)
    → p.active ≡ true
    → p.current_uses < p.max_uses
    → p.valid_from ≤ now
    → now ≤ p.valid_until
    → validate_promo_basic now false p ≡ ok tt
unfolding validate_promo_basic
valid_promo now p act free from until = ground arith

pub discount_bound :
    (k : DiscountType) (value total : ℕ) → discount_of k value total ≤ total * 10000
discount_bound percentage value total = omega (arith, (discount_of_bounds total value).0)
discount_bound fixed_amount value total = (discount_of_bounds total value).1

discount_given :
    (p : PromoCode) (total : ℕ)
    → p.min_order_amount ≤ total
    → calculate_discount p total ≡ ok (discount_of p.discount_type p.discount_value total)
unfolding calculate_discount
discount_given p total h = ground arith

apply_promo-Redeemable :
    (x : Context) (code : Option String) (total : ℕ) (d : Db)
    → Redeemable x.now_promo code total d.promo_codes
    → (id : Option ℕ) × (discount : ℕ) × ((apply_promo x code total d).0 ≡ ok (id, discount))
      × (discount ≤ total * 10000)
unfolding apply_promo ◌>>=◌
apply_promo-Redeemable x none total d h = (none, 0, refl, omega arith)
apply_promo-Redeemable x (some code) total d h =
    let (p, here, act, free, from, until, enough) = h in
    (
      some p.id,
      discount_of p.discount_type p.discount_value total,
      rw (here, valid_promo x.now_promo p act free from until, discount_given p total enough) refl,
      discount_bound p.discount_type p.discount_value total,
    )

accepted_body :
    (x : Context) (user : User) (payload : OrderCreateRequest) (d : Db) (total : ℕ)
    (lines : List OrderItem) (promo : Option ℕ) (discount kept off : ℕ)
    → check_rate_limit x user.id OperationType.create_order d.user_operations ≡ ok tt
    → check_no_active user.id d.orders ≡ ok tt
    → check_products (requested payload.items) d.products ≡ ok tt
    → check_stock (requested payload.items) d.products ≡ ok tt
    → price_items x.new_id 2 payload.items (deduct (requested payload.items) d.products)
      ≡ ok (total, lines)
    → (apply_promo x payload.promo_code total
        (record d { products = deduct (requested payload.items) d.products })).0
      ≡ ok (promo, discount)
    → stored x (total * 10000 - discount) ≡ ok kept
    → stored x discount ≡ ok off
    → (create_body x user payload d).0 ≡ ok (new_order x user promo kept off lines)
unfolding create_body ◌>>=◌
accepted_body x user payload d total lines promo discount kept off rate free there enough priced
      applied stored_total stored_discount =
    rw (rate, free, there, enough, priced, applied, stored_total, stored_discount) refl

pub settle_done :
    (d : Db) (r : Result Error Order × Db) {o : Order} → r.0 ≡ ok o → settle d r ≡ (ok o, r.1)
settle_done d (ok a, d') h = ground arith
settle_done d (err e, d') h = cc

pub columns_hold :
    (x : Context) (limit m : ℕ)
    → ((m : ℕ) → m ≤ limit → (c : ℕ) × (x.numeric m ≡ some c))
    → m ≤ limit
    → (c : ℕ) × (stored x m ≡ ok c)
columns_hold x limit m h le = let (c, e) = h m le in (c, ground arith)

-- If a customer is within the rate limit, has no open order, asks only for products that are sold
-- and for no more of each than the shelf holds, names no promo code or one that is active, not
-- exhausted, in its time and in its minimum, and the amount columns hold every amount up to the
-- price of the lines, then the request is answered with a new order of that customer, which is open.
pub create_order-accepted :
    (x : Context) (user : User) (payload : OrderCreateRequest) (d : Db)
    → has_role customers user.role ≡ true
    → check_rate_limit x user.id OperationType.create_order d.user_operations ≡ ok tt
    → any_open user.id d.orders ≡ false
    → AllSold payload.items d.products
    → ((j : ℕ) → asked j payload.items ≤ stock j d.products)
    → Redeemable x.now_promo payload.promo_code (worth payload.items d.products) d.promo_codes
    → ((m : ℕ) → m ≤ worth payload.items d.products * 10000 → (c : ℕ) × (x.numeric m ≡ some c))
    → (o : Order) × (d' : Db) × (respond (create_order x user payload) d ≡ (ok o, d'))
      × (o.user_id ≡ user.id)
      × (o.status ≡ created)
unfolding create_order
create_order-accepted x user payload d may rate free there enough redeem holds =
    let wanted = requested payload.items in
    let total = worth payload.items d.products in
    let (all_there, all_listed) = requested_sold payload.items d.products there in
    let covered = gaps_none wanted d.products (requested-IsDistinct payload.items) (λ j.
      subst (λ (n : ℕ). n ≤ stock j d.products) (sym (amount-requested j payload.items))
        (enough j)) in
    let (lines, priced) =
      price_items-worth x.new_id 2 payload.items (deduct wanted d.products)
        (λ j n. listed-deduct j wanted d.products ∙ ground (arith, there j n)) in
    let priced' =
      subst
        (λ (n : ℕ). price_items x.new_id 2 payload.items (deduct wanted d.products) ≡ ok (n, lines))
        (worth-deduct payload.items wanted d.products) priced in
    let (promo, discount, applied, small) =
      apply_promo-Redeemable x payload.promo_code total
        (record d { products = deduct wanted d.products }) redeem in
    let (kept, stored_total) =
      columns_hold x (total * 10000) (total * 10000 - discount) holds (omega arith) in
    let (off, stored_discount) = columns_hold x (total * 10000) discount holds small in
    let done =
      accepted_body x user payload d total lines promo discount kept off rate
        (none_open user.id d.orders free) all_there
        (check_stock-gaps wanted d.products all_listed ∙ rw covered refl) priced' applied
        stored_total stored_discount in
    (
      new_order x user promo kept off lines,
      (create_body x user payload d).1,
      respond-as_role customers user _ d
          ∙ rw may
              (respond-with_transaction _ d ∙ settle_done d (create_body x user payload d) done),
      refl,
      refl,
    )
