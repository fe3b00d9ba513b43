-- ===== src/Market/Orders/UpdateAccepted.antt =====
-- The updates that `update_order` of дз_2/app/src/main.py accepts.
use making_soa_homework.Base.{
  ℕ, ◌+◌, ◌*◌, ◌-◌, ◌≤◌, ◌≡◌, ◌∙◌, refl, sym, subst, true, false, Option, none, some, List, [], ◌∷◌,
  ◌⊎◌, inl, inr, leb, if◌then◌else◌, Bool-cases, arith,
}
use making_soa_homework.Base.Table.{find, modify, find-modify}
use making_soa_homework.Base.Exec.{ok, ◌>>=◌}
use making_soa_homework.Market.Models.{
  OperationType, User, Product, product_key, Order, OrderItem, OrderItemCreate, OrderUpdateRequest,
  Db, PromoCode, promo_key, order_key, is_admin, is_created,
}
use making_soa_homework.Market.Session.{Context, respond, stored}
use making_soa_homework.Market.Session.Outcome.{respond-loaded_fit}
use making_soa_homework.Market.Access.{has_role, customers, respond-as_role, require_order_owner}
use making_soa_homework.Market.Promo.{validate_promo_basic, calculate_discount, discount_of}
use making_soa_homework.Market.Orders.{own_order, changed_order, reprice, update_body, update_order}
use making_soa_homework.Market.Orders.Limits.{check_rate_limit}
use making_soa_homework.Market.Orders.Lines.{
  requested, check_products, check_stock, deduct, restore, price_items, more_stock,
}
use making_soa_homework.Market.Orders.Keys.{names}
use making_soa_homework.Market.Orders.Shortages.{AllSold, sold, requested_sold, check_stock-gaps}
use making_soa_homework.Market.Orders.Worth.{
  worth, price_items-worth, worth-deduct, worth-restore, gaps_none,
}
use making_soa_homework.Market.Orders.Accepted.{discount_bound, settle_done, columns_hold}
use making_soa_homework.Market.Stock.{stock, asked, ordered}
use making_soa_homework.Market.Stock.Lines.{
  listed-deduct, listed-restore, stock-restore, ordered-price_items,
}
use making_soa_homework.Market.Stock.Quantities.{amount-requested, requested-IsDistinct}

-- The promo code of an order is there, active and in its time.
abbrev pub Continues : ℕ → Option ℕ → List PromoCode → Type 0
Continues now none t = Unit
Continues now (some id) t =
    (p : PromoCode) × (find promo_key id t ≡ some p)
    × (p.active ≡ true)
    × (p.valid_from ≤ now)
    × (now ≤ p.valid_until)

-- An order keeps its promo code where it reaches the code's minimum.
abbrev pub kept_promo : Option ℕ → ℕ → List PromoCode → Option ℕ
kept_promo none total t = none
kept_promo (some id) total t = elim (find promo_key id t) [
  | none ↦ none
  | some p ↦ if leb p.min_order_amount total then some id else none
]

valid_still :
    (now : ℕ) (p : PromoCode)
    → p.active ≡ true
    → p.valid_from ≤ now
    → now ≤ p.valid_until
    → validate_promo_basic now true p ≡ ok tt
unfolding validate_promo_basic
valid_still now p act from until = ground arith

reprice-Continues :
    (x : Context) (promo : Option ℕ) (total : ℕ) (d : Db)
    → Continues x.now_promo promo d.promo_codes
    → (discount : ℕ) × ((reprice x promo total d).0
        ≡ ok (kept_promo promo total d.promo_codes, discount))
      × (discount ≤ total * 10000)
unfolding reprice calculate_discount ◌>>=◌
reprice-Continues x none total d h = (0, refl, omega arith)
reprice-Continues x (some id) total d h =
    let (p, here, act, from, until) = h in
    let valid = valid_still x.now_promo p act from until in
    elim (Bool-cases (leb p.min_order_amount total)) [
      | inl enough ↦ (
        discount_of p.discount_type p.discount_value total,
        rw (here, valid) (ground arith),
        discount_bound p.discount_type p.discount_value total,
      )
      | inr less ↦ (0, rw (here, valid) (ground arith), omega arith)
    ]

sold-restore :
    (j : ℕ) (items : List OrderItem) (t : List Product) → sold j (restore items t) ≡ sold j t
unfolding restore
sold-restore j [] t = refl
sold-restore j (item ∷ rest) t = ground (
  arith,
  sold-restore j rest (modify product_key item.product_id (more_stock item.quantity) t),
  find-modify product_key item.product_id j (more_stock item.quantity) t (λ p. refl),
)

asked_absent : (j : ℕ) (items : List OrderItemCreate) → names j items ≡ false → asked j items ≡ 0
unfolding names asked
asked_absent j [] h = refl
asked_absent j (item ∷ rest) h = ground (arith, asked_absent j rest)

-- With the items of the order back on it, the shelf covers the request.
covers :
    (j : ℕ) (items : List OrderItemCreate) (old : List OrderItem) (t : List Product)
    → AllSold items t
    → asked j items ≤ stock j t + ordered j old
    → asked j items ≤ stock j (restore old t)
covers j items old t there enough = elim (Bool-cases (names j items)) [
  | inl n ↦ ground (arith, there j n, stock-restore j old t)
  | inr n ↦ ground (arith, asked_absent j items n)
]

updated_body :
    (x : Context) (user : User) (order : Order) (payload : OrderUpdateRequest) (d : Db) (total : ℕ)
    (lines : List OrderItem) (promo : Option ℕ) (discount kept off : ℕ)
    → let wanted = requested payload.items in
      let t = restore order.items d.products in
      check_rate_limit x user.id OperationType.update_order d.user_operations ≡ ok tt
      → check_products wanted t ≡ ok tt
      → check_stock wanted t ≡ ok tt
      → price_items x.new_id 2 payload.items (deduct wanted t) ≡ ok (total, lines)
      → (reprice x order.promo_code_id total (record d { products = deduct wanted t })).0
        ≡ ok (promo, discount)
      → stored x (total * 10000 - discount) ≡ ok kept
      → stored x discount ≡ ok off
      → (update_body x user order payload d).0
        ≡ ok (changed_order x total discount order promo kept off lines)
unfolding update_body ◌>>=◌
updated_body x user order payload d total lines promo discount kept off rate there enough priced
      applied stored_total stored_discount =
    rw (rate, there, enough, priced, applied, stored_total, stored_discount) refl

own_order_found :
    (user : User) (id : ℕ) (d : Db) (order : Order)
    → find order_key id d.orders ≡ some order
    → (is_admin user.role ≡ true) ⊎ (order.user_id ≡ user.id)
    → own_order user id d ≡ ok order
unfolding own_order require_order_owner
own_order_found user id d order here (inl admin) = ground arith
own_order_found user id d order here (inr mine) = ground arith

-- An update that has been accepted: the same order of the same customer, still created, with what
-- was asked for, and with its promo code where the new lines reach the code's minimum.
pub record Accepted (order : Order) (payload : OrderUpdateRequest) (d : Db) (o : Order)
    : Type 0 where
  pub id : o.id ≡ order.id
  pub user_id : o.user_id ≡ order.user_id
  pub status : o.status ≡ order.status
  pub lines : (j : ℕ) → ordered j o.items ≡ asked j payload.items
  pub promo :
      o.promo_code_id
      ≡ kept_promo order.promo_code_id (worth payload.items d.products) d.promo_codes

module _ (x : Context) (user : User) (order : Order) (payload : OrderUpdateRequest) (d : Db) where
  update_body-Accepted :
      check_rate_limit x user.id OperationType.update_order d.user_operations ≡ ok tt
      → AllSold payload.items d.products
      → ((j : ℕ) → asked j payload.items ≤ stock j d.products + ordered j order.items)
      → Continues x.now_promo order.promo_code_id d.promo_codes
      → ((m : ℕ) → m ≤ worth payload.items d.products * 10000 → (c : ℕ) × (x.numeric m ≡ some c))
      → (o : Order) × ((update_body x user order payload d).0 ≡ ok o) × Accepted order payload d o
  update_body-Accepted rate there enough goes holds =
      let wanted = requested payload.items in
      let t = restore order.items d.products in
      let total = worth payload.items d.products in
      let (all_there, all_listed) =
        requested_sold payload.items t (λ j n. sold-restore j order.items d.products ∙ there j n) in
      let covered = gaps_none wanted t (requested-IsDistinct payload.items) (λ j.
        subst (λ (n : ℕ). n ≤ stock j t) (sym (amount-requested j payload.items))
          (covers j payload.items order.items d.products there (enough j))) in
      let (lines, priced) = price_items-worth x.new_id 2 payload.items (deduct wanted t) (λ j n.
        listed-deduct j wanted t
        ∙ listed-restore j order.items d.products
        ∙ ground (arith, there j n)) in
      let priced' =
        subst (λ (n : ℕ). price_items x.new_id 2 payload.items (deduct wanted t) ≡ ok (n, lines))
          (worth-deduct payload.items wanted t ∙ worth-restore payload.items order.items d.products)
          priced in
      let (discount, applied, small) =
        reprice-Continues x order.promo_code_id total (record d { products = deduct wanted t })
          goes in
      let (kept, stored_total) =
        columns_hold x (total * 10000) (total * 10000 - discount) holds (omega arith) in
      let (off, stored_discount) = columns_hold x (total * 10000) discount holds small in
      let promo = kept_promo order.promo_code_id total d.promo_codes in
      (
        changed_order x total discount order promo kept off lines,
        updated_body x user order payload d total lines promo discount kept off rate all_there
            (check_stock-gaps wanted t all_listed ∙ rw covered refl) priced' applied stored_total
            stored_discount,
        record {
          id = refl;
          user_id = refl;
          status = refl;
          lines = λ j.
              ordered-price_items x.new_id 2 payload.items (deduct wanted t) total lines j priced';
          promo = refl;
        },
      )

-- If a user may touch an order that is created, is within the rate limit, and asks only for products
-- that are sold and for no more of each than the shelf and the order hold together, if the order has
-- no promo code or one that is active and in its time, and if the amount columns hold every amount
-- up to the price of the new lines, then the update is answered with the same order of the same
-- customer, still created, whose lines hold what was asked for. It keeps its promo code where the
-- new lines reach the code's minimum.
pub update_order-Accepted :
    (x : Context) (user : User) (id : ℕ) (payload : OrderUpdateRequest) (d : Db) (order : Order)
    → has_role customers user.role ≡ true
    → find order_key id d.orders ≡ some order
    → (is_admin user.role ≡ true) ⊎ (order.user_id ≡ user.id)
    → is_created order.status ≡ true
    → check_rate_limit x user.id OperationType.update_order d.user_operations ≡ ok tt
    → AllSold payload.items d.products
    → ((j : ℕ) → asked j payload.items ≤ stock j d.products + ordered j order.items)
    → Continues x.now_promo order.promo_code_id d.promo_codes
    → ((m : ℕ) → m ≤ worth payload.items d.products * 10000 → (c : ℕ) × (x.numeric m ≡ some c))
    → (o : Order) × (d' : Db) × (respond (update_order x user id payload) d ≡ (ok o, d'))
      × Accepted order payload d o
unfolding update_order
update_order-Accepted x user id payload d order may here owner fresh rate there enough goes holds =
    let (o, done, made) =
      update_body-Accepted x user order payload d rate there enough goes holds in
    (
      o,
      (update_body x user order payload d).1,
      respond-as_role customers user _ d
          ∙ rw may (
              respond-loaded_fit _ _ _ d (own_order_found user id d order here owner) (ground arith)
              ∙ settle_done d (update_body x user order payload d) done),
      made,
    )
