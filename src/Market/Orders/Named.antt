-- ===== src/Market/Orders/Named.antt =====
-- No request on orders ends in KeyError: the handlers of дз_2/app/src/main.py.
use making_soa_homework.Base.{
  ℕ, Bool, ltb, if◌then◌else◌, ◌≡◌, ◌≢◌, ◌∙◌, true, false, List, Option, none, some, arith, inl,
  inr, Bool-cases,
}
use making_soa_homework.Base.Table.{find}
use making_soa_homework.Base.Exec.{Result, Result-cases, ok, err, pure, ◌>>=◌}
use making_soa_homework.Market.Models.{
  OperationType, UserOperation, User, Order, OrderItemCreate, Db, OrderCreateRequest,
  OrderUpdateRequest, Product, PromoCode, promo_key,
}
use making_soa_homework.Market.Errors.{Error, key_error}
use making_soa_homework.Market.Session.{Context, stored, respond, Handler, Body}
use making_soa_homework.Market.Session.Outcome.{
  settle, respond-with_transaction, respond-loaded, respond-loaded_unfit, respond-loaded_unread,
  loaded, respond-query,
}
use making_soa_homework.Market.Access.{
  require_order_owner, as_role, customers, has_role, respond-as_role,
}
use making_soa_homework.Market.Promo.{
  invalid_promo, find_code, validate_promo_basic, calculate_discount,
}
use making_soa_homework.Market.Stock.{listed}
use making_soa_homework.Market.Stock.Lines.{listed-deduct}
use making_soa_homework.Market.Orders.Limits.{check_rate_limit, check_no_active}
use making_soa_homework.Market.Orders.Lines.{requested, check_products, deduct, restore}
use making_soa_homework.Market.Orders.Keys.{
  names, has_key-requested, check_products-listed, check_products_keys, check_stock_keys,
  price_items_keys, Named, bind-Named, ask-Named, write-Named,
}
use making_soa_homework.Market.Orders.{
  or_raise, apply_promo, reprice, drop_promo, keep_promo, create_body, update_body, cancel_body,
  create_order, own_order, get_order, update_order, cancel_order,
}
use making_soa_homework.Market.Orders.Requests.{OrderRequest, create, get, update, cancel, handle}

check_rate_limit_keys :
    (x : Context) (u : ℕ) (k : OperationType) (ops : List UserOperation)
    → check_rate_limit x u k ops ≢ err key_error
unfolding check_rate_limit
check_rate_limit_keys x u k ops h = ground arith

check_no_active_keys : (u : ℕ) (t : List Order) → check_no_active u t ≢ err key_error
unfolding check_no_active
check_no_active_keys u t h = ground arith

validate_keys : (now : ℕ) (a : _) (p : PromoCode) → validate_promo_basic now a p ≢ err key_error
unfolding validate_promo_basic
validate_keys now a p h = ground arith

discount_keys : (p : PromoCode) (total : ℕ) → calculate_discount p total ≢ err key_error
unfolding calculate_discount
discount_keys p total h = ground arith

stored_keys : (x : Context) (m : ℕ) → stored x m ≢ err key_error
stored_keys x m h = ground arith

found_keys : (o : Option PromoCode) → or_raise invalid_promo o ≢ err key_error
found_keys none h = ground arith
found_keys (some p) h = ground arith

pure-Named : {A S : Type 0} (o : A) (s : S) → Named (pure o s)
unfolding pure
pure-Named o s h = ground arith

apply_promo-Named :
    (x : Context) (code : Option _) (total : ℕ) (d : Db) → Named (apply_promo x code total d)
unfolding apply_promo
apply_promo-Named x none total d = pure-Named _ d
apply_promo-Named x (some code) total d =
    ask-Named _ _ d (found_keys (find_code code d.promo_codes)) λ p _.
      ask-Named _ _ d (validate_keys x.now_promo false p) λ _ _.
        ask-Named _ _ d (discount_keys p total) λ discount _. write-Named _ _ _ (pure-Named _ _)

either-Named :
    {A : Type 0} (b : Bool) (m n : Body A) (d : Db)
    → Named (m d)
    → Named (n d)
    → Named ((if b then m else n) d)
either-Named true m n d h k = h
either-Named false m n d h k = k

reprice-Named : (x : Context) (id : Option ℕ) (total : ℕ) (d : Db) → Named (reprice x id total d)
unfolding reprice
reprice-Named x none total d = pure-Named _ d
reprice-Named x (some id) total d =
    ask-Named _ _ d (found_keys (find promo_key id d.promo_codes)) λ p _.
      ask-Named _ _ d (validate_keys x.now_promo true p) λ _ _.
        either-Named (ltb total p.min_order_amount) (drop_promo id) (keep_promo id p total) d
          (write-Named _ _ _ (pure-Named _ _))
          (ask-Named _ _ d (discount_keys p total) λ _ _. pure-Named _ _)

-- A product that some line names, once `check_products` has passed.
named_listed :
    (items : List OrderItemCreate) (t : List Product) (j : ℕ)
    → check_products (requested items) t ≡ ok tt
    → names j items ≡ true
    → listed j (deduct (requested items) t) ≡ true
named_listed items t j h n =
    listed-deduct j (requested items) t
    ∙ check_products-listed (requested items) t j h (has_key-requested j items ∙ n)

create_body-Named :
    (x : Context) (user : User) (payload : OrderCreateRequest) (d : Db)
    → Named (create_body x user payload d)
unfolding create_body
create_body-Named x user payload d =
    let wanted = requested payload.items in
    ask-Named _ _ d (check_rate_limit_keys x user.id OperationType.create_order d.user_operations)
      λ _ _. ask-Named _ _ d (check_no_active_keys user.id d.orders) λ _ _.
        ask-Named _ _ d (check_products_keys wanted d.products) λ _ there.
          ask-Named _ _ d
            (check_stock_keys wanted d.products
              (λ j. check_products-listed wanted d.products j there))
            λ _ _. write-Named _ _ d (
              ask-Named _ _ _
                (price_items_keys x.new_id 2 payload.items (deduct wanted d.products)
                  (λ j. named_listed payload.items d.products j there))
                λ priced _.
                  bind-Named _ _ _ (apply_promo-Named x payload.promo_code priced.0 _) λ applied _.
                    ask-Named _ _ _ (stored_keys x _) λ _ _.
                      ask-Named _ _ _ (stored_keys x _) λ _ _. write-Named _ _ _ (pure-Named _ _))

update_body-Named :
    (x : Context) (user : User) (order : Order) (payload : OrderUpdateRequest) (d : Db)
    → Named (update_body x user order payload d)
unfolding update_body
update_body-Named x user order payload d =
    let wanted = requested payload.items in
    let t = restore order.items d.products in
    ask-Named _ _ d (check_rate_limit_keys x user.id OperationType.update_order d.user_operations)
      λ _ _. write-Named _ _ d (
        ask-Named _ _ _ (check_products_keys wanted t) λ _ there.
          ask-Named _ _ _ (check_stock_keys wanted t (λ j. check_products-listed wanted t j there))
            λ _ _. write-Named _ _ _ (
              ask-Named _ _ _
                (price_items_keys x.new_id 2 payload.items (deduct wanted t)
                  (λ j. named_listed payload.items t j there))
                λ priced _.
                  bind-Named _ _ _ (reprice-Named x order.promo_code_id priced.0 _) λ applied _.
                    ask-Named _ _ _ (stored_keys x _) λ _ _.
                      ask-Named _ _ _ (stored_keys x _) λ _ _. write-Named _ _ _ (pure-Named _ _)))

cancel_body-Named : (x : Context) (order : Order) (d : Db) → Named (cancel_body x order d)
unfolding cancel_body ◌>>=◌
cancel_body-Named x order d h = ground arith

own_order_keys : (user : User) (id : ℕ) (d : Db) → own_order user id d ≢ err key_error
unfolding own_order require_order_owner
own_order_keys user id d h = ground arith

settle-Named : (d : Db) (r : Result Error Order × Db) → Named r → Named (settle d r)
settle-Named d (ok o, d') h = h
settle-Named d (err e, d') h = h

as_role-Named :
    (user : User) (h : Handler Order) (d : Db)
    → Named (respond h d)
    → Named (respond (as_role customers user h) d)
as_role-Named user h d named k = elim (Bool-cases (has_role customers user.role)) [
  | inl may ↦ named (ground (arith, respond-as_role customers user h d))
  | inr other ↦ ground (arith, respond-as_role customers user h d)
]

loaded-Named :
    (load : Db → Result Error Order) (check : Order → Result Error (Unit {0}))
    (body : Order → Body Order) (d : Db)
    → load d ≢ err key_error
    → ((o : Order) → check o ≢ err key_error)
    → ((o : Order) → Named (body o d))
    → Named (respond (loaded load check body) d)
loaded-Named load check body d l c b = elim (Result-cases (load d)) [
  | inl (o, e) ↦ elim (Result-cases (check o)) [
    | inl (u, f) ↦
        let g : respond (loaded load check body) d ≡ settle d (body o d) =
          ground (arith, respond-loaded load check body d) in
        rw g (settle-Named d (body o d) (b o))
    | inr (x, f) ↦ rw (respond-loaded_unfit load check body d e f) (λ k. c o (ground arith))
  ]
  | inr (x, e) ↦ rw (respond-loaded_unread load check body d e) (λ k. l (ground arith))
]

-- No request on orders ends in KeyError: the blocks look up no product that they have not found
-- before.
pub request_named :
    (x : Context) (r : OrderRequest) (d : Db) → (respond (handle x r) d).0 ≢ err key_error
unfolding handle create_order get_order update_order cancel_order
request_named x (create user payload) d =
    as_role-Named user _ d
      (rw respond-with_transaction (settle-Named d _ (create_body-Named x user payload d)))
request_named x (get user id) d =
    as_role-Named user _ d (rw respond-query (own_order_keys user id d))
request_named x (update user id payload) d = as_role-Named user _ d (
    loaded-Named _ _ _ d (own_order_keys user id d) (λ o h. ground arith)
      (λ o. update_body-Named x user o payload d))
request_named x (cancel user id) d = as_role-Named user _ d (
    loaded-Named _ _ _ d (own_order_keys user id d) (λ o h. ground arith)
      (λ o. cancel_body-Named x o d))
