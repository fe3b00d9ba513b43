-- ===== src/Market/Orders.antt =====
-- The order handlers of дз_2/app/src/main.py: `create_order`, `get_order`, `update_order` and
-- `cancel_order`. What stands before the transaction's block is in the handler, the block itself
-- in a body of its own.
pub mod Lines
pub mod Limits
pub mod Outcome
pub mod Frame
pub mod Requests
pub mod OneActive
pub mod PromoUses
pub mod Refusals
pub mod Amounts
pub mod Races
pub mod Keys
pub mod Named
pub mod Shortages
pub mod Worth
pub mod Accepted
pub mod UpdateAccepted
pub mod Lifecycle
pub mod ForeignKeys
pub mod PromoKeys
pub mod References
pub mod Times
use making_soa_homework.Base.{
  ℕ, suc, ◌+◌, ◌-◌, ◌*◌, String, Option, none, some, List, [], ◌∷◌, not, ltb, if◌then◌else◌, Bool,
  ◌==◌, ◌&&◌,
}
use making_soa_homework.Base.Table.{find, modify}
use making_soa_homework.Base.Exec.{ok, err, pure, ask, write, ◌>>=◌, ◌>>◌}
use making_soa_homework.Market.Models.{
  OrderStatus, created, canceled, OperationType, User, PromoCode, OrderItem, Order, Db,
  OrderCreateRequest, OrderUpdateRequest, UserOperation, promo_key, order_key, is_created, is_open,
}
use making_soa_homework.Market.Errors
use making_soa_homework.Market.Errors.{
  Error, api_error, order_not_found, invalid_state_transition, Fallible, raise_if,
}
use making_soa_homework.Market.Session.{
  Context, stored, Session, Body, Handler, query, with_transaction,
}
use making_soa_homework.Market.Access.{require_order_owner, as_role, customers}
use making_soa_homework.Market.Promo.{
  invalid_promo, find_code, validate_promo_basic, calculate_discount, take_use, release_use,
}
use Lines.{requested, check_products, check_stock, deduct, restore, price_items}
use Limits.{check_rate_limit, check_no_active}
use mathlib.Core.Bool.{true, false}

abbrev pub missing_order : Error
missing_order = api_error order_not_found 404 "Order not found"

abbrev pub invalid_transition : Error
invalid_transition = api_error invalid_state_transition 409 "Invalid state transition"

-- `one_or_none()`, and the error that the handler raises on `None`.
abbrev pub or_raise : {A : Type 0} → Error → Option A → Fallible A
or_raise e none = err e
or_raise e (some a) = ok a

abbrev pub operation : Context → ℕ → OperationType → UserOperation
operation x user_id kind = record {
  id = x.new_id 1;
  user_id = user_id;
  operation_type = kind;
  created_at = x.db_now;
}

-- `if payload.promo_code:` of `create_order`: the promo code of the new order, and its discount. The
-- request's pattern admits no empty code.
unfoldable pub apply_promo : Context → Option String → ℕ → Body (Option ℕ × ℕ)
apply_promo x none total = pure (none, 0)
apply_promo x (some code) total = do
  promo ← ask (λ d. or_raise invalid_promo (find_code code d.promo_codes))
  ask (λ d. validate_promo_basic x.now_promo false promo)
  discount ← ask (λ d. calculate_discount promo total)
  write (λ d. record d { promo_codes = modify promo_key promo.id take_use d.promo_codes })
  pure (some promo.id, discount)

-- The two branches of `update_order` on `total_amount < promo.min_order_amount`.
abbrev pub drop_promo : ℕ → Body (Option ℕ × ℕ)
drop_promo id = do
  write (λ d. record d { promo_codes = modify promo_key id release_use d.promo_codes })
  pure (none, 0)

abbrev pub keep_promo : ℕ → PromoCode → ℕ → Body (Option ℕ × ℕ)
keep_promo id promo total = do
  discount ← ask (λ d. calculate_discount promo total)
  pure (some id, discount)

-- `if order.promo_code_id:` of `update_order`.
unfoldable pub reprice : Context → Option ℕ → ℕ → Body (Option ℕ × ℕ)
reprice x none total = pure (none, 0)
reprice x (some id) total = do
  promo ← ask (λ d. or_raise invalid_promo (find promo_key id d.promo_codes))
  ask (λ d. validate_promo_basic x.now_promo true promo)
  if ltb total promo.min_order_amount then drop_promo id else keep_promo id promo total

-- `Order(...)`, with what `create_order` sets on it before it is flushed.
abbrev pub new_order : Context → User → Option ℕ → ℕ → ℕ → List OrderItem → Order
new_order x user promo_code_id total_amount discount_amount order_items = record {
  id = x.new_id 0;
  user_id = user.id;
  status = created;
  promo_code_id = promo_code_id;
  total_amount = total_amount;
  discount_amount = discount_amount;
  created_at = x.db_now;
  updated_at = x.db_now;
  items = order_items;
}

-- The block of `create_order`.
unfoldable pub create_body : Context → User → OrderCreateRequest → Body Order
create_body x user payload = do
  let wanted = requested payload.items
  ask (λ d. check_rate_limit x user.id OperationType.create_order d.user_operations)
  ask (λ d. check_no_active user.id d.orders)
  ask (λ d. check_products wanted d.products)
  ask (λ d. check_stock wanted d.products)
  write (λ d. record d { products = deduct wanted d.products })
  (total, order_items) ← ask (λ d. price_items x.new_id 2 payload.items d.products)
  (promo_code_id, discount) ← apply_promo x payload.promo_code total
  total_amount ← ask (λ d. stored x (total * 10000 - discount))
  discount_amount ← ask (λ d. stored x discount)
  let order = new_order x user promo_code_id total_amount discount_amount order_items
  write (λ d. record d {
    orders = order ∷ d.orders;
    user_operations = operation x user.id OperationType.create_order ∷ d.user_operations;
  })
  pure order

unfoldable pub create_order : Context → User → OrderCreateRequest → Handler Order
create_order x user payload = as_role customers user (with_transaction (create_body x user payload))

-- `order = db.query(Order)...`, and `_require_order_owner`.
unfoldable pub own_order : User → ℕ → Db → Fallible Order
own_order user id d =
    Errors.◌>>=◌ (or_raise missing_order (find order_key id d.orders))
      λ order. Errors.◌>>◌ (require_order_owner order user) (ok order)

unfoldable pub get_order : User → ℕ → Handler Order
get_order user id = as_role customers user (query (own_order user id))

abbrev pub same_promo : Option ℕ → Option ℕ → Bool
same_promo none none = true
same_promo (some i) (some j) = i == j
same_promo _ _ = false

-- Whether the flush writes the row of the order: a column differs from what was loaded. The items
-- are rows of their own.
abbrev pub is_touched : Order → ℕ → ℕ → Option ℕ → Bool
is_touched order total discount promo_code_id = not (
    total * 10000 - discount == order.total_amount * 10000
    && discount == order.discount_amount * 10000
    && same_promo promo_code_id order.promo_code_id)

-- The order with the columns that `update_order` sets, and `updated_at` by `onupdate=func.now()`
-- where the row is written. `total` and `discount` are the exact amounts before they are stored.
abbrev pub changed_order : Context → ℕ → ℕ → Order → Option ℕ → ℕ → ℕ → List OrderItem → Order
changed_order x total discount order promo_code_id total_amount discount_amount new_items =
    record order {
      promo_code_id = promo_code_id;
      total_amount = total_amount;
      discount_amount = discount_amount;
      updated_at =
          if is_touched order total discount promo_code_id then x.db_now else order.updated_at;
      items = new_items;
    }

-- The block of `update_order`, on the order that was read before it.
unfoldable pub update_body : Context → User → Order → OrderUpdateRequest → Body Order
update_body x user order payload = do
  let wanted = requested payload.items
  ask (λ d. check_rate_limit x user.id OperationType.update_order d.user_operations)
  write (λ d. record d { products = restore order.items d.products })
  ask (λ d. check_products wanted d.products)
  ask (λ d. check_stock wanted d.products)
  write (λ d. record d { products = deduct wanted d.products })
  (total, new_items) ← ask (λ d. price_items x.new_id 2 payload.items d.products)
  (promo_code_id, discount) ← reprice x order.promo_code_id total
  total_amount ← ask (λ d. stored x (total * 10000 - discount))
  discount_amount ← ask (λ d. stored x discount)
  let updated =
      changed_order x total discount order promo_code_id total_amount discount_amount new_items
  write (λ d. record d {
    orders = modify order_key order.id (λ _. updated) d.orders;
    user_operations = operation x user.id OperationType.update_order ∷ d.user_operations;
  })
  pure updated

unfoldable pub update_order : Context → User → ℕ → OrderUpdateRequest → Handler Order
update_order x user id payload = as_role customers user do
  order ← query (own_order user id)
  ask (λ s. raise_if (not (is_created order.status)) invalid_transition)
  with_transaction (update_body x user order payload)

-- `if order.promo_code_id:` of `cancel_order`.
abbrev pub release : Option ℕ → Db → Db
release none d = d
release (some id) d = record d { promo_codes = modify promo_key id release_use d.promo_codes }

-- `order.status = OrderStatus.CANCELED`, of an open order, so that its row is written.
abbrev pub canceled_order : Context → Order → Order
canceled_order x order = record order { status = canceled; updated_at = x.db_now }

-- The block of `cancel_order`, on the order that was read before it.
unfoldable pub cancel_body : Context → Order → Body Order
cancel_body x order = do
  let order' = canceled_order x order
  write (λ d. record d { products = restore order.items d.products })
  write (release order.promo_code_id)
  write (λ d. record d { orders = modify order_key order.id (λ _. order') d.orders })
  pure order'

unfoldable pub cancel_order : Context → User → ℕ → Handler Order
cancel_order x user id = as_role customers user do
  order ← query (own_order user id)
  ask (λ s. raise_if (not (is_open order.status)) invalid_transition)
  with_transaction (cancel_body x order)
