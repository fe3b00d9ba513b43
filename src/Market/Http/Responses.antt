-- ===== src/Market/Http/Responses.antt =====
-- The bodies of responses and the answers to errors: дз_2/app/src/main.py.
use making_soa_homework.Base.{ℕ, ◌≡◌, ◌∙◌, refl, ap, Option, String, List, ◌∷◌, map, arith}
use making_soa_homework.Base.Table.{find}
use making_soa_homework.Base.Exec.{Result, ok, err}
use making_soa_homework.Market.Errors.{
  Details, ErrorCode, ApiError, Error, api, database_error, key_error, validation_error,
  token_invalid, token_expired, refresh_token_invalid, access_denied, product_not_found,
  product_inactive, insufficient_stock, order_not_found, order_has_active, order_limit_exceeded,
  order_ownership_violation, invalid_state_transition, promo_code_invalid, promo_code_min_amount,
}
use making_soa_homework.Market.Models.{
  Product, ProductStatus, active, inactive, archived, Order, OrderItem, OrderStatus, created,
  payment_pending, paid, shipped, completed, canceled, User, Db, OrderCreateRequest,
}
use making_soa_homework.Market.Session.{Context, respond}
use making_soa_homework.Market.Session.Outcome.{respond_block-ok, respond-query}
use making_soa_homework.Market.Access.{
  customers, require_order_owner, respond-as_role, respond-as_role-ok, respond-as_role-allowed,
}
use making_soa_homework.Market.Orders.{create_order, get_order, own_order}
use making_soa_homework.Market.Orders.Lines.{requested, deduct}
use making_soa_homework.Market.Orders.Frame.{apply_promo-SameShop}
use making_soa_homework.Market.Orders.Outcome.{create_body-ok}

-- `ProductStatus(...).value` and `OrderStatus(...).value`.
abbrev pub product_status : ProductStatus → String
product_status active = "ACTIVE"
product_status inactive = "INACTIVE"
product_status archived = "ARCHIVED"

abbrev pub order_status : OrderStatus → String
order_status created = "CREATED"
order_status payment_pending = "PAYMENT_PENDING"
order_status paid = "PAID"
order_status shipped = "SHIPPED"
order_status completed = "COMPLETED"
order_status canceled = "CANCELED"

pub record OrderItemResponse : Type 0 where
  pub id : ℕ
  pub product_id : ℕ
  pub quantity : ℕ
  pub price_at_order : ℕ

pub record OrderResponse : Type 0 where
  pub id : ℕ
  pub user_id : ℕ
  pub status : String
  pub promo_code_id : Option ℕ
  pub total_amount : ℕ
  pub discount_amount : ℕ
  pub created_at : ℕ
  pub updated_at : ℕ
  pub items : List OrderItemResponse

-- A row of products: the two columns that the database fills stand beside the others.
pub record ProductRow : Type 0 where
  pub product : Product
  pub created_at : ℕ
  pub updated_at : ℕ

pub record ProductResponse : Type 0 where
  pub id : ℕ
  pub name : String
  pub description : Option String
  pub price : ℕ
  pub stock : ℕ
  pub category : String
  pub status : String
  pub seller_id : ℕ
  pub created_at : ℕ
  pub updated_at : ℕ

abbrev pub item_response : OrderItem → OrderItemResponse
item_response item = record {
  id = item.id;
  product_id = item.product_id;
  quantity = item.quantity;
  price_at_order = item.price_at_order;
}

unfoldable pub to_order_response : Order → OrderResponse
to_order_response order = record {
  id = order.id;
  user_id = order.user_id;
  status = order_status order.status;
  promo_code_id = order.promo_code_id;
  total_amount = order.total_amount;
  discount_amount = order.discount_amount;
  created_at = order.created_at;
  updated_at = order.updated_at;
  items = map item_response order.items;
}

unfoldable pub to_product_response : ProductRow → ProductResponse
to_product_response row =
    let product = row.product in
    record {
      id = product.id;
      name = product.name;
      description = product.description;
      price = product.price;
      stock = product.stock;
      category = product.category;
      status = product_status product.status;
      seller_id = product.seller_id;
      created_at = row.created_at;
      updated_at = row.updated_at;
    }

abbrev pub code_text : ErrorCode → String
code_text validation_error = "VALIDATION_ERROR"
code_text token_invalid = "TOKEN_INVALID"
code_text token_expired = "TOKEN_EXPIRED"
code_text refresh_token_invalid = "REFRESH_TOKEN_INVALID"
code_text access_denied = "ACCESS_DENIED"
code_text product_not_found = "PRODUCT_NOT_FOUND"
code_text product_inactive = "PRODUCT_INACTIVE"
code_text insufficient_stock = "INSUFFICIENT_STOCK"
code_text order_not_found = "ORDER_NOT_FOUND"
code_text order_has_active = "ORDER_HAS_ACTIVE"
code_text order_limit_exceeded = "ORDER_LIMIT_EXCEEDED"
code_text order_ownership_violation = "ORDER_OWNERSHIP_VIOLATION"
code_text invalid_state_transition = "INVALID_STATE_TRANSITION"
code_text promo_code_invalid = "PROMO_CODE_INVALID"
code_text promo_code_min_amount = "PROMO_CODE_MIN_AMOUNT"

-- `content` of the answer to an `ApiError`.
pub record Content : Type 0 where
  pub error_code : String
  pub message : String
  pub details : Details

pub data Answer (R : Type 0) : Type 0 where
  answered : ℕ → R → Answer R
  refused : ℕ → Content → Answer R
  -- No handler takes the exception: the server answers 500.
  crashed : Answer R

unfoldable pub api_error_handler : {R : Type 0} → ApiError → Answer R
api_error_handler exc =
    refused exc.status_code (record {
      error_code = code_text exc.error_code;
      message = exc.message;
      details = exc.details;
    })

-- An endpoint: its status where it returns, the response from its row, and the exceptions.
unfoldable pub endpoint : {A R : Type 0} → ℕ → (A → R) → Result Error A × Db → Answer R × Db
unfolding api_error_handler
endpoint status view (ok a, d) = (answered status (view a), d)
endpoint status view (err (api exc), d) = (api_error_handler exc, d)
endpoint status view (err database_error, d) = (crashed, d)
endpoint status view (err key_error, d) = (crashed, d)

-- `POST /orders` and `GET /orders/{id}`.
abbrev pub post_orders : Context → User → OrderCreateRequest → Db → Answer OrderResponse × Db
post_orders x user payload d =
    endpoint 201 to_order_response (respond (create_order x user payload) d)

abbrev pub get_orders : User → ℕ → Db → Answer OrderResponse × Db
get_orders user id d = endpoint 200 to_order_response (respond (get_order user id) d)

own_new :
    (user : User) (o : Order) (orders : List Order) (d : Db)
    → d.orders ≡ o ∷ orders
    → o.user_id ≡ user.id
    → own_order user o.id d ≡ ok o
unfolding own_order require_order_owner find
own_new user o orders d first mine = rw first (ground arith)

pub get_order-create_order :
    (x : Context) (user : User) (payload : OrderCreateRequest) (d : Db) (o : Order) (d' : Db)
    → respond (create_order x user payload) d ≡ (ok o, d')
    → respond (get_order user o.id) d' ≡ (ok o, d')
unfolding create_order get_order
get_order-create_order x user payload d o d' h =
    let inside = respond-as_role-ok customers user _ d h in
    let c = create_body-ok x user payload d o d' (respond_block-ok _ d inside) in
    let pass = respond-as_role-allowed customers user _ d h in
    let taken : Db = record d { products = deduct (requested payload.items) d.products } in
    let same = apply_promo-SameShop x payload.promo_code c.total taken in
    let first : d'.orders ≡ o ∷ d.orders = rw (c.after, c.order_is, same.1) refl in
    let found = own_new user o d.orders d' first (rw c.order_is refl) in
    respond-as_role customers user _ d'
    ∙ rw pass (respond-query _ d' ∙ ap (λ (r : Result Error Order). (r, d')) found)

-- The order that POST /orders answers with 201, GET /orders/{id} then answers with 200 to the same
-- user, field by field; nothing changes.
pub get_orders-post_orders :
    (x : Context) (user : User) (payload : OrderCreateRequest) (d : Db) (status : ℕ)
    (r : OrderResponse) (d' : Db)
    → post_orders x user payload d ≡ (answered status r, d')
    → (status ≡ 201) × (get_orders user r.id d' ≡ (answered 200 r, d'))
unfolding endpoint to_order_response
get_orders-post_orders x user payload d status r d' h = split _ refl
  where
    split :
        (q : Result Error Order × Db)
        → respond (create_order x user payload) d ≡ q
        → (status ≡ 201) × (get_orders user r.id d' ≡ (answered 200 r, d'))
    split (ok o, d1) e =
        let h' : ◌≡◌ {A = Answer OrderResponse × Db} (answered 201 (to_order_response o), d1)
            (answered status r, d') =
          rw e at h in
        let code : status ≡ 201 = cc in
        let shown : r ≡ to_order_response o = cc in
        let after : d' ≡ d1 = cc in
        (
          code,
          rw (shown, after)
              (ap (endpoint 200 to_order_response)
                (get_order-create_order x user payload d o d1 e)),
        )
    split (err (api exc), d1) e = absurd (ground arith)
    split (err database_error, d1) e = absurd (ground arith)
    split (err key_error, d1) e = absurd (ground arith)
