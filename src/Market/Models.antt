-- ===== src/Market/Models.antt =====
-- The tables of the marketplace (дз_2/app/src/models) as records, and the request bodies of its
-- handlers. Identifiers are only compared, so they are numbers. Instants are microseconds. What a
-- NUMERIC(12, 2) column holds is a number of cents; an exact `Decimal` of the code, also an amount
-- in a request, is a number of millionths. The columns `created_at` and `updated_at` that the
-- database fills are kept for orders, and `created_at` for operations; Http/Responses adds those of
-- products, and `created_at` of users and promo codes is left out.
use making_soa_homework.Base.{ℕ, String, Bool, true, false, Option, List}

pub data UserRole : Type 0 where
  role_user role_seller role_admin : UserRole

pub data ProductStatus : Type 0 where
  active inactive archived : ProductStatus

pub data OrderStatus : Type 0 where
  created payment_pending paid shipped completed canceled : OrderStatus

pub data DiscountType : Type 0 where
  percentage fixed_amount : DiscountType

pub data OperationType : Type 0 where
  create_order update_order : OperationType

pub record User : Type 0 where
  pub id : ℕ
  pub email : String
  pub hashed_password : String
  pub role : UserRole

pub record Product : Type 0 where
  pub id : ℕ
  pub name : String
  pub description : Option String
  pub price : ℕ
  pub stock : ℕ
  pub category : String
  pub status : ProductStatus
  pub seller_id : ℕ

pub record PromoCode : Type 0 where
  pub id : ℕ
  pub code : String
  pub discount_type : DiscountType
  pub discount_value : ℕ
  pub min_order_amount : ℕ
  pub max_uses : ℕ
  pub current_uses : ℕ
  pub valid_from : ℕ
  pub valid_until : ℕ
  pub active : Bool

pub record OrderItem : Type 0 where
  pub id : ℕ
  pub product_id : ℕ
  pub quantity : ℕ
  pub price_at_order : ℕ

-- The items hang at their order: the relationship deletes orphans.
pub record Order : Type 0 where
  pub id : ℕ
  pub user_id : ℕ
  pub status : OrderStatus
  pub promo_code_id : Option ℕ
  pub total_amount : ℕ
  pub discount_amount : ℕ
  pub created_at : ℕ
  pub updated_at : ℕ
  pub items : List OrderItem

pub record UserOperation : Type 0 where
  pub id : ℕ
  pub user_id : ℕ
  pub operation_type : OperationType
  pub created_at : ℕ

pub record Db : Type 0 where
  pub users : List User
  pub products : List Product
  pub promo_codes : List PromoCode
  pub orders : List Order
  pub user_operations : List UserOperation

abbrev pub is_admin : UserRole → Bool
is_admin role_admin = true
is_admin _ = false

abbrev pub is_seller : UserRole → Bool
is_seller role_seller = true
is_seller _ = false

abbrev pub is_active : ProductStatus → Bool
is_active active = true
is_active _ = false

abbrev pub is_created : OrderStatus → Bool
is_created created = true
is_created _ = false

-- `status in {CREATED, PAYMENT_PENDING}`
abbrev pub is_open : OrderStatus → Bool
is_open created = true
is_open payment_pending = true
is_open _ = false

abbrev pub same_type : OperationType → OperationType → Bool
same_type create_order create_order = true
same_type update_order update_order = true
same_type _ _ = false

pub record OrderItemCreate : Type 0 where
  pub product_id : ℕ
  pub quantity : ℕ

pub record OrderCreateRequest : Type 0 where
  pub items : List OrderItemCreate
  pub promo_code : Option String

pub record OrderUpdateRequest : Type 0 where
  pub items : List OrderItemCreate

-- The primary keys.
abbrev pub user_key : User → ℕ
user_key u = u.id

abbrev pub product_key : Product → ℕ
product_key p = p.id

abbrev pub promo_key : PromoCode → ℕ
promo_key p = p.id

abbrev pub order_key : Order → ℕ
order_key o = o.id
