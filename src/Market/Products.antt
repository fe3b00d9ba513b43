-- ===== src/Market/Products.antt =====
-- The catalogue: `list_products`, `create_product`, `get_product`, `update_product` and
-- `delete_product` of дз_2/app/src/main.py, and `create_promo_code`.
pub mod Pages
pub mod Codes
pub mod Changes
use text.Mathlib.Text.{◌==◌ as str_eq}
use making_soa_homework.Base.{
  ℕ, ◌*◌, Bool, true, false, ◌&&◌, not, Option, none, some, String, List, [], ◌∷◌, length, take,
  drop, ◌==◌, if◌then◌else◌,
}
use making_soa_homework.Base.Table.{find, modify}
use making_soa_homework.Base.Exec.{ok, err, pure, ask, write, ◌>>=◌, ◌>>◌}
use making_soa_homework.Market.Models.{
  UserRole, role_seller, role_admin, is_seller, is_admin, ProductStatus, active, inactive, archived,
  DiscountType, User, user_key, Product, product_key, PromoCode, Db,
}
use making_soa_homework.Market.Errors
use making_soa_homework.Market.Errors.{
  Error, api, api_error, database_error, Details, validation_error, product_not_found, Fallible,
}
use making_soa_homework.Market.Session.{Context, stored, Body, Handler, query, and_commit}
use making_soa_homework.Market.Access.{denied, require_product_owner, as_role, merchants}
use making_soa_homework.Market.Orders.{or_raise}
use making_soa_homework.Market.Orders.Lines.{missing_product}

pub record ProductCreate : Type 0 where
  pub seller_id : Option ℕ
  pub name : String
  pub description : Option String
  pub price : ℕ
  pub stock : ℕ
  pub category : String
  pub status : ProductStatus

-- A key of an update: not in the body, `null`, or a value.
pub data Change (A : Type 0) : Type 0 where
  unset null : Change A
  to : A → Change A

pub record ProductUpdate : Type 0 where
  pub name : Change String
  pub description : Change String
  pub price : Change ℕ
  pub stock : Change ℕ
  pub category : Change String
  pub status : Change ProductStatus

pub record ProductList : Type 0 where
  pub items : List Product
  pub total_elements : ℕ

abbrev pub same_status : ProductStatus → ProductStatus → Bool
same_status active active = true
same_status inactive inactive = true
same_status archived archived = true
same_status _ _ = false

-- `if status:` and `if category:`, where an empty text asks for nothing.
abbrev pub fits_status : Option ProductStatus → Product → Bool
fits_status none p = true
fits_status (some s) p = same_status p.status s

abbrev pub fits_category : Option String → Product → Bool
fits_category none p = true
fits_category (some c) p = if str_eq c "" then true else str_eq p.category c

unfoldable pub matching : Option ProductStatus → Option String → List Product → List Product
matching status category [] = []
matching status category (p ∷ t) =
    let rest = matching status category t in
    if fits_status status p && fits_category category p then p ∷ rest else rest

-- `query.offset(page * size).limit(size)`
unfoldable pub page_of : ℕ → ℕ → List Product → List Product
page_of page size t = take size (drop (page * size) t)

unfoldable pub list_products : ℕ → ℕ → Option ProductStatus → Option String → Handler ProductList
unfolding matching page_of
list_products page size status category = query λ d. ok (record {
  items = page_of page size (matching status category d.products);
  total_elements = length (matching status category d.products);
})

abbrev pub invalid_seller : Error
invalid_seller = api (record {
  error_code = validation_error;
  status_code = 400;
  message = "Invalid seller_id";
  details = Details.field "seller_id" "Seller not found or has invalid role";
})

-- The seller of a new product: an administrator may name one, a seller only himself.
unfoldable pub seller_for : User → Option ℕ → Db → Fallible ℕ
seller_for user none d = ok user.id
seller_for user (some s) d =
    if is_admin user.role
    then (elim (find user_key s d.users) [
      | none ↦ err invalid_seller
      | some target ↦ if is_seller target.role then ok target.id else err invalid_seller
    ])
    else if is_seller user.role && not (s == user.id)
    then err denied
    else ok user.id

unfoldable pub product_body : Context → ProductCreate → ℕ → Body Product
product_body x payload seller_id = do
  price ← ask (λ d. stored x payload.price)
  let product : Product = record {
    id = x.new_id 0;
    name = payload.name;
    description = payload.description;
    price = price;
    stock = payload.stock;
    category = payload.category;
    status = payload.status;
    seller_id = seller_id;
  }
  write (λ d. record d { products = product ∷ d.products })
  pure product

unfoldable pub create_product : Context → User → ProductCreate → Handler Product
create_product x user payload = as_role merchants user do
  seller_id ← query (seller_for user payload.seller_id)
  and_commit (product_body x payload seller_id)

unfoldable pub find_product : ℕ → Db → Fallible Product
find_product id d = or_raise missing_product (find product_key id d.products)

-- For any user that is logged in.
unfoldable pub get_product : ℕ → Handler Product
unfolding find_product
get_product id = query (find_product id)

unfoldable pub own_product : User → ℕ → Db → Fallible Product
unfolding find_product require_product_owner
own_product user id d =
    Errors.◌>>=◌ (find_product id d) λ p. Errors.◌>>◌ (require_product_owner p user) (ok p)

-- `setattr` of a column that is NOT NULL: the flush refuses `None`.
abbrev pub required : {A : Type 0} → A → Change A → Fallible A
required old unset = ok old
required old null = err database_error
required old (to v) = ok v

abbrev pub optional : {A : Type 0} → Option A → Change A → Option A
optional old unset = old
optional old null = none
optional old (to v) = some v

abbrev pub repriced : Context → ℕ → Change ℕ → Fallible ℕ
repriced x old unset = ok old
repriced x old null = err database_error
repriced x old (to m) = stored x m

unfoldable pub change_body : Context → ProductUpdate → Product → Body Product
change_body x payload p = do
  name ← ask (λ d. required p.name payload.name)
  price ← ask (λ d. repriced x p.price payload.price)
  stock ← ask (λ d. required p.stock payload.stock)
  category ← ask (λ d. required p.category payload.category)
  status ← ask (λ d. required p.status payload.status)
  let changed : Product = record p {
    name = name;
    description = optional p.description payload.description;
    price = price;
    stock = stock;
    category = category;
    status = status;
  }
  write (λ d. record d { products = modify product_key p.id (λ _. changed) d.products })
  pure changed

unfoldable pub update_product : Context → User → ℕ → ProductUpdate → Handler Product
update_product x user id payload =
    as_role merchants user
      do product ← query (own_product user id); and_commit (change_body x payload product)

unfoldable pub archive_body : Product → Body (Unit {0})
archive_body p = write (λ d. record d {
  products = modify product_key p.id (λ q. record q { status = archived }) d.products;
})

unfoldable pub delete_product : User → ℕ → Handler (Unit {0})
delete_product user id =
    as_role merchants user
      do product ← query (own_product user id); and_commit (archive_body product)

pub record PromoCodeCreate : Type 0 where
  pub code : String
  pub discount_type : DiscountType
  pub discount_value : ℕ
  pub min_order_amount : ℕ
  pub max_uses : ℕ
  pub valid_from : ℕ
  pub valid_until : ℕ
  pub active : Option Bool

abbrev pub true_or : Option Bool → Bool
true_or none = true
true_or (some b) = b

abbrev pub has_code : String → List PromoCode → Bool
has_code c [] = false
has_code c (p ∷ t) = if str_eq p.code c then true else has_code c t

-- The column `code` is unique: the flush refuses a code that is there.
unfoldable pub promo_body : Context → PromoCodeCreate → Body PromoCode
promo_body x payload = do
  ask (λ d. Errors.raise_if (has_code payload.code d.promo_codes) database_error)
  discount_value ← ask (λ d. stored x payload.discount_value)
  min_order_amount ← ask (λ d. stored x payload.min_order_amount)
  let promo : PromoCode = record {
    id = x.new_id 0;
    code = payload.code;
    discount_type = payload.discount_type;
    discount_value = discount_value;
    min_order_amount = min_order_amount;
    max_uses = payload.max_uses;
    current_uses = 0;
    valid_from = payload.valid_from;
    valid_until = payload.valid_until;
    active = true_or payload.active;
  }
  write (λ d. record d { promo_codes = promo ∷ d.promo_codes })
  pure promo

unfoldable pub create_promo_code : Context → User → PromoCodeCreate → Handler PromoCode
create_promo_code x user payload = as_role merchants user (and_commit (promo_body x payload))
