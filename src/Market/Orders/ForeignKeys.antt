-- ===== src/Market/Orders/ForeignKeys.antt =====
-- Steps on the foreign keys of the tables (дз_2/app/alembic/versions/9b6b825cc7cb_initial_schema.py) under the
-- order handlers of дз_2/app/src/main.py.
use making_soa_homework.Base.{
  ℕ, suc, ◌+◌, ◌-◌, ◌≡◌, ◌∙◌, refl, ap, subst, Bool, true, false, Option, none, some, List, [], ◌∷◌,
  All, arith, ◌==◌, Bool-cases, Option-cases, inl, inr,
}
use making_soa_homework.Base.Table.{find, modify, find-modify, key-find}
use making_soa_homework.Base.Exec.{ok, Result-cases}
use making_soa_homework.Market.Models.{
  user_key, Product, product_key, PromoCode, promo_key, Order, OrderItem, OrderItemCreate,
  UserOperation, Db,
}
use making_soa_homework.Market.Orders.Lines.{
  row, deduct, restore, price_items, less_stock, more_stock, Quantities,
}

-- Whether a table has a row with the identifier.
abbrev pub has : {A : Type 0} → (A → ℕ) → ℕ → List A → Bool
has key i t = elim (find key i t) [ none ↦ false | some a ↦ true ]

abbrev pub knows_code : Option ℕ → List PromoCode → Bool
knows_code none t = true
knows_code (some i) t = has promo_key i t

-- What an order refers to is there: its customer, its promo code, and the product of each item.
pub record Refers (d : Db) (o : Order) : Type 0 where
  pub customer : has user_key o.user_id d.users ≡ true
  pub promo : knows_code o.promo_code_id d.promo_codes ≡ true
  pub products :
      All (λ (item : OrderItem). has product_key item.product_id d.products ≡ true) o.items

-- No foreign key of the tables is dangling.
pub record References (d : Db) : Type 0 where
  pub orders : All (Refers d) d.orders
  pub operations :
      All (λ (p : UserOperation). has user_key p.user_id d.users ≡ true) d.user_operations
  pub sellers : All (λ (p : Product). has user_key p.seller_id d.users ≡ true) d.products

module _ {A : Type 0} (P : A → Type 0) where
  pub All-modify :
      (key : A → ℕ) (i : ℕ) (f : A → A) (t : List A)
      → ((a : A) → P a → P (f a))
      → All P t
      → All P (modify key i f t)
  unfolding modify
  All-modify key i f [] h ps = tt
  All-modify key i f (a ∷ t) h ps = ground (arith, h a ps.0, All-modify key i f t h ps.1)

  pub All-find : (key : A → ℕ) (i : ℕ) (t : List A) {a : A} → find key i t ≡ some a → All P t → P a
  unfolding find
  All-find key i [] h ps = absurd (ground arith)
  All-find key i (b ∷ t) {a} h ps = elim (Bool-cases (key b == i)) [
    | inl e ↦ let same : b ≡ a = ground arith in subst P same ps.0
    | inr e ↦ All-find key i t (ground arith) ps.1
  ]

-- A table that only changes rows has the rows that it had.
pub has-modify :
    {A : Type 0} (key : A → ℕ) (i j : ℕ) (f : A → A) (t : List A)
    → ((a : A) → key (f a) ≡ key a)
    → has key j (modify key i f t) ≡ has key j t
has-modify key i j f t h = ground (arith, find-modify key i j f t h)

-- The lines that are made are of products that are there.
pub lines_listed :
    (new_item : ℕ → ℕ) (k : ℕ) (items : List OrderItemCreate) (t : List Product) (total : ℕ)
    (lines : List OrderItem)
    → price_items new_item k items t ≡ ok (total, lines)
    → All (λ (item : OrderItem). has product_key item.product_id t ≡ true) lines
unfolding price_items row
lines_listed new_item k [] t total lines h = let e : lines ≡ [] = ground arith in rw e tt
lines_listed new_item k (item ∷ rest) t total lines h =
    elim (Option-cases (find product_key item.product_id t)) [
      | inl absent ↦ absurd (ground arith)
      | inr (p, here) ↦ elim (Result-cases (price_items new_item (suc k) rest t)) [
        | inl ((sum, others), e) ↦
            let made = lines_listed new_item (suc k) rest t sum others e in
            let key = key-find product_key item.product_id t here in
            let is : lines
                ≡ record {
                  id = new_item k;
                  product_id = p.id;
                  quantity = item.quantity;
                  price_at_order = p.price;
                }
                  ∷ others =
              ground arith in
            rw is (ground arith, made)
        | inr (e, q) ↦ absurd (ground arith)
      ]
    ]

-- The same users, the same rows of products and promo codes, and what each refers to.
pub record Keeps (d d' : Db) : Type 0 where
  pub users : d'.users ≡ d.users
  pub products : (j : ℕ) → has product_key j d'.products ≡ has product_key j d.products
  pub promos : (j : ℕ) → has promo_key j d'.promo_codes ≡ has promo_key j d.promo_codes

pub knows_code-Keeps :
    (d d' : Db) (o : Option ℕ)
    → Keeps d d'
    → knows_code o d'.promo_codes ≡ knows_code o d.promo_codes
knows_code-Keeps d d' none k = refl
knows_code-Keeps d d' (some i) k = k.promos i

pub lines-Keeps :
    (d d' : Db) (l : List OrderItem)
    → Keeps d d'
    → All (λ (item : OrderItem). has product_key item.product_id d.products ≡ true) l
    → All (λ (item : OrderItem). has product_key item.product_id d'.products ≡ true) l
lines-Keeps d d' [] k h = tt
lines-Keeps d d' (item ∷ l) k h = (k.products item.product_id ∙ h.0, lines-Keeps d d' l k h.1)

pub Refers-Keeps : (d d' : Db) (o : Order) → Keeps d d' → Refers d o → Refers d' o
Refers-Keeps d d' o k r = record {
  customer = ap (has user_key o.user_id) k.users ∙ r.customer;
  promo = knows_code-Keeps d d' o.promo_code_id k ∙ r.promo;
  products = lines-Keeps d d' o.items k r.products;
}

pub orders-Keeps : (d d' : Db) (l : List Order) → Keeps d d' → All (Refers d) l → All (Refers d') l
orders-Keeps d d' [] k h = tt
orders-Keeps d d' (o ∷ l) k h = (Refers-Keeps d d' o k h.0, orders-Keeps d d' l k h.1)

module _ (P : Product → Type 0)
    (keeps : (p : Product) (n : ℕ) → P p → P (record p { stock = n })) where
  pub All-deduct : (r : Quantities) (t : List Product) → All P t → All P (deduct r t)
  unfolding deduct
  All-deduct [] t h = h
  All-deduct ((i, q) ∷ r) t h =
      All-deduct r _ (All-modify P product_key i (less_stock q) t (λ p. keeps p (p.stock - q)) h)

  pub All-restore : (l : List OrderItem) (t : List Product) → All P t → All P (restore l t)
  unfolding restore
  All-restore [] t h = h
  All-restore (item ∷ l) t h = All-restore l _ (
      All-modify P product_key item.product_id (more_stock item.quantity) t
        (λ p. keeps p (p.stock + item.quantity)) h)

pub operations-Keeps :
    (d d' : Db)
    → d'.user_operations ≡ d.user_operations
    → d'.users ≡ d.users
    → All (λ (p : UserOperation). has user_key p.user_id d.users ≡ true) d.user_operations
    → All (λ (p : UserOperation). has user_key p.user_id d'.users ≡ true) d'.user_operations
operations-Keeps d d' operations users h = rw (operations, users) h

pub sellers-Keeps :
    (d d' : Db) (t : List Product)
    → d'.products ≡ t
    → d'.users ≡ d.users
    → All (λ (p : Product). has user_key p.seller_id d.users ≡ true) t
    → All (λ (p : Product). has user_key p.seller_id d'.users ≡ true) d'.products
sellers-Keeps d d' t products users h = rw (products, users) h
