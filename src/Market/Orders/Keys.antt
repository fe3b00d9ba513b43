-- ===== src/Market/Orders/Keys.antt =====
-- `product_map[...]` in the blocks of дз_2/app/src/main.py finds every product that it is asked for.
use making_soa_homework.Base.{
  ℕ, suc, ◌≡◌, ◌≢◌, refl, ap, Bool, true, false, ◌||◌, ◌==◌, List, [], ◌∷◌, arith, if◌then◌else◌,
}
use making_soa_homework.Base.Exec.{Result, ok, err, Exec, continue, ◌>>=◌, ask, write}
use making_soa_homework.Market.Models.{Product, OrderItemCreate}
use making_soa_homework.Market.Errors.{Error, key_error}
use making_soa_homework.Market.Orders.Lines.{
  Quantities, add_quantity, requested_from, requested, check_products, row, shortages, check_stock,
  price_items,
}
use making_soa_homework.Market.Stock.{listed}
use making_soa_homework.Market.Stock.Quantities.{has_key, has_key-add_quantity}

-- Some line names the product.
unfoldable pub names : ℕ → List OrderItemCreate → Bool
names j [] = false
names j (item ∷ rest) = if item.product_id == j then true else names j rest

has_key-requested_from :
    (j : ℕ) (items : List OrderItemCreate) (d : Quantities)
    → has_key j (requested_from d items) ≡ (has_key j d || names j items)
unfolding requested_from names
has_key-requested_from j [] d = ground arith
has_key-requested_from j (item ∷ rest) d = ground (
  arith,
  has_key-requested_from j rest (add_quantity item.product_id item.quantity d),
  has_key-add_quantity j item.product_id item.quantity d,
)

pub has_key-requested :
    (j : ℕ) (items : List OrderItemCreate) → has_key j (requested items) ≡ names j items
unfolding requested has_key
has_key-requested j items = has_key-requested_from j items []

pub check_products-listed :
    (r : Quantities) (t : List Product) (j : ℕ)
    → check_products r t ≡ ok tt
    → has_key j r ≡ true
    → listed j t ≡ true
unfolding check_products has_key
check_products-listed [] t j h k = absurd (ground arith)
check_products-listed ((i, q) ∷ r) t j h k = ground (arith, check_products-listed r t j)

pub check_products_keys : (r : Quantities) (t : List Product) → check_products r t ≢ err key_error
unfolding check_products
check_products_keys [] t h = ground arith
check_products_keys ((i, q) ∷ r) t h = ground (arith, check_products_keys r t)

shortages_keys :
    (r : Quantities) (t : List Product)
    → ((j : ℕ) → has_key j r ≡ true → listed j t ≡ true)
    → shortages r t ≢ err key_error
unfolding shortages row has_key
shortages_keys [] t there h = ground arith
shortages_keys ((i, q) ∷ r) t there h =
    let rest = shortages_keys r t (λ j k. there j (ground arith)) in
    ground (arith, there i (ground arith), rest)

pub check_stock_keys :
    (r : Quantities) (t : List Product)
    → ((j : ℕ) → has_key j r ≡ true → listed j t ≡ true)
    → check_stock r t ≢ err key_error
unfolding check_stock
check_stock_keys r t there h = ground (arith, shortages_keys r t there)

pub price_items_keys :
    (new_item : ℕ → ℕ) (k : ℕ) (items : List OrderItemCreate) (t : List Product)
    → ((j : ℕ) → names j items ≡ true → listed j t ≡ true)
    → price_items new_item k items t ≢ err key_error
unfolding price_items row names
price_items_keys new_item k [] t there h = ground arith
price_items_keys new_item k (item ∷ rest) t there h =
    let tail = price_items_keys new_item (suc k) rest t (λ j e. there j (ground arith)) in
    ground (arith, there item.product_id (ground arith), tail)

-- A computation that does not raise KeyError.
abbrev pub Named : {A S : Type 0} → Result Error A × S → Type 0
Named r = r.0 ≢ err key_error

err-eq : {B : Type 0} {e e1 : Error} → ◌≡◌ {A = Result Error B} (err e) (err e1) → e ≡ e1
err-eq h = cc

module _ {A B S : Type 0} where
  continue-Named :
      (r : Result Error A) (f : A → Exec Error S B) (s : S)
      → r ≢ err key_error
      → ((a : A) → r ≡ ok a → Named (f a s))
      → Named (continue r f s)
  continue-Named (ok a) f s h g = g a refl
  continue-Named (err e) f s h g = λ k. h (ap err (err-eq k))

  pub bind-Named :
      (m : Exec Error S A) (f : A → Exec Error S B) (s : S)
      → Named (m s)
      → ((a : A) → (m s).0 ≡ ok a → Named (f a (m s).1))
      → Named ((m >>= f) s)
  unfolding ◌>>=◌
  bind-Named m f s h g = continue-Named (m s).0 f (m s).1 h g

  pub ask-Named :
      (c : S → Result Error A) (f : A → Exec Error S B) (s : S)
      → c s ≢ err key_error
      → ((a : A) → c s ≡ ok a → Named (f a s))
      → Named ((ask c >>= f) s)
  unfolding ◌>>=◌
  ask-Named c f s h g = continue-Named (c s) f s h g

pub write-Named :
    {S B : Type 0} (g : S → S) (f : Unit {0} → Exec Error S B) (s : S)
    → Named (f tt (g s))
    → Named ((write g >>= f) s)
unfolding ◌>>=◌
write-Named g f s h = h
