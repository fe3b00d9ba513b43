-- ===== src/Market/Orders/Lines.antt =====
-- The steps on the lines of an order that `create_order`, `update_order` and `cancel_order` of
-- дз_2/app/src/main.py share. `products` of the handlers are the session's own rows, so
-- `product_map[id]` is the row of the table.
use making_soa_homework.Base.{
  ℕ, suc, ◌+◌, ◌-◌, ◌*◌, none, some, List, [], ◌∷◌, ltb, ◌==◌, if◌then◌else◌,
}
use making_soa_homework.Base.Table.{find, modify}
use making_soa_homework.Base.Exec.{ok, err}
use making_soa_homework.Market.Models.{Product, product_key, is_active, OrderItem, OrderItemCreate}
use making_soa_homework.Market.Errors.{
  Error, api, api_error, key_error, Shortage, Details, insufficient_stock, product_not_found,
  product_inactive, Fallible, ◌>>=◌,
}

-- `dict[str, int]`, in the order of insertion.
abbrev pub Quantities : Type 0
Quantities = List (ℕ × ℕ)

-- `requested[i] = requested.get(i, 0) + q`
unfoldable pub add_quantity : ℕ → ℕ → Quantities → Quantities
add_quantity i q [] = (i, q) ∷ []
add_quantity i q ((j, n) ∷ d) = if j == i then (j, n + q) ∷ d else (j, n) ∷ add_quantity i q d

unfoldable pub requested_from : Quantities → List OrderItemCreate → Quantities
unfolding add_quantity
requested_from d [] = d
requested_from d (item ∷ rest) = requested_from (add_quantity item.product_id item.quantity d) rest

unfoldable pub requested : List OrderItemCreate → Quantities
unfolding requested_from
requested = requested_from []

abbrev pub missing_product : Error
missing_product = api_error product_not_found 404 "Product not found"

abbrev pub inactive_product : Error
inactive_product = api_error product_inactive 409 "Product inactive"

-- The first loop: every product is there and active.
unfoldable pub check_products : Quantities → List Product → Fallible (Unit {0})
unfolding find
check_products [] t = ok tt
check_products ((i, q) ∷ r) t =
    let rest = check_products r t in
    elim (find product_key i t) [
      | none ↦ err missing_product
      | some p ↦ if is_active p.status then rest else err inactive_product
    ]

-- `product_map[i]`
unfoldable pub row : ℕ → List Product → Fallible Product
unfolding find
row i t = elim (find product_key i t) [ none ↦ err key_error | some p ↦ ok p ]

-- The entries of `insufficient`.
unfoldable pub shortages : Quantities → List Product → Fallible (List Shortage)
unfolding row
shortages [] t = ok []
shortages ((i, q) ∷ r) t = do
  p ← row i t
  rest ← shortages r t
  ok (
      if ltb p.stock q
      then record { product_id = i; requested = q; available = p.stock } ∷ rest
      else rest)

abbrev pub short_stock : List Shortage → Error
short_stock l = api (record {
  error_code = insufficient_stock;
  status_code = 409;
  message = "Insufficient stock";
  details = Details.items l;
})

abbrev pub raise_shortages : List Shortage → Fallible (Unit {0})
raise_shortages [] = ok tt
raise_shortages (s ∷ l) = err (short_stock (s ∷ l))

unfoldable pub check_stock : Quantities → List Product → Fallible (Unit {0})
unfolding shortages
check_stock r t = do insufficient ← shortages r t; raise_shortages insufficient

abbrev pub less_stock : ℕ → Product → Product
less_stock q p = record p { stock = p.stock - q }

abbrev pub more_stock : ℕ → Product → Product
more_stock q p = record p { stock = p.stock + q }

-- `product_map[i].stock -= q`, for every entry; `check_stock` has passed, so the stock covers `q`.
unfoldable pub deduct : Quantities → List Product → List Product
unfolding modify
deduct [] t = t
deduct ((i, q) ∷ r) t = deduct r (modify product_key i (less_stock q) t)

-- `product.stock += item.quantity`, for every item whose product is there.
unfoldable pub restore : List OrderItem → List Product → List Product
unfolding modify
restore [] t = t
restore (item ∷ rest) t =
    restore rest (modify product_key item.product_id (more_stock item.quantity) t)

-- The total in cents, and the order's items with the prices of the moment; `new_item` draws the
-- identifiers from the `k`-th on.
unfoldable pub price_items :
    (ℕ → ℕ) → ℕ → List OrderItemCreate → List Product → Fallible (ℕ × List OrderItem)
unfolding row
price_items new_item k [] t = ok (0, [])
price_items new_item k (item ∷ rest) t = do
  p ← row item.product_id t
  (total, items) ← price_items new_item (suc k) rest t
  ok (
    p.price * item.quantity + total,
    record {
      id = new_item k;
      product_id = p.id;
      quantity = item.quantity;
      price_at_order = p.price;
    }
        ∷ items,
  )
