-- ===== src/Market/Stock/Quantities.antt =====
-- `requested` holds each product once, with the sum of its quantities.
use making_soa_homework.Base.{
  ℕ, ◌+◌, ◌≡◌, refl, Bool, true, false, [], ◌∷◌, List, arith, ◌==◌, if◌then◌else◌,
}
use making_soa_homework.Market.Models.{OrderItemCreate}
use making_soa_homework.Market.Orders.Lines.{Quantities, add_quantity, requested_from, requested}
use making_soa_homework.Market.Stock.{asked}

unfoldable pub amount : ℕ → Quantities → ℕ
amount i [] = 0
amount i ((j, n) ∷ d) = if j == i then n else amount i d

unfoldable pub has_key : ℕ → Quantities → Bool
has_key i [] = false
has_key i ((j, n) ∷ d) = if j == i then true else has_key i d

abbrev pub IsDistinct : Quantities → Type 0
IsDistinct [] = Unit
IsDistinct ((i, n) ∷ d) = (has_key i d ≡ false) × IsDistinct d

pub amount_absent : (i : ℕ) (d : Quantities) → has_key i d ≡ false → amount i d ≡ 0
unfolding amount has_key
amount_absent i [] h = refl
amount_absent i ((j, n) ∷ d) h = ground (arith, amount_absent i d)

amount-add_quantity :
    (i j q : ℕ) (d : Quantities)
    → amount i (add_quantity j q d) ≡ amount i d + (if j == i then q else 0)
unfolding amount add_quantity
amount-add_quantity i j q [] = ground arith
amount-add_quantity i j q ((k, n) ∷ d) = ground (arith, amount-add_quantity i j q d)

pub has_key-add_quantity :
    (i j q : ℕ) (d : Quantities)
    → has_key i (add_quantity j q d) ≡ (if j == i then true else has_key i d)
unfolding has_key add_quantity
has_key-add_quantity i j q [] = ground arith
has_key-add_quantity i j q ((k, n) ∷ d) = ground (arith, has_key-add_quantity i j q d)

add_quantity-IsDistinct :
    (j q : ℕ) (d : Quantities) → IsDistinct d → IsDistinct (add_quantity j q d)
unfolding has_key add_quantity
add_quantity-IsDistinct j q [] h = ground arith
add_quantity-IsDistinct j q ((k, n) ∷ d) h =
    ground (arith, add_quantity-IsDistinct j q d h.1, has_key-add_quantity k j q d)

requested_from-IsDistinct :
    (items : List OrderItemCreate) (d : Quantities)
    → IsDistinct d
    → IsDistinct (requested_from d items)
unfolding requested_from
requested_from-IsDistinct [] d h = h
requested_from-IsDistinct (item ∷ rest) d h =
    requested_from-IsDistinct rest _ (add_quantity-IsDistinct item.product_id item.quantity d h)

amount-requested_from :
    (i : ℕ) (items : List OrderItemCreate) (d : Quantities)
    → amount i (requested_from d items) ≡ amount i d + asked i items
unfolding amount requested_from asked
amount-requested_from i [] d = omega arith
amount-requested_from i (item ∷ rest) d = omega (
  arith,
  amount-requested_from i rest (add_quantity item.product_id item.quantity d),
  amount-add_quantity i item.product_id item.quantity d,
)

pub requested-IsDistinct : (items : List OrderItemCreate) → IsDistinct (requested items)
unfolding requested
requested-IsDistinct items = requested_from-IsDistinct items [] tt

pub amount-requested :
    (i : ℕ) (items : List OrderItemCreate) → amount i (requested items) ≡ asked i items
unfolding requested amount
amount-requested i items = omega (arith, amount-requested_from i items [])
