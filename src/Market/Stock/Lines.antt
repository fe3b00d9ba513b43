-- ===== src/Market/Stock/Lines.antt =====
-- How the steps on the lines of an order move the stock of each product.
use making_soa_homework.Base.{
  ℕ, suc, ◌+◌, ◌-◌, ◌≤◌, ◌≡◌, refl, true, false, Option-cases, List, [], ◌∷◌, inl, inr, arith, ◌==◌,
  if◌then◌else◌,
}
use making_soa_homework.Base.Table.{find, modify, find-modify, key-find}
use making_soa_homework.Base.Exec.{ok, Result-cases}
use making_soa_homework.Market.Models.{Product, product_key, OrderItem, OrderItemCreate}
use making_soa_homework.Market.Orders.Lines.{
  Quantities, row, shortages, check_stock, less_stock, more_stock, deduct, restore, price_items,
}
use making_soa_homework.Market.Stock.{listed, stock, ordered, asked}
use making_soa_homework.Market.Stock.Quantities.{amount, has_key, IsDistinct, amount_absent}

stock-less :
    (i j q : ℕ) (t : List Product)
    → stock j (modify product_key i (less_stock q) t)
      ≡ (if i == j then stock j t - q else stock j t)
stock-less i j q t = ground (arith, find-modify product_key i j (less_stock q) t (λ p. refl))

stock-more :
    (i j q : ℕ) (t : List Product)
    → listed j t ≡ true
    → stock j (modify product_key i (more_stock q) t) ≡ stock j t + (if i == j then q else 0)
stock-more i j q t h = ground (arith, find-modify product_key i j (more_stock q) t (λ p. refl))

listed-more :
    (i j q : ℕ) (t : List Product) → listed j (modify product_key i (more_stock q) t) ≡ listed j t
listed-more i j q t = ground (arith, find-modify product_key i j (more_stock q) t (λ p. refl))

listed-less :
    (i j q : ℕ) (t : List Product) → listed j (modify product_key i (less_stock q) t) ≡ listed j t
listed-less i j q t = ground (arith, find-modify product_key i j (less_stock q) t (λ p. refl))

-- Every requested quantity is in stock.
abbrev pub IsCovered : Quantities → List Product → Type 0
IsCovered [] t = Unit
IsCovered ((i, q) ∷ r) t = (q ≤ stock i t) × IsCovered r t

shortages-IsCovered : (r : Quantities) (t : List Product) → shortages r t ≡ ok [] → IsCovered r t
unfolding shortages
shortages-IsCovered [] t h = tt
shortages-IsCovered ((i, q) ∷ r) t h = ground (arith, shortages-IsCovered r t)

pub check_stock-IsCovered :
    (r : Quantities) (t : List Product) → check_stock r t ≡ ok tt → IsCovered r t
unfolding check_stock
check_stock-IsCovered r t h = elim (Result-cases (shortages r t)) [
  | inl ([], e) ↦ shortages-IsCovered r t e
  | inl (s ∷ l, e) ↦ ground arith
  | inr (e, p) ↦ ground arith
]

-- Taking another product leaves the rest covered.
IsCovered-less :
    (i q : ℕ) (r : Quantities) (t : List Product)
    → has_key i r ≡ false
    → IsCovered r t
    → IsCovered r (modify product_key i (less_stock q) t)
unfolding has_key
IsCovered-less i q [] t h c = tt
IsCovered-less i q ((j, n) ∷ r) t h c = ground (arith, stock-less i j q t, IsCovered-less i q r t)

pub stock-deduct :
    (j : ℕ) (r : Quantities) (t : List Product)
    → IsDistinct r
    → IsCovered r t
    → stock j (deduct r t) + amount j r ≡ stock j t
unfolding deduct amount
stock-deduct j [] t h c = omega arith
stock-deduct j ((i, q) ∷ r) t h c = ground (
  arith,
  stock-deduct j r (modify product_key i (less_stock q) t) h.1 (IsCovered-less i q r t h.0 c.1),
  stock-less i j q t,
  amount_absent i r,
)

pub listed-deduct : (j : ℕ) (r : Quantities) (t : List Product) → listed j (deduct r t) ≡ listed j t
unfolding deduct
listed-deduct j [] t = refl
listed-deduct j ((i, q) ∷ r) t =
    ground (arith, listed-deduct j r (modify product_key i (less_stock q) t), listed-less i j q t)

pub listed-restore :
    (j : ℕ) (items : List OrderItem) (t : List Product) → listed j (restore items t) ≡ listed j t
unfolding restore
listed-restore j [] t = refl
listed-restore j (o ∷ items) t = ground (
  arith,
  listed-restore j items (modify product_key o.product_id (more_stock o.quantity) t),
  listed-more o.product_id j o.quantity t,
)

pub stock-restore :
    (j : ℕ) (items : List OrderItem) (t : List Product)
    → listed j t ≡ true
    → stock j (restore items t) ≡ stock j t + ordered j items
unfolding restore ordered
stock-restore j [] t h = omega arith
stock-restore j (o ∷ items) t h = ground (
  arith,
  stock-restore j items (modify product_key o.product_id (more_stock o.quantity) t),
  listed-more o.product_id j o.quantity t,
  stock-more o.product_id j o.quantity t h,
)

-- The lines that are made hold what was asked for, and cost the total.
pub ordered-price_items :
    (new_item : ℕ → ℕ) (k : ℕ) (items : List OrderItemCreate) (t : List Product) (total : ℕ)
    (lines : List OrderItem) (j : ℕ)
    → price_items new_item k items t ≡ ok (total, lines)
    → ordered j lines ≡ asked j items
unfolding price_items row ordered asked
ordered-price_items new_item k [] t total lines j h = ground arith
ordered-price_items new_item k (item ∷ rest) t total lines j h =
    elim (Option-cases (find product_key item.product_id t)) [
      | inl absent ↦ ground arith
      | inr (p, here) ↦ elim (Result-cases (price_items new_item (suc k) rest t)) [
        | inl ((sum, tail), e) ↦ ground (
          arith,
          ordered-price_items new_item (suc k) rest t sum tail j e,
          key-find product_key item.product_id t here,
        )
        | inr (e, p) ↦ ground arith
      ]
    ]
