-- ===== src/Market/Orders/Worth.antt =====
-- What the lines of a request are worth at the prices of the catalogue, as the handlers of
-- дз_2/app/src/main.py add it up.
use making_soa_homework.Base.{
  ℕ, suc, ◌+◌, ◌*◌, ◌≤◌, ◌≡◌, refl, true, none, some, List, [], ◌∷◌, Option-cases, inl, inr, arith,
}
use making_soa_homework.Base.Table.{find, find-modify, modify}
use making_soa_homework.Base.Exec.{ok}
use making_soa_homework.Market.Models.{Product, product_key, OrderItem, OrderItemCreate}
use making_soa_homework.Market.Orders.Lines.{
  Quantities, row, deduct, price_items, less_stock, restore, more_stock,
}
use making_soa_homework.Market.Orders.Keys.{names}
use making_soa_homework.Market.Orders.Shortages.{gaps}
use making_soa_homework.Market.Stock.{listed, stock}
use making_soa_homework.Market.Stock.Quantities.{amount, IsDistinct, amount_absent}

-- The price of a product of the catalogue.
abbrev pub price : ℕ → List Product → ℕ
price j t = elim (find product_key j t) [ none ↦ 0 | some p ↦ p.price ]

-- What the lines are worth.
unfoldable pub worth : List OrderItemCreate → List Product → ℕ
worth [] t = 0
worth (item ∷ rest) t = price item.product_id t * item.quantity + worth rest t

pub price-deduct : (j : ℕ) (r : Quantities) (t : List Product) → price j (deduct r t) ≡ price j t
unfolding deduct
price-deduct j [] t = refl
price-deduct j ((i, q) ∷ r) t = ground (
  arith,
  price-deduct j r (modify product_key i (less_stock q) t),
  find-modify product_key i j (less_stock q) t (λ p. refl),
)

pub worth-deduct :
    (items : List OrderItemCreate) (r : Quantities) (t : List Product)
    → worth items (deduct r t) ≡ worth items t
unfolding worth
worth-deduct [] r t = refl
worth-deduct (item ∷ rest) r t = rw (price-deduct item.product_id r t, worth-deduct rest r t) refl

pub price_items-worth :
    (new_item : ℕ → ℕ) (k : ℕ) (items : List OrderItemCreate) (t : List Product)
    → ((j : ℕ) → names j items ≡ true → listed j t ≡ true)
    → (lines : List OrderItem) × (price_items new_item k items t ≡ ok (worth items t, lines))
unfolding price_items worth row names
price_items-worth new_item k [] t h = ([], refl)
price_items-worth new_item k (item ∷ rest) t h =
    let (tail, e) = price_items-worth new_item (suc k) rest t (λ j n. h j (ground arith)) in
    elim (Option-cases (find product_key item.product_id t)) [
      | inl absent ↦ absurd (ground (arith, h item.product_id (ground arith)))
      | inr (p, here) ↦ (
        record {
          id = new_item k;
          product_id = p.id;
          quantity = item.quantity;
          price_at_order = p.price;
        }
            ∷ tail,
        ground arith,
      )
    ]

price-restore :
    (j : ℕ) (items : List OrderItem) (t : List Product) → price j (restore items t) ≡ price j t
unfolding restore
price-restore j [] t = refl
price-restore j (item ∷ rest) t = ground (
  arith,
  price-restore j rest (modify product_key item.product_id (more_stock item.quantity) t),
  find-modify product_key item.product_id j (more_stock item.quantity) t (λ p. refl),
)

pub worth-restore :
    (items : List OrderItemCreate) (old : List OrderItem) (t : List Product)
    → worth items (restore old t) ≡ worth items t
unfolding worth
worth-restore [] old t = refl
worth-restore (item ∷ rest) old t =
    rw (price-restore item.product_id old t, worth-restore rest old t) refl

pub gaps_none :
    (r : Quantities) (t : List Product)
    → IsDistinct r
    → ((j : ℕ) → amount j r ≤ stock j t)
    → gaps r t ≡ []
unfolding gaps amount
gaps_none [] t u h = refl
gaps_none ((i, q) ∷ r) t u h =
    let rest = gaps_none r t u.1 (λ j. ground (arith, h j, amount_absent i r u.0)) in
    ground (arith, h i, rest)
