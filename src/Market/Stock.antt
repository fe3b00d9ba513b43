-- ===== src/Market/Stock.antt =====
-- The stock of a product and the quantities that orders hold of it: the view in which the order
-- handlers conserve every product.
pub mod Quantities
pub mod Lines
pub mod Blocks
pub mod Conserved
use making_soa_homework.Base.{
  ℕ, ◌+◌, Bool, true, false, none, some, List, [], ◌∷◌, ◌==◌, if◌then◌else◌,
}
use making_soa_homework.Base.Table.{find}
use making_soa_homework.Base.Count.{sum_by}
use making_soa_homework.Market.Models.{
  Product, product_key, OrderItem, OrderItemCreate, OrderStatus, canceled, Order, Db,
}

-- Whether the catalogue has the product.
abbrev pub listed : ℕ → List Product → Bool
listed i t = elim (find product_key i t) [ none ↦ false | some p ↦ true ]

abbrev pub stock : ℕ → List Product → ℕ
stock i t = elim (find product_key i t) [ none ↦ 0 | some p ↦ p.stock ]

-- What the lines of an order, or of a request, hold of the product.
unfoldable pub ordered : ℕ → List OrderItem → ℕ
ordered i [] = 0
ordered i (item ∷ rest) = (if item.product_id == i then item.quantity else 0) + ordered i rest

unfoldable pub asked : ℕ → List OrderItemCreate → ℕ
asked i [] = 0
asked i (item ∷ rest) = (if item.product_id == i then item.quantity else 0) + asked i rest

abbrev pub is_canceled : OrderStatus → Bool
is_canceled canceled = true
is_canceled _ = false

-- What an order holds: nothing once it is canceled.
abbrev pub held : ℕ → Order → ℕ
held i o = if is_canceled o.status then 0 else ordered i o.items

abbrev pub reserved : ℕ → List Order → ℕ
reserved i orders = sum_by (held i) orders

-- Stock on the shelf and in orders that are not canceled.
abbrev pub goods : ℕ → Db → ℕ
goods i d = stock i d.products + reserved i d.orders
