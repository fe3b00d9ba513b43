-- ===== src/Market.antt =====
-- The marketplace API: дз_2/app/src.
pub mod Models
pub mod Errors
pub mod Session
pub mod Promo
pub mod Access
pub mod Orders
pub mod Stock
pub mod Tokens
pub mod Auth
pub mod Products
pub mod Http
