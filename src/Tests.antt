-- ===== src/Tests.antt =====
-- Runs of the models on small inputs, and each theorem with hypotheses at an input that meets them.
pub mod Samples
pub mod Orders
mod Accounts
mod Catalogue
mod Producers
mod Aggregation
mod Acceptance
mod Relations
mod Migrations
mod Http
mod UsersAuth
pub mod Reports
mod Recovery
