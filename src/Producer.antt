-- ===== src/Producer.antt =====
-- The producer of movie events: dz_5/producer-service/app.
pub mod Events
pub mod Choices
pub mod Generator
pub mod Names
pub mod Sessions
pub mod Publish
pub mod Registry
pub mod Settings
pub mod Service
