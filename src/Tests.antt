-- ===== src/Tests.antt =====
-- Sample data, and the theorems applied to it.
pub mod Samples
pub mod Requests
pub mod Store
pub mod Isbn
pub mod Auth
pub mod Enrich
pub mod Search
pub mod Providers
pub mod Postgres
pub mod Config
