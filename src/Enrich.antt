-- ===== src/Enrich.antt =====
-- Package internal/enrich.
pub mod Provider
pub mod Fallback
pub mod Network
pub mod Images
pub mod OpenLibrary
pub mod GoogleBooks
pub mod Worker
