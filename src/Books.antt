-- ===== src/Books.antt =====
-- Package internal/books.
pub mod Isbn
pub mod Book
pub mod Status
pub mod Spec
pub mod Memory
pub mod Rows
pub mod Postgres
pub mod Repository
pub mod Handlers
pub mod Requests
