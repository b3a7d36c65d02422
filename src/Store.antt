-- ===== src/Store.antt =====
-- services/gateway/internal/store/store.go over the tables of migrations/. A query is a function
-- of the tables and of the database's clock; `Link` says what became of it on the way.
pub mod Rows
pub mod Query
pub mod Write
pub mod Updates
pub mod Consistency
pub mod Lifecycle
pub mod Terminal
pub mod Listing
pub mod Own
pub mod Reordered
pub mod Ownership
