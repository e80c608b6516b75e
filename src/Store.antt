-- ===== src/Store.antt =====
-- The database that the services share.
pub mod Json
pub mod Rows
pub mod Table
pub mod Pages
pub mod Tx
pub mod Client
pub mod Ranking
pub mod Deletes
pub mod Lock
pub mod Laws
