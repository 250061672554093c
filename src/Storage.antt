-- ===== src/Storage.antt =====
-- The stores of crates/gpumesh-storage/src/: peers and groups as maps in memory. Writing a store to
-- its file is a parameter, which may fail.
pub mod Package
pub mod Peers
pub mod Groups
pub mod Invites
pub mod Joins
