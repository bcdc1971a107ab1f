-- ===== src/Registry/Laws.antt =====
-- crates/registry/src/lib.rs: what single operations do to the routes.
pub mod Removal
pub mod Ownership
pub mod Listed
pub mod Indexed
