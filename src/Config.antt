-- ===== src/Config.antt =====
-- crates/server/src/config.rs: the configuration of the hub.
pub mod Placeholders
pub mod Raw
pub mod Load
pub mod Start
pub mod Tests
