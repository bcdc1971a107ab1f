-- ===== src/Registry.antt =====
-- crates/registry: the backends that the hub knows, the index of their tools, and the routing of
-- calls to them.
pub mod Policy
pub mod Backoff
pub mod State
pub mod Connect
pub mod Health
pub mod Route
pub mod Listing
pub mod Invariant
pub mod Laws
pub mod Tests
