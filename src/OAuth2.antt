-- ===== src/OAuth2.antt =====
-- crates/backends/backend-http/src/oauth2.rs and token_store.rs: the OAuth2 tokens of one backend.
pub mod Query
pub mod State
pub mod Cache
pub mod Discovery
pub mod Grants
pub mod Consent
pub mod Tokens
pub mod Tests
