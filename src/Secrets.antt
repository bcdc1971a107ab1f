-- ===== src/Secrets.antt =====
-- crates/secrets/src/error.rs and store.rs: the errors and the interface of a secret store.
pub mod Sealed
pub mod FileStore
pub mod Tests
use headless_mcp_server.Prelude.{
  String, ◌≡◌, ◌≢◌, ◌⊎◌, Option, none, some, Result, ok, err, ◌==◌, if◌then◌else◌,
}

pub data SecretError : Type 0 where
  io : String → SecretError
  missing_master_key : SecretError
  invalid_master_key : String → SecretError
  empty_key : SecretError
  encryption_failed : String → SecretError
  decryption_failed : String → SecretError
  corrupted : String → SecretError

abbrev pub SecretResult : Type 0 → Type 0
SecretResult A = Result A SecretError

-- The trait `SecretStore`, over a world `D` that holds what the store keeps.
pub record SecretStore (D : Type 0) : Type 0 where
  pub get : String → D → SecretResult (Option String) × D
  pub set : String → String → D → SecretResult (Unit {0}) × D
  pub delete : String → D → SecretResult (Unit {0}) × D

-- What a store promises. `lookup` says what a key holds; an operation that fails, and reading,
-- leave that as it was.
pub record IsStore {D : Type 0} (lookup : D → String → SecretResult (Option String))
    (s : SecretStore D) : Type 0 where
  pub get_reads :
      (k : String) (d : D)
      → k ≢ ""
      → ((s.get k d).0 ≡ lookup d k) ⊎ ((e : String) × ((s.get k d).0 ≡ err (io e)))
  pub get_keeps : (k j : String) (d : D) → lookup (s.get k d).1 j ≡ lookup d j
  pub set_writes :
      (k v j : String) (d : D)
      → (s.set k v d).0 ≡ ok tt
      → lookup (s.set k v d).1 j ≡ (if k == j then ok (some v) else lookup d j)
  pub set_fails :
      (k v j : String) (d : D) (e : SecretError)
      → (s.set k v d).0 ≡ err e
      → lookup (s.set k v d).1 j ≡ lookup d j
  pub delete_removes :
      (k j : String) (d : D)
      → (s.delete k d).0 ≡ ok tt
      → lookup (s.delete k d).1 j ≡ (if k == j then ok none else lookup d j)
  pub delete_fails :
      (k j : String) (d : D) (e : SecretError)
      → (s.delete k d).0 ≡ err e
      → lookup (s.delete k d).1 j ≡ lookup d j
