-- ===== src/Secrets/FileStore.antt =====
-- crates/secrets/src/file_store.rs: the store, one JSON file that is replaced as a whole. The file
-- system is a parameter.
pub mod Assumptions
pub mod Seen
pub mod Atomic
pub mod Reading
pub mod Laws
use headless_mcp_server.Prelude.{
  ℕ, String, Bool, true, false, Option, none, some, List, [], ◌∷◌, Result, ok, err, map_err, ok_or,
  concat, length, eqb, is_empty, ◌==◌, if◌then◌else◌,
}
use headless_mcp_server.Dict.{Dict, get, insert, remove}
use headless_mcp_server.Exec.{Exec, lift, ◌>>=◌, ◌>>◌}
use headless_mcp_server.Secrets.Sealed.{
  StoredSecret, StoreFile, nonce_len_bytes, Codecs, sealed, revealed,
}
use headless_mcp_server.Secrets.{
  SecretError, io, empty_key, encryption_failed, decryption_failed, corrupted, SecretResult,
  SecretStore,
}

-- The file system at the path of the store, with temporary files `T` in its directory, and the
-- source of random bytes.
pub record Files (B D T : Type 0) : Type 0 where
  pub exists : D → Bool
  pub read : D → Result (List B) String × D
  pub create_dir_all : D → Result (Unit {0}) String × D
  pub new_temp : D → Result T String × D
  pub write_all : T → List B → D → Result (Unit {0}) String × D
  pub sync_all : T → D → Result (Unit {0}) String × D
  pub set_owner_only : T → D → Result (Unit {0}) String × D
  pub persist : T → D → Result (Unit {0}) String × D
  pub random : ℕ → D → List B × D

validate_key : String → SecretResult (Unit {0})
validate_key key = if key == "" then err empty_key else ok tt

-- `?` on an `io::Result`.
abbrev pub on_disk : {D A : Type 0} → (D → Result A String × D) → Exec D SecretError A
on_disk m d = (map_err io (m d).0, (m d).1)

abbrev pub parsed : {B : Type 0} → Codecs B → List B → SecretResult StoreFile
parsed codecs [] = ok []
parsed codecs (b ∷ bytes) =
    map_err (λ e. corrupted (concat ("failed to parse secret store file: " ∷ e ∷ [])))
      (codecs.from_slice (b ∷ bytes))

module _ {B D T : Type 0} (files : Files B D T) where
  pub write_atomic : List B → Exec D SecretError (Unit {0})
  write_atomic contents = do
    on_disk files.create_dir_all
    tmp ← on_disk files.new_temp
    on_disk (files.write_all tmp contents)
    on_disk (files.sync_all tmp)
    on_disk (files.set_owner_only tmp)
    on_disk (files.persist tmp)

module _ {B D T : Type 0} (codecs : Codecs B) (files : Files B D T) where
  pub read_file : Exec D SecretError StoreFile
  read_file d =
      let read = (on_disk files.read >>= λ bytes. lift (parsed codecs bytes)) d in
      if files.exists d then read else (ok [], d)

  write_file : StoreFile → Exec D SecretError (Unit {0})
  unfolding write_atomic
  write_file file = do
    json ← lift (
        map_err (λ e. corrupted (concat ("failed to serialize secret store file: " ∷ e ∷ [])))
          (codecs.to_vec_pretty file))
    write_atomic files json

  encrypt : String → List B → Exec D SecretError StoredSecret
  encrypt key plaintext d =
      let (nonce, d') = files.random nonce_len_bytes d in
      (sealed codecs key nonce (codecs.encrypt nonce plaintext), d')

  unfoldable pub get_secret : String → Exec D SecretError (Option String)
  unfolding validate_key read_file revealed get
  get_secret key = do
    lift (validate_key key)
    file ← read_file
    lift (revealed codecs key (get key file))

  unfoldable pub set_secret : String → String → Exec D SecretError (Unit {0})
  unfolding validate_key read_file encrypt insert write_file
  set_secret key value = do
    lift (validate_key key)
    file ← read_file
    stored ← encrypt key (codecs.as_bytes value)
    write_file (insert key stored file)

  unfoldable pub delete_secret : String → Exec D SecretError (Unit {0})
  unfolding validate_key read_file remove write_file
  delete_secret key = do lift (validate_key key); file ← read_file; write_file (remove key file)

  abbrev pub file_store : SecretStore D
  file_store = record { get = get_secret; set = set_secret; delete = delete_secret }
