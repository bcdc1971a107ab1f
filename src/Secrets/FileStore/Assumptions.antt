-- ===== src/Secrets/FileStore/Assumptions.antt =====
-- crates/secrets/src/file_store.rs: what it takes for granted of the cipher, the readers and the file
-- system.
use headless_mcp_server.Prelude.{
  ℕ, String, ◌≡◌, ◌≢◌, ◌⊎◌, true, Option, some, List, [], ◌++◌, ok, err, length,
}
use headless_mcp_server.Dict.{get}
use headless_mcp_server.Secrets.Sealed.{StoreFile, Codecs}
use headless_mcp_server.Secrets.FileStore.{Files}

-- The cipher opens what it sealed, base64 and UTF-8 read back what they print, and the JSON reader
-- gives a map with the same entries as the one printed, which is never the empty text.
pub record IsCodec {B : Type 0} (codecs : Codecs B) : Type 0 where
  pub opens :
      (nonce plaintext : List B) {ciphertext : List B}
      → codecs.encrypt nonce plaintext ≡ some ciphertext
      → codecs.decrypt nonce ciphertext ≡ some plaintext
  pub decodes : (bytes : List B) → codecs.decode (codecs.encode bytes) ≡ some bytes
  pub reads_text : (s : String) → codecs.from_utf8 (codecs.as_bytes s) ≡ some s
  pub reads_file :
      (file : StoreFile) {bytes : List B}
      → codecs.to_vec_pretty file ≡ ok bytes
      → (file' : StoreFile) × (codecs.from_slice bytes ≡ ok file')
        × ((k : String) → get k file' ≡ get k file)
  pub not_empty : (file : StoreFile) → codecs.to_vec_pretty file ≢ ok []

-- The path is as it was: what stands there, and whether it is seen.
abbrev pub Same : {B D T : Type 0} → Files B D T → (D → Option (List B)) → D → D → Type 0
Same files contents before after =
    (contents after ≡ contents before) × (files.exists after ≡ files.exists before)

-- What stands at the path, and whether its metadata can be read, changes by a rename that succeeds
-- and by nothing else; after such a rename the path is seen. A path that is not seen may be there.
pub record IsFiles {B D T : Type 0} (files : Files B D T) (contents : D → Option (List B))
    (written : T → D → List B) : Type 0 where
  pub present : (d : D) → files.exists d ≡ true → (b : List B) × (contents d ≡ some b)
  pub reads :
      (d : D) {b : List B}
      → contents d ≡ some b
      → ((files.read d).0 ≡ ok b) ⊎ ((e : String) × ((files.read d).0 ≡ err e))
  pub read_keeps : (d : D) → Same files contents d (files.read d).1
  pub create_keeps : (d : D) → Same files contents d (files.create_dir_all d).1
  pub temp_keeps : (d : D) → Same files contents d (files.new_temp d).1
  pub write_keeps : (t : T) (b : List B) (d : D) → Same files contents d (files.write_all t b d).1
  pub sync_keeps : (t : T) (d : D) → Same files contents d (files.sync_all t d).1
  pub owner_keeps : (t : T) (d : D) → Same files contents d (files.set_owner_only t d).1
  pub random_keeps : (n : ℕ) (d : D) → Same files contents d (files.random n d).1
  pub persist_keeps :
      (t : T) (d : D) {e : String}
      → (files.persist t d).0 ≡ err e
      → Same files contents d (files.persist t d).1
  pub temp_empty :
      (t : T) (d : D) → (files.new_temp d).0 ≡ ok t → written t (files.new_temp d).1 ≡ []
  pub writes :
      (t : T) (b : List B) (d : D)
      → (files.write_all t b d).0 ≡ ok tt
      → written t (files.write_all t b d).1 ≡ written t d ++ b
  pub sync_written : (t : T) (d : D) → written t (files.sync_all t d).1 ≡ written t d
  pub owner_written : (t : T) (d : D) → written t (files.set_owner_only t d).1 ≡ written t d
  pub persists :
      (t : T) (d : D)
      → (files.persist t d).0 ≡ ok tt
      → (contents (files.persist t d).1 ≡ some (written t d))
        × (files.exists (files.persist t d).1 ≡ true)
  pub random_length : (n : ℕ) (d : D) → length (files.random n d).0 ≡ n
