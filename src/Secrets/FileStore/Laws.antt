-- ===== src/Secrets/FileStore/Laws.antt =====
-- crates/secrets/src/file_store.rs: the file store keeps what the interface promises.
use headless_mcp_server.Prelude.{
  String, ◌≡◌, ◌⊎◌, inl, inr, refl, sym, ◌∙◌, Option, none, some, List, ok, err, map_err,
  map_err-eq-ok, Bool-cases, length, ◌==◌, if◌then◌else◌, eqb_iff,
}
use headless_mcp_server.Dict.{get, insert, remove}
use headless_mcp_server.Dict.Laws.{get-insert, get-remove}
use headless_mcp_server.Exec.{lift}
use headless_mcp_server.Exec.Post.{bind-Post}
use headless_mcp_server.Secrets.{SecretError, io, SecretResult, IsStore}
use headless_mcp_server.Secrets.Sealed.{
  StoredSecret, StoreFile, nonce_len_bytes, Codecs, stored_secret, sealed, revealed,
}
use headless_mcp_server.Secrets.FileStore.{
  Files, validate_key, read_file, write_file, encrypt, get_secret, set_secret, delete_secret,
  file_store,
}
use headless_mcp_server.Secrets.FileStore.Assumptions.{IsCodec, IsFiles}
use headless_mcp_server.Secrets.FileStore.Seen.{IsSeen, seen, seen-IsSeen}
use headless_mcp_server.Secrets.FileStore.Atomic.{write_atomic-Writes}
use headless_mcp_server.Secrets.FileStore.Reading.{
  lookup, stored_in, stored-printed, read_file-Reads, at-ok, get_secret-Gets, get_secret_keeps,
}

module _ {B D T : Type 0} (codecs : Codecs B) (files : Files B D T) (contents : D → Option (List B))
    (written : T → D → List B) (codec : IsCodec codecs) (disk : IsSeen files contents written) where
  abbrev stored : D → SecretResult StoreFile
  stored = stored_in codecs contents

  abbrev at : D → String → SecretResult (Option String)
  at = lookup codecs contents

  -- What is stored after the map was written, or failed to be.
  abbrev Saves : StoreFile → D → SecretResult (Unit {0}) → D → Type 0
  Saves file before r after =
      (r ≡ ok tt
        → (file' : StoreFile) × (stored after ≡ ok file')
          × ((k : String) → get k file' ≡ get k file))
      × ((e : SecretError) → r ≡ err e → contents after ≡ contents before)

  write_file-Saves :
      (file : StoreFile) (before d : D)
      → contents d ≡ contents before
      → Saves file before (write_file codecs files file d).0 (write_file codecs files file d).1
  unfolding write_file
  write_file-Saves file before d same =
      bind-Post (Saves file before) (lift (map_err _ (codecs.to_vec_pretty file))) _ d
        (λ e _. (λ h. cc, λ _ _. same))
        λ bytes printed.
          let (written_out, left) = write_atomic-Writes files contents written disk bytes d in
          (
            λ h.
                stored-printed codecs files contents written codec disk file _
                  (map_err-eq-ok _ _ printed) (written_out h),
            λ e h. left e h ∙ same,
          )

  -- What a key holds follows the entries of the map.
  abbrev Puts : (String → SecretResult (Option String)) → D → SecretResult (Unit {0}) → D → Type 0
  Puts spec before r after =
      (r ≡ ok tt → (j : String) → at after j ≡ spec j)
      × ((e : SecretError) → r ≡ err e → contents after ≡ contents before)

  Saves-Puts :
      (spec : String → SecretResult (Option String)) (file : StoreFile) (before after : D)
      (r : SecretResult (Unit {0}))
      → ((j : String) → revealed codecs j (get j file) ≡ spec j)
      → Saves file before r after
      → Puts spec before r after
  Saves-Puts spec file before after r agrees (saved, left) = (
    λ h j.
        let (file', holds, same) = saved h in
        at-ok codecs contents after j holds ∙ rw (same j) (agrees j),
    left,
  )

  sealed-eq-ok :
      (k : String) (nonce : List B) (o : Option (List B)) {entry : StoredSecret}
      → sealed codecs k nonce o ≡ ok entry
      → (ciphertext : List B) × (o ≡ some ciphertext)
        × (entry ≡ stored_secret codecs nonce ciphertext)
  sealed-eq-ok k nonce none h = cc
  sealed-eq-ok k nonce (some ciphertext) h = (ciphertext, refl, cc)

  -- A sealed secret is revealed again.
  revealed-sealed :
      (k value i : String) (nonce : List B) {entry : StoredSecret}
      → length nonce ≡ nonce_len_bytes
      → sealed codecs k nonce (codecs.encrypt nonce (codecs.as_bytes value)) ≡ ok entry
      → revealed codecs i (some entry) ≡ ok (some value)
  unfolding revealed
  revealed-sealed k value i nonce full h =
      let (ciphertext, made, same) = sealed-eq-ok k nonce _ h in
      rw same (
        rw (codec.decodes nonce) (
          rw (codec.decodes ciphertext) (
            rw ((eqb_iff (length nonce) nonce_len_bytes).1 full) (
              rw (codec.opens nonce (codecs.as_bytes value) made)
                (rw (codec.reads_text value) refl)))))

  whole :
      (d : D) (r : SecretResult StoreFile) {file : StoreFile}
      → (r ≡ stored d) ⊎ ((e : String) × (r ≡ err (io e)))
      → r ≡ ok file
      → stored d ≡ ok file
  whole d r (inl same) read = sym same ∙ read
  whole d r (inr (e, broken)) read = cc

  inserted :
      (k v j : String) (d : D) (file : StoreFile) (entry : StoredSecret)
      → stored d ≡ ok file
      → ((i : String) → revealed codecs i (some entry) ≡ ok (some v))
      → revealed codecs j (get j (insert k entry file)) ≡ (if k == j then ok (some v) else at d j)
  inserted k v j d file entry holds opens =
      rw (get-insert k j entry file) (elim (Bool-cases (k == j)) [
        | inl here ↦ rw here (opens j)
        | inr other ↦ rw other (sym (at-ok codecs contents d j holds))
      ])

  removed :
      (k j : String) (d : D) (file : StoreFile)
      → stored d ≡ ok file
      → revealed codecs j (get j (remove k file)) ≡ (if k == j then ok none else at d j)
  unfolding revealed
  removed k j d file holds = rw (get-remove k j file) (elim (Bool-cases (k == j)) [
    | inl here ↦ rw here refl
    | inr other ↦ rw other (sym (at-ok codecs contents d j holds))
  ])

  set_secret-Puts :
      (k v : String) (d : D)
      → Puts
          (λ j. if k == j then ok (some v) else at d j)
          d
          (set_secret codecs files k v d).0
          (set_secret codecs files k v d).1
  unfolding set_secret encrypt
  set_secret-Puts k v d =
      let spec = λ (j : String). if k == j then ok (some v) else at d j in
      let Q = Puts spec d in
      let d₁ = (read_file codecs files d).1 in
      let (reads, same) = read_file-Reads codecs files contents written codec disk d in
      let nonce = (files.random nonce_len_bytes d₁).0 in
      let same₂ = disk.random_keeps nonce_len_bytes d₁ ∙ same in
      bind-Post Q (lift (validate_key k)) _ d (λ e _. (λ h. cc, λ _ _. refl))
        λ _ _.
          bind-Post Q (read_file codecs files) _ d (λ e _. (λ h. cc, λ _ _. same))
            λ file read.
              bind-Post Q (encrypt codecs files k (codecs.as_bytes v)) _ d₁
                (λ e _. (λ h. cc, λ _ _. same₂))
                λ entry made.
                  Saves-Puts spec (insert k entry file) d _ _
                    (λ j.
                      inserted k v j d file entry (whole d _ reads read) λ i.
                        revealed-sealed k v i nonce (disk.random_length nonce_len_bytes d₁) made)
                    (write_file-Saves (insert k entry file) d (files.random nonce_len_bytes d₁).1
                      same₂)

  delete_secret-Puts :
      (k : String) (d : D)
      → Puts
          (λ j. if k == j then ok none else at d j)
          d
          (delete_secret codecs files k d).0
          (delete_secret codecs files k d).1
  unfolding delete_secret
  delete_secret-Puts k d =
      let spec = λ (j : String). if k == j then ok none else at d j in
      let Q = Puts spec d in
      let d₁ = (read_file codecs files d).1 in
      let (reads, same) = read_file-Reads codecs files contents written codec disk d in
      bind-Post Q (lift (validate_key k)) _ d (λ e _. (λ h. cc, λ _ _. refl))
        λ _ _.
          bind-Post Q (read_file codecs files) _ d (λ e _. (λ h. cc, λ _ _. same))
            λ file read.
              Saves-Puts spec (remove k file) d _ _ (λ j. removed k j d file (whole d _ reads read))
                (write_file-Saves (remove k file) d d₁ same)

  same_at :
      (before after : D) (j : String) → contents after ≡ contents before → at after j ≡ at before j
  same_at before after j same = rw same refl

  file_store-keeps_seen : IsStore (lookup codecs contents) (file_store codecs files)
  unfolding get_secret set_secret delete_secret
  file_store-keeps_seen = record {
    get_reads = λ k d named. (get_secret-Gets codecs files contents written codec disk k d named).0;
    get_keeps =
        λ k j d. same_at d _ j (get_secret_keeps codecs files contents written codec disk k d);
    set_writes = λ k v j d h. (set_secret-Puts k v d).0 h j;
    set_fails = λ k v j d e h. same_at d _ j ((set_secret-Puts k v d).1 e h);
    delete_removes = λ k j d h. (delete_secret-Puts k d).0 h j;
    delete_fails = λ k j d e h. same_at d _ j ((delete_secret-Puts k d).1 e h);
  }

module _ {B D T : Type 0} (codecs : Codecs B) (files : Files B D T) (contents : D → Option (List B))
    (written : T → D → List B) (codec : IsCodec codecs)
    (disk : IsFiles files contents written) where
  -- The file store is a store of what it sees at its path, given what its libraries and the file
  -- system promise; where the metadata of the path cannot be read it sees nothing. For a key that
  -- is not empty, `get` gives what is seen of it or an I/O error. After a set that succeeds the key
  -- has its value, after a delete none, and what is seen of the other keys stays. An operation that
  -- fails, at whatever step, leaves what is seen of every key as it was.
  pub file_store-IsStore : IsStore (lookup codecs (seen files contents)) (file_store codecs files)
  file_store-IsStore =
      file_store-keeps_seen codecs files (seen files contents) written codec
        (seen-IsSeen files contents written disk)
