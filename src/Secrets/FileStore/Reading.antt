-- ===== src/Secrets/FileStore/Reading.antt =====
-- crates/secrets/src/file_store.rs: what is read from the file, and what `get` gives.
use headless_mcp_server.Prelude.{
  String, ◌≡◌, ◌≢◌, ◌⊎◌, inl, inr, refl, sym, ap, ◌∙◌, Option, none, some, List, [], ◌∷◌, ok, err,
  map_err-eq-ok, map_err-eq-err, Bool-cases, eq_iff, arith,
}
use headless_mcp_server.Dict.{get}
use headless_mcp_server.Exec.{lift}
use headless_mcp_server.Exec.Post.{bind-Post}
use headless_mcp_server.Secrets.{SecretError, io, SecretResult}
use headless_mcp_server.Secrets.Sealed.{StoreFile, Codecs, revealed}
use headless_mcp_server.Secrets.FileStore.{
  Files, on_disk, parsed, validate_key, read_file, get_secret,
}
use headless_mcp_server.Secrets.FileStore.Assumptions.{IsCodec}
use headless_mcp_server.Secrets.FileStore.Seen.{IsSeen}

abbrev or_empty : {B : Type 0} → Option (List B) → List B
or_empty none = []
or_empty (some b) = b

-- The map that the file holds.
abbrev pub stored_in :
    {B D : Type 0} → Codecs B → (D → Option (List B)) → D → SecretResult StoreFile
stored_in codecs contents d = parsed codecs (or_empty (contents d))

abbrev pub reveal_in :
    {B : Type 0} → Codecs B → String → SecretResult StoreFile → SecretResult (Option String)
reveal_in codecs k (ok file) = revealed codecs k (get k file)
reveal_in codecs k (err e) = err e

-- What a key holds, by what stands at the path.
abbrev pub lookup :
    {B D : Type 0} → Codecs B → (D → Option (List B)) → D → String → SecretResult (Option String)
lookup codecs contents d k = reveal_in codecs k (stored_in codecs contents d)

module _ {B D : Type 0} (codecs : Codecs B) (contents : D → Option (List B)) where
  -- An error of the file's reader is an error of every key.
  at-err :
      (d : D) (k : String) {e : SecretError}
      → stored_in codecs contents d ≡ err e
      → lookup codecs contents d k ≡ err e
  at-err d k h = rw h refl

  pub at-ok :
      (d : D) (k : String) {file : StoreFile}
      → stored_in codecs contents d ≡ ok file
      → lookup codecs contents d k ≡ revealed codecs k (get k file)
  at-ok d k h = rw h refl

module _ {B D T : Type 0} (codecs : Codecs B) (files : Files B D T) (contents : D → Option (List B))
    (written : T → D → List B) (codec : IsCodec codecs) (disk : IsSeen files contents written) where
  abbrev pub stored : D → SecretResult StoreFile
  stored = stored_in codecs contents

  parsed-printed :
      (file file' : StoreFile) (bytes : List B)
      → codecs.to_vec_pretty file ≡ ok bytes
      → codecs.from_slice bytes ≡ ok file'
      → parsed codecs bytes ≡ ok file'
  parsed-printed file file' [] printed reads = absurd (codec.not_empty file printed)
  parsed-printed file file' (b ∷ bytes) printed reads = rw reads refl

  -- The entries of the file after it was replaced by the printed map.
  pub stored-printed :
      (file : StoreFile) (d : D) {bytes : List B}
      → codecs.to_vec_pretty file ≡ ok bytes
      → contents d ≡ some bytes
      → (file' : StoreFile) × (stored d ≡ ok file') × ((k : String) → get k file' ≡ get k file)
  stored-printed file d {bytes} printed same =
      let (file', reads, agrees) = codec.reads_file file printed in
      (file', rw same (parsed-printed file file' bytes printed reads), agrees)

  abbrev pub Reads : D → SecretResult StoreFile → D → Type 0
  Reads before r after =
      ((r ≡ stored before) ⊎ ((e : String) × (r ≡ err (io e)))) × (contents after ≡ contents before)

  pub read_file-Reads : (d : D) → Reads d (read_file codecs files d).0 (read_file codecs files d).1
  unfolding read_file
  read_file-Reads d = elim (Bool-cases (files.exists d)) [
    | inr missing ↦ rw missing (inl (rw (disk.absent d missing) refl), refl)
    | inl there ↦
        let (b, same) = disk.present d there in
        rw there (
          bind-Post (Reads d) (on_disk files.read) _ d
            (λ e failed.
              let (io_error, _, same_error) = map_err-eq-err io _ failed in
              (inr (io_error, ap err (sym same_error)), disk.read_keeps d))
            λ bytes read. (
              inl (
                  rw same (
                    ap (parsed codecs) (elim (disk.reads d same) [
                      | inl right ↦ cc (map_err-eq-ok io _ read)
                      | inr (e, wrong) ↦ cc (map_err-eq-ok io _ read)
                    ]))),
              disk.read_keeps d,
            ))
  ]

  abbrev pub at : D → String → SecretResult (Option String)
  at = lookup codecs contents

  abbrev pub Gets : String → D → SecretResult (Option String) → D → Type 0
  Gets k before r after =
      ((r ≡ at before k) ⊎ ((e : String) × (r ≡ err (io e)))) × (contents after ≡ contents before)

  validate_key-eq-ok : (k : String) → k ≢ "" → validate_key k ≡ ok tt
  unfolding validate_key
  validate_key-eq-ok k h = ground (arith, eq_iff k "")

  pub get_secret-Gets :
      (k : String) (d : D)
      → k ≢ ""
      → Gets k d (get_secret codecs files k d).0 (get_secret codecs files k d).1
  unfolding get_secret
  get_secret-Gets k d named =
      let Q = Gets k d in
      let (reads, same) = read_file-Reads d in
      rw (validate_key-eq-ok k named) (
        bind-Post Q (read_file codecs files) _ d
          (λ e failed. (
            elim reads [
              | inl complete ↦ inl (sym (at-err codecs contents d k (sym complete ∙ failed)))
              | inr (x, broken) ↦ inr (x, cc)
            ],
            same,
          ))
          λ file read. (
            elim reads [
              | inl complete ↦ inl (sym (at-ok codecs contents d k (sym complete ∙ read)))
              | inr (x, broken) ↦ cc
            ],
            same,
          ))

  pub get_secret_keeps :
      (k : String) (d : D) → contents (get_secret codecs files k d).1 ≡ contents d
  unfolding get_secret
  get_secret_keeps k d =
      let Q = λ (r : SecretResult (Option String)) (after : D). contents after ≡ contents d in
      let same = (read_file-Reads d).1 in
      bind-Post Q (lift (validate_key k)) _ d (λ e _. refl)
        λ _ _. bind-Post Q (read_file codecs files) _ d (λ e _. same) λ file _. same
