-- ===== src/Secrets/Sealed.antt =====
-- crates/secrets/src/file_store.rs: one secret as it is stored. The cipher under the master key,
-- base64, UTF-8 and the JSON of the file are parameters; bytes are a type `B`.
use headless_mcp_server.Prelude.{
  ℕ, String, Option, none, some, [], ◌∷◌, Result, ok, err, ok_or, ◌>>=◌, concat, length, eqb,
  if◌then◌else◌, List,
}
use headless_mcp_server.Dict.{Dict}
use headless_mcp_server.Secrets.{
  SecretError, encryption_failed, decryption_failed, corrupted, SecretResult,
}

pub record StoredSecret : Type 0 where
  pub nonce : String
  pub ciphertext : String

abbrev pub StoreFile : Type 0
StoreFile = Dict StoredSecret

abbrev pub nonce_len_bytes : ℕ
nonce_len_bytes = 12

-- The cipher under the master key, and the readers and printers of text and of the file.
pub record Codecs (B : Type 0) : Type 0 where
  pub encrypt : List B → List B → Option (List B)
  pub decrypt : List B → List B → Option (List B)
  pub encode : List B → String
  pub decode : String → Option (List B)
  pub as_bytes : String → List B
  pub from_utf8 : List B → Option String
  pub from_slice : List B → Result StoreFile String
  pub to_vec_pretty : StoreFile → Result (List B) String

abbrev pub corrupt_field : String → String → SecretError
corrupt_field what key =
    corrupted (concat (what ∷ " for key '" ∷ key ∷ "' is not valid base64" ∷ []))

module _ {B : Type 0} (codecs : Codecs B) where
  abbrev pub stored_secret : List B → List B → StoredSecret
  stored_secret nonce ciphertext = record {
    nonce = codecs.encode nonce;
    ciphertext = codecs.encode ciphertext;
  }

  -- `encrypt` once the nonce is drawn, from what the cipher gives.
  abbrev pub sealed : String → List B → Option (List B) → SecretResult StoredSecret
  sealed key nonce none = err (encryption_failed key)
  sealed key nonce (some ciphertext) = ok (stored_secret nonce ciphertext)

  -- The length check of the nonce, and the cipher.
  abbrev opened : String → List B → List B → SecretResult (List B)
  opened key nonce ciphertext =
      if eqb (length nonce) nonce_len_bytes
      then ok_or (decryption_failed key) (codecs.decrypt nonce ciphertext)
      else err (corrupted (concat ("nonce for key '" ∷ key ∷ "' has the wrong length" ∷ [])))

  unfoldable pub decrypt : String → StoredSecret → SecretResult (List B)
  decrypt key stored = do
    nonce ← ok_or (corrupt_field "nonce" key) (codecs.decode stored.nonce)
    ciphertext ← ok_or (corrupt_field "ciphertext" key) (codecs.decode stored.ciphertext)
    opened key nonce ciphertext

  -- What `get` makes of the entry under its key.
  unfoldable pub revealed : String → Option StoredSecret → SecretResult (Option String)
  unfolding decrypt
  revealed key none = ok none
  revealed key (some stored) = do
    plaintext ← decrypt key stored
    text ← ok_or (decryption_failed key) (codecs.from_utf8 plaintext)
    ok (some text)
