-- ===== src/Dict.antt =====
-- Maps with string keys: `serde_json::Map` and `std::collections::HashMap`. Theorems state what a
-- key maps to; the order of entries stands for whatever order an iteration takes.
pub mod Laws
use headless_mcp_server.Prelude.{
  String, ◌≡◌, Bool, true, false, not, Option, none, some, List, [], ◌∷◌, ◌==◌, if◌then◌else◌,
}

abbrev pub Dict {ℓ} : Type ℓ → Type ℓ
Dict V = List (String × V)

module _ {ℓ} {V : Type ℓ} where
  unfoldable pub get : String → Dict V → Option V
  get k [] = none
  get k ((j, v) ∷ m) = if j == k then some v else get k m

  unfoldable pub contains_key : String → Dict V → Bool
  contains_key k [] = false
  contains_key k ((j, v) ∷ m) = if j == k then true else contains_key k m

  unfoldable pub insert : String → V → Dict V → Dict V
  insert k v [] = (k, v) ∷ []
  insert k v ((j, w) ∷ m) = if j == k then (k, v) ∷ m else (j, w) ∷ insert k v m

  unfoldable pub retain : (String → V → Bool) → Dict V → Dict V
  retain p [] = []
  retain p ((k, v) ∷ m) = let rest = retain p m in if p k v then (k, v) ∷ rest else rest

  unfoldable pub remove : String → Dict V → Dict V
  unfolding retain
  remove k m = retain (λ j _. not (j == k)) m

  unfoldable pub keys : Dict V → List String
  keys [] = []
  keys ((k, v) ∷ m) = k ∷ keys m

  -- Inserts the entries one by one.
  unfoldable pub insert_all : Dict V → Dict V → Dict V
  unfolding insert
  insert_all [] m = m
  insert_all ((k, v) ∷ entries) m = insert_all entries (insert k v m)

  -- What every such map satisfies: no key stands in it twice.
  abbrev pub IsDistinct : Dict V → Type ℓ
  IsDistinct [] = Unit
  IsDistinct ((k, v) ∷ m) = (contains_key k m ≡ false) × IsDistinct m

-- `get_mut` and a write through it; a missing key changes nothing.
unfoldable pub update {ℓ} : {V : Type ℓ} → String → (V → V) → Dict V → Dict V
update k f [] = []
update k f ((j, v) ∷ m) = if j == k then (j, f v) ∷ m else (j, v) ∷ update k f m
