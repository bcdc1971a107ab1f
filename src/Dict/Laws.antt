-- ===== src/Dict/Laws.antt =====
-- What a lookup finds after each operation on a map.
use mathlib.Core.Option
use headless_mcp_server.Prelude.{
  String, ◌≡◌, refl, ◌∙◌, Bool, true, false, Option, none, some, [], ◌∷◌, arith, inl, inr, ◌==◌,
  eq_iff, Bool-cases, if◌then◌else◌,
}
use headless_mcp_server.Dict.{
  Dict, get, contains_key, insert, retain, remove, insert_all, update, IsDistinct,
}

-- An optional value, kept if it passes a test.
abbrev pub keep_if {ℓ} : {V : Type ℓ} → (V → Bool) → Option V → Option V
keep_if p none = none
keep_if p (some v) = if p v then some v else none

module _ {ℓ} {V : Type ℓ} where
  pub get-of_contains_key : (k : String) (m : Dict V) → contains_key k m ≡ false → get k m ≡ none
  unfolding get contains_key
  get-of_contains_key k [] h = refl
  get-of_contains_key k ((j, v) ∷ m) h = ground (arith, get-of_contains_key k m)

  pub contains_key-of_none : (k : String) (m : Dict V) → get k m ≡ none → contains_key k m ≡ false
  unfolding get contains_key
  contains_key-of_none k [] h = refl
  contains_key-of_none k ((j, v) ∷ m) h = ground (arith, contains_key-of_none k m)

  pub contains_key-of_some :
      (k : String) (m : Dict V) {v : V} → get k m ≡ some v → contains_key k m ≡ true
  unfolding get contains_key
  contains_key-of_some k [] h = cc
  contains_key-of_some k ((j, w) ∷ m) {v} h = ground (arith, contains_key-of_some k m {v = v})

  pub get-insert :
      (k j : String) (v : V) (m : Dict V)
      → get j (insert k v m) ≡ (if k == j then some v else get j m)
  unfolding get insert
  get-insert k j v [] = refl
  get-insert k j v ((i, w) ∷ m) =
      ground (arith, eq_iff k j, eq_iff i k, eq_iff i j, get-insert k j v m)

  pub contains_key-insert :
      (k j : String) (v : V) (m : Dict V)
      → contains_key j (insert k v m) ≡ (if k == j then true else contains_key j m)
  unfolding contains_key insert
  contains_key-insert k j v [] = refl
  contains_key-insert k j v ((i, w) ∷ m) =
      ground (arith, eq_iff k j, eq_iff i k, eq_iff i j, contains_key-insert k j v m)

  pub insert-IsDistinct :
      (k : String) (v : V) (m : Dict V) → IsDistinct m → IsDistinct (insert k v m)
  unfolding insert
  insert-IsDistinct k v [] h = (unfold contains_key in refl, tt)
  insert-IsDistinct k v ((j, w) ∷ m) (h, hs) = elim (Bool-cases (j == k)) [
    | inl e ↦ rw e (rw (← (eq_iff j k).0 e) (h, hs))
    | inr e ↦ rw e (
      ground (arith, contains_key-insert k j v m, eq_iff j k, eq_iff k j),
      insert-IsDistinct k v m hs,
    )
  ]

  pub contains_key-retain :
      (p : String → V → Bool) (k : String) (m : Dict V)
      → contains_key k m ≡ false
      → contains_key k (retain p m) ≡ false
  unfolding contains_key retain
  contains_key-retain p k [] h = refl
  contains_key-retain p k ((j, v) ∷ m) h = ground (arith, contains_key-retain p k m)

  pub retain-IsDistinct :
      (p : String → V → Bool) (m : Dict V) → IsDistinct m → IsDistinct (retain p m)
  unfolding retain
  retain-IsDistinct p [] h = tt
  retain-IsDistinct p ((k, v) ∷ m) (h, hs) =
      ground (arith, contains_key-retain p k m h, retain-IsDistinct p m hs)

  pub get-retain :
      (p : String → V → Bool) (k : String) (m : Dict V)
      → IsDistinct m
      → get k (retain p m) ≡ keep_if (p k) (get k m)
  unfolding get retain
  get-retain p k [] h = refl
  get-retain p k ((j, v) ∷ m) (h, hs) =
      ground (arith, eq_iff j k, get-retain p k m hs, get-of_contains_key j m h)

  pub get-remove :
      (k j : String) (m : Dict V) → get j (remove k m) ≡ (if k == j then none else get j m)
  unfolding get remove
  get-remove k j [] = ground arith
  get-remove k j ((i, v) ∷ m) = ground (arith, eq_iff k j, eq_iff i k, eq_iff i j, get-remove k j m)

  pub get-update :
      (k j : String) (f : V → V) (m : Dict V) {v : V}
      → get k m ≡ some v
      → get j (update k f m) ≡ (if k == j then some (f v) else get j m)
  unfolding get update
  get-update k j f [] h = cc
  get-update k j f ((i, w) ∷ m) {v} h =
      ground (arith, eq_iff k j, eq_iff i k, eq_iff i j, get-update k j f m {v = v})

-- The first of two optional values that is there.
abbrev pub or_else {ℓ} : {V : Type ℓ} → Option V → Option V → Option V
or_else none o = o
or_else (some v) o = some v

module _ {ℓ} {V : Type ℓ} where
  -- A test of the key alone keeps or drops the whole of what stands under it.
  pub get-retain_key :
      (q : String → Bool) (k : String) (m : Dict V)
      → get k (retain (λ j _. q j) m) ≡ (if q k then get k m else none)
  unfolding get retain
  get-retain_key q k [] = ground arith
  get-retain_key q k ((j, v) ∷ m) = ground (arith, eq_iff j k, get-retain_key q k m)

  pub get-update-map :
      (k j : String) (f : V → V) (m : Dict V)
      → get j (update k f m) ≡ (if k == j then Option.map f (get j m) else get j m)
  unfolding get update
  get-update-map k j f [] = ground arith
  get-update-map k j f ((i, w) ∷ m) =
      ground (arith, eq_iff k j, eq_iff i k, eq_iff i j, get-update-map k j f m)

  pub get-insert_all :
      (k : String) (entries m : Dict V)
      → IsDistinct entries
      → get k (insert_all entries m) ≡ or_else (get k entries) (get k m)
  unfolding get insert_all
  get-insert_all k [] m h = refl
  get-insert_all k ((j, v) ∷ entries) m (h, hs) =
      get-insert_all k entries (insert j v m) hs
      ∙ ground (arith, get-insert j k v m, eq_iff j k, get-of_contains_key j entries h)

module _ {ℓ} {V : Type ℓ} where
  pub contains_key-update :
      (k j : String) (f : V → V) (m : Dict V) → contains_key j (update k f m) ≡ contains_key j m
  unfolding contains_key update
  contains_key-update k j f [] = refl
  contains_key-update k j f ((i, w) ∷ m) = ground (arith, contains_key-update k j f m)

  pub update-IsDistinct :
      (k : String) (f : V → V) (m : Dict V) → IsDistinct m → IsDistinct (update k f m)
  unfolding update
  update-IsDistinct k f [] h = tt
  update-IsDistinct k f ((i, w) ∷ m) (h, hs) =
      ground (arith, contains_key-update k i f m, update-IsDistinct k f m hs)
