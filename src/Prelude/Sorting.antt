-- ===== src/Prelude/Sorting.antt =====
-- Rust's stable `sort_by` on a text key. Strings compare as their bytes do, which is the order of
-- their code points.
use Prim.Native.Nat.{Ordering}
use Prim.Native.String.{String, compare}
use Prim.Native.String.compare as compare
use mathlib.Core.Path.{◌≡◌}
use mathlib.Core.Logic.{◌⊎◌, ◌↔◌, inl, inr}
use mathlib.Core.Bool.{Bool, true, false}
use mathlib.Core.List.Memᴰ.{Memᴰ, head, tail, cases_cons}
use mathlib.Core.List.{List, [], ◌∷◌}
use native.Mathlib.Omega.{arith}
use headless_mcp_server.Prelude.Tests.{if◌then◌else◌, Bool-cases}

abbrev pub leb_string : String → String → Bool
leb_string s t = elim (compare s t) [ Ordering.gt ↦ false | _ ↦ true ]

leb_total : (s t : String) → leb_string s t ≡ false → leb_string t s ≡ true
leb_total String.[] String.[] h = cc
leb_total String.[] (String.◌∷◌ d t) h = ground (arith, compare.nil-cons d t)
leb_total (String.◌∷◌ c s) String.[] h = ground (arith, compare.nil-cons c s)
leb_total (String.◌∷◌ c s) (String.◌∷◌ d t) h =
    ground (arith, leb_total s t, compare.cons-cons c d s t, compare.cons-cons d c t s)

module _ {ℓ} {A : Type ℓ} where
  among-if :
      {z : A} (b : Bool) (xs ys : List A) → Memᴰ z (if b then xs else ys) → Memᴰ z xs ⊎ Memᴰ z ys
  among-if true xs ys m = inl m
  among-if false xs ys m = inr m

  module _ (key : A → String) where
    -- Before the first entry that is not smaller, so that equal keys keep their order.
    unfoldable pub insert_sorted : A → List A → List A
    insert_sorted x [] = x ∷ []
    insert_sorted x (y ∷ ys) =
        let rest = insert_sorted x ys in if leb_string (key x) (key y) then x ∷ y ∷ ys else y ∷ rest

    unfoldable pub sort_by : List A → List A
    unfolding insert_sorted
    sort_by [] = []
    sort_by (x ∷ xs) = insert_sorted x (sort_by xs)

    abbrev pub IsFirst : A → List A → Type 0
    IsFirst x [] = Unit
    IsFirst x (y ∷ ys) = leb_string (key x) (key y) ≡ true

    abbrev pub IsSorted : List A → Type 0
    IsSorted [] = Unit
    IsSorted (x ∷ xs) = IsFirst x xs × IsSorted xs

    among-insert_sorted :
        (x z : A) (ys : List A) → Memᴰ z (insert_sorted x ys) → (z ≡ x) ⊎ Memᴰ z ys
    unfolding insert_sorted
    among-insert_sorted x z [] m = cases_cons m
    among-insert_sorted x z (y ∷ ys) m =
        elim (among-if (leb_string (key x) (key y)) (x ∷ y ∷ ys) (y ∷ insert_sorted x ys) m) [
          | inl here ↦ cases_cons here
          | inr there ↦ elim (cases_cons there) [
            | inl same ↦ inr (head same)
            | inr later ↦ elim (among-insert_sorted x z ys later) [
              | inl same ↦ inl same
              | inr deep ↦ inr (tail deep)
            ]
          ]
        ]

    insert_sorted-among :
        (x z : A) (ys : List A) → (z ≡ x) ⊎ Memᴰ z ys → Memᴰ z (insert_sorted x ys)
    unfolding insert_sorted
    insert_sorted-among x z [] (inl same) = head same
    insert_sorted-among x z [] (inr m) = tail m
    insert_sorted-among x z (y ∷ ys) h = elim (Bool-cases (leb_string (key x) (key y))) [
      | inl e ↦ rw e (elim h [ inl same ↦ head same | inr m ↦ tail m ])
      | inr e ↦ rw e (elim h [
        | inl same ↦ tail (insert_sorted-among x z ys (inl same))
        | inr m ↦ elim (cases_cons m) [
          | inl same ↦ head same
          | inr later ↦ tail (insert_sorted-among x z ys (inr later))
        ]
      ])
    ]

    -- Sorting neither loses nor adds a member.
    pub among-sort_by : (z : A) (xs : List A) → Memᴰ z (sort_by xs) ↔ Memᴰ z xs
    unfolding sort_by
    among-sort_by z [] = (λ m. m, λ m. m)
    among-sort_by z (x ∷ xs) = (
      λ m. elim (among-insert_sorted x z (sort_by xs) m) [
        | inl same ↦ head same
        | inr later ↦ tail ((among-sort_by z xs).0 later)
      ],
      λ m. insert_sorted-among x z (sort_by xs) (elim (cases_cons m) [
        | inl same ↦ inl same
        | inr later ↦ inr ((among-sort_by z xs).1 later)
      ]),
    )

    insert_sorted-IsFirst :
        (x y : A) (ys : List A)
        → leb_string (key y) (key x) ≡ true
        → IsFirst y ys
        → IsFirst y (insert_sorted x ys)
    unfolding insert_sorted
    insert_sorted-IsFirst x y [] h k = h
    insert_sorted-IsFirst x y (z ∷ zs) h k = elim (Bool-cases (leb_string (key x) (key z))) [
      | inl e ↦ rw e h
      | inr e ↦ rw e k
    ]

    insert_sorted-IsSorted : (x : A) (ys : List A) → IsSorted ys → IsSorted (insert_sorted x ys)
    unfolding insert_sorted
    insert_sorted-IsSorted x [] h = (tt, tt)
    insert_sorted-IsSorted x (y ∷ ys) (h, hs) = elim (Bool-cases (leb_string (key x) (key y))) [
      | inl e ↦ rw e (e, (h, hs))
      | inr e ↦ rw e (
        insert_sorted-IsFirst x y ys (leb_total (key x) (key y) e) h,
        insert_sorted-IsSorted x ys hs,
      )
    ]

    pub sort_by-IsSorted : (xs : List A) → IsSorted (sort_by xs)
    unfolding sort_by
    sort_by-IsSorted [] = tt
    sort_by-IsSorted (x ∷ xs) = insert_sorted-IsSorted x (sort_by xs) (sort_by-IsSorted xs)
