-- ===== src/StdioBackend/Pending.antt =====
-- crates/backends/backend-stdio/src/lib.rs: the map of the calls that wait, and its channels.
use headless_mcp_server.Prelude.{
  ℕ, ◌+◌, ◌≤◌, ◌≡◌, refl, sym, ap, ◌∙◌, Bool, true, false, some, [], ◌∷◌, eqb, eqb_iff, Bool-cases,
  inl, inr, arith,
}
use headless_mcp_server.Json.{ℤ, eq_int, eq_int_iff}
use headless_mcp_server.StdioBackend.State.{Channel, Pending, find_pending, remove_pending}

abbrev pub one_if : Bool → ℕ
one_if true = 1
one_if false = 0

-- How many calls wait on a channel.
abbrev pub holds : Channel → Pending → ℕ
holds c [] = 0
holds c ((i, d) ∷ p) = one_if (eqb c d) + holds c p

eqb_self : (n : ℕ) → eqb n n ≡ true
eqb_self n = (eqb_iff n n).1 refl

pub eq_int_self : (n : ℤ) → eq_int n n ≡ true
eq_int_self n = (eq_int_iff n n).1 refl

pub remove-holds : (c : Channel) (i : ℤ) (p : Pending) → holds c (remove_pending i p) ≤ holds c p
remove-holds c i [] = omega arith
remove-holds c i ((j, d) ∷ p) = elim (Bool-cases (eq_int i j)) [
  | inl same ↦ rw same (omega (arith, remove-holds c i p))
  | inr other ↦ rw other (omega (arith, remove-holds c i p))
]

pub find-holds :
    (i : ℤ) (c : Channel) (p : Pending)
    → find_pending i p ≡ some c
    → holds c (remove_pending i p) + 1 ≤ holds c p
find-holds i c [] h = cc
find-holds i c ((j, d) ∷ p) h = elim (Bool-cases (eq_int i j)) [
  | inl same ↦
      let found : d ≡ c = cc in rw (same, found, eqb_self c) (omega (arith, remove-holds c i p))
  | inr other ↦
      let later : find_pending i p ≡ some c = cc in rw other (omega (arith, find-holds i c p later))
]

pub find-remove_other :
    (n i : ℤ) (p : Pending)
    → eq_int n i ≡ false
    → find_pending n (remove_pending i p) ≡ find_pending n p
find-remove_other n i [] h = refl
find-remove_other n i ((j, d) ∷ p) h = elim (Bool-cases (eq_int i j)) [
  | inl same ↦
      let at : i ≡ j = (eq_int_iff i j).0 same in
      rw same (rw (sym at) (rw h (find-remove_other n i p h)))
  | inr other ↦ rw other (elim (Bool-cases (eq_int n j)) [
    | inl this ↦ rw this refl
    | inr another ↦ rw another (find-remove_other n i p h)
  ])
]

pub holds-eq-zero :
    (c d : Channel) (i : ℤ) (p : Pending)
    → holds c ((i, d) ∷ p) ≡ 0
    → (eqb c d ≡ false) × (holds c p ≡ 0)
holds-eq-zero c d i p h = elim (Bool-cases (eqb c d)) [
  | inl same ↦
      let more : 1 + holds c p ≡ 0 = ap (λ b. one_if b + holds c p) (sym same) ∙ h in
      absurd (omega (arith, more))
  | inr other ↦
      let none_left : 0 + holds c p ≡ 0 = ap (λ b. one_if b + holds c p) (sym other) ∙ h in
      (other, omega (arith, none_left))
]
