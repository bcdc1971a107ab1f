-- ===== src/Wire/JsonRpc/Nesting.antt =====
-- crates/mcp-wire/src/jsonrpc.rs: the nesting guard, against a count of brackets over prefixes.
use headless_mcp_server.Prelude.{
  ◌⊎◌, ap, sym, ◌∙◌, ℕ, ◌+◌, ◌-◌, ◌<◌, ◌≤◌, ◌≡◌, ◌↔◌, refl, Bool, true, false, ◌||◌, List, [], ◌∷◌,
  ◌++◌, arith, eqb, ltb, inl, inr, Bool-cases, if◌then◌else◌,
}

pub record Scan : Type 0 where
  pub depth : ℕ
  pub in_string : Bool
  pub escaped : Bool

abbrev pub start : Scan
start = record { depth = 0; in_string = false; escaped = false }

abbrev opens : ℕ → Bool
opens byte = eqb byte b'{' || eqb byte b'['

abbrev closes : ℕ → Bool
closes byte = eqb byte b'}' || eqb byte b']'

-- The loop of `exceeds_max_nesting`, over its three variables.
pub exceeds_from : ℕ → ℕ → Bool → Bool → List ℕ → Bool
exceeds_from max_depth depth in_string escaped [] = false
exceeds_from max_depth depth true true (byte ∷ bytes) =
    exceeds_from max_depth depth true false bytes
exceeds_from max_depth depth true false (byte ∷ bytes) = elim (eqb byte 92) [
  | true ↦ exceeds_from max_depth depth true true bytes
  | false ↦ exceeds_from max_depth depth (if eqb byte 34 then false else true) false bytes
]
exceeds_from max_depth depth false escaped (byte ∷ bytes) = elim (eqb byte 34) [
  | true ↦ exceeds_from max_depth depth true escaped bytes
  | false ↦ elim (opens byte) [
    | true ↦
        let rest = exceeds_from max_depth (depth + 1) false escaped bytes in
        if ltb max_depth (depth + 1) then true else rest
    | false ↦ exceeds_from max_depth (if closes byte then depth - 1 else depth) false escaped bytes
  ]
]

unfoldable pub exceeds_max_nesting : List ℕ → ℕ → Bool
unfolding exceeds_from
exceeds_max_nesting bytes max_depth = exceeds_from max_depth 0 false false bytes

-- An independent description: where a scan of some bytes stands, whatever the limit.
abbrev step_out : Scan → ℕ → Scan
step_out s byte =
    if eqb byte 34
    then record s { in_string = true }
    else if opens byte
    then record s { depth = s.depth + 1 }
    else if closes byte
    then record s { depth = s.depth - 1 }
    else s

abbrev step_in : Scan → ℕ → Scan
step_in s byte =
    if s.escaped
    then record s { escaped = false }
    else if eqb byte 92
    then record s { escaped = true }
    else if eqb byte 34
    then record s { in_string = false }
    else s

abbrev step : Scan → ℕ → Scan
step s byte = if s.in_string then step_in s byte else step_out s byte

pub scan : Scan → List ℕ → Scan
scan s [] = s
scan s (byte ∷ bytes) = scan (step s byte) bytes

-- Some beginning of the bytes leaves more than `max_depth` brackets open.
abbrev pub IsTooDeep : ℕ → Scan → List ℕ → Type 0
IsTooDeep max_depth s bytes =
    (front : List ℕ) × (back : List ℕ) × (bytes ≡ front ++ back)
    × (max_depth < (scan s front).depth)

abbrev exceeds : ℕ → Scan → List ℕ → Bool
exceeds m s bytes = exceeds_from m s.depth s.in_string s.escaped bytes

exceeds-step :
    (m d : ℕ) (i e : Bool) (byte : ℕ) (bytes : List ℕ)
    → let s : Scan = record { depth = d; in_string = i; escaped = e } in
      d ≤ m
      → exceeds m s (byte ∷ bytes) ≡ (ltb m (step s byte).depth || exceeds m (step s byte) bytes)
unfolding exceeds_from
exceeds-step m d true true byte bytes h = ground arith
exceeds-step m d true false byte bytes h = ground arith
exceeds-step m d false e byte bytes h = ground arith

or_split : (b c : Bool) → (b || c) ≡ true → (b ≡ true) ⊎ ((b ≡ false) × (c ≡ true))
or_split b c h = ground arith

le_of_ltb : (a b : ℕ) → ltb a b ≡ false → b ≤ a
le_of_ltb a b h = ground arith

lt_of_ltb : (a b : ℕ) → ltb a b ≡ true → a < b
lt_of_ltb a b h = ground arith

exceeds_sound :
    (m : ℕ) (s : Scan) (bytes : List ℕ)
    → s.depth ≤ m
    → exceeds m s bytes ≡ true
    → IsTooDeep m s bytes
unfolding exceeds_from scan
exceeds_sound m s [] h t = cc
exceeds_sound m s (byte ∷ bytes) h t =
    let u = sym (exceeds-step m s.depth s.in_string s.escaped byte bytes h) ∙ t in
    elim (or_split _ _ u) [
      | inl deep ↦ (byte ∷ [], bytes, refl, lt_of_ltb _ _ deep)
      | inr (e, later) ↦
          let (front, back, same, deep) =
            exceeds_sound m (step s byte) bytes (le_of_ltb _ _ e) later in
          (byte ∷ front, back, ap (λ (r : List ℕ). byte ∷ r) same, deep)
    ]

exceeds_complete :
    (m : ℕ) (s : Scan) (front back : List ℕ)
    → s.depth ≤ m
    → m < (scan s front).depth
    → exceeds m s (front ++ back) ≡ true
unfolding scan
exceeds_complete m s [] back h deep = absurd (omega arith)
exceeds_complete m s (byte ∷ front) back h deep =
    exceeds-step m s.depth s.in_string s.escaped byte (front ++ back) h
    ∙ elim (Bool-cases (ltb m (step s byte).depth)) [
      | inl e ↦ rw e
      | inr e ↦ rw e (exceeds_complete m (step s byte) front back (le_of_ltb _ _ e) deep)
    ]

-- The guard refuses exactly the inputs that have some beginning with more than `max_depth`
-- brackets open, brackets inside of string literals not counted.
pub exceeds_max_nesting_iff :
    (bytes : List ℕ) (max_depth : ℕ)
    → (exceeds_max_nesting bytes max_depth ≡ true) ↔ IsTooDeep max_depth start bytes
unfolding exceeds_max_nesting
exceeds_max_nesting_iff bytes m = (
  exceeds_sound m start bytes (omega arith),
  λ (front, back, same, deep). rw same (exceeds_complete m start front back (omega arith) deep),
)
