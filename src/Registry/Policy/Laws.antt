-- ===== src/Registry/Policy/Laws.antt =====
-- crates/registry/src/lib.rs: what the argument policy guarantees.
use headless_mcp_server.Prelude.{
  String, ◌≡◌, ◌⊎◌, Bool, true, false, ◌&&◌, Option, none, some, List, [], ◌∷◌, ok, err, contains,
  find, is_empty, eq_iff, arith, inl, inr, Option-cases, Result-cases,
}
use headless_mcp_server.Dict.{get, contains_key, insert_all, IsDistinct}
use headless_mcp_server.Dict.Laws.{get-insert_all, or_else}
use headless_mcp_server.Json.{
  Value, object, Map, from_map, null, bool, props, Number, number, Fields, string, array, Items,
}
use headless_mcp_server.Core.{BackendDef, BackendError, protocol}
use headless_mcp_server.Registry.Policy.{arguments_object, apply_arg_policy}

find-none :
    (p : String → Bool) (xs : List String) (x : String)
    → find p xs ≡ none
    → contains xs x ≡ true
    → p x ≡ false
find-none p [] x h c = cc
find-none p (y ∷ ys) x h c = ground (arith, eq_iff y x, find-none p ys x)

find-some :
    (p : String → Bool) (xs : List String) {x : String}
    → find p xs ≡ some x
    → (p x ≡ true) × (contains xs x ≡ true)
find-some p [] h = cc
find-some p (y ∷ ys) {x} h = ground (arith, eq_iff y x, find-some p ys {x = x})

-- The configuration says something about arguments.
abbrev pub HasPolicy : BackendDef → Type 0
HasPolicy def = (is_empty def.pin_args && is_empty def.deny_args) ≡ false

-- What is sent downstream when the policy lets a call pass.
pub record Enforced (def : BackendDef) (given sent : Map) : Type 0 where
  pub pinned : (k : String) → get k sent ≡ or_else (get k def.pin_args) (get k given)
  pub denied : (k : String) → contains def.deny_args k ≡ true → contains_key k given ≡ false

-- A call that passes a policy had an object (or nothing) for arguments and none of the denied
-- ones; each argument sent is the pinned value, where there is one, and the caller's otherwise.
pub apply_arg_policy-Enforced :
    (def : BackendDef) (args out : Option Value)
    → HasPolicy def
    → IsDistinct def.pin_args
    → apply_arg_policy def args ≡ ok out
    → (given : Map) × (sent : Map) × (arguments_object args ≡ ok given)
      × (out ≡ some (from_map sent))
      × Enforced def given sent
unfolding apply_arg_policy
apply_arg_policy-Enforced def args out policy distinct h =
    elim (Result-cases (arguments_object args)) [
      | inr (e, bad) ↦ absurd (ground arith)
      | inl (given, read) ↦ elim (Option-cases (find (λ k. contains_key k given) def.deny_args)) [
        | inr (k, found) ↦ absurd (ground arith)
        | inl missing ↦ (
          given,
          insert_all def.pin_args given,
          read,
          ground arith,
          record {
            pinned = λ k. get-insert_all k def.pin_args given distinct;
            denied = λ k c. find-none (λ j. contains_key j given) def.deny_args k missing c;
          },
        )
      ]
    ]

-- What a call is given: no arguments, or null, count as none at all.
pub data Given : Option Value → Map → Type 0 where
  nothing : Given none []
  null_value : Given (some null) []
  an_object : (fs : Fields) → Given (some (object fs)) (props fs)

-- Arguments that are there, and are neither null nor an object.
pub data IsNoObject : Option Value → Type 0 where
  a_bool : (b : Bool) → IsNoObject (some (bool b))
  a_number : (n : Number) → IsNoObject (some (number n))
  a_string : (s : String) → IsNoObject (some (string s))
  an_array : (vs : Items) → IsNoObject (some (array vs))

arguments_object-error :
    (args : Option Value) {e : BackendError}
    → arguments_object args ≡ err e
    → (e.kind ≡ protocol) × IsNoObject args
arguments_object-error none h = cc
arguments_object-error (some null) h = cc
arguments_object-error (some (object fs)) h = cc
arguments_object-error (some (bool b)) h = (ground arith, a_bool b)
arguments_object-error (some (number n)) h = (ground arith, a_number n)
arguments_object-error (some (string s)) h = (ground arith, a_string s)
arguments_object-error (some (array vs)) h = (ground arith, an_array vs)

arguments_object-Given :
    (args : Option Value) (given : Map) → arguments_object args ≡ ok given → Given args given
arguments_object-Given none given h = let same : [] ≡ given = cc in rw (← same) nothing
arguments_object-Given (some null) given h = let same : [] ≡ given = cc in rw (← same) null_value
arguments_object-Given (some (object fs)) given h =
    let same : props fs ≡ given = cc in rw (← same) (an_object fs)
arguments_object-Given (some (bool b)) given h = cc
arguments_object-Given (some (number n)) given h = cc
arguments_object-Given (some (string s)) given h = cc
arguments_object-Given (some (array vs)) given h = cc

-- A call that the policy refuses is refused with a protocol error, by a backend that has a policy,
-- because its arguments are a Boolean, a number, a string or an array, or because they are an
-- object that holds a denied one.
pub apply_arg_policy-refuses :
    (def : BackendDef) (args : Option Value) (e : BackendError)
    → apply_arg_policy def args ≡ err e
    → HasPolicy def
      × (e.kind ≡ protocol)
      × (IsNoObject args
          ⊎ ((given : Map) × (k : String) × Given args given
              × (contains def.deny_args k ≡ true)
              × (contains_key k given ≡ true)))
unfolding apply_arg_policy
apply_arg_policy-refuses def args e h = elim (Result-cases (arguments_object args)) [
  | inr (e', bad) ↦
      let same : e' ≡ e = ground arith in
      (
        ground arith,
        rw (← same) (arguments_object-error args bad).0,
        inl (arguments_object-error args bad).1,
      )
  | inl (given, read) ↦ elim (Option-cases (find (λ k. contains_key k given) def.deny_args)) [
    | inl missing ↦ absurd (ground arith)
    | inr (k, found) ↦
        let (there, listed) = find-some (λ j. contains_key j given) def.deny_args found in
        (
          ground arith,
          ground arith,
          inr (given, k, arguments_object-Given args given read, listed, there),
        )
  ]
]
