-- ===== src/Json.antt =====
-- The JSON values that the program matches on (`serde_json::Value`), integers included.
use Prim.Native.Nat.{◌^◌}
use headless_mcp_server.Prelude.{
  ℕ, String, ◌<◌, Bool, Option, none, some, List, [], ◌∷◌, ltb, if◌then◌else◌, ◌≡◌, refl, ap, ◌-◌,
  eqb, eqb_iff, true, false, ◌↔◌,
}
use headless_mcp_server.Dict.{Dict, get}

-- `negsuc n` is -(n + 1).
pub data ℤ : Type 0 where
  pos : ℕ → ℤ
  negsuc : ℕ → ℤ

-- What an `i64` holds.
abbrev pub InI64 : ℤ → Type 0
InI64 (pos n) = n < 2 ^ 63
InI64 (negsuc n) = n < 2 ^ 63

-- A `u64` that is cast to an `i64`.
abbrev pub cast_i64 : ℕ → ℤ
cast_i64 n = if ltb n (2 ^ 63) then pos n else negsuc (2 ^ 64 - 1 - n)

abbrev pub eq_int : ℤ → ℤ → Bool
eq_int (pos m) (pos n) = eqb m n
eq_int (negsuc m) (negsuc n) = eqb m n
eq_int (pos m) (negsuc n) = false
eq_int (negsuc m) (pos n) = false

pub eq_int_iff : (m n : ℤ) → (eq_int m n ≡ true) ↔ (m ≡ n)
eq_int_iff (pos m) (pos n) = let test = eqb_iff m n in (λ h. ap pos (test.0 h), λ h. test.1 cc)
eq_int_iff (negsuc m) (negsuc n) =
    let test = eqb_iff m n in (λ h. ap negsuc (test.0 h), λ h. test.1 cc)
eq_int_iff (pos m) (negsuc n) = (λ h. cc, λ h. cc)
eq_int_iff (negsuc m) (pos n) = (λ h. cc, λ h. cc)

-- A float is known by its bits only.
pub data Number : Type 0 where
  int : ℤ → Number
  float : ℕ → Number

mutual
  pub data Value : Type 0 where
    null : Value
    bool : Bool → Value
    number : Number → Value
    string : String → Value
    array : Items → Value
    object : Fields → Value

  pub data Items : Type 0 where
    nil : Items
    cons : Value → Items → Items

  pub data Fields : Type 0 where
    end : Fields
    field : String → Value → Fields → Fields

abbrev pub Map : Type 0
Map = Dict Value

abbrev pub elems : Items → List Value
elems nil = []
elems (cons v vs) = v ∷ elems vs

abbrev pub items : List Value → Items
items [] = nil
items (v ∷ vs) = cons v (items vs)

abbrev pub props : Fields → Map
props end = []
props (field k v fs) = (k, v) ∷ props fs

abbrev pub fields : Map → Fields
fields [] = end
fields ((k, v) ∷ m) = field k v (fields m)

pub props-fields : (m : Map) → props (fields m) ≡ m
props-fields [] = refl
props-fields ((k, v) ∷ m) = ap (λ (r : Map). (k, v) ∷ r) (props-fields m)

pub elems-items : (vs : List Value) → elems (items vs) ≡ vs
elems-items [] = refl
elems-items (v ∷ vs) = ap (λ (r : List Value). v ∷ r) (elems-items vs)

abbrev pub from_map : Map → Value
from_map m = object (fields m)

abbrev pub from_list : List Value → Value
from_list vs = array (items vs)

abbrev pub as_object : Value → Option Map
as_object (object fs) = some (props fs)
as_object _ = none

abbrev pub as_array : Value → Option (List Value)
as_array (array vs) = some (elems vs)
as_array _ = none

abbrev pub as_str : Value → Option String
as_str (string s) = some s
as_str _ = none

abbrev pub as_bool : Value → Option Bool
as_bool (bool b) = some b
as_bool _ = none

abbrev pub in_i64 : ℤ → Bool
in_i64 (pos n) = ltb n (2 ^ 63)
in_i64 (negsuc n) = ltb n (2 ^ 63)

-- `Number::as_i64`
abbrev pub as_i64 : Number → Option ℤ
as_i64 (int z) = if in_i64 z then some z else none
as_i64 (float bits) = none

-- `Value::get` with a key, `None` on anything but an object.
abbrev pub get_field : String → Value → Option Value
get_field k (object fs) = get k (props fs)
get_field k _ = none

pub as_object-eq-some :
    (v : Value) {m : Map} → as_object v ≡ some m → (fs : Fields) × (v ≡ object fs) × (props fs ≡ m)
as_object-eq-some (object fs) h = (fs, refl, cc)
as_object-eq-some null h = cc
as_object-eq-some _ h = cc

pub as_str-eq-some : (v : Value) {s : String} → as_str v ≡ some s → v ≡ string s
as_str-eq-some (string s) h = cc
as_str-eq-some null h = cc
as_str-eq-some _ h = cc
