-- ===== src/Registry/Policy/Schemas.antt =====
-- crates/registry/src/lib.rs: which arguments a stripped schema still shows and requires.
use mathlib.Core.Option
use headless_mcp_server.Prelude.{
  String, ◌≡◌, ◌≢◌, ◌∙◌, refl, sym, ap, Bool, true, false, not, ◌&&◌, Option, none, some, List, [],
  ◌∷◌, contains, is_empty, any, ◌==◌, eq_iff, if◌then◌else◌, arith, inl, inr, Bool-cases,
}
use headless_mcp_server.Dict.{get, retain, update}
use headless_mcp_server.Dict.Laws.{get-retain_key, get-update-map}
use headless_mcp_server.Json.{
  Value, null, string, array, object, Map, props, props-fields, elems, elems-items, as_str,
  as_array, get_field,
}
use headless_mcp_server.Registry.Policy.{
  strip_properties, strip_required, strip_schema_args, map_object, map_array,
}

-- The schema of one argument, and whether an argument is required.
abbrev pub then_field : String → Option Value → Option Value
then_field k none = none
then_field k (some v) = get_field k v

abbrev pub property : String → Value → Option Value
property k schema = then_field k (get_field "properties" schema)

abbrev has_str : String → Value → Bool
has_str k v = elim (as_str v) [ none ↦ false | some s ↦ s == k ]

abbrev lists : String → Option (List Value) → Bool
lists k none = false
lists k (some vs) = any (has_str k) vs

abbrev pub and_array : Option Value → Option (List Value)
and_array none = none
and_array (some v) = as_array v

abbrev pub requires : String → Value → Bool
requires k schema = lists k (and_array (get_field "required" schema))

property-map_object :
    (hidden : List String) (k : String) (o : Option Value)
    → then_field k (Option.map (map_object (strip_properties hidden)) o)
      ≡ (if contains hidden k then none else then_field k o)
unfolding strip_properties
property-map_object hidden k none = ground arith
property-map_object hidden k (some (object fs)) =
    rw (props-fields (retain (λ j _. not (contains hidden j)) (props fs)))
      (get-retain_key (λ j. not (contains hidden j)) k (props fs) ∙ ground arith)
property-map_object hidden k (some v) = ground arith

any-keep_not :
    (k : String) (hidden : List String) (vs : List Value)
    → any (has_str k) (strip_required hidden vs) ≡ (not (contains hidden k) && any (has_str k) vs)
unfolding strip_required
any-keep_not k hidden [] = ground arith
any-keep_not k hidden (string s ∷ vs) = ground (arith, eq_iff s k, any-keep_not k hidden vs)
any-keep_not k hidden (v ∷ vs) = ground (arith, any-keep_not k hidden vs)

lists-map_array :
    (k : String) (hidden : List String) (o : Option Value)
    → lists k (and_array (Option.map (map_array (strip_required hidden)) o))
      ≡ (not (contains hidden k) && lists k (and_array o))
lists-map_array k hidden none = ground arith
lists-map_array k hidden (some (array vs)) =
    rw (elems-items (strip_required hidden (elems vs))) (any-keep_not k hidden (elems vs))
lists-map_array k hidden (some v) = ground arith

pub contains-empty :
    (hidden : List String) (k : String) → is_empty hidden ≡ true → contains hidden k ≡ false
contains-empty [] k h = refl
contains-empty (x ∷ xs) k h = cc

required-ne-properties : ◌≢◌ {A = String} "required" "properties"
required-ne-properties = ground (arith, eq_iff "required" "properties")

not_both : (k : String) → ("required" == k) ≡ true → ("properties" == k) ≡ true → ⊥
not_both k r p =
    required-ne-properties ((eq_iff "required" k).0 r ∙ sym ((eq_iff "properties" k).0 p))

two_writes :
    (r p : Bool) (f g : Value → Value) (o : Option Value)
    → (r ≡ true → p ≡ true → ⊥)
    → (if r
        then Option.map g (if p then Option.map f o else o)
        else (if p then Option.map f o else o))
      ≡ (if r then Option.map g o else if p then Option.map f o else o)
two_writes true true f g o h = absurd (h refl refl)
two_writes true false f g o h = refl
two_writes false p f g o h = refl

-- What each field of a stripped object schema is.
get-stripped :
    (schema : Value) (hidden : List String) (k : String)
    → is_empty hidden ≡ false
    → get_field k (strip_schema_args schema hidden) ≡ (
        if "required" == k
        then Option.map (map_array (strip_required hidden)) (get_field k schema)
        else if "properties" == k
        then Option.map (map_object (strip_properties hidden)) (get_field k schema)
        else get_field k schema)
unfolding strip_schema_args
get-stripped (object fs) hidden k h =
    let f = map_object (strip_properties hidden) in
    let g = map_array (strip_required hidden) in
    let inner : Map = update "properties" f (props fs) in
    rw h (
      rw (props-fields (update "required" g inner)) (
        get-update-map "required" k g inner
        ∙ (rw (get-update-map "properties" k f (props fs)) (
            two_writes ("required" == k) ("properties" == k) f g (get k (props fs)) (not_both k)))))
get-stripped null hidden k h = rw h (ground arith)
get-stripped v hidden k h = rw h (ground arith)

strip_schema_args-empty :
    (schema : Value) (hidden : List String)
    → is_empty hidden ≡ true
    → strip_schema_args schema hidden ≡ schema
unfolding strip_schema_args
strip_schema_args-empty schema hidden h = rw h

-- A hidden argument is no property of the stripped schema; every other argument has the schema
-- that it had.
pub property-strip_schema_args :
    (schema : Value) (hidden : List String) (k : String)
    → property k (strip_schema_args schema hidden)
      ≡ (if contains hidden k then none else property k schema)
property-strip_schema_args schema hidden k = elim (Bool-cases (is_empty hidden)) [
  | inl e ↦ rw (strip_schema_args-empty schema hidden e) (rw (contains-empty hidden k e))
  | inr e ↦
      ap (then_field k) (get-stripped schema hidden "properties" e)
      ∙ property-map_object hidden k (get_field "properties" schema)
]

-- A stripped schema requires exactly the arguments that it required and that are not hidden.
pub requires-strip_schema_args :
    (schema : Value) (hidden : List String) (k : String)
    → requires k (strip_schema_args schema hidden) ≡ (not (contains hidden k) && requires k schema)
requires-strip_schema_args schema hidden k = elim (Bool-cases (is_empty hidden)) [
  | inl e ↦ rw (strip_schema_args-empty schema hidden e) (rw (contains-empty hidden k e))
  | inr e ↦
      ap (λ (o : Option Value). lists k (and_array o)) (get-stripped schema hidden "required" e)
      ∙ lists-map_array k hidden (get_field "required" schema)
]
