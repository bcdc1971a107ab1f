-- ===== src/Registry/Policy.antt =====
-- crates/registry/src/lib.rs: argument policy, schema stripping and exposed names.
pub mod Laws
pub mod Schemas
use headless_mcp_server.Prelude.{
  String, Bool, true, false, not, ◌&&◌, Option, none, some, List, [], ◌∷◌, ◌++◌, Result, ok, err,
  concat, contains, keep, find, is_empty, any, ◌==◌, if◌then◌else◌,
}
use headless_mcp_server.Dict.{get, contains_key, retain, update, keys, insert_all}
use headless_mcp_server.Json.{
  Value, null, bool, number, string, array, object, Map, props, elems, from_map, from_list, as_str,
}
use headless_mcp_server.Core.{BackendDef, BackendResult, backend_error, protocol}

unfoldable pub hidden_args : BackendDef → List String
unfolding keys
hidden_args def = keys def.pin_args ++ def.deny_args

-- A write through `as_object_mut` or `as_array_mut`; other values stay.
abbrev pub map_object : (Map → Map) → Value → Value
map_object f (object fs) = from_map (f (props fs))
map_object f v = v

abbrev pub map_array : (List Value → List Value) → Value → Value
map_array f (array vs) = from_list (f (elems vs))
map_array f v = v

abbrev names_hidden : List String → Option String → Bool
names_hidden hidden none = false
names_hidden hidden (some k) = contains hidden k

unfoldable pub strip_properties : List String → Map → Map
unfolding retain
strip_properties hidden = retain (λ k _. not (contains hidden k))

unfoldable pub strip_required : List String → List Value → List Value
strip_required hidden = keep (λ v. not (names_hidden hidden (as_str v)))

unfoldable pub strip_schema_args : Value → List String → Value
unfolding update strip_properties strip_required
strip_schema_args schema hidden =
    if is_empty hidden
    then schema
    else map_object
        (λ m.
          update "required" (map_array (strip_required hidden))
            (update "properties" (map_object (strip_properties hidden)) m))
        schema

abbrev not_an_object : BackendResult Map
not_an_object = err (backend_error protocol "tool arguments must be an object")

abbrev pub arguments_object : Option Value → BackendResult Map
arguments_object none = ok []
arguments_object (some null) = ok []
arguments_object (some (object fs)) = ok (props fs)
arguments_object (some (bool b)) = not_an_object
arguments_object (some (number n)) = not_an_object
arguments_object (some (string s)) = not_an_object
arguments_object (some (array vs)) = not_an_object

abbrev enforce : BackendDef → BackendResult Map → BackendResult (Option Value)
enforce def (err e) = err e
enforce def (ok obj) = elim (find (λ k. contains_key k obj) def.deny_args) [
  | some denied ↦ err (
      backend_error protocol
        (concat ("argument '" ∷ denied ∷ "' is not allowed for backend '" ∷ def.id ∷ "'" ∷ [])))
  | none ↦ ok (some (from_map (insert_all def.pin_args obj)))
]

unfoldable pub apply_arg_policy : BackendDef → Option Value → BackendResult (Option Value)
unfolding contains_key insert_all
apply_arg_policy def args =
    if is_empty def.pin_args && is_empty def.deny_args
    then ok args
    else enforce def (arguments_object args)

unfoldable pub compute_exposed_name : Option String → String → String
compute_exposed_name none tool_name = tool_name
compute_exposed_name (some ns) tool_name = concat (ns ∷ "." ∷ tool_name ∷ [])
