-- ===== src/HttpBackend/Headers.antt =====
-- crates/backends/backend-http/src/lib.rs: the headers that mirror a request's body.
use Prim.Native.Char.{Char, code}
use Prim.Native.Nat.{◌^◌}
use headless_mcp_server.Prelude.{
  String, ◌==◌, Bool, true, false, not, ◌&&◌, ◌||◌, Option, none, some, List, [], ◌∷◌, ◌++◌, ltb,
  strip_prefix, concat, if◌then◌else◌,
}
use headless_mcp_server.Dict.{Dict, get, insert}
use headless_mcp_server.Json.{
  ℤ, pos, negsuc, int, Value, null, bool, number, string, array, object, Fields, end, field,
  get_field,
}
use headless_mcp_server.Server.Protocol.{request_protocol_version, then_str}
use headless_mcp_server.OAuth2.Cache.{and_then}

-- A path of keys into the arguments, and the suffix of its header.
abbrev pub ParamHeader : Type 0
ParamHeader = List String × String

abbrev pub ParamHeaders : Type 0
ParamHeaders = List ParamHeader

abbrev is_primitive : Option String → Bool
is_primitive none = false
is_primitive (some t) = t == "string" || (t == "integer" || t == "boolean")

-- The property's own annotation, if it has one and is primitive.
abbrev annotation : Bool → Option String → List String → ParamHeaders
annotation true (some name) path = (path, name) ∷ []
annotation _ _ path = []

abbrev pub own_header : Value → List String → ParamHeaders
own_header prop path =
    annotation (is_primitive (then_str (get_field "type" prop)))
      (then_str (get_field "x-mcp-header" prop)) path

-- `walk`: through the first `properties` of an object, and nowhere else.
unfoldable mutual
  unfolding get

  pub walk : Value → List String → ParamHeaders
  walk (object fs) path = walk_object fs path
  walk null path = []
  walk (bool b) path = []
  walk (number n) path = []
  walk (string s) path = []
  walk (array vs) path = []

  pub walk_object : Fields → List String → ParamHeaders
  walk_object end path = []
  walk_object (field k v fs) path =
      let here = walk_properties v path in
      let rest = walk_object fs path in if k == "properties" then here else rest

  pub walk_properties : Value → List String → ParamHeaders
  walk_properties (object fs) path = walk_each fs path
  walk_properties null path = []
  walk_properties (bool b) path = []
  walk_properties (number n) path = []
  walk_properties (string s) path = []
  walk_properties (array vs) path = []

  pub walk_each : Fields → List String → ParamHeaders
  walk_each end path = []
  walk_each (field key prop fs) path =
      let path' = path ++ key ∷ [] in
      own_header prop path' ++ (walk prop path' ++ walk_each fs path)

unfoldable pub param_header_paths : Value → ParamHeaders
unfolding walk
param_header_paths schema = walk schema []

abbrev is_printable : Char → Bool
is_printable c = not (ltb (code c) 32) && ltb (code c) 127

pub all_printable : String → Bool
all_printable String.[] = true
all_printable (String.◌∷◌ c s) = is_printable c && all_printable s

abbrev is_some : {A : Type 0} → Option A → Bool
is_some none = false
is_some (some a) = true

pub starts_with : String → String → Bool
unfolding strip_prefix
starts_with p s = is_some (strip_prefix p s)

pub ends_with : String → String → Bool
ends_with suffix String.[] = suffix == ""
ends_with suffix (String.◌∷◌ c s) = suffix == String.◌∷◌ c s || ends_with suffix s

abbrev pub base64_start : String
base64_start = "=?base64?"

abbrev pub base64_end : String
base64_end = "?="

pub is_plain : String → Bool
unfolding all_printable starts_with ends_with
is_plain value =
    all_printable value
    && (not (starts_with " " value)
        && (not (ends_with " " value)
            && not (starts_with base64_start value && ends_with base64_end value)))

-- What the headers take from libraries: base64, the decimal digits of an integer, which texts are
-- header values, and which are names of headers, in lower case.
pub record HeaderCodecs : Type 0 where
  pub base64 : String → String
  pub show_int : ℤ → String
  pub is_header_value : String → Bool
  pub header_name : String → Option String

abbrev in_i64_or_u64 : ℤ → Bool
in_i64_or_u64 (pos n) = ltb n (2 ^ 64)
in_i64_or_u64 (negsuc n) = ltb n (2 ^ 63)

module _ (codecs : HeaderCodecs) where
  unfoldable pub encode_header_value : String → String
  unfolding is_plain
  encode_header_value value =
      if is_plain value
      then value
      else concat (base64_start ∷ codecs.base64 value ∷ base64_end ∷ [])

  pub header_text : Value → Option String
  header_text (string s) = some s
  header_text (bool true) = some "true"
  header_text (bool false) = some "false"
  header_text (number (int z)) = if in_i64_or_u64 z then some (codecs.show_int z) else none
  header_text _ = none

  -- The closure `put`: a text that is no header value is left out.
  abbrev pub put : String → String → Dict String → Dict String
  put name value headers =
      if codecs.is_header_value value then insert name value headers else headers

  abbrev put_some : Option String → Option String → Dict String → Dict String
  put_some (some name) (some value) headers = put name value headers
  put_some _ _ headers = headers

  abbrev at_path : List String → Value → Option Value
  at_path [] v = some v
  at_path (key ∷ path) v = and_then (get_field key v) (at_path path)

  abbrev encoded : Option String → Option String
  encoded none = none
  encoded (some text) = some (encode_header_value text)

  -- The loop over the annotated arguments of a tool.
  param_headers_of : ParamHeaders → Option Value → Dict String → Dict String
  unfolding encode_header_value header_text insert
  param_headers_of [] arguments headers = headers
  param_headers_of ((path, suffix) ∷ more) arguments headers = param_headers_of more arguments (
      put_some (codecs.header_name (concat ("Mcp-Param-" ∷ suffix ∷ [])))
        (encoded (and_then (and_then arguments (at_path path)) header_text)) headers)

  abbrev name_field : String → Option String
  name_field method =
      if method == "tools/call" || method == "prompts/get"
      then some "name"
      else if method == "resources/read"
      then some "uri"
      else none

  abbrev source_of : String → Value → Option String
  source_of method params = and_then (name_field method) (λ f. then_str (get_field f params))

  abbrev put_source : Option String → Dict String → Dict String
  put_source none headers = headers
  put_source (some source) headers = put "mcp-name" (encode_header_value source) headers

  abbrev annotated : Dict ParamHeaders → Option String → ParamHeaders
  annotated tool_headers none = []
  annotated tool_headers (some tool) = elim (get tool tool_headers) [ none ↦ [] | some h ↦ h ]

  versioned_headers : Dict ParamHeaders → String → Value → String → Dict String
  unfolding param_headers_of insert
  versioned_headers tool_headers method params version =
      let source = source_of method params in
      let headers =
        put_source source (put "mcp-method" method (put "mcp-protocol-version" version [])) in
      let with_params =
        param_headers_of (annotated tool_headers source) (get_field "arguments" params) headers in
      if method == "tools/call" then with_params else headers

  abbrev headers_for : Dict ParamHeaders → String → Option Value → Option String → Dict String
  headers_for tool_headers method (some params) (some version) =
      versioned_headers tool_headers method params version
  headers_for tool_headers method _ _ = []

  -- The headers of a request, from its body; `tool_headers` holds the annotations of the tools.
  unfoldable pub modern_headers : Dict ParamHeaders → String → Option Value → Dict String
  unfolding versioned_headers request_protocol_version
  modern_headers tool_headers method params =
      headers_for tool_headers method params (request_protocol_version params)
