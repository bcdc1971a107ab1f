-- ===== src/OAuth2/Query.antt =====
-- crates/backends/backend-http/src/oauth2.rs: what is read out of header values, request lines and
-- query strings.
use Prim.Native.Nat.{compare, Ordering}
use Prim.Native.Char.{Char, char, code}
use mathlib.Core.Option
use headless_mcp_server.Prelude.{
  ℕ, ◌+◌, ◌-◌, ◌*◌, String, ◌≡◌, refl, Bool, ◌&&◌, ◌||◌, Option, none, some, List, [], ◌∷◌, ltb,
  eqb, find_map, strip_prefix, ◌==◌, if◌then◌else◌,
}

abbrev leb : ℕ → ℕ → Bool
leb a b = ltb a (b + 1)

abbrev between : ℕ → ℕ → ℕ → Bool
between lo hi n = leb lo n && leb n hi

-- `c.to_digit(16)`
pub hex_digit : ℕ → Option ℕ
hex_digit n =
    if between b'0' b'9' n
    then some (n - b'0')
    else if between b'a' b'f' n
    then some (n - b'a' + 10)
    else if between b'A' b'F' n
    then some (n - b'A' + 10)
    else none

-- `char::from_u32(n).unwrap_or('?')` at a number of two hexadecimal digits, which is a scalar value.
abbrev char_below : (n : ℕ) (o : Ordering) → compare n 55296 ≡ o → Char
char_below n Ordering.lt h = char n (rw h tt)
char_below n Ordering.eq h = "?"
char_below n Ordering.gt h = "?"

abbrev pub byte_char : ℕ → Char
byte_char n = char_below n (compare n 55296) refl

-- What one escape pushes: nothing where a digit is missing or is none.
abbrev pub unescaped : Option ℕ → Option ℕ → String → String
unescaped (some h) (some l) rest = String.◌∷◌ (byte_char (h * 16 + l)) rest
unescaped _ _ rest = rest

-- A character outside of an escape.
abbrev pub plain_char : Char → Char
plain_char c = if eqb (code c) b'+' then " " else c

pub percent_decode : String → String
unfolding hex_digit
percent_decode String.[] = ""
percent_decode (String.◌∷◌ c String.[]) =
    if eqb (code c) b'%' then "" else String.◌∷◌ (plain_char c) ""
percent_decode (String.◌∷◌ c (String.◌∷◌ d String.[])) =
    let rest = percent_decode (String.◌∷◌ d String.[]) in
    if eqb (code c) b'%' then "" else String.◌∷◌ (plain_char c) rest
percent_decode (String.◌∷◌ c (String.◌∷◌ d (String.◌∷◌ e s))) =
    let after = unescaped (hex_digit (code d)) (hex_digit (code e)) (percent_decode s) in
    let rest = percent_decode (String.◌∷◌ d (String.◌∷◌ e s)) in
    if eqb (code c) b'%' then after else String.◌∷◌ (plain_char c) rest

abbrev cons_first : Char → List String → List String
cons_first c [] = String.◌∷◌ c "" ∷ []
cons_first c (s ∷ ss) = String.◌∷◌ c s ∷ ss

-- `s.split(sep)`, which always has a first piece.
pub split : ℕ → String → List String
split sep String.[] = "" ∷ []
split sep (String.◌∷◌ c s) =
    let rest = split sep s in if eqb (code c) sep then "" ∷ rest else cons_first c rest

abbrev before : Char → String × String → String × String
before c (l, r) = (String.◌∷◌ c l, r)

-- `s.split_once(sep)`
pub split_once : ℕ → String → Option (String × String)
split_once sep String.[] = none
split_once sep (String.◌∷◌ c s) =
    let rest = split_once sep s in
    if eqb (code c) sep then some ("", s) else Option.map (before c) rest

-- `char::is_whitespace`
is_whitespace : ℕ → Bool
is_whitespace n =
    between 9 13 n
    || (eqb n 32
        || (eqb n 0x85
            || (eqb n 0xA0
                || (eqb n 0x1680
                    || (between 0x2000 0x200A n
                        || (eqb n 0x2028
                            || (eqb n 0x2029
                                || (eqb n 0x202F || (eqb n 0x205F || eqb n 0x3000)))))))))

pub trim_start : String → String
unfolding is_whitespace
trim_start String.[] = ""
trim_start (String.◌∷◌ c s) =
    let rest = trim_start s in if is_whitespace (code c) then rest else String.◌∷◌ c s

abbrev cons_unless_blank : Char → String → String
cons_unless_blank c String.[] = if is_whitespace (code c) then "" else String.◌∷◌ c ""
cons_unless_blank c (String.◌∷◌ d s) = String.◌∷◌ c (String.◌∷◌ d s)

pub trim_end : String → String
unfolding is_whitespace
trim_end String.[] = ""
trim_end (String.◌∷◌ c s) = cons_unless_blank c (trim_end s)

unfoldable pub trim : String → String
unfolding trim_start trim_end
trim s = trim_end (trim_start s)

abbrev nth_1 : List String → Option String
nth_1 (a ∷ b ∷ rest) = some b
nth_1 _ = none

-- `s.strip_suffix('"')`
pub strip_quote : String → Option String
strip_quote String.[] = none
strip_quote (String.◌∷◌ c String.[]) = if eqb (code c) 34 then some "" else none
strip_quote (String.◌∷◌ c (String.◌∷◌ d s)) =
    Option.map (λ t. String.◌∷◌ c t) (strip_quote (String.◌∷◌ d s))

abbrev and_then : {A B : Type 0} → Option A → (A → Option B) → Option B
and_then none f = none
and_then (some a) f = f a

metadata_of_part : String → Option String
unfolding strip_prefix strip_quote trim
metadata_of_part part = and_then (strip_prefix "resource_metadata=\"" (trim part)) strip_quote

-- The value of a WWW-Authenticate header.
unfoldable pub parse_resource_metadata_url : String → Option String
unfolding strip_prefix split metadata_of_part
parse_resource_metadata_url header_value =
    and_then (strip_prefix "Bearer " header_value)
      (λ rest. find_map metadata_of_part (split b',' rest))

abbrev code_of_param : Option (String × String) → Option String
code_of_param none = none
code_of_param (some (k, v)) = if k == "code" then some (percent_decode v) else none

-- The parameter `code` of what stands after the first `?`, up to another.
unfoldable pub code_of_url : String → Option String
unfolding split split_once percent_decode
code_of_url url =
    and_then (nth_1 (split b'?' url))
      (λ query. find_map (λ param. code_of_param (split_once b'=' param)) (split b'&' query))

-- The pieces between white space.
abbrev add_piece : String → List String → List String
add_piece String.[] pieces = pieces
add_piece (String.◌∷◌ c s) pieces = String.◌∷◌ c s ∷ pieces

abbrev grow : Char → String × List String → String × List String
grow c (piece, pieces) =
    if is_whitespace (code c) then ("", add_piece piece pieces) else (String.◌∷◌ c piece, pieces)

pieces_from : String → String × List String
unfolding is_whitespace
pieces_from String.[] = ("", [])
pieces_from (String.◌∷◌ c s) = grow c (pieces_from s)

pub split_whitespace : String → List String
unfolding pieces_from
split_whitespace s = let (piece, pieces) = pieces_from s in add_piece piece pieces

-- The code in the request line of the callback.
unfoldable pub code_of_request_line : String → Option String
unfolding split_whitespace code_of_url
code_of_request_line line = and_then (nth_1 (split_whitespace line)) code_of_url

decode_test : percent_decode "a%2Fb+c%zz%" ≡ "a/b c"
unfolding percent_decode
decode_test = refl

url_test : code_of_url "http://localhost:1/callback?state=x&code=a%2Fb" ≡ some "a/b"
unfolding code_of_url
url_test = refl

line_test : code_of_request_line "GET /callback?code=xyz HTTP/1.1" ≡ some "xyz"
unfolding code_of_request_line
line_test = refl

header_test :
    parse_resource_metadata_url "Bearer error=\"x\", resource_metadata=\"https://a/b\""
    ≡ some "https://a/b"
unfolding parse_resource_metadata_url
header_test = refl
