-- ===== src/HttpBackend/Response.antt =====
-- crates/backends/backend-http/src/lib.rs: what is read out of a response.
use mathlib.Core.Option
use headless_mcp_server.Prelude.{
  ℕ, ◌+◌, String, Bool, true, false, not, ◌&&◌, ◌||◌, Option, none, some, List, [], ◌∷◌, Result, ok,
  err, ok_or, map_err, ◌>>=◌, ltb, eqb, Text, codes, concat, if◌then◌else◌,
}
use headless_mcp_server.Json.{ℤ, pos, negsuc, Value}
use headless_mcp_server.Core.{BackendResult, backend_error, protocol}
use headless_mcp_server.Wire.JsonRpc.{
  JsonRpcError, JsonRpcMessage, request, notification, success_response, error_response,
}
use headless_mcp_server.Wire.JsonRpc.Decode.{Serde, decode_message}
use headless_mcp_server.Wire.Sse.{SseEvent, feed}
use headless_mcp_server.Wire.Sse
use headless_mcp_server.OAuth2.Cache.{and_then}

-- UTF-8 with replacement characters, its inverse, and the texts of an error and of a number.
pub record BodyCodecs : Type 0 where
  pub serde : Serde
  pub from_utf8_lossy : List ℕ → Text
  pub as_bytes : Text → List ℕ
  pub show_error : JsonRpcError → String
  pub show_code : ℤ → String

pub text_starts_with : Text → Text → Bool
text_starts_with [] s = true
text_starts_with (c ∷ p) [] = false
text_starts_with (c ∷ p) (d ∷ s) = eqb c d && text_starts_with p s

-- `to_ascii_lowercase`
abbrev lower : ℕ → ℕ
lower c = if not (ltb c b'A') && not (ltb b'Z' c) then c + 32 else c

abbrev to_ascii_lowercase : Text → Text
to_ascii_lowercase [] = []
to_ascii_lowercase (c ∷ s) = lower c ∷ to_ascii_lowercase s

pub text_contains : Text → Text → Bool
unfolding text_starts_with
text_contains needle [] = text_starts_with needle []
text_contains needle (c ∷ s) = text_starts_with needle (c ∷ s) || text_contains needle s

abbrev first_data : List SseEvent → Option Text
first_data [] = none
first_data (e ∷ events) = some e.data_text

-- -32600, or a server error: -32099 to -32000.
abbrev pub is_lost_code : ℤ → Bool
is_lost_code (pos n) = false
is_lost_code (negsuc n) = eqb n 32599 || (not (ltb n 31999) && ltb n 32099)

pub is_lost_error : JsonRpcError → Bool
unfolding text_contains
is_lost_error e =
    is_lost_code e.code
    && text_contains (codes "not initialized") (to_ascii_lowercase (codes e.message))

module _ (codecs : BodyCodecs) where
  unfoldable pub json_payload : List ℕ → Option (List ℕ)
  unfolding text_starts_with feed
  json_payload bytes =
      let body = codecs.from_utf8_lossy bytes in
      let unwrapped = Option.map codecs.as_bytes (first_data (feed Sse.new body).0) in
      if not (text_starts_with (codes "event:") body || text_starts_with (codes "data:") body)
      then some bytes
      else unwrapped

  abbrev lost_reason : Result JsonRpcMessage JsonRpcError → Option String
  lost_reason (ok (error_response r)) =
      if is_lost_error r.error then some "session is not initialized" else none
  lost_reason (ok (request r)) = none
  lost_reason (ok (notification n)) = none
  lost_reason (ok (success_response r)) = none
  lost_reason (err e) = none

  unfoldable pub session_not_initialized : List ℕ → Option String
  unfolding json_payload is_lost_error decode_message
  session_not_initialized bytes =
      and_then (json_payload bytes) (λ json. lost_reason (decode_message codecs.serde json))

  abbrev protocol_error : {A : Type 0} → List String → BackendResult A
  protocol_error pieces = err (backend_error protocol (concat pieces))

  result_of : String → JsonRpcMessage → BackendResult Value
  result_of id (success_response r) = ok r.result
  result_of id (error_response r) = protocol_error (
      "backend '"
      ∷ id
      ∷ "' returned error (code "
      ∷ codecs.show_code r.error.code
      ∷ "): "
      ∷ r.error.message
      ∷ [])
  result_of id (request r) = protocol_error ("unexpected response type" ∷ [])
  result_of id (notification n) = protocol_error ("unexpected response type" ∷ [])

  unfoldable pub parse_response : List ℕ → String → BackendResult Value
  unfolding json_payload decode_message result_of
  parse_response bytes id = do
    json ←
        ok_or (backend_error protocol (concat ("empty SSE response from '" ∷ id ∷ "'" ∷ [])))
          (json_payload bytes)
    message ←
        map_err
          (λ e.
            backend_error protocol
              (concat ("failed to decode response from '" ∷ id ∷ "': " ∷ codecs.show_error e ∷ [])))
          (decode_message codecs.serde json)
    result_of id message
