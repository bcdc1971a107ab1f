-- ===== src/StdioBackend/Calls.antt =====
-- crates/backends/backend-stdio/src/lib.rs: one message to the process, and one call.
use Prim.Native.Nat.{◌^◌}
use headless_mcp_server.Prelude.{
  ℕ, ◌+◌, ◌%◌, String, Option, [], ◌∷◌, ◌++◌, Result, err, ok_or, map_err, concat, if◌then◌else◌,
}
use headless_mcp_server.Json.{ℤ, cast_i64, Value}
use headless_mcp_server.Core.{BackendError, backend_error, connection, timeout, protocol}
use headless_mcp_server.Exec.{lift, ◌>>=◌, ◌>>◌}
use headless_mcp_server.Wire.JsonRpc.{JsonRpcMessage, number_id, request, jsonrpc_version, to_value}
use headless_mcp_server.StdioBackend.State.{
  Channel, StdioState, StdioSetup, StdioCall, Wait, answered, elapsed, dropped, remove_pending,
}

-- The id of the next request, and its channel: the sender goes into the map.
unfoldable pub begin : {W : Type 0} → StdioState W → (ℤ × Channel) × StdioState W
begin s =
    let id = cast_i64 s.request_counter in
    (
      (id, s.channels),
      record s {
        request_counter = (s.request_counter + 1) % 2 ^ 64;
        channels = s.channels + 1;
        pending = (id, s.channels) ∷ remove_pending id s.pending;
      },
    )

module _ {W : Type 0} (setup : StdioSetup W) where
  abbrev id : String
  id = setup.definition.id

  -- Something that the operating system does, with `map_err` and `?`.
  abbrev pub os : {A : Type 0} → String → (W → Result A String × W) → StdioCall W A
  os what f s =
      let (r, w) = f s.world in
      (
        map_err (λ e. backend_error connection (concat (what ∷ ": " ∷ e ∷ []))) r,
        record s { world = w },
      )

  abbrev stdin_of : StdioCall W ℕ
  stdin_of s = (ok_or (backend_error connection "stdin not available") s.stdin, s)

  unfoldable pub send_message : JsonRpcMessage → StdioCall W (Unit {0})
  unfolding to_value
  send_message message = do
    serialized ← lift (
        map_err (λ e. backend_error protocol (concat ("serialize: " ∷ e ∷ [])))
          (setup.codecs.to_vec (to_value message)))
    stdin ← stdin_of
    os "write to stdin" (setup.processes.write_all stdin (serialized ++ 10 ∷ []))
    os "flush stdin" (setup.processes.flush stdin)

  abbrev timed_out : String → ℕ → BackendError
  timed_out method secs = backend_error timeout (
      concat (
        "request '"
        ∷ method
        ∷ "' to backend '"
        ∷ id
        ∷ "' timed out after "
        ∷ setup.codecs.show_secs secs
        ∷ "s"
        ∷ []))

  abbrev gone : String → BackendError
  gone method = backend_error connection (
      concat ("backend '" ∷ id ∷ "' disconnected while waiting for '" ∷ method ∷ "' response" ∷ []))

  -- The end of a wait: a call that took too long takes its sender out, if the map is free.
  ended : String → ℕ → ℤ → Wait → StdioCall W Value
  ended method secs n (answered r) s = (r, s)
  ended method secs n (elapsed free) s = (
    err (timed_out method secs),
    if free then record s { pending = remove_pending n s.pending } else s,
  )
  ended method secs n dropped s = (err (gone method), s)

  abbrev await : String → ℕ → ℤ → Channel → StdioCall W Value
  await method secs n c s = let (wait, s') = setup.waits c secs s in ended method secs n wait s'

  abbrev request_of : ℤ → String → Option Value → JsonRpcMessage
  request_of n method params =
      request
        (record { jsonrpc = jsonrpc_version; id = number_id n; method = method; params = params })

  unfoldable pub send_request : String → Option Value → ℕ → StdioCall W Value
  unfolding begin send_message ended
  send_request method params secs s =
      let ((n, c), s') = begin s in
      (send_message (request_of n method params) >> await method secs n c) s'
