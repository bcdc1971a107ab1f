-- ===== src/StdioBackend/Interface.antt =====
-- crates/backends/backend-stdio/src/lib.rs: `McpBackend` for `StdioBackend`.
pub mod Unconnected
use headless_mcp_server.Prelude.{
  ℕ, String, Bool, true, false, Option, none, some, List, [], ◌∷◌, Result, ok, err, ok_or, map_err,
  concat, if◌then◌else◌,
}
use headless_mcp_server.Json.{Value, string, from_map, get_field, as_array}
use headless_mcp_server.Core.{
  BackendError, BackendResult, backend_error, connection, protocol, internal, BackendTransport,
  stdio, http, InitializeResult, ToolDescriptor, McpBackend, default_take_tools_refresh,
}
use headless_mcp_server.Exec.{Exec, lift, raise, modify, ◌>>=◌, ◌>>◌}
use headless_mcp_server.Wire.JsonRpc.{JsonRpcMessage, notification, new_notification}
use headless_mcp_server.OAuth2.Cache.{and_then, unwrap_or}
use headless_mcp_server.StdioBackend.State.{StdioState, StdioSetup, StdioCall, Spawned}
use headless_mcp_server.StdioBackend.Calls.{send_message, send_request}

module _ {W : Type 0} (setup : StdioSetup W) where
  abbrev id : String
  id = setup.definition.id

  -- A connection error about this backend.
  abbrev about : String → String → BackendError
  about before after = backend_error connection (concat (before ∷ "'" ∷ id ∷ "'" ∷ after ∷ []))

  abbrev run_command : BackendTransport → StdioCall W Spawned
  run_command (stdio command args env cwd) s =
      let (r, w) = setup.processes.spawn command args env cwd s.world in
      (
        map_err (λ e. about "failed to spawn backend " (concat (": " ∷ e ∷ []))) r,
        record s { world = w },
      )
  run_command (http url token oauth2) s =
      (err (backend_error connection "StdioBackend requires a stdio transport"), s)

  -- A process that is let go is killed (`kill_on_drop`).
  abbrev kill_child : Option ℕ → W → W
  kill_child none w = w
  kill_child (some process) w = setup.processes.kill process w

  abbrev need : Bool → String → ℕ → StdioCall W (Unit {0})
  need has what process s = if has then (ok tt, s) else (
    err (about (concat ("failed to capture " ∷ what ∷ " of backend " ∷ [])) ""),
    record s { world = kill_child (some process) s.world },
  )

  abbrev keep_child : ℕ → StdioState W → StdioState W
  keep_child process s = record s {
    stdin = some process;
    child = some process;
    world = kill_child s.child s.world;
  }

  -- The process is started and kept with its pipes, in place of the one before.
  unfoldable pub start : StdioCall W (Unit {0})
  start = do
    child ← run_command setup.definition.transport
    need child.has_stdin "stdin" child.process
    need child.has_stdout "stdout" child.process
    modify (keep_child child.process)

  abbrev initialize_params : Value
  initialize_params = from_map (
      ("protocolVersion", string "2024-11-05")
      ∷ (
        "clientInfo",
        from_map (("name", string "headless-mcp") ∷ ("version", string setup.codecs.version) ∷ []),
      )
      ∷ ("capabilities", from_map [])
      ∷ [])

  abbrev read_init : Value → BackendResult InitializeResult
  read_init result =
      map_err
        (λ e.
          backend_error protocol
            (concat ("failed to parse initialize result from backend '" ∷ id ∷ "': " ∷ e ∷ [])))
        (setup.codecs.initialize_result result)

  unfoldable pub connect_anew : StdioCall W InitializeResult
  unfolding start send_message send_request
  connect_anew = do
    start
    result ←
        send_request setup "initialize" (some initialize_params)
          setup.definition.connect_timeout_secs
    init ← lift (read_init result)
    send_message setup (notification (new_notification "notifications/initialized" none))
    modify (λ s. record s { initialize_result = some init; connected = true })
    lift (ok init)

  unfoldable pub connect_stdio : StdioCall W InitializeResult
  unfolding connect_anew
  connect_stdio s =
      let anew = connect_anew s in
      if s.connected
      then (
        ok_or (backend_error internal "connected but no initialize result cached")
            s.initialize_result,
        s,
      )
      else anew

  -- The guard of every call: a backend that is not connected is asked nothing.
  abbrev if_connected : {A : Type 0} → StdioCall W A → StdioCall W A
  if_connected n s =
      let called = n s in
      if s.connected then called else (err (about "backend " " is not connected"), s)

  abbrev descriptor : Value → BackendResult ToolDescriptor
  descriptor v =
      map_err
        (λ e.
          backend_error protocol
            (concat ("backend '" ∷ id ∷ "' returned an invalid tool descriptor: " ∷ e ∷ [])))
        (setup.codecs.tool_descriptor v)

  -- `collect` of results: the first error, or all values.
  abbrev and_more :
      BackendResult ToolDescriptor
      → BackendResult (List ToolDescriptor)
      → BackendResult (List ToolDescriptor)
  and_more (ok a) (ok more) = ok (a ∷ more)
  and_more (ok a) (err e) = err e
  and_more (err e) more = err e

  descriptors : List Value → BackendResult (List ToolDescriptor)
  descriptors [] = ok []
  descriptors (v ∷ vs) = and_more (descriptor v) (descriptors vs)

  abbrev tools_of : Value → BackendResult (List Value)
  tools_of result =
      ok_or
        (backend_error protocol (
          concat
            ("backend '" ∷ id ∷ "' returned a 'tools/list' response without a 'tools' array" ∷ [])))
        (and_then (get_field "tools" result) as_array)

  unfoldable pub list_stdio_tools : StdioCall W (List ToolDescriptor)
  unfolding send_request descriptors
  list_stdio_tools = if_connected (do
    result ← send_request setup "tools/list" none setup.definition.call_timeout_secs
    listed ← lift (tools_of result)
    lift (descriptors listed))

  unfoldable pub call_stdio_tool : String → Option Value → ℕ → StdioCall W Value
  unfolding send_request
  call_stdio_tool name arguments secs =
      let params =
        from_map (("name", string name) ∷ ("arguments", unwrap_or (from_map []) arguments) ∷ []) in
      if_connected (send_request setup "tools/call" (some params) secs)

  unfoldable pub request_stdio : String → Option Value → ℕ → StdioCall W Value
  unfolding send_request
  request_stdio method params secs = if_connected (send_request setup method params secs)

  unfoldable pub disconnect_stdio : StdioCall W (Unit {0})
  disconnect_stdio s = (
    ok tt,
    record s { connected = false; stdin = none; child = none; world = kill_child s.child s.world },
  )

  unfoldable pub check_stdio : StdioCall W (Unit {0})
  unfolding send_request
  check_stdio = if_connected (do _ ← send_request setup "tools/list" none 5; lift (ok tt))

  -- The backend as the registry knows it.
  abbrev pub stdio_backend : McpBackend (StdioState W)
  stdio_backend = record {
    backend_id = setup.definition.id;
    connect = connect_stdio;
    list_tools = list_stdio_tools;
    call_tool = call_stdio_tool;
    disconnect = disconnect_stdio;
    health_check = check_stdio;
    request = request_stdio;
    take_tools_refresh = default_take_tools_refresh;
  }
