-- ===== src/StdioBackend/Tests.antt =====
-- crates/backends/backend-stdio/src/lib.rs: a small process, and the theorems at it.
use headless_mcp_server.Prelude.{
  ℕ, ◌+◌, String, ◌==◌, ◌≡◌, refl, true, false, Option, none, some, List, [], ◌∷◌, Result, ok, err,
  if◌then◌else◌,
}
use headless_mcp_server.Dict.{get, contains_key}
use headless_mcp_server.Json.{Value, string, number, int, pos, from_map}
use headless_mcp_server.Core.{BackendDef, BackendResult, InitializeResult, stdio, eager, log_always}
use headless_mcp_server.StdioBackend.State.{
  StdioState, StdioSetup, StdioCodecs, Processes, Wait, answered, dropped, new_backend, answer_of,
}
use headless_mcp_server.StdioBackend.Calls.{begin}
use headless_mcp_server.StdioBackend.Reader.{on_line}
use headless_mcp_server.StdioBackend.Interface.{connect_stdio}
use headless_mcp_server.StdioBackend.Reachable.{
  begins, reads, Reach, start, next, IsAnsweredOnce, Reach-IsAnsweredOnce,
}

abbrev response : ℕ → Value
response n =
    from_map
      (("jsonrpc", string "2.0") ∷ ("id", number (int (pos n))) ∷ ("result", string "done") ∷ [])

-- The line "one" answers the request 1, every other one the request 0.
abbrev read_line : List ℕ → Result Value String
read_line [] = ok (response 0)
read_line (b ∷ bytes) = ok (response 1)

abbrev line_bytes : String → List ℕ
line_bytes line = if line == "one" then 1 ∷ [] else []

abbrev init : InitializeResult
init = record {
  protocol_version = "2024-11-05";
  server_info = record { name = "shop"; version = "1" };
  capabilities = record { tools = none; resources = none; prompts = none; events = none };
}

abbrev codecs : StdioCodecs
codecs = record {
  serde = record { from_slice = read_line; error_from_value = λ v. err "none" };
  as_bytes = line_bytes;
  to_vec = λ v. ok (2 ∷ []);
  initialize_result = λ v. ok init;
  tool_descriptor = λ v. err "none";
  show_secs = λ n. "1";
  version = "1";
}

-- The world counts what is written to the process.
abbrev processes : Processes ℕ
processes = record {
  spawn = λ command args env cwd w.
      (ok (record { process = 9; has_stdin = true; has_stdout = true }), w);
  write_all = λ process bytes w. (ok tt, w + 1);
  flush = λ process w. (ok tt, w);
  kill = λ process w. w;
}

abbrev definition : BackendDef
definition = record {
  id = "shop";
  label = none;
  transport = stdio "shop-server" [] [] none;
  namespace = none;
  connection_mode = eager;
  connect_timeout_secs = 1;
  call_timeout_secs = 1;
  stderr_mode = log_always;
  tools_allow = [];
  tools_deny = [];
  unavailable_hint = none;
  forward_request_meta = false;
  pin_args = [];
  deny_args = [];
}

-- While a call waits, the reader reads one line that answers the request 0.
abbrev or_dropped : Option (BackendResult Value) → Wait
or_dropped none = dropped
or_dropped (some r) = answered r

abbrev setup : StdioSetup ℕ
setup = record {
  definition = definition;
  processes = processes;
  codecs = codecs;
  waits =
      λ c secs s. let s' = on_line codecs "shop" "zero" s in (or_dropped (answer_of c s'.sent), s');
}

connects_test : (connect_stdio setup (new_backend 0)).0 ≡ ok init
unfolding connect_stdio on_line get contains_key
connects_test = refl

written_test : (connect_stdio setup (new_backend 0)).1.world ≡ 2
unfolding connect_stdio on_line get contains_key
written_test = refl

abbrev waiting : StdioState ℕ
waiting = (begin (new_backend 0)).1

-- One call waits, and a line for a request that nobody made was read.
waiting-Reach : Reach codecs "shop" 0 (on_line codecs "shop" "one" waiting)
waiting-Reach = next (next start (begins (new_backend 0))) (reads "one" waiting)

Reach-IsAnsweredOnce_example : IsAnsweredOnce (on_line codecs "shop" "one" waiting)
Reach-IsAnsweredOnce_example =
    Reach-IsAnsweredOnce codecs "shop" 0 (on_line codecs "shop" "one" waiting) waiting-Reach
