-- ===== src/StdioBackend/State.antt =====
-- crates/backends/backend-stdio/src/lib.rs: the state of a stdio backend and its surroundings.
use headless_mcp_server.Prelude.{
  ℕ, String, Bool, false, Option, none, some, List, [], ◌∷◌, Result, eqb, if◌then◌else◌,
}
use headless_mcp_server.Json.{ℤ, eq_int, Value}
use headless_mcp_server.Core.{
  BackendDef, BackendError, BackendResult, InitializeResult, ToolDescriptor,
}
use headless_mcp_server.Exec.{Exec}
use headless_mcp_server.Wire.JsonRpc.Decode.{Serde}

-- A oneshot channel, by its number.
abbrev pub Channel : Type 0
Channel = ℕ

-- The map of the senders of the calls that wait, by the id of the request.
abbrev pub Pending : Type 0
Pending = List (ℤ × Channel)

abbrev pub find_pending : ℤ → Pending → Option Channel
find_pending id [] = none
find_pending id ((i, c) ∷ p) = let rest = find_pending id p in if eq_int id i then some c else rest

abbrev pub remove_pending : ℤ → Pending → Pending
remove_pending id [] = []
remove_pending id ((i, c) ∷ p) =
    let rest = remove_pending id p in if eq_int id i then rest else (i, c) ∷ rest

-- `SharedState` with the counter of requests, in a world `W` of processes. A process, its pipes
-- included, is known by its number. `channels` counts the channels that were made, and `sent` is
-- what was sent on them, the last first.
pub record StdioState (W : Type 0) : Type 0 where
  pub stdin : Option ℕ
  pub child : Option ℕ
  pub pending : Pending
  pub connected : Bool
  pub initialize_result : Option InitializeResult
  pub request_counter : ℕ
  pub channels : ℕ
  pub sent : List (Channel × BackendResult Value)
  pub world : W

abbrev pub new_backend : {W : Type 0} → W → StdioState W
new_backend w = record {
  stdin = none;
  child = none;
  pending = [];
  connected = false;
  initialize_result = none;
  request_counter = 0;
  channels = 0;
  sent = [];
  world = w;
}

-- A spawned process, and which of its pipes there are.
pub record Spawned : Type 0 where
  pub process : ℕ
  pub has_stdin : Bool
  pub has_stdout : Bool

-- What the operating system does.
pub record Processes (W : Type 0) : Type 0 where
  pub spawn :
      String → List String → List (String × String) → Option String → W → Result Spawned String × W
  pub write_all : ℕ → List ℕ → W → Result (Unit {0}) String × W
  pub flush : ℕ → W → Result (Unit {0}) String × W
  pub kill : ℕ → W → W

-- serde's readers and printers, and the texts of a number.
pub record StdioCodecs : Type 0 where
  pub serde : Serde
  pub as_bytes : String → List ℕ
  pub to_vec : Value → Result (List ℕ) String
  pub initialize_result : Value → Result InitializeResult String
  pub tool_descriptor : Value → Result ToolDescriptor String
  pub show_secs : ℕ → String
  pub version : String

-- How the wait for an answer ends: with it, with the time over (and whether the map of the senders
-- was free then), or with the sender gone.
pub data Wait : Type 0 where
  answered : BackendResult Value → Wait
  elapsed : Bool → Wait
  dropped : Wait

-- What never changes of a backend. `waits` is what other tasks do, the reader of the answers
-- included, while a call waits on its channel, and how that ends.
pub record StdioSetup (W : Type 0) : Type 0 where
  pub definition : BackendDef
  pub processes : Processes W
  pub codecs : StdioCodecs
  pub waits : Channel → ℕ → StdioState W → Wait × StdioState W

abbrev pub StdioCall : Type 0 → Type 0 → Type 0
StdioCall W A = Exec (StdioState W) BackendError A

abbrev pub answer_of : Channel → List (Channel × BackendResult Value) → Option (BackendResult Value)
answer_of c [] = none
answer_of c ((d, r) ∷ sent) = let rest = answer_of c sent in if eqb c d then some r else rest
