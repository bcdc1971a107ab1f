-- ===== src/StdioTransport/Cancelled.antt =====
-- crates/transport-stdio/src/lib.rs: the cancellation of a subscription.
use headless_mcp_server.Prelude.{
  true, eqb_iff, ℕ, ◌<◌, String, ◌==◌, ◌≡◌, refl, sym, ◌∙◌, false, none, some, List, ◌∷◌, ok, any,
  keep, eqb, Bool-cases, inl, inr, arith,
}
use headless_mcp_server.Dict.{get, insert, remove}
use headless_mcp_server.Dict.Laws.{get-insert, get-remove}
use headless_mcp_server.Json.{Value}
use headless_mcp_server.Wire.JsonRpc.{JsonRpcNotification, notification}
use headless_mcp_server.Wire.JsonRpc.Decode.{decode_message}
use headless_mcp_server.Server.Protocol.{then_get}
use headless_mcp_server.Server.State.{McpSession}
use headless_mcp_server.Server.Subscriptions.{handle_streaming}
use headless_mcp_server.OAuth2.Query.{trim}
use headless_mcp_server.StdioTransport.Closed.{IsClosed, run_lines_keeps}
use headless_mcp_server.StdioTransport.{
  task, yielded, LineCodecs, Input, line, LineState, new_state, cancel, reply, on_decoded, on_line,
  on_input, run_lines,
}
use headless_mcp_server.StdioTransport.Streams.{
  not_of, any-keep_other, IsSilent, run_lines-IsSilent,
}

-- Every handle is that of a task that was started.
record IsStarted {W : Type 0} (s : LineState W) : Type 0 where
  below : (key : String) (h : ℕ) → get key s.streams ≡ some h → h < s.next

-- A task that was started and told to end.
record IsAborted {W : Type 0} (h : ℕ) (s : LineState W) : Type 0 where
  told : any (eqb h) s.aborted ≡ true
  old : h < s.next

module _ {W : Type 0} where
  IsStarted-IsClosed : IsClosed {W = W} IsStarted
  IsStarted-IsClosed = record {
    cancels = λ key t s started. record {
      below = λ j h found. elim (Bool-cases (key == j)) [
        | inl same ↦
            let removed : get j (remove key s.streams) ≡ none =
              rw (get-remove key j s.streams) (rw same refl) in
            absurd (let e = sym removed ∙ found in cc)
        | inr other ↦
            started.below j h (sym (rw (get-remove key j s.streams) (rw other refl)) ∙ found)
      ];
    };
    sends = λ m s started. record { below = started.below };
    works = λ session s started. record { below = started.below };
    starts = λ key s started. record {
      below = λ j h found. elim (Bool-cases (key == j)) [
        | inl same ↦
            let new : get j (insert key s.next s.streams) ≡ some s.next =
              rw (get-insert key j s.next s.streams) (rw same refl) in
            let at : s.next ≡ h = (let e = sym new ∙ found in cc) in omega (arith, at)
        | inr other ↦
            let old : get j (insert key s.next s.streams) ≡ get j s.streams =
              rw (get-insert key j s.next s.streams) (rw other refl) in
            omega (arith, started.below j h (sym old ∙ found))
      ];
    };
    ends = λ t s started. record { below = started.below };
  }

  IsAborted-IsClosed : (h : ℕ) → IsClosed {W = W} (IsAborted h)
  IsAborted-IsClosed h = record {
    cancels =
        λ key t s aborted. record { told = rw aborted.told (ground arith); old = aborted.old };
    sends = λ m s aborted. record { told = aborted.told; old = aborted.old };
    works = λ session s aborted. record { told = aborted.told; old = aborted.old };
    starts = λ key s aborted. record { told = aborted.told; old = omega (arith, aborted.old) };
    ends = λ t s aborted. record { told = aborted.told; old = aborted.old };
  }

  new-IsStarted : (session : McpSession W) → IsStarted (new_state session)
  unfolding get
  new-IsStarted session = record { below = λ key h found. cc }

  cancelled-IsAborted :
      (codecs : LineCodecs) (l : String) (n : JsonRpcNotification) (id : Value) (h : ℕ)
      (s : LineState W)
      → IsStarted s
      → (trim l == "") ≡ false
      → decode_message codecs.serde (codecs.as_bytes l) ≡ ok (notification n)
      → n.method ≡ "notifications/cancelled"
      → then_get "requestId" n.params ≡ some id
      → get (codecs.show_value id) s.streams ≡ some h
      → IsAborted h (on_input codecs (line l) s)
  unfolding on_input on_line on_decoded reply cancel handle_streaming
  cancelled-IsAborted codecs l n id h s started full decoded method has_id known = rw full (
      rw decoded (
        rw method (
          rw has_id (
            rw known (record {
              told = rw ((eqb_iff h h).1 refl) refl;
              old = started.below (codecs.show_value id) h known;
            })))))

  yielded-IsSilent :
      (codecs : LineCodecs) (h : ℕ) (s : LineState W)
      → IsAborted h s
      → IsSilent h (on_input codecs (task (yielded h)) s)
  unfolding on_input
  yielded-IsSilent codecs h s aborted =
      rw aborted.told (record { stopped = any-keep_other h s.tasks; old = aborted.old })

  -- If a line cancels the request whose stream a task forwards, at whatever point of the loop, then
  -- from the next time on that this task yields to the runtime, which ends it there, what it takes
  -- out of its channel makes no difference: the run is the same as without these messages, whatever
  -- happens until the task yields and after, and whatever other streams there are.
  pub cancel-silences :
      (codecs : LineCodecs) (session : McpSession W) (before until after : List Input) (l : String)
      (n : JsonRpcNotification) (id : Value) (h : ℕ)
      → (trim l == "") ≡ false
      → decode_message codecs.serde (codecs.as_bytes l) ≡ ok (notification n)
      → n.method ≡ "notifications/cancelled"
      → then_get "requestId" n.params ≡ some id
      → get (codecs.show_value id) (run_lines codecs before (new_state session)).streams ≡ some h
      → let s = run_lines codecs (line l ∷ until) (run_lines codecs before (new_state session)) in
        run_lines codecs (task (yielded h) ∷ after) s
        ≡ run_lines codecs (task (yielded h) ∷ keep (not_of h) after) s
  unfolding run_lines
  cancel-silences codecs session before until after l n id h full decoded method has_id known =
      let s = run_lines codecs before (new_state session) in
      let started =
        run_lines_keeps IsStarted IsStarted-IsClosed codecs before (new_state session)
          (new-IsStarted session) in
      let told = cancelled-IsAborted codecs l n id h s started full decoded method has_id known in
      let s' = run_lines codecs until (on_input codecs (line l) s) in
      run_lines-IsSilent codecs h after (on_input codecs (task (yielded h)) s') (
        yielded-IsSilent codecs h s' (
          run_lines_keeps (IsAborted h) (IsAborted-IsClosed h) codecs until
            (on_input codecs (line l) s) told))
