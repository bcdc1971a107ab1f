-- ===== src/HttpBackend/Sessions/Laws.antt =====
-- crates/backends/backend-http/src/lib.rs: when a session is begun anew, and what that leaves.
use Prim.Native.Nat.{◌^◌}
use headless_mcp_server.Prelude.{
  ℕ, ◌+◌, ◌%◌, String, ◌≡◌, ◌≢◌, ◌⊎◌, inl, inr, refl, ap, Bool, true, Option, none, some, Result,
  ok, err, eqb, eqb_iff, Bool-cases, eq_iff, arith, sym, ◌∙◌,
}
use headless_mcp_server.Json.{Value}
use headless_mcp_server.Core.{BackendError, BackendResult, InitializeResult}
use headless_mcp_server.Exec.{lift, ◌>>=◌}
use headless_mcp_server.Exec.Keeps.{bind-Keeps}
use headless_mcp_server.HttpBackend.State.{Failure, HttpState, Setup, Attempt}
use headless_mcp_server.HttpBackend.Requests.{send_request_inner}
use headless_mcp_server.HttpBackend.Requests.Frame.{Like, IsQuiet, send_request_inner-IsQuiet}
use headless_mcp_server.HttpBackend.Sessions.{
  without_reason, initialize_params, notification_body, read_init, announced, send_notification,
  handshake, or_stale, next_epoch, concluded, redo, reinitialize, is_final, recover, settle,
  send_request, request_protocol_version,
}

-- What it means that a session is begun anew from the state `s`: a handshake is run without the
-- session id, and the epoch has moved by one. If the handshake gives a result, this result is kept,
-- the session id is the one that the handshake left, and the tools are to be listed again. If it
-- gives an error, that is the answer, result and mark are as before, and the session id is the one
-- that the handshake left, or the one of before if it left none.
pub record Redone {W : Type 0} (setup : Setup W) (s : HttpState W) (r : BackendResult (Unit {0}))
    (t : HttpState W) : Type 0 where
  pub kept :
      (init : InitializeResult)
      → (handshake setup (record s { session_id = none })).0 ≡ ok init
      → (r ≡ ok tt)
        × (t.initialize_result ≡ some init)
        × (t.tools_refresh ≡ true)
        × (t.session_id ≡ (handshake setup (record s { session_id = none })).1.session_id)
  pub failed :
      (e : BackendError)
      → (handshake setup (record s { session_id = none })).0 ≡ err e
      → let sid = (handshake setup (record s { session_id = none })).1.session_id in
        (r ≡ err e) × (sid ≢ none → t.session_id ≡ sid) × (sid ≡ none → t.session_id ≡ s.session_id)
  pub moved : t.session_epoch ≡ (s.session_epoch + 1) % 2 ^ 64
  pub connected : t.connected ≡ s.connected
  pub params : t.param_headers ≡ s.param_headers
  pub outcome :
      ((r ≡ ok tt)
        × (init : InitializeResult) × (t.initialize_result ≡ some init)
        × (t.tools_refresh ≡ true))
      ⊎ ((e : BackendError) × (r ≡ err e)
          × (t.initialize_result ≡ s.initialize_result)
          × (t.tools_refresh ≡ s.tools_refresh)
          × (s.session_id ≢ none → t.session_id ≢ none))

or_stale-eq-left : (stale sid : Option String) → sid ≡ none → or_stale stale sid ≡ stale
or_stale-eq-left stale none h = refl
or_stale-eq-left stale (some v) h = cc

or_stale-eq-right : (stale sid : Option String) → sid ≢ none → or_stale stale sid ≡ sid
or_stale-eq-right stale none h = absurd (h refl)
or_stale-eq-right stale (some v) h = refl

or_stale-ne-none : (stale sid : Option String) → stale ≢ none → or_stale stale sid ≢ none
or_stale-ne-none stale none h = h
or_stale-ne-none stale (some v) h = λ e. cc

module _ {W : Type 0} (setup : Setup W) where
  without_reason-IsQuiet :
      {A : Type 0} (s₀ : HttpState W) (n : Attempt W A)
      → IsQuiet setup s₀ n
      → IsQuiet setup s₀ (without_reason setup n)
  without_reason-IsQuiet s₀ n quiet = record { at = λ s h. quiet.at s h }

  send_notification-IsQuiet :
      (s₀ : HttpState W) (method : String) (params : Option Value)
      → IsQuiet setup s₀ (send_notification setup method params)
  unfolding send_notification
  send_notification-IsQuiet s₀ method params =
      bind-Keeps (lift (notification_body setup method params)) _ (record { at = λ s h. h })
        λ body. record {
          at = λ s h. record {
            epoch = h.epoch;
            result = h.result;
            refresh = h.refresh;
            connected = h.connected;
            params = h.params;
          };
        }

  announced-IsQuiet :
      (s₀ : HttpState W) (init : InitializeResult) → IsQuiet setup s₀ (announced setup init)
  announced-IsQuiet s₀ init = record {
    at = λ s h. (send_notification-IsQuiet s₀ "notifications/initialized" none).at s h;
  }

  handshake-IsQuiet : (s₀ : HttpState W) → IsQuiet setup s₀ (handshake setup)
  unfolding handshake
  handshake-IsQuiet s₀ =
      let params = some (initialize_params setup) in
      bind-Keeps (without_reason setup (send_request_inner setup "initialize" params true))
        (λ result. lift (read_init setup result) >>= announced setup)
        (without_reason-IsQuiet s₀ (send_request_inner setup "initialize" params true)
          (send_request_inner-IsQuiet setup s₀ "initialize" params true))
        λ result.
          bind-Keeps (lift (read_init setup result)) (announced setup) (record { at = λ s h. h })
            (announced-IsQuiet s₀)

  concluded-Redone :
      (s s' : HttpState W) (outcome : BackendResult InitializeResult)
      → (handshake setup (record s { session_id = none })).0 ≡ outcome
      → (handshake setup (record s { session_id = none })).1 ≡ s'
      → Like s s'
      → Redone setup s
          (concluded setup s.session_id outcome (next_epoch s')).0
          (concluded setup s.session_id outcome (next_epoch s')).1
  unfolding concluded
  concluded-Redone s s' (ok init) gave left like = record {
    kept = λ found h.
        let same : init ≡ found = cc in
        (
          refl,
          ap (λ (x : InitializeResult). some x) same,
          refl,
          ap (λ (x : HttpState W). x.session_id) (sym left),
        );
    failed = λ e h. cc;
    moved = ap (λ n. (n + 1) % 2 ^ 64) like.epoch;
    connected = like.connected;
    params = like.params;
    outcome = inl (refl, init, refl, refl);
  }
  concluded-Redone s s' (err e) gave left like = record {
    kept = λ found h. cc;
    failed = λ x h.
        let same : e ≡ x = cc in
        let sid = ap (λ (x : HttpState W). x.session_id) left in
        (
          ap err same,
          λ full. or_stale-eq-right s.session_id s'.session_id (λ e'. full (sid ∙ e')) ∙ sym sid,
          λ empty. or_stale-eq-left s.session_id s'.session_id (sym sid ∙ empty),
        );
    moved = ap (λ n. (n + 1) % 2 ^ 64) like.epoch;
    connected = like.connected;
    params = like.params;
    outcome = inr (e, refl, like.result, like.refresh, or_stale-ne-none s.session_id s'.session_id);
  }

  self_Like : (s : HttpState W) → Like s (record s { session_id = none })
  self_Like s = record {
    epoch = refl;
    result = refl;
    refresh = refl;
    connected = refl;
    params = refl;
  }

  redo-Redone : (s : HttpState W) → Redone setup s (redo setup s).0 (redo setup s).1
  unfolding redo
  redo-Redone s = concluded-Redone s _ _ refl refl ((handshake-IsQuiet s).at _ (self_Like s))

  -- The handshake is redone exactly if the epoch, once the lock is had, is still the one that was
  -- seen: else another task did it, and nothing is done. If it is redone, it runs without the
  -- session id, and the epoch moves by one. The result that the handshake gives is kept with the
  -- session id that it left, and the tools are marked for a refresh; or the error that it gives is
  -- given, result and mark are as before, and a session id that was there is not lost.
  pub reinitialize-Redone :
      (seen_epoch : ℕ) (s : HttpState W)
      → ((setup.others s).session_epoch ≢ seen_epoch
          → reinitialize setup seen_epoch s ≡ (ok tt, setup.others s))
        × ((setup.others s).session_epoch ≡ seen_epoch
            → Redone setup
                (setup.others s)
                (reinitialize setup seen_epoch s).0
                (reinitialize setup seen_epoch s).1)
  unfolding reinitialize
  reinitialize-Redone seen_epoch s =
      let s' = setup.others s in
      let test = eqb_iff s'.session_epoch seen_epoch in
      (
        λ differs. elim (Bool-cases (eqb s'.session_epoch seen_epoch)) [
          | inl same ↦ absurd (differs (test.0 same))
          | inr other ↦ rw other refl
        ],
        λ same. rw (test.1 same) (redo-Redone s'),
      )

  recover-IsQuiet :
      (epoch : ℕ) (method : String) (params : Option Value) (retry : Bool) (failure : Failure)
      (lost : Option String) (s₀ s : HttpState W)
      → is_final setup method params ≡ true
      → Like s₀ s
      → Like s₀ (recover setup epoch method params retry failure lost s).1
  unfolding recover
  recover-IsQuiet epoch method params retry failure none s₀ s final like = like
  recover-IsQuiet epoch method params retry failure (some reason) s₀ s final like = rw final like

  settle-IsQuiet :
      (epoch : ℕ) (method : String) (params : Option Value) (retry : Bool)
      (r : Result Value Failure) (s₀ s : HttpState W)
      → is_final setup method params ≡ true
      → Like s₀ s
      → Like s₀ (settle setup epoch method params retry r s).1
  unfolding settle
  settle-IsQuiet epoch method params retry (ok v) s₀ s final like = like
  settle-IsQuiet epoch method params retry (err failure) s₀ s final like =
      recover-IsQuiet epoch method params retry failure failure.session_lost s₀ s final like

  final_cases :
      (method : String) (params : Option Value)
      → (method ≡ "initialize")
        ⊎ ((version : String) × (request_protocol_version params ≡ some version))
      → is_final setup method params ≡ true
  final_cases method params h = elim h [
    | inl e ↦ rw ((eq_iff method "initialize").1 e) refl
    | inr (version, e) ↦ rw e (ground arith)
  ]

  -- A request that declares a protocol version, and `initialize` itself, never begins a session anew: whatever the answer, the
  -- epoch, the kept result and the mark for a refresh of the tools are as before.
  pub send_request-final :
      (method : String) (params : Option Value) (retry : Bool) (s : HttpState W)
      → (method ≡ "initialize")
        ⊎ ((version : String) × (request_protocol_version params ≡ some version))
      → Like s (send_request setup method params retry s).1
  unfolding send_request
  send_request-final method params retry s h =
      let final = final_cases method params h in
      settle-IsQuiet s.session_epoch method params retry _ s _ final (
        (send_request_inner-IsQuiet setup s method params retry).at s
          (record { epoch = refl; result = refl; refresh = refl; connected = refl; params = refl }))
