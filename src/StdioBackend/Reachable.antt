-- ===== src/StdioBackend/Reachable.antt =====
-- crates/backends/backend-stdio/src/lib.rs: the steps of a stdio backend, and its calls in every
-- state that they reach.
use headless_mcp_server.Prelude.{
  ℕ, ◌+◌, ◌≤◌, String, ◌≡◌, refl, Bool, Option, none, some, List, [], ◌∷◌, eqb, eqb_iff, Bool-cases,
  inl, inr, arith, false,
}
use headless_mcp_server.Json.{ℤ, Value, cast_i64}
use headless_mcp_server.Core.{BackendResult, InitializeResult}
use headless_mcp_server.StdioBackend.State.{
  Channel, Pending, StdioState, StdioCodecs, find_pending, remove_pending, new_backend,
}
use headless_mcp_server.StdioBackend.Pending.{one_if, holds, remove-holds, find-holds}
use headless_mcp_server.StdioBackend.Calls.{begin}
use headless_mcp_server.StdioBackend.Reader.{
  answer_on, deliver, deliver_to, on_line, disconnected, drain, on_close,
}

-- A step: a call begins, or runs out of time; the reader reads a line, or comes to the end; or a
-- method connects, disconnects or writes to the process.
pub data Step {W : Type 0} (codecs : StdioCodecs) (backend_id : String)
    : StdioState W → StdioState W → Type 0 where
  begins : (s : StdioState W) → Step codecs backend_id s (begin s).1
  reads :
      (line : String) (s : StdioState W)
      → Step codecs backend_id s (on_line codecs backend_id line s)
  closes : (s : StdioState W) → Step codecs backend_id s (on_close backend_id s)
  expires :
      (n : ℤ) (s : StdioState W)
      → Step codecs backend_id s (record s { pending = remove_pending n s.pending })
  moves :
      (stdin child : Option ℕ) (connected : Bool) (result : Option InitializeResult) (w : W)
      (s : StdioState W)
      → Step codecs backend_id s (record s {
        stdin = stdin;
        child = child;
        connected = connected;
        initialize_result = result;
        world = w;
      })

pub data Reach {W : Type 0} (codecs : StdioCodecs) (backend_id : String) (w : W)
    : StdioState W → Type 0 where
  start : Reach codecs backend_id w (new_backend w)
  next :
      {s t : StdioState W}
      → Reach codecs backend_id w s
      → Step codecs backend_id s t
      → Reach codecs backend_id w t

-- How many answers were sent on a channel.
abbrev pub times : Channel → List (Channel × BackendResult Value) → ℕ
times c [] = 0
times c ((d, r) ∷ sent) = one_if (eqb c d) + times c sent

module _ {W : Type 0} where
  -- The calls that wait on the channel and the answers it had.
  abbrev pub uses : Channel → StdioState W → ℕ
  uses c s = holds c s.pending + times c s.sent

  -- A channel is used once at most, and not before it was made.
  pub record IsAnsweredOnce (s : StdioState W) : Type 0 where
    pub once : (c : Channel) → uses c s ≤ 1
    pub unmade : (c : Channel) → s.channels ≤ c → uses c s ≡ 0

  -- A state that uses each channel no more than another, and has made as many.
  less-IsAnsweredOnce :
      (s t : StdioState W)
      → ((c : Channel) → uses c t ≤ uses c s)
      → t.channels ≡ s.channels
      → IsAnsweredOnce s
      → IsAnsweredOnce t
  less-IsAnsweredOnce s t less same well = record {
    once = λ c. omega (arith, less c, well.once c);
    unmade = λ c h.
        let made : s.channels ≤ c = omega (arith, same, h) in
        omega (arith, less c, well.unmade c made);
  }

  deliver_to-uses :
      (sender : Option Channel) (n : ℤ) (r : BackendResult Value) (s : StdioState W) (c : Channel)
      → find_pending n s.pending ≡ sender
      → uses c (deliver_to sender n r s) ≤ uses c s
  deliver_to-uses none n r s c found = omega arith
  deliver_to-uses (some d) n r s c found = elim (Bool-cases (eqb c d)) [
    | inl same ↦
        let at : c ≡ d = (eqb_iff c d).0 same in
        rw same (omega (arith, find-holds n c s.pending (rw at found)))
    | inr other ↦ rw other (omega (arith, remove-holds c n s.pending))
  ]

  deliver-uses :
      (a : Option (ℤ × BackendResult Value)) (s : StdioState W) (c : Channel)
      → uses c (deliver a s) ≤ uses c s
  deliver-uses none s c = omega arith
  deliver-uses (some (n, r)) s c = deliver_to-uses (find_pending n s.pending) n r s c refl

  deliver_to-channels :
      (sender : Option Channel) (n : ℤ) (r : BackendResult Value) (s : StdioState W)
      → (deliver_to sender n r s).channels ≡ s.channels
  deliver_to-channels none n r s = refl
  deliver_to-channels (some d) n r s = refl

  deliver-channels :
      (a : Option (ℤ × BackendResult Value)) (s : StdioState W)
      → (deliver a s).channels ≡ s.channels
  deliver-channels none s = refl
  deliver-channels (some (n, r)) s = deliver_to-channels (find_pending n s.pending) n r s

  drain-uses :
      (backend_id : String) (p : Pending) (s : StdioState W) (c : Channel)
      → uses c (drain backend_id p s) ≡ holds c p + times c s.sent
  drain-uses backend_id [] s c = omega arith
  drain-uses backend_id ((i, d) ∷ p) s c =
      omega (
        arith,
        drain-uses backend_id p (record s { sent = (d, disconnected backend_id) ∷ s.sent }) c,
      )

  drain-channels :
      (backend_id : String) (p : Pending) (s : StdioState W)
      → (drain backend_id p s).channels ≡ s.channels
  drain-channels backend_id [] s = refl
  drain-channels backend_id ((i, d) ∷ p) s =
      drain-channels backend_id p (record s { sent = (d, disconnected backend_id) ∷ s.sent })

  begin-IsAnsweredOnce : (s : StdioState W) → IsAnsweredOnce s → IsAnsweredOnce (begin s).1
  unfolding begin
  begin-IsAnsweredOnce s well = record {
    once = λ c. elim (Bool-cases (eqb c s.channels)) [
      | inl same ↦
          let at : c ≡ s.channels = (eqb_iff c s.channels).0 same in
          let unmade : uses c s ≡ 0 = well.unmade c (omega (arith, at)) in
          rw same (omega (arith, remove-holds c (cast_i64 s.request_counter) s.pending, unmade))
      | inr other ↦
          rw other
            (omega (arith, remove-holds c (cast_i64 s.request_counter) s.pending, well.once c))
    ];
    unmade = λ c h. elim (Bool-cases (eqb c s.channels)) [
      | inl same ↦
          let at : c ≡ s.channels = (eqb_iff c s.channels).0 same in absurd (omega (arith, at, h))
      | inr other ↦
          let unmade : uses c s ≡ 0 = well.unmade c (omega (arith, h)) in
          rw other (omega (arith, remove-holds c (cast_i64 s.request_counter) s.pending, unmade))
    ];
  }

module _ {W : Type 0} (codecs : StdioCodecs) (backend_id : String) where
  Step-IsAnsweredOnce :
      {s t : StdioState W} → Step codecs backend_id s t → IsAnsweredOnce s → IsAnsweredOnce t
  unfolding on_line on_close
  Step-IsAnsweredOnce (begins s) well = begin-IsAnsweredOnce s well
  Step-IsAnsweredOnce (reads line s) well =
      less-IsAnsweredOnce s _ (deliver-uses (answer_on codecs backend_id line) s)
        (deliver-channels (answer_on codecs backend_id line) s) well
  Step-IsAnsweredOnce (closes s) well =
      less-IsAnsweredOnce s _
        (λ c. omega (arith, drain-uses backend_id s.pending (record s { connected = false }) c))
        (drain-channels backend_id s.pending (record s { connected = false })) well
  Step-IsAnsweredOnce (expires n s) well =
      less-IsAnsweredOnce s _ (λ c. omega (arith, remove-holds c n s.pending)) refl well
  Step-IsAnsweredOnce (moves stdin child connected result w s) well =
      less-IsAnsweredOnce s _ (λ c. omega arith) refl well

  -- In every state that the backend's steps reach, in whatever order they come: a channel that was
  -- made has had one answer at most, and nothing waits on it once it has; a channel that was not
  -- made yet has none and nothing waits on it.
  pub Reach-IsAnsweredOnce :
      (w : W) (s : StdioState W) → Reach codecs backend_id w s → IsAnsweredOnce s
  Reach-IsAnsweredOnce w _ start = record { once = λ c. omega arith; unmade = λ c h. refl }
  Reach-IsAnsweredOnce w _ (next r step) = Step-IsAnsweredOnce step (Reach-IsAnsweredOnce w _ r)
