-- ===== src/StdioBackend/Reader/Answers.antt =====
-- crates/backends/backend-stdio/src/lib.rs: the answer that a call gets of the reader.
use headless_mcp_server.Prelude.{
  ◌≤◌, String, ◌≡◌, refl, sym, ◌∙◌, false, Option, none, some, List, [], ◌∷◌, eqb, eqb_iff,
  Bool-cases, inl, inr, if◌then◌else◌, arith,
}
use headless_mcp_server.Json.{ℤ, eq_int, eq_int_iff, Value}
use headless_mcp_server.Core.{BackendResult}
use headless_mcp_server.OAuth2.Cache.{unwrap_or}
use headless_mcp_server.StdioBackend.State.{
  Channel, Pending, StdioState, StdioCodecs, find_pending, answer_of,
}
use headless_mcp_server.StdioBackend.Pending.{
  holds, remove-holds, find-holds, find-remove_other, holds-eq-zero,
}
use headless_mcp_server.StdioBackend.Reader.{
  answer_on, deliver, deliver_to, on_line, disconnected, drain, on_close, read_responses,
}

-- The first of the answers that is one to the request.
abbrev or_later :
    ℤ
    → Option (ℤ × BackendResult Value)
    → Option (BackendResult Value)
    → Option (BackendResult Value)
or_later n none later = later
or_later n (some (i, r)) later = if eq_int n i then some r else later

pub first_answer : StdioCodecs → String → ℤ → List String → Option (BackendResult Value)
unfolding answer_on
first_answer codecs backend_id n [] = none
first_answer codecs backend_id n (line ∷ lines) =
    or_later n (answer_on codecs backend_id line) (first_answer codecs backend_id n lines)

other_channel :
    (c d : Channel) (i : ℤ) (p : Pending)
    → holds c p ≡ 0
    → find_pending i p ≡ some d
    → eqb c d ≡ false
other_channel c d i p none_left found = elim (Bool-cases (eqb c d)) [
  | inl same ↦
      let at : c ≡ d = (eqb_iff c d).0 same in
      absurd (omega (arith, find-holds i c p (found ∙ rw at refl), none_left))
  | inr other ↦ other
]

module _ {W : Type 0} where
  -- A call that waits on the channel, and no other one.
  abbrev pub IsWaiting : ℤ → Channel → StdioState W → Type 0
  IsWaiting n c s = (find_pending n s.pending ≡ some c) × (holds c s.pending ≤ 1)

  -- The call had its answer, and nothing waits on its channel.
  abbrev IsDone : Channel → BackendResult Value → StdioState W → Type 0
  IsDone c r s = (answer_of c s.sent ≡ some r) × (holds c s.pending ≡ 0)

  deliver_to-IsDone :
      (c : Channel) (r : BackendResult Value) (sender : Option Channel) (i : ℤ)
      (v : BackendResult Value) (s : StdioState W)
      → find_pending i s.pending ≡ sender
      → IsDone c r s
      → IsDone c r (deliver_to sender i v s)
  deliver_to-IsDone c r none i v s found done = done
  deliver_to-IsDone c r (some d) i v s found (answer, none_left) = (
    rw (other_channel c d i s.pending none_left found) answer,
    omega (arith, remove-holds c i s.pending, none_left),
  )

  deliver-IsDone :
      (c : Channel) (r : BackendResult Value) (a : Option (ℤ × BackendResult Value))
      (s : StdioState W)
      → IsDone c r s
      → IsDone c r (deliver a s)
  deliver-IsDone c r none s done = done
  deliver-IsDone c r (some (i, v)) s done =
      deliver_to-IsDone c r (find_pending i s.pending) i v s refl done

  drain-IsDone :
      (backend_id : String) (c : Channel) (r : BackendResult Value) (p : Pending) (s : StdioState W)
      → holds c p ≡ 0
      → answer_of c s.sent ≡ some r
      → answer_of c (drain backend_id p s).sent ≡ some r
  drain-IsDone backend_id c r [] s none_left answer = answer
  drain-IsDone backend_id c r ((i, d) ∷ p) s none_left answer =
      let (other, rest) = holds-eq-zero c d i p none_left in
      drain-IsDone backend_id c r p (record s { sent = (d, disconnected backend_id) ∷ s.sent }) rest
        (rw other answer)

  drain-disconnected :
      (backend_id : String) (c : Channel) (p : Pending) (s : StdioState W)
      → answer_of c s.sent ≡ some (disconnected backend_id)
      → answer_of c (drain backend_id p s).sent ≡ some (disconnected backend_id)
  drain-disconnected backend_id c [] s answer = answer
  drain-disconnected backend_id c ((i, d) ∷ p) s answer =
      drain-disconnected backend_id c p (record s { sent = (d, disconnected backend_id) ∷ s.sent })
        (elim (Bool-cases (eqb c d)) [ inl same ↦ rw same refl | inr other ↦ rw other answer ])

  drain-answer :
      (backend_id : String) (n : ℤ) (c : Channel) (p : Pending) (s : StdioState W)
      → find_pending n p ≡ some c
      → answer_of c (drain backend_id p s).sent ≡ some (disconnected backend_id)
  drain-answer backend_id n c [] s found = cc
  drain-answer backend_id n c ((i, d) ∷ p) s found = elim (Bool-cases (eq_int n i)) [
    | inl same ↦
        let at : d ≡ c = cc in
        drain-disconnected backend_id c p
          (record s { sent = (d, disconnected backend_id) ∷ s.sent })
          (rw (at, (eqb_iff c c).1 refl) refl)
    | inr other ↦
        let later : find_pending n p ≡ some c = cc in
        drain-answer backend_id n c p (record s { sent = (d, disconnected backend_id) ∷ s.sent })
          later
  ]

  read_responses-IsDone :
      (codecs : StdioCodecs) (backend_id : String) (c : Channel) (r : BackendResult Value)
      (lines : List String) (s : StdioState W)
      → IsDone c r s
      → answer_of c (read_responses codecs backend_id lines s).sent ≡ some r
  unfolding read_responses on_close on_line
  read_responses-IsDone codecs backend_id c r [] s (answer, none_left) =
      drain-IsDone backend_id c r s.pending (record s { connected = false }) none_left answer
  read_responses-IsDone codecs backend_id c r (line ∷ lines) s done =
      read_responses-IsDone codecs backend_id c r lines (on_line codecs backend_id line s)
        (deliver-IsDone c r (answer_on codecs backend_id line) s done)

  -- An answer to another request leaves the call waiting.
  deliver_to-IsWaiting :
      (n : ℤ) (c : Channel) (sender : Option Channel) (i : ℤ) (v : BackendResult Value)
      (s : StdioState W)
      → eq_int n i ≡ false
      → IsWaiting n c s
      → IsWaiting n c (deliver_to sender i v s)
  deliver_to-IsWaiting n c none i v s other waiting = waiting
  deliver_to-IsWaiting n c (some d) i v s other (found, once) = (
    find-remove_other n i s.pending other ∙ found,
    omega (arith, remove-holds c i s.pending, once),
  )

  deliver-answers :
      (n : ℤ) (c : Channel) (v : BackendResult Value) (s : StdioState W)
      → IsWaiting n c s
      → IsDone c v (deliver (some (n, v)) s)
  deliver-answers n c v s (found, once) =
      rw found (rw ((eqb_iff c c).1 refl) refl, omega (arith, find-holds n c s.pending found, once))

  after_line :
      (codecs : StdioCodecs) (backend_id : String) (n : ℤ) (c : Channel)
      (a : Option (ℤ × BackendResult Value)) (later : Option (BackendResult Value))
      (lines : List String) (s : StdioState W)
      → IsWaiting n c s
      → (IsWaiting n c (deliver a s)
          → answer_of c (read_responses codecs backend_id lines (deliver a s)).sent
            ≡ some (unwrap_or (disconnected backend_id) later))
      → answer_of c (read_responses codecs backend_id lines (deliver a s)).sent
        ≡ some (unwrap_or (disconnected backend_id) (or_later n a later))
  after_line codecs backend_id n c none later lines s waiting rest = rest waiting
  after_line codecs backend_id n c (some (i, v)) later lines s waiting rest =
      elim (Bool-cases (eq_int n i)) [
        | inl same ↦
            let at : n ≡ i = (eq_int_iff n i).0 same in
            let done : IsDone c v (deliver (some (i, v)) s) =
              rw (sym at) (deliver-answers n c v s waiting) in
            rw same
              (read_responses-IsDone codecs backend_id c v lines (deliver (some (i, v)) s) done)
        | inr other ↦
            rw other
              (rest (deliver_to-IsWaiting n c (find_pending i s.pending) i v s other waiting))
      ]

  -- A call that waits, alone on its channel, gets the first answer with its id on the lines that the
  -- process writes until its output ends, whatever other lines come; and the error that the backend
  -- is disconnected, if there is none. Blank lines and lines that do not decode count as no answer.
  pub read_responses-answer :
      (codecs : StdioCodecs) (backend_id : String) (n : ℤ) (c : Channel) (lines : List String)
      (s : StdioState W)
      → IsWaiting n c s
      → answer_of c (read_responses codecs backend_id lines s).sent
        ≡ some (unwrap_or (disconnected backend_id) (first_answer codecs backend_id n lines))
  unfolding read_responses on_close on_line first_answer
  read_responses-answer codecs backend_id n c [] s (found, once) =
      drain-answer backend_id n c s.pending (record s { connected = false }) found
  read_responses-answer codecs backend_id n c (line ∷ lines) s waiting =
      after_line codecs backend_id n c (answer_on codecs backend_id line)
        (first_answer codecs backend_id n lines) lines s waiting
        (read_responses-answer codecs backend_id n c lines (on_line codecs backend_id line s))
