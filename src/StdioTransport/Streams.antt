-- ===== src/StdioTransport/Streams.antt =====
-- crates/transport-stdio/src/lib.rs: the stream of a subscription after its cancellation.
use headless_mcp_server.Prelude.{
  ℕ, ◌<◌, ◌≡◌, refl, sym, ap, ◌∙◌, Bool, true, false, List, [], ◌∷◌, any, keep, eqb, eqb_iff,
  Bool-cases, inl, inr, arith,
}
use headless_mcp_server.Wire.JsonRpc.{JsonRpcMessage}
use headless_mcp_server.StdioTransport.Closed.{IsClosed, on_input_keeps}
use headless_mcp_server.StdioTransport.{
  task, yielded, LineCodecs, Input, line, unreadable, streamed, LineState, is_other, on_input,
  run_lines,
}

-- Inputs that are no message of this stream.
abbrev pub not_of : ℕ → Input → Bool
not_of h (line l) = true
not_of h unreadable = true
not_of h (task (yielded t)) = true
not_of h (task (streamed t m)) = is_other h t

any-keep : (p q : ℕ → Bool) (xs : List ℕ) → any p xs ≡ false → any p (keep q xs) ≡ false
any-keep p q [] none_of = refl
any-keep p q (x ∷ xs) none_of = ground (arith, any-keep p q xs)

pub any-keep_other : (h : ℕ) (xs : List ℕ) → any (eqb h) (keep (is_other h) xs) ≡ false
any-keep_other h [] = refl
any-keep_other h (x ∷ xs) = elim (Bool-cases (eqb h x)) [
  | inl same ↦ rw same (any-keep_other h xs)
  | inr other ↦ rw other (rw other (any-keep_other h xs))
]

module _ {W : Type 0} where
  -- A task that ran and has ended.
  pub record IsSilent (h : ℕ) (s : LineState W) : Type 0 where
    pub stopped : any (eqb h) s.tasks ≡ false
    pub old : h < s.next

  IsSilent-IsClosed : (h : ℕ) → IsClosed (IsSilent h)
  IsSilent-IsClosed h = record {
    cancels = λ key t s silent. record { stopped = silent.stopped; old = silent.old };
    sends = λ m s silent. record { stopped = silent.stopped; old = silent.old };
    works = λ session s silent. record { stopped = silent.stopped; old = silent.old };
    starts = λ key s silent.
        let new : eqb h s.next ≡ false = ground (arith, silent.old) in
        record { stopped = rw new silent.stopped; old = omega (arith, silent.old) };
    ends = λ t s silent. record {
      stopped = any-keep (eqb h) (is_other t) s.tasks silent.stopped;
      old = silent.old;
    };
  }

  on_input-IsSilent :
      (codecs : LineCodecs) (h : ℕ) (input : Input) (s : LineState W)
      → IsSilent h s
      → IsSilent h (on_input codecs input s)
  on_input-IsSilent codecs h input s silent =
      on_input_keeps (IsSilent h) (IsSilent-IsClosed h) codecs input s silent

  on_input-gone :
      (codecs : LineCodecs) (t : ℕ) (m : JsonRpcMessage) (s : LineState W)
      → any (eqb t) s.tasks ≡ false
      → on_input codecs (task (streamed t m)) s ≡ s
  unfolding on_input
  on_input-gone codecs t m s gone = rw gone refl

  -- The messages of a silent stream make no difference.
  pub run_lines-IsSilent :
      (codecs : LineCodecs) (h : ℕ) (inputs : List Input) (s : LineState W)
      → IsSilent h s
      → run_lines codecs inputs s ≡ run_lines codecs (keep (not_of h) inputs) s
  unfolding run_lines
  run_lines-IsSilent codecs h [] s silent = refl
  run_lines-IsSilent codecs h (line l ∷ inputs) s silent =
      run_lines-IsSilent codecs h inputs _ (on_input-IsSilent codecs h (line l) s silent)
  run_lines-IsSilent codecs h (unreadable ∷ inputs) s silent =
      run_lines-IsSilent codecs h inputs _ (on_input-IsSilent codecs h unreadable s silent)
  run_lines-IsSilent codecs h (task (yielded t) ∷ inputs) s silent =
      run_lines-IsSilent codecs h inputs _ (on_input-IsSilent codecs h (task (yielded t)) s silent)
  run_lines-IsSilent codecs h (task (streamed t m) ∷ inputs) s silent =
      let rest =
        run_lines-IsSilent codecs h inputs _
          (on_input-IsSilent codecs h (task (streamed t m)) s silent) in
      elim (Bool-cases (eqb h t)) [
        | inl same ↦
            let gone : any (eqb t) s.tasks ≡ false =
              ap (λ x. any (eqb x) s.tasks) (sym ((eqb_iff h t).0 same)) ∙ silent.stopped in
            rw same
              (rw (on_input-gone codecs t m s gone) (run_lines-IsSilent codecs h inputs s silent))
        | inr other ↦ rw other rest
      ]
