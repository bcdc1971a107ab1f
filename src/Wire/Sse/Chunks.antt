-- ===== src/Wire/Sse/Chunks.antt =====
-- crates/mcp-wire/src/sse.rs: the decoder does not depend on how the stream is cut into chunks.
use headless_mcp_server.Prelude.{
  inl, inr, ℕ, ◌≡◌, false, List, [], ◌∷◌, ◌++◌, append_assoc, Text, eqb, Bool-cases,
}
use headless_mcp_server.Wire.Sse.{SseDecoder, PendingEvent, feed}
use headless_mcp_server.Wire.Sse.Lines.{
  lines_of, push_front, by_lines, feed_lem, lines_of-append, feed_lines-append, HasNoBreak,
}

by_lines-append :
    (a b : Text) (p : PendingEvent)
    → by_lines (a ++ b) p ≡ (
      (by_lines a p).0 ++ (by_lines ((by_lines a p).1.buffer ++ b) (by_lines a p).1.pending).0,
      (by_lines ((by_lines a p).1.buffer ++ b) (by_lines a p).1.pending).1,
    )
by_lines-append a b p =
    rw (lines_of-append a b)
      (rw (feed_lines-append p (lines_of a).0 (lines_of ((lines_of a).1 ++ b)).0))

-- Feeding two chunks one after the other gives the events, in order, and the final decoder that
-- feeding their concatenation at once gives, from any state of the decoder.
pub feed-append :
    (d : SseDecoder) (a b : Text)
    → feed d (a ++ b) ≡ ((feed d a).0 ++ (feed (feed d a).1 b).0, (feed (feed d a).1 b).1)
feed-append d a b = rw (feed_lem d (a ++ b)) (
    rw (feed_lem d a) (
      rw (feed_lem _ b)
        (rw (← append_assoc d.buffer a b) (by_lines-append (d.buffer ++ a) b d.pending))))

push_front-HasNoBreak :
    (c : ℕ) (later : List Text × Text)
    → eqb c 10 ≡ false
    → HasNoBreak later.1
    → HasNoBreak (push_front c later).1
push_front-HasNoBreak c ([], rest) h k = (h, k)
push_front-HasNoBreak c (l ∷ ls, rest) h k = k

lines_of-HasNoBreak : (s : Text) → HasNoBreak (lines_of s).1
unfolding lines_of
lines_of-HasNoBreak [] = tt
lines_of-HasNoBreak (c ∷ s) = elim (Bool-cases (eqb c 10)) [
  | inl e ↦ rw e (lines_of-HasNoBreak s)
  | inr e ↦ rw e (push_front-HasNoBreak c (lines_of s) e (lines_of-HasNoBreak s))
]

-- Whatever the decoder and the chunk, the loop of `feed` ends because no '\n' is left in the
-- buffer, and never for want of fuel.
pub feed-HasNoBreak : (d : SseDecoder) (chunk : Text) → HasNoBreak (feed d chunk).1.buffer
feed-HasNoBreak d chunk = rw (feed_lem d chunk) (lines_of-HasNoBreak (d.buffer ++ chunk))
