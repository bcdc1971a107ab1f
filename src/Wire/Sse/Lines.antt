-- ===== src/Wire/Sse/Lines.antt =====
-- crates/mcp-wire/src/sse.rs: the loop of `feed` against a description by complete lines.
use headless_mcp_server.Prelude.{
  ℕ, zero, suc, ◌<◌, ◌≡◌, refl, inl, inr, false, Option, none, some, List, [], ◌∷◌, ◌++◌, arith,
  Text, eqb, Bool-cases, Option-cases, length, if◌then◌else◌,
}
use headless_mcp_server.Wire.Sse.{
  SseEvent, SseDecoder, PendingEvent, split_once, push_event, feed_line, feed_loop, feed,
}

-- The complete lines of a text and what follows the last of them.
abbrev pub push_front : ℕ → List Text × Text → List Text × Text
push_front c ([], rest) = ([], c ∷ rest)
push_front c (l ∷ ls, rest) = ((c ∷ l) ∷ ls, rest)

unfoldable pub lines_of : Text → List Text × Text
lines_of [] = ([], [])
lines_of (c ∷ s) =
    let later = lines_of s in if eqb c 10 then ([] ∷ later.0, later.1) else push_front c later

-- The events of a row of complete lines, and the pending event after it.
unfoldable pub feed_lines : PendingEvent → List Text → List SseEvent × PendingEvent
feed_lines p [] = ([], p)
feed_lines p (l ∷ ls) =
    let (found, p') = feed_line p l in
    let (events, p'') = feed_lines p' ls in (push_event found events, p'')

lines_of-none : (s : Text) → split_once 10 s ≡ none → lines_of s ≡ ([], s)
unfolding split_once lines_of
lines_of-none [] h = refl
lines_of-none (c ∷ s) h = ground (arith, lines_of-none s)

lines_of-some :
    (s : Text) {l r : Text}
    → split_once 10 s ≡ some (l, r)
    → lines_of s ≡ (l ∷ (lines_of r).0, (lines_of r).1)
unfolding split_once lines_of
lines_of-some [] h = cc
lines_of-some (c ∷ s) {l} {r} h = elim (Bool-cases (eqb c 10)) [
  | inl e ↦ ground arith
  | inr e ↦ elim (Option-cases (split_once 10 s)) [
    | inl n ↦ ground arith
    | inr ((l', r'), q) ↦ rw e (rw (lines_of-some s q) ground arith)
  ]
]

split_once-length : (s : Text) {l r : Text} → split_once 10 s ≡ some (l, r) → length r < length s
unfolding split_once
split_once-length [] h = cc
split_once-length (c ∷ s) {l} {r} h = elim (Option-cases (split_once 10 s)) [
  | inl n ↦ ground arith
  | inr ((l', r'), q) ↦ ground (arith, split_once-length s q)
]

-- What `feed` computes, described by lines: the events of the complete lines of the buffer, the
-- rest of the buffer, and the pending event after those lines.
abbrev pub by_lines : Text → PendingEvent → List SseEvent × SseDecoder
by_lines buffer p =
    let (lines, rest) = lines_of buffer in
    let (events, p') = feed_lines p lines in (events, record { buffer = rest; pending = p' })

feed_loop_lem :
    (fuel : ℕ) (buffer : Text) (p : PendingEvent)
    → length buffer < fuel
    → feed_loop fuel (record { buffer = buffer; pending = p }) ≡ by_lines buffer p
unfolding feed_loop feed_lines
feed_loop_lem zero buffer p h = absurd (omega arith)
feed_loop_lem (suc fuel) buffer p h = elim (Option-cases (split_once 10 buffer)) [
  | inl n ↦ rw (n, feed_loop) (rw (lines_of-none buffer n))
  | inr ((l, r), q) ↦
      rw (q, feed_loop)
        (rw (lines_of-some buffer q)
          (rw (feed_loop_lem fuel r (feed_line p l).1 (omega (arith, split_once-length buffer q)))))
]

pub feed_lem :
    (d : SseDecoder) (chunk : Text) → feed d chunk ≡ by_lines (d.buffer ++ chunk) d.pending
unfolding feed
feed_lem d chunk =
    feed_loop_lem (suc (length (d.buffer ++ chunk))) (d.buffer ++ chunk) d.pending (omega arith)

push_front-append :
    (c : ℕ) (later : List Text × Text) (b : Text)
    → eqb c 10 ≡ false
    → push_front c (later.0 ++ (lines_of (later.1 ++ b)).0, (lines_of (later.1 ++ b)).1) ≡ (
      (push_front c later).0 ++ (lines_of ((push_front c later).1 ++ b)).0,
      (lines_of ((push_front c later).1 ++ b)).1,
    )
unfolding lines_of
push_front-append c ([], rest) b h = rw h
push_front-append c (l ∷ ls, rest) b h = refl

push_event-append :
    (o : Option SseEvent) (xs ys : List SseEvent) → push_event o (xs ++ ys) ≡ push_event o xs ++ ys
push_event-append none xs ys = refl
push_event-append (some e) xs ys = refl

-- The lines of a text continued by another: those of the first, then those of what it leaves
-- open with the second behind it.
pub lines_of-append :
    (a b : Text)
    → lines_of (a ++ b)
      ≡ ((lines_of a).0 ++ (lines_of ((lines_of a).1 ++ b)).0, (lines_of ((lines_of a).1 ++ b)).1)
unfolding lines_of
lines_of-append [] b = refl
lines_of-append (c ∷ a) b = elim (Bool-cases (eqb c 10)) [
  | inl e ↦ rw e (rw (lines_of-append a b))
  | inr e ↦ rw e (rw (lines_of-append a b) (push_front-append c (lines_of a) b e))
]

pub feed_lines-append :
    (p : PendingEvent) (ks ls : List Text)
    → feed_lines p (ks ++ ls) ≡ (
      (feed_lines p ks).0 ++ (feed_lines (feed_lines p ks).1 ls).0,
      (feed_lines (feed_lines p ks).1 ls).1,
    )
unfolding feed_lines
feed_lines-append p [] ls = refl
feed_lines-append p (k ∷ ks) ls =
    let (found, p') = feed_line p k in rw (feed_lines-append p' ks ls) (rw push_event-append)

-- A line with its end in front of a text is a line of its own.
abbrev pub HasNoBreak : Text → Type 0
HasNoBreak [] = Unit
HasNoBreak (c ∷ s) = (eqb c 10 ≡ false) × HasNoBreak s

pub lines_of-line :
    (l r : Text) → HasNoBreak l → lines_of (l ++ 10 ∷ r) ≡ (l ∷ (lines_of r).0, (lines_of r).1)
unfolding lines_of
lines_of-line [] r h = refl
lines_of-line (c ∷ l) r (h, hs) = rw h (rw (lines_of-line l r hs))
