-- ===== src/Wire/Sse.antt =====
-- crates/mcp-wire/src/sse.rs: encoding and streaming decoding of Server-Sent Events.
-- Text is a list of code points, 10 is '\n' and 13 is '\r'.
pub mod Lines
pub mod Chunks
pub mod RoundTrip
pub mod Tests
use mathlib.Core.Option
use headless_mcp_server.Prelude.{
  ℕ, zero, suc, ◌+◌, Bool, true, false, ◌||◌, Option, none, some, List, [], ◌∷◌, ◌++◌, Text, codes,
  text_eq, eqb, length, if◌then◌else◌,
}

pub record SseEvent : Type 0 where
  pub event : Option Text
  pub data_text : Text
  pub id : Option Text

pub first_line : Text → Text
first_line [] = []
first_line (c ∷ s) = let rest = first_line s in if eqb c 10 || eqb c 13 then [] else c ∷ rest

-- `s.split('\n')`, which always has a first segment.
abbrev pub cons_head : ℕ → List Text → List Text
cons_head c [] = (c ∷ []) ∷ []
cons_head c (l ∷ ls) = (c ∷ l) ∷ ls

pub split_lines : Text → List Text
split_lines [] = [] ∷ []
split_lines (c ∷ s) = let rest = split_lines s in if eqb c 10 then [] ∷ rest else cons_head c rest

pub encode_field : Text → Option Text → Text
unfolding first_line
encode_field name none = []
encode_field name (some value) = name ++ (first_line value ++ 10 ∷ [])

pub encode_data : List Text → Text
encode_data [] = []
encode_data (line ∷ lines) = codes "data: " ++ (line ++ 10 ∷ encode_data lines)

pub encode_sse_event : SseEvent → Text
unfolding encode_field encode_data split_lines
encode_sse_event e =
    encode_field (codes "event: ") e.event
    ++ (encode_field (codes "id: ") e.id ++ (encode_data (split_lines e.data_text) ++ 10 ∷ []))

pub record PendingEvent : Type 0 where
  pub event : Option Text
  pub id : Option Text
  pub data_lines : List Text

abbrev pub no_event : PendingEvent
no_event = record { event = none; id = none; data_lines = [] }

abbrev before : ℕ → Text × Text → Text × Text
before c (l, r) = (c ∷ l, r)

-- `s.split_once(c)`
pub split_once : ℕ → Text → Option (Text × Text)
split_once c [] = none
split_once c (x ∷ s) =
    let rest = split_once c s in if eqb x c then some ([], s) else Option.map (before x) rest

abbrev starts_with_colon : Text → Bool
starts_with_colon [] = false
starts_with_colon (c ∷ s) = eqb c b':'

-- `raw.strip_prefix(' ').unwrap_or(raw)`
abbrev pub strip_space : Text → Text
strip_space [] = []
strip_space (c ∷ s) = if eqb c b' ' then s else c ∷ s

pub set_field : PendingEvent → Text → Text → PendingEvent
unfolding text_eq
set_field p field value =
    if text_eq field (codes "data")
    then record p { data_lines = p.data_lines ++ value ∷ [] }
    else if text_eq field (codes "event")
    then record p { event = some value }
    else if text_eq field (codes "id")
    then record p { id = some value }
    else p

abbrev or_whole : Text → Option (Text × Text) → Text × Text
or_whole line none = (line, [])
or_whole line (some parts) = parts

pub apply_line : PendingEvent → Text → PendingEvent
unfolding set_field split_once
apply_line p line =
    let (field, raw) = or_whole line (split_once b':' line) in
    if starts_with_colon line then p else set_field p field (strip_space raw)

-- `lines.join("\n")`
pub join_lines : List Text → Text
join_lines [] = []
join_lines (l ∷ []) = l
join_lines (l ∷ k ∷ ls) = l ++ 10 ∷ join_lines (k ∷ ls)

-- Every branch leaves the pending event reset.
pub dispatch : PendingEvent → Option SseEvent × PendingEvent
unfolding join_lines
dispatch p = elim p.data_lines [
  | [] ↦ (none, no_event)
  | l ∷ ls ↦
      (some (record { event = p.event; data_text = join_lines (l ∷ ls); id = p.id }), no_event)
]

pub record SseDecoder : Type 0 where
  pub buffer : Text
  pub pending : PendingEvent

abbrev pub new : SseDecoder
new = record { buffer = []; pending = no_event }

-- `if line.ends_with('\r') { line.pop(); }`
pub strip_cr : Text → Text
strip_cr [] = []
strip_cr (c ∷ []) = if eqb c 13 then [] else c ∷ []
strip_cr (c ∷ d ∷ s) = c ∷ strip_cr (d ∷ s)

abbrev pub push_event : Option SseEvent → List SseEvent → List SseEvent
push_event none events = events
push_event (some e) events = e ∷ events

-- The body of the loop of `feed`, for a line that is cut off the buffer already.
pub feed_line : PendingEvent → Text → Option SseEvent × PendingEvent
unfolding apply_line dispatch strip_cr
feed_line p line = elim (strip_cr line) [ [] ↦ dispatch p | c ∷ s ↦ (none, apply_line p (c ∷ s)) ]

-- The `while let` of `feed`; each round shortens the buffer, so its length is fuel enough.
pub feed_loop : ℕ → SseDecoder → List SseEvent × SseDecoder
unfolding feed_line split_once
feed_loop zero d = ([], d)
feed_loop (suc fuel) d = elim (split_once 10 d.buffer) [
  | none ↦ ([], d)
  | some (line, rest) ↦
      let (found, p) = feed_line d.pending line in
      let (events, d') = feed_loop fuel (record { buffer = rest; pending = p }) in
      (push_event found events, d')
]

unfoldable pub feed : SseDecoder → Text → List SseEvent × SseDecoder
unfolding feed_loop
feed d chunk =
    let buffer = d.buffer ++ chunk in feed_loop (suc (length buffer)) (record d { buffer = buffer })
