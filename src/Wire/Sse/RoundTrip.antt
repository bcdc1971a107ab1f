-- ===== src/Wire/Sse/RoundTrip.antt =====
-- crates/mcp-wire/src/sse.rs: decoding what was encoded gives the events back.
use headless_mcp_server.Prelude.{
  ◌≡⟨◌⟩◌, ◌∎, ℕ, ◌≡◌, ◌≢◌, refl, ap, ◌∙◌, false, Option, none, some, List, [], ◌∷◌, ◌++◌, inl, inr,
  append_assoc, append-nil, arith, Text, codes, eqb, eqb_iff, Bool-cases, All,
}
use headless_mcp_server.Wire.Sse.{
  SseEvent, SseDecoder, PendingEvent, no_event, new, first_line, cons_head, split_lines,
  encode_field, encode_data, encode_sse_event, strip_cr, join_lines, push_event, dispatch,
  feed_line, feed,
}
use headless_mcp_server.Wire.Sse.Lines.{
  lines_of, feed_lines, by_lines, feed_lem, HasNoBreak, lines_of-line,
}

-- Neither '\n' nor '\r': the encoder keeps the whole of such a name.
abbrev pub IsOneLine : Text → Type 0
IsOneLine [] = Unit
IsOneLine (c ∷ s) = (eqb c 10 ≡ false) × (eqb c 13 ≡ false) × IsOneLine s

abbrev pub IsName : Option Text → Type 0
IsName none = Unit
IsName (some s) = IsOneLine s

-- The decoder takes a final '\r' for a part of the line's end.
abbrev pub EndsPlain : Text → Type 0
EndsPlain l = strip_cr l ≡ l

pub record IsFramable (e : SseEvent) : Type 0 where
  pub event_name : IsName e.event
  pub id_name : IsName e.id
  pub plain_data : All EndsPlain (split_lines e.data_text)

first_line_lem : (s : Text) → IsOneLine s → first_line s ≡ s
unfolding first_line
first_line_lem [] h = refl
first_line_lem (c ∷ s) (h, k, hs) = rw h (rw k (ap (λ t. c ∷ t) (first_line_lem s hs)))

IsOneLine-HasNoBreak : (s : Text) → IsOneLine s → HasNoBreak s
IsOneLine-HasNoBreak [] h = tt
IsOneLine-HasNoBreak (c ∷ s) (h, k, hs) = (h, IsOneLine-HasNoBreak s hs)

IsOneLine-EndsPlain : (s : Text) → IsOneLine s → EndsPlain s
unfolding strip_cr
IsOneLine-EndsPlain [] h = refl
IsOneLine-EndsPlain (c ∷ []) (h, k, hs) = rw k
IsOneLine-EndsPlain (c ∷ d ∷ s) (h, k, hs) = ap (λ t. c ∷ t) (IsOneLine-EndsPlain (d ∷ s) hs)

strip_cr-space : (s : Text) → EndsPlain s → strip_cr (b' ' ∷ s) ≡ b' ' ∷ s
unfolding strip_cr
strip_cr-space [] h = refl
strip_cr-space (c ∷ s) h = ap (λ t. b' ' ∷ t) h

feed_line-event :
    (p : PendingEvent) (v : Text)
    → EndsPlain v
    → feed_line p (codes "event: " ++ v) ≡ (none, record p { event = some v })
unfolding feed_line
feed_line-event p v h = rw (strip_cr-space v h, feed_line)

feed_line-id :
    (p : PendingEvent) (v : Text)
    → EndsPlain v
    → feed_line p (codes "id: " ++ v) ≡ (none, record p { id = some v })
unfolding feed_line
feed_line-id p v h = rw (strip_cr-space v h, feed_line)

feed_line-data :
    (p : PendingEvent) (v : Text)
    → EndsPlain v
    → feed_line p (codes "data: " ++ v) ≡ (none, record p { data_lines = p.data_lines ++ v ∷ [] })
unfolding feed_line
feed_line-data p v h = rw (strip_cr-space v h, feed_line)

by_lines-line :
    (l r : Text) (p : PendingEvent)
    → HasNoBreak l
    → by_lines (l ++ 10 ∷ r) p ≡ (
      push_event (feed_line p l).0 (by_lines r (feed_line p l).1).0,
      (by_lines r (feed_line p l).1).1,
    )
unfolding feed_lines
by_lines-line l r p h = rw (lines_of-line l r h)

by_lines-step :
    (l r : Text) (p p' : PendingEvent)
    → HasNoBreak l
    → feed_line p l ≡ (none, p')
    → by_lines (l ++ 10 ∷ r) p ≡ by_lines r p'
by_lines-step l r p p' h e = by_lines-line l r p h ∙ rw e

by_lines-encode_event :
    (o i : Option Text) (ds : List Text) (r : Text)
    → IsName o
    → by_lines
        (encode_field (codes "event: ") o ++ r)
        (record { event = none; id = i; data_lines = ds })
      ≡ by_lines r (record { event = o; id = i; data_lines = ds })
unfolding encode_field
by_lines-encode_event none i ds r h = refl
by_lines-encode_event (some v) i ds r h = rw (first_line_lem v h) (
    rw (append_assoc v (10 ∷ []) r) (
      by_lines-step (codes "event: " ++ v) r _ _
        (refl, (refl, (refl, (refl, (refl, (refl, (refl, IsOneLine-HasNoBreak v h)))))))
        (feed_line-event _ v (IsOneLine-EndsPlain v h))))

by_lines-encode_id :
    (o i : Option Text) (ds : List Text) (r : Text)
    → IsName o
    → by_lines
        (encode_field (codes "id: ") o ++ r)
        (record { event = i; id = none; data_lines = ds })
      ≡ by_lines r (record { event = i; id = o; data_lines = ds })
unfolding encode_field
by_lines-encode_id none i ds r h = refl
by_lines-encode_id (some v) i ds r h = rw (first_line_lem v h) (
    rw (append_assoc v (10 ∷ []) r) (
      by_lines-step (codes "id: " ++ v) r _ _
        (refl, (refl, (refl, (refl, IsOneLine-HasNoBreak v h))))
        (feed_line-id _ v (IsOneLine-EndsPlain v h))))

by_lines-encode_data :
    (ls : List Text) (p : PendingEvent) (r : Text)
    → All EndsPlain ls
    → All HasNoBreak ls
    → by_lines (encode_data ls ++ r) p ≡ by_lines r (record p { data_lines = p.data_lines ++ ls })
unfolding encode_data
by_lines-encode_data [] p r h k = rw (append-nil p.data_lines)
by_lines-encode_data (l ∷ ls) p r (h, hs) (k, ks) =
    let q : PendingEvent = record p { data_lines = p.data_lines ++ l ∷ [] } in
    rw (append_assoc l (10 ∷ encode_data ls) r) (
      by_lines-step (codes "data: " ++ l) (encode_data ls ++ r) p q
        (refl, (refl, (refl, (refl, (refl, (refl, k)))))) (feed_line-data p l h)
      ∙ by_lines-encode_data ls q r hs ks
      ∙ rw (append_assoc p.data_lines (l ∷ []) ls))

All-cons_head :
    (c : ℕ) (ls : List Text)
    → eqb c 10 ≡ false
    → All HasNoBreak ls
    → All HasNoBreak (cons_head c ls)
All-cons_head c [] e h = ((e, tt), tt)
All-cons_head c (l ∷ ls) e (h, hs) = ((e, h), hs)

split_lines-HasNoBreak : (s : Text) → All HasNoBreak (split_lines s)
unfolding split_lines
split_lines-HasNoBreak [] = (tt, tt)
split_lines-HasNoBreak (c ∷ s) = elim (Bool-cases (eqb c 10)) [
  | inl e ↦ rw e (tt, split_lines-HasNoBreak s)
  | inr e ↦ rw e (All-cons_head c (split_lines s) e (split_lines-HasNoBreak s))
]

split_lines-ne-nil : (s : Text) → split_lines s ≢ []
unfolding split_lines
split_lines-ne-nil [] = ground arith
split_lines-ne-nil (c ∷ s) = ground (arith, split_lines-ne-nil s)

join_lines-cons :
    (c : ℕ) (ls : List Text) → ls ≢ [] → join_lines (cons_head c ls) ≡ c ∷ join_lines ls
unfolding join_lines
join_lines-cons c [] h = absurd (h refl)
join_lines-cons c (l ∷ []) h = refl
join_lines-cons c (l ∷ k ∷ ls) h = refl

join_lines-nil : (ls : List Text) → ls ≢ [] → join_lines ([] ∷ ls) ≡ 10 ∷ join_lines ls
unfolding join_lines
join_lines-nil [] h = absurd (h refl)
join_lines-nil (l ∷ ls) h = refl

join_lines-split_lines : (s : Text) → join_lines (split_lines s) ≡ s
unfolding split_lines
join_lines-split_lines [] = unfold join_lines in refl
join_lines-split_lines (c ∷ s) = elim (Bool-cases (eqb c 10)) [
  | inl e ↦
      rw e (
        join_lines-nil _ (split_lines-ne-nil s) ∙ cc (join_lines-split_lines s, (eqb_iff c 10).0 e))
  | inr e ↦ rw e (join_lines-cons c _ (split_lines-ne-nil s) ∙ cc (join_lines-split_lines s))
]

dispatch_lem :
    (o i : Option Text) (ls : List Text)
    → ls ≢ []
    → dispatch (record { event = o; id = i; data_lines = ls })
      ≡ (some (record { event = o; data_text = join_lines ls; id = i }), no_event)
unfolding dispatch
dispatch_lem o i [] h = absurd (h refl)
dispatch_lem o i (l ∷ ls) h = refl

feed_line-blank : (p : PendingEvent) → feed_line p [] ≡ dispatch p
unfolding feed_line
feed_line-blank p = refl

by_lines-encode :
    (e : SseEvent) (r : Text)
    → IsFramable e
    → by_lines (encode_sse_event e ++ r) no_event
      ≡ (e ∷ (by_lines r no_event).0, (by_lines r no_event).1)
unfolding encode_sse_event
by_lines-encode e r h =
    let name : Text = encode_field (codes "event: ") e.event in
    let key : Text = encode_field (codes "id: ") e.id in
    let lines = split_lines e.data_text in
    let body : Text = encode_data lines in
    by_lines ((name ++ (key ++ (body ++ 10 ∷ []))) ++ r) no_event
    ≡⟨ (simp append_assoc) ⟩ by_lines (name ++ (key ++ (body ++ 10 ∷ r))) no_event
    ≡⟨ by_lines-encode_event e.event none [] (key ++ (body ++ 10 ∷ r)) h.event_name ⟩
      by_lines (key ++ (body ++ 10 ∷ r)) (record { event = e.event; id = none; data_lines = [] })
    ≡⟨ by_lines-encode_id e.id e.event [] (body ++ 10 ∷ r) h.id_name ⟩
      by_lines (body ++ 10 ∷ r) (record { event = e.event; id = e.id; data_lines = [] })
    ≡⟨ by_lines-encode_data lines _ (10 ∷ r) h.plain_data (split_lines-HasNoBreak e.data_text) ⟩
      by_lines (10 ∷ r) (record { event = e.event; id = e.id; data_lines = lines })
    ≡⟨ by_lines-line [] r _ tt
      ∙ rw (feed_line-blank (record { event = e.event; id = e.id; data_lines = lines })) (
          rw (dispatch_lem e.event e.id lines (split_lines-ne-nil e.data_text))
            (rw (join_lines-split_lines e.data_text))) ⟩
      (e ∷ (by_lines r no_event).0, (by_lines r no_event).1) ∎

-- The wire text of several events.
pub encode_all : List SseEvent → Text
encode_all [] = []
encode_all (e ∷ es) = encode_sse_event e ++ encode_all es

feed_all_lem :
    (es : List SseEvent) → All IsFramable es → by_lines (encode_all es) no_event ≡ (es, new)
unfolding encode_all lines_of feed_lines
feed_all_lem [] h = refl
feed_all_lem (e ∷ es) (h, hs) =
    by_lines-encode e (encode_all es) h
    ∙ ap {A = List SseEvent × SseDecoder} (λ t. (e ∷ t.0, t.1)) (feed_all_lem es hs)

-- A fresh decoder that is fed the encodings, one behind the other, of events whose names and ids
-- have no line break and whose data has no line that ends in '\r', gives exactly those events in
-- order and is fresh again.
pub feed-encode_all :
    (es : List SseEvent) → All IsFramable es → feed new (encode_all es) ≡ (es, new)
feed-encode_all es h = feed_lem new (encode_all es) ∙ feed_all_lem es h
