-- ===== src/Wire/Sse/Tests.antt =====
-- crates/mcp-wire/src/sse.rs: tests, and the theorems at concrete inputs.
use headless_mcp_server.Prelude.{◌≡◌, refl, none, some, [], ◌∷◌, ◌++◌, Text, codes}
use headless_mcp_server.Wire.Sse.{SseEvent, new, feed, split_lines, strip_cr, encode_sse_event}
use headless_mcp_server.Wire.Sse.Chunks.{feed-append, feed-HasNoBreak}
use headless_mcp_server.Wire.Sse.Lines.{HasNoBreak}
use headless_mcp_server.Wire.Sse.RoundTrip.{IsFramable, encode_all, feed-encode_all}

-- "event: ping\ndata: a\ndata: b\n\n", in two parts.
abbrev first_part : Text
first_part = codes "event: ping" ++ 10 ∷ codes "data: a" ++ 13 ∷ 10 ∷ codes "da"

abbrev second_part : Text
second_part = codes "ta: b" ++ 10 ∷ 10 ∷ []

abbrev ping : SseEvent
ping = record { event = some (codes "ping"); data_text = codes "a" ++ 10 ∷ codes "b"; id = none }

feed_test : (feed (feed new first_part).1 second_part).0 ≡ ping ∷ []
unfolding feed
feed_test = refl

feed-append_example : feed new (first_part ++ second_part) ≡ (
  (feed new first_part).0 ++ (feed (feed new first_part).1 second_part).0,
  (feed (feed new first_part).1 second_part).1,
)
feed-append_example = feed-append new first_part second_part

feed-HasNoBreak_example : HasNoBreak (feed new first_part).1.buffer
feed-HasNoBreak_example = feed-HasNoBreak new first_part

ping-IsFramable : IsFramable ping
unfolding split_lines strip_cr
ping-IsFramable = record {
  event_name = (refl, refl, (refl, refl, (refl, refl, (refl, refl, tt))));
  id_name = tt;
  plain_data = (refl, (refl, tt));
}

feed-encode_all_example : feed new (encode_all (ping ∷ ping ∷ [])) ≡ (ping ∷ ping ∷ [], new)
feed-encode_all_example =
    feed-encode_all (ping ∷ ping ∷ []) (ping-IsFramable, (ping-IsFramable, tt))

-- A data line that ends in '\r' loses it.
abbrev carriage : SseEvent
carriage = record { event = none; data_text = codes "a" ++ 13 ∷ []; id = none }

carriage_test :
    (feed new (encode_sse_event carriage)).0
    ≡ record { event = none; data_text = codes "a"; id = none } ∷ []
unfolding feed encode_sse_event
carriage_test = refl
