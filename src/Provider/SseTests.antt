-- ===== src/Provider/SseTests.antt =====
-- Two events on a stream, and the theorems at them (crates/provider/src/sse.rs).
use wiki_coding.Prelude.{◌≡◌, ◌≤◌, refl, none, List, [], ◌∷◌, map, length, ok, arith, ℕ_discrete}
use wiki_coding.Provider.Sse.{
  new, push, drain, drain_loop, drain_rest, decode_event, blank_line_end, blank_line_from, is_utf8,
  utf8_from, lead, replace_crlf, replace_cr, lines, strip_prefix, data_line, data_lines, join,
  max_sse_event_bytes,
}
use wiki_coding.Provider.Framing.{encode}
use wiki_coding.Provider.RoundTrip.{Data, data_text, encoded_all, AllSendable, push-encoded}
use wiki_coding.Provider.Waiting.{push-IsDrained}

-- `one` and `two` on two lines, then `é`.
abbrev events : List Data
events = (111 ∷ 110 ∷ 101 ∷ [], (116 ∷ 119 ∷ 111 ∷ []) ∷ []) ∷ (195 ∷ 169 ∷ [], []) ∷ []

events-AllSendable : AllSendable events
unfolding encode is_utf8 utf8_from lead ℕ_discrete
events-AllSendable = (
  ((refl, (refl, (refl, tt))), refl, ((refl, (refl, (refl, tt))), refl, tt)),
  omega arith,
  (((refl, (refl, tt)), refl, tt), omega arith, tt),
)

push-encoded_example : push new (encoded_all events) ≡ (new, ok (map data_text events))
push-encoded_example = push-encoded events events-AllSendable

-- A comment and an event, cut within a `\r\n`.
first_chunk : push new (58 ∷ 107 ∷ 13 ∷ []) ≡ (record { buffer = 58 ∷ 107 ∷ 13 ∷ [] }, ok [])
unfolding push drain drain_loop drain_rest blank_line_end blank_line_from ℕ_discrete
first_chunk = refl

second_chunk :
    (push
      (record { buffer = 58 ∷ 107 ∷ 13 ∷ [] })
      (10 ∷ 100 ∷ 97 ∷ 116 ∷ 97 ∷ 58 ∷ 120 ∷ 13 ∷ 10 ∷ 13 ∷ 10 ∷ [])).1
    ≡ ok ((120 ∷ []) ∷ [])
unfolding push drain drain_loop drain_rest decode_event blank_line_end blank_line_from is_utf8
    utf8_from lead replace_crlf replace_cr lines strip_prefix data_line data_lines join ℕ_discrete
second_chunk = refl

push-IsDrained_example :
    (blank_line_end (push new (58 ∷ 107 ∷ 13 ∷ [])).0.buffer ≡ none)
    × (length (push new (58 ∷ 107 ∷ 13 ∷ [])).0.buffer ≤ max_sse_event_bytes)
unfolding push drain drain_loop drain_rest blank_line_end blank_line_from ℕ_discrete
push-IsDrained_example = push-IsDrained new (58 ∷ 107 ∷ 13 ∷ []) [] refl
