-- ===== src/Provider/RoundTrip.antt =====
-- Events that are sent come back (crates/provider/src/sse.rs).
use wiki_coding.Prelude.{
  ℕ, zero, suc, false, ◌≤◌, ◌≡◌, refl, ap, List, [], ◌∷◌, ◌++◌, map, length, ltb, length-append,
  take-append, drop-append, ok, err, arith,
}
use wiki_coding.Provider.Sse.{
  Bytes, max_sse_event_bytes, Drained, new, push, drain, drain_rest, drain_loop, decoder, join,
  blank_line_end, blank_line_from,
}
use wiki_coding.Provider.Framing.{Sendable, encode, blank_line_end-encode}
use wiki_coding.Provider.Decoding.{decode-encode}

-- The data of an event: its first line and the others.
abbrev pub Data : Type 0
Data = Bytes × List Bytes

abbrev pub data_text : Data → Bytes
data_text (line, rest) = join (line ∷ rest)

abbrev pub encoded : Data → Bytes
encoded (line, rest) = encode (line ∷ rest)

abbrev pub encoded_all : List Data → Bytes
encoded_all [] = []
encoded_all (event ∷ events) = encoded event ++ encoded_all events

-- Every event can be sent and stays within the decoder's limit.
abbrev pub AllSendable : List Data → Type 0
AllSendable [] = Unit
AllSendable ((line, rest) ∷ events) =
    Sendable (line ∷ rest)
    × (length (encode (line ∷ rest)) ≤ max_sse_event_bytes)
    × AllSendable events

drain_loop-encoded :
    (fuel : ℕ) (events : List Data)
    → suc (length events) ≤ fuel
    → AllSendable events
    → drain_loop fuel (encoded_all events) ≡ ([], ok (map data_text events))
unfolding drain_loop blank_line_end blank_line_from
drain_loop-encoded zero events enough fine = absurd (omega arith)
drain_loop-encoded (suc fuel) [] enough fine = refl
drain_loop-encoded (suc fuel) ((line, rest) ∷ events) enough (sendable, small, others) =
    let bytes = encode (line ∷ rest) in
    let within : ltb max_sse_event_bytes (length bytes) ≡ false = ground arith in
    rw (
      blank_line_end-encode line rest (encoded_all events) sendable,
      drain_loop,
      within,
      take-append bytes (encoded_all events),
      decode-encode line rest sendable,
      drop-append bytes (encoded_all events),
      drain_loop-encoded fuel events (omega arith) others,
    )

encoded-IsLonger : (events : List Data) → length events ≤ length (encoded_all events)
unfolding encode
encoded-IsLonger [] = omega arith
encoded-IsLonger ((line, rest) ∷ events) =
    omega
      (arith, length-append (encode (line ∷ rest)) (encoded_all events), encoded-IsLonger events)

-- Events that are encoded as a stream and pushed to a decoder that waits for nothing come back, each
-- with its data and in order, and the decoder waits for nothing again. Each event has one or more
-- lines of data, which are valid texts without an end of line, and stays within the size limit.
pub push-encoded :
    (events : List Data)
    → AllSendable events
    → push new (encoded_all events) ≡ (new, ok (map data_text events))
unfolding push drain drain_rest
push-encoded events fine =
    let bytes = encoded_all events in
    let drained : drain_loop (suc (length bytes)) bytes ≡ ([], ok (map data_text events)) =
      drain_loop-encoded (suc (length bytes)) events (omega (arith, encoded-IsLonger events))
        fine in
    ap
      (λ (d : Drained).
        decoder (elim d.1 [ err e ↦ (d.0, err e) | ok events ↦ drain_rest false d.0 events ]))
      drained
