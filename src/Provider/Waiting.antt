-- ===== src/Provider/Waiting.antt =====
-- What a decoder holds back after a push (crates/provider/src/sse.rs).
use wiki_coding.Prelude.{
  ℕ, zero, suc, Bool, true, false, ◌≤◌, ◌≡◌, none, some, List, [], ◌∷◌, ◌++◌, length, take, drop,
  ltb, nat_eq, length-drop, ok, err, ◌>>=◌, arith, Option-cases, Result-cases, Bool-cases, inl, inr,
}
use wiki_coding.Provider.Sse.{
  Bytes, is_newline, max_sse_event_bytes, Drained, SseDecoder, push, drain, drain_rest, drain_loop,
  blank_line_end, blank_line_from, decode_event, push_data,
}

blank_line_from-behind :
    (index : ℕ) (previous : Bool) (bytes : Bytes) (end : ℕ)
    → blank_line_from index previous bytes ≡ some end
    → (suc index ≤ end) × (1 ≤ length bytes)
unfolding blank_line_from
blank_line_from-behind index previous [] end e = cc
blank_line_from-behind index previous (byte ∷ []) end e = (ground arith, omega arith)
blank_line_from-behind index previous (byte ∷ (next ∷ bytes)) end e =
    let skip = blank_line_from-behind (suc (suc index)) true bytes end in
    let step = blank_line_from-behind (suc index) (is_newline byte) (next ∷ bytes) end in
    (ground arith, omega arith)

-- What the loop leaves, where it succeeds.
abbrev Left : Drained → Type 0
Left (left, ok events) = blank_line_end left ≡ none
Left (left, err e) = Unit

Left-more :
    (r : Drained) (add : List Bytes → List Bytes)
    → Left r
    → Left (r.0, r.1 >>= λ events. ok (add events))
Left-more (left, ok events) add none_left = none_left
Left-more (left, err e) add none_left = tt

drain_loop-Left :
    (fuel : ℕ) (buffer : Bytes) → suc (length buffer) ≤ fuel → Left (drain_loop fuel buffer)
unfolding drain_loop blank_line_end
drain_loop-Left zero buffer enough = absurd (omega arith)
drain_loop-Left (suc fuel) buffer enough = elim (Option-cases (blank_line_end buffer)) [
  | inl none_left ↦ rw (none_left, drain_loop) none_left
  | inr (end, e) ↦ elim (Bool-cases (ltb max_sse_event_bytes end)) [
    | inl large ↦ rw (e, drain_loop, large) tt
    | inr small ↦ elim (Result-cases (decode_event (take end buffer))) [
      | inr (error, refused) ↦ rw (e, drain_loop, small, refused) tt
      | inl (decoded, done) ↦
          let shorter : suc (length (drop end buffer)) ≤ fuel =
            omega (arith, length-drop end buffer, blank_line_from-behind 0 false buffer end e) in
          rw (e, drain_loop, small, done)
            (Left-more (drain_loop fuel (drop end buffer)) (push_data decoded)
              (drain_loop-Left fuel (drop end buffer) shorter))
    ]
  ]
]

abbrev rest : Drained → Drained
rest r = elim r.1 [ err e ↦ (r.0, err e) | ok events ↦ drain_rest false r.0 events ]

rest_lem :
    (r : Drained) (events : List Bytes)
    → Left r
    → (rest r).1 ≡ ok events
    → (blank_line_end (rest r).0 ≡ none) × (length (rest r).0 ≤ max_sse_event_bytes)
unfolding drain_rest
rest_lem (left, err e) events none_left done = cc
rest_lem (left, ok found) events none_left done =
    elim (Bool-cases (ltb max_sse_event_bytes (length left))) [
      | inl large ↦ absurd (ground arith)
      | inr small ↦ (ground arith, ground arith)
    ]

-- A push that succeeds leaves no complete event waiting, and no more bytes than one event may have;
-- so the decoder's rounds suffice for every buffer.
pub push-IsDrained :
    (sse : SseDecoder) (chunk : Bytes) (events : List Bytes)
    → (push sse chunk).1 ≡ ok events
    → (blank_line_end (push sse chunk).0.buffer ≡ none)
      × (length (push sse chunk).0.buffer ≤ max_sse_event_bytes)
unfolding push drain drain_rest
push-IsDrained sse chunk events done =
    let buffer = sse.buffer ++ chunk in
    rest_lem (drain_loop (suc (length buffer)) buffer) events
      (drain_loop-Left (suc (length buffer)) buffer (omega arith)) done
