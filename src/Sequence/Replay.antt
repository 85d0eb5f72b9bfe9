-- ===== src/Sequence/Replay.antt =====
-- What `replay_stream` of crates/core/src/sequence.rs accepts, returns and refuses.
use wiki_coding.Prelude.{
  ℕ, String, ◌≡◌, ap, List, [], ◌∷◌, ◌++◌, map, Result, ok, err, if◌then◌else◌, ◌>>=◌,
}
use wiki_coding.Protocol.Event.{
  TerminalOutcome, ProtocolErrorCode, duplicate_terminal, event_after_terminal, premature_eof,
  StreamEvent, is_terminal, stream_event_v1, validated_id,
}
use wiki_coding.Sequence.{NormalizedReplayRecord, new, finish_eof, replay_stream}
use wiki_coding.Sequence.Closing.{
  Open, Closed, Shape, is_open, is_closed, has_more, shape, accept_all-Open, accept_all-closed,
  accept_all-append, accept_all-after,
}

-- A closed stream is replayed whole: the record holds every event in order, with the outcome of
-- the terminal one, if the generator gives a valid identifier; otherwise its error comes back.
replay_stream-Closed :
    (es : List StreamEvent) (o : TerminalOutcome) (now : ℕ) (next_id : String → String)
    → Closed es o
    → replay_stream es now next_id ≡ (
        validated_id (next_id "replay") >>= λ id. ok (record {
          replay_id = id;
          recorded_at_unix_ms = now;
          events = map stream_event_v1 es;
          terminal = o;
        }))
unfolding replay_stream new finish_eof
replay_stream-Closed es o now next_id c = rw (accept_all-closed [] c)

-- A stream with no terminal event is refused as ended too early.
replay_stream-Open :
    (es : List StreamEvent) (now : ℕ) (next_id : String → String)
    → Open es
    → replay_stream es now next_id ≡ err premature_eof
unfolding replay_stream new finish_eof
replay_stream-Open es now next_id o = rw (accept_all-Open [] o)

-- A stream that goes on after its terminal event is refused, whatever follows.
replay_stream-after :
    (pre : List StreamEvent) (o : TerminalOutcome) (e : StreamEvent) (rest : List StreamEvent)
    (now : ℕ) (next_id : String → String)
    → Closed pre o
    → replay_stream (pre ++ e ∷ rest) now next_id
      ≡ err (if is_terminal e then duplicate_terminal else event_after_terminal)
unfolding replay_stream new
replay_stream-after pre o e rest now next_id c =
    rw (accept_all-append new pre (e ∷ rest), accept_all-closed [] c, accept_all-after pre o e rest)

-- The answer to a stream by its shape.
abbrev pub verdict :
    (now : ℕ) (next_id : String → String) (es : List StreamEvent)
    → Shape es
    → Result ProtocolErrorCode NormalizedReplayRecord
verdict now next_id es (is_open o) = err premature_eof
verdict now next_id es (is_closed o c) = validated_id (next_id "replay") >>= λ id. ok (record {
  replay_id = id;
  recorded_at_unix_ms = now;
  events = map stream_event_v1 es;
  terminal = o;
})
verdict now next_id es (has_more pre o e rest c p) =
    err (if is_terminal e then duplicate_terminal else event_after_terminal)

verdict-of_shape :
    (es : List StreamEvent) (now : ℕ) (next_id : String → String) (s : Shape es)
    → replay_stream es now next_id ≡ verdict now next_id es s
verdict-of_shape es now next_id (is_open o) = replay_stream-Open es now next_id o
verdict-of_shape es now next_id (is_closed o c) = replay_stream-Closed es o now next_id c
verdict-of_shape es now next_id (has_more pre o e rest c p) =
    cc (replay_stream-after pre o e rest now next_id c, ap (λ l. replay_stream l now next_id) p)

-- The answer to any stream: one with no terminal event is refused as ended too early; one that ends
-- with its only terminal event is replayed whole, every event in order and with its outcome, if the
-- generator gives a valid identifier, and answered with the identifier's error if not; and one that
-- goes on after its first terminal event is refused by the kind of the next event.
pub replay_stream-verdict :
    (es : List StreamEvent) (now : ℕ) (next_id : String → String)
    → replay_stream es now next_id ≡ verdict now next_id es (shape es)
replay_stream-verdict es now next_id = verdict-of_shape es now next_id (shape es)
