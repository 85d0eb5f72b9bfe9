-- ===== src/Sequence.antt =====
-- The reducer that accepts exactly one terminal event, and the replay of a recorded stream:
-- crates/core/src/sequence.rs. A method that mutates returns the new state beside its result.
pub mod Closing
pub mod Replay
pub mod Tests
use wiki_coding.Prelude.{
  ℕ, String, Option, none, some, List, [], ◌∷◌, ◌++◌, map, Bool, true, false, Result, ok, err,
  ok_or, ◌>>=◌, if◌then◌else◌,
}
use wiki_coding.Protocol.Event.{
  ProtocolErrorCode, premature_eof, duplicate_terminal, event_after_terminal, TerminalOutcome,
  StreamEvent, terminal, is_terminal, StreamEventV1, stream_event_v1, TurnId, validated_id,
}

pub record StreamSequence : Type 0 where
  pub events : List StreamEvent
  pub terminal : Option TerminalOutcome

unfoldable pub new : StreamSequence
new = record { events = []; terminal = none }

abbrev terminal_of : StreamEvent → Option TerminalOutcome
terminal_of (terminal outcome) = some outcome
terminal_of _ = none

-- `if let Terminal { outcome } = &event { self.terminal = Some(..) }`.
abbrev or_kept : Option TerminalOutcome → Option TerminalOutcome → Option TerminalOutcome
or_kept (some outcome) kept = some outcome
or_kept none kept = kept

unfoldable pub accept : StreamSequence → StreamEvent → Result ProtocolErrorCode StreamSequence
unfolding is_terminal
accept s event = elim s.terminal [
  | some _ ↦ err (if is_terminal event then duplicate_terminal else event_after_terminal)
  | none ↦ ok (record {
    events = s.events ++ event ∷ [];
    terminal = or_kept (terminal_of event) s.terminal;
  })
]

unfoldable pub finish_eof : StreamSequence → Result ProtocolErrorCode TerminalOutcome
finish_eof s = ok_or s.terminal premature_eof

-- The loop of `replay_stream`.
unfoldable pub accept_all :
    StreamSequence → List StreamEvent → Result ProtocolErrorCode StreamSequence
accept_all s [] = ok s
accept_all s (event ∷ events) = do s' ← accept s event; accept_all s' events

pub record NormalizedReplayRecord : Type 0 where
  pub replay_id : TurnId
  pub recorded_at_unix_ms : ℕ
  pub events : List StreamEventV1
  pub terminal : TerminalOutcome

-- The clock and the generator of identifiers are ports: their answers are arguments.
unfoldable pub replay_stream :
    List StreamEvent → ℕ → (String → String) → Result ProtocolErrorCode NormalizedReplayRecord
replay_stream events now_unix_ms next_id = do
  sequence ← accept_all new events
  outcome ← finish_eof sequence
  replay_id ← validated_id (next_id "replay")
  ok (record {
    replay_id = replay_id;
    recorded_at_unix_ms = now_unix_ms;
    events = map stream_event_v1 sequence.events;
    terminal = outcome;
  })
