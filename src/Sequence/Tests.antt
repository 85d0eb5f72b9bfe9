-- ===== src/Sequence/Tests.antt =====
-- Runs of the sequence reducer (crates/core/src/sequence.rs), and its theorems at concrete streams.
use wiki_coding.Prelude.{String, ◌≡◌, refl, List, [], ◌∷◌, ◌++◌, ok, err, is_blank, ℕ_discrete}
use wiki_coding.Protocol.Event.{
  StreamEvent, completed, stopped, terminal, visible_text_delta, is_terminal, duplicate_terminal,
  event_after_terminal, stream_event_v1, validated_id,
}
use wiki_coding.Sequence.{replay_stream, accept_all, accept, new}
use wiki_coding.Sequence.Closing.{shape, Closed, last, later}
use wiki_coding.Sequence.Replay.{replay_stream-verdict}

abbrev hello : StreamEvent
hello = visible_text_delta "hello"

abbrev names : String → String
names kind = "replay-1"

abbrev whole : List StreamEvent
whole = hello ∷ terminal completed ∷ []

whole-Closed : Closed whole completed
unfolding is_terminal
whole-Closed = later hello refl (last completed _ refl)

whole_replayed :
    replay_stream whole 7 names
    ≡ ok (record {
      replay_id = "replay-1";
      recorded_at_unix_ms = 7;
      events = stream_event_v1 hello ∷ stream_event_v1 (terminal completed) ∷ [];
      terminal = completed;
    })
unfolding validated_id is_blank is_terminal ℕ_discrete shape
whole_replayed = replay_stream-verdict whole 7 names

replay_stream-verdict_example :
    replay_stream (whole ++ terminal stopped ∷ []) 7 names ≡ err duplicate_terminal
unfolding is_terminal shape
replay_stream-verdict_example = replay_stream-verdict (whole ++ terminal stopped ∷ []) 7 names

after_terminal_text : replay_stream (whole ++ hello ∷ []) 7 names ≡ err event_after_terminal
unfolding replay_stream accept_all accept new is_terminal
after_terminal_text = refl
