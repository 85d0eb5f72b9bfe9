-- ===== src/Session/Records.antt =====
-- `apply_record` of crates/core/src/session.rs: every journal record, the compaction among them.
use wiki_coding.Prelude.{
  ℕ, suc, Bool, not, Option, none, some, List, ◌&&◌, ◌||◌, any, position, take, Result, ok,
  refuse_if, ok_or, ◌>>=◌, ◌>>◌, ◌==◌, string_eq, get, contains_key, update, leb,
}
use wiki_coding.Protocol.Json.{Json}
use wiki_coding.Protocol.Event.{SessionId, TurnId}
use wiki_coding.Protocol.Runtime.{RuntimeErrorCode, recovery}
use wiki_coding.Protocol.Session.{
  TurnStatus, turn_status_eq, CompactionPointer, CompactionRecord, TurnRecord, SessionRecord,
  JournalRecord, SessionRecordV1, session_created, session_activated, turn_started, turn_delta,
  turn_terminal, tool_requested, tool_decision_recorded, tool_started, tool_terminal,
  recovery_applied, compaction_stored, trace_stored,
}
use wiki_coding.Session.{SessionMachine, has_id}
use wiki_coding.Session.Journal.{
  Sessions, create_session, activate_session, add_turn, add_delta, apply_terminal,
}
use wiki_coding.Session.ToolRecords.{add_tool, add_decision, add_start, add_result}

abbrev is_completed_turn : TurnId → TurnRecord → Bool
is_completed_turn turn_id turn = has_id turn_id turn && turn.status == TurnStatus.completed

-- A compaction goes on from the one before: it has another id and covers more turns.
abbrev check_previous :
    Option CompactionPointer
    → CompactionRecord
    → List TurnRecord
    → ℕ
    → Result RuntimeErrorCode (Unit {0})
check_previous none compaction turns covered_index = ok tt
check_previous (some previous) compaction turns covered_index = do
  previous_index ← ok_or (position (has_id previous.covered_through_turn_id) turns) recovery
  refuse_if (previous.compaction_id == compaction.compaction_id || leb covered_index previous_index)
      recovery

abbrev pub store_pointer : CompactionRecord → ℕ → SessionRecord → SessionRecord
store_pointer compaction now session = record session {
  compaction = some (record {
    compaction_id = compaction.compaction_id;
    covered_through_turn_id = compaction.covered_through_turn_id;
  });
  updated_at_unix_ms = now;
}

-- The tests of a compaction that is to be stored.
unfoldable pub check_compaction :
    SessionRecord → CompactionRecord → Result RuntimeErrorCode (Unit {0})
check_compaction session compaction = do
  covered_index ←
      ok_or (position (is_completed_turn compaction.covered_through_turn_id) session.turns) recovery
  refuse_if
      (any
        (λ retained.
          not (any (is_completed_turn retained.turn_id) (take (suc covered_index) session.turns)))
        compaction.retained_recent_turns)
      recovery
  check_previous session.compaction compaction session.turns covered_index

unfoldable pub store_compaction :
    Sessions → SessionId → CompactionRecord → ℕ → Result RuntimeErrorCode Sessions
unfolding check_compaction
store_compaction sessions session_id compaction now = do
  session ← ok_or (get session_id sessions) recovery
  check_compaction session compaction
  ok (update session_id (store_pointer compaction now) sessions)

abbrev pub with_sessions :
    SessionMachine → Result RuntimeErrorCode Sessions → Result RuntimeErrorCode SessionMachine
with_sessions m changed = do sessions ← changed; ok (record m { sessions = sessions })

unfoldable pub apply_journal :
    Json → SessionMachine → JournalRecord → Result RuntimeErrorCode SessionMachine
unfolding create_session activate_session add_turn add_delta apply_terminal add_tool add_decision
    add_start add_result store_compaction
apply_journal json m (session_created session) = create_session m session
apply_journal json m (session_activated session_id now) = activate_session m session_id now
apply_journal json m (turn_started session_id binding turn) =
    with_sessions m (add_turn m.sessions session_id binding turn)
apply_journal json m (turn_delta session_id turn_id delta now) =
    with_sessions m (add_delta m.sessions session_id turn_id delta now)
apply_journal json m (turn_terminal session_id receipt message now) =
    with_sessions m (apply_terminal m.sessions session_id receipt message now)
apply_journal json m (tool_requested session_id turn_id invocation now) =
    with_sessions m (add_tool json m.sessions session_id turn_id invocation now)
apply_journal json m (tool_decision_recorded session_id turn_id decision now) =
    with_sessions m (add_decision m.sessions session_id turn_id decision now)
apply_journal json m (tool_started session_id turn_id call_id now) =
    with_sessions m (add_start m.sessions session_id turn_id call_id now)
apply_journal json m (tool_terminal session_id turn_id result now) =
    with_sessions m (add_result m.sessions session_id turn_id result now)
apply_journal json m (recovery_applied session_id receipt message now) =
    with_sessions m (apply_terminal m.sessions session_id receipt message now)
apply_journal json m (compaction_stored session_id compaction now) =
    with_sessions m (store_compaction m.sessions session_id compaction now)
apply_journal json m (trace_stored session_id entry) = do
  refuse_if (not (contains_key session_id m.sessions)) recovery
  ok m

unfoldable pub apply_record :
    Json → SessionMachine → SessionRecordV1 → Result RuntimeErrorCode SessionMachine
unfolding apply_journal
apply_record json m envelope = apply_journal json m envelope.journal_record
