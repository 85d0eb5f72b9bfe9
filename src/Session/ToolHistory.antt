-- ===== src/Session/ToolHistory.antt =====
-- No history of commands breaks what holds of the tool calls (crates/core/src/session.rs).
use wiki_coding.Prelude.{
  ℕ, ◌≡◌, true, not, some, [], ◌||◌, any, Result, ok, err, ok_or, refuse_if, map_err, ◌>>=◌, ◌>>◌,
  ◌==◌, string_eq, get, update, contains_key, map_values, insert, get-insert, get-map_values, arith,
  Holds, >>=-Holds, >>-Holds, Option-cases, inl, inr,
}
use wiki_coding.Protocol.Json.{Json}
use wiki_coding.Protocol.Event.{SessionId, TurnId, ToolCallId}
use wiki_coding.Protocol.Runtime.{RuntimeErrorCode, recovery}
use wiki_coding.Protocol.Tool.{ToolDecision, ToolResult, validate_decision, validate_result}
use wiki_coding.Protocol.Session.{
  TurnRecord, SessionRecord, JournalRecord, SessionStatus, model_binding_eq, ModelBinding,
  CompactionRecord, session_created, session_activated, turn_started, turn_delta, turn_terminal,
  tool_requested, tool_decision_recorded, tool_started, tool_terminal, recovery_applied,
  compaction_stored, trace_stored,
}
use wiki_coding.Session.{SessionMachine, is_running}
use wiki_coding.Session.Journal.{
  Sessions, find_tool_mut, change_turn, set_tool, push_turn, create_session, activate_session,
  activate, is_same_turn, add_turn,
}
use wiki_coding.Session.ToolRecords.{
  decidable, startable, endable, decide, start, end, add_decision, add_start, add_result,
}
use wiki_coding.Session.Records.{
  apply_journal, store_compaction, with_sessions, check_compaction, store_pointer,
}
use wiki_coding.Protocol.Session.{turn_status_eq}
use wiki_coding.Session.Lawful.{
  lawful_turn, all-push, decide-lawful_tool, start-lawful_tool, end-lawful_tool,
}
use wiki_coding.Session.Writes.{Own}
use wiki_coding.Session.ToolLife.{
  LawfulIn, update-LawfulIn, add_delta-LawfulIn, apply_terminal-LawfulIn, add_tool-LawfulIn,
  set_tool-LawfulIn,
}

create_session-LawfulIn :
    (m : SessionMachine) (session : SessionRecord)
    → session.turns ≡ []
    → LawfulIn m.sessions
    → Holds (λ m'. LawfulIn m'.sessions) (create_session m session)
unfolding create_session
create_session-LawfulIn m session own lawful =
    let archive : SessionRecord → SessionRecord =
      λ existing. record existing { status = SessionStatus.archived } in
    let made : SessionMachine = record m {
      sessions = insert session.session_id session (map_values archive m.sessions);
      active_session_id = some session.session_id;
    } in
    >>-Holds (λ m'. LawfulIn m'.sessions)
      (refuse_if (contains_key session.session_id m.sessions) recovery) (ok made)
      λ _ _ k found there.
        let read = get-insert session.session_id k session (map_values archive m.sessions) in
        let same = get-map_values k archive m.sessions in
        elim (Option-cases (get k m.sessions)) [
          | inl missing ↦ ground arith
          | inr (old, was) ↦ let before = lawful k old was in ground arith
        ]

activate_session-LawfulIn :
    (m : SessionMachine) (session_id : SessionId) (now : ℕ)
    → LawfulIn m.sessions
    → Holds (λ m'. LawfulIn m'.sessions) (activate_session m session_id now)
unfolding activate_session
activate_session-LawfulIn m session_id now lawful =
    let made : SessionMachine = record m {
      sessions = map_values (activate session_id now) m.sessions;
      active_session_id = some session_id;
    } in
    >>-Holds (λ m'. LawfulIn m'.sessions)
      (refuse_if (not (contains_key session_id m.sessions)) recovery) (ok made)
      λ _ _ k found there.
        let same = get-map_values k (activate session_id now) m.sessions in
        elim (Option-cases (get k m.sessions)) [
          | inl missing ↦ ground arith
          | inr (old, was) ↦ let before = lawful k old was in ground arith
        ]

new_turn-lawful_turn : (turn : TurnRecord) → turn.tool_invocations ≡ [] → lawful_turn turn ≡ true
unfolding lawful_turn
new_turn-lawful_turn turn own = ground arith

module _ (sessions : Sessions) (lawful : LawfulIn sessions) where
  add_turn-LawfulIn :
      (session_id : SessionId) (binding : ModelBinding) (turn : TurnRecord)
      → turn.tool_invocations ≡ []
      → Holds LawfulIn (add_turn sessions session_id binding turn)
  unfolding add_turn
  add_turn-LawfulIn session_id binding turn own =
      let added : Result RuntimeErrorCode Sessions =
        ok (update session_id (push_turn turn) sessions) in
      let checked : SessionRecord → Result RuntimeErrorCode (Unit {0}) = λ session.
        refuse_if
          (not (session.binding == binding)
            || any (is_same_turn turn.turn_id turn.request_id) session.turns
            || not (is_running turn))
          recovery in
      >>=-Holds LawfulIn (ok_or (get session_id sessions) recovery)
        (λ session. checked session >> added)
        λ session _. >>-Holds LawfulIn (checked session) added λ _ _.
          update-LawfulIn sessions session_id (push_turn turn)
            (λ old _ before.
              all-push lawful_turn lawful_turn old.turns turn before
                (new_turn-lawful_turn turn own))
            lawful

  store_compaction-LawfulIn :
      (session_id : SessionId) (compaction : CompactionRecord) (now : ℕ)
      → Holds LawfulIn (store_compaction sessions session_id compaction now)
  unfolding store_compaction
  store_compaction-LawfulIn session_id compaction now =
      let stored : Result RuntimeErrorCode Sessions =
        ok (update session_id (store_pointer compaction now) sessions) in
      >>=-Holds LawfulIn (ok_or (get session_id sessions) recovery)
        (λ session. check_compaction session compaction >> stored)
        λ session _. >>-Holds LawfulIn (check_compaction session compaction) stored λ _ _.
          update-LawfulIn sessions session_id (store_pointer compaction now) (λ _ _ before. before)
            lawful

  add_decision-LawfulIn :
      (session_id : SessionId) (turn_id : TurnId) (proposed : ToolDecision) (now : ℕ)
      → Holds LawfulIn (add_decision sessions session_id turn_id proposed now)
  unfolding add_decision
  add_decision-LawfulIn session_id turn_id proposed now =
      >>=-Holds LawfulIn (map_err (validate_decision proposed) recovery)
        (λ decision. find_tool_mut sessions session_id turn_id decision.call_id >>= λ tool.
          decidable tool
          >> change_turn sessions session_id turn_id now
              (set_tool (decide decision now) decision.call_id))
        λ decision _.
          set_tool-LawfulIn sessions lawful session_id turn_id decision.call_id now decidable
            (decide decision now) λ tool allowed _ _. decide-lawful_tool decision now tool allowed

  add_start-LawfulIn :
      (session_id : SessionId) (turn_id : TurnId) (call_id : ToolCallId) (now : ℕ)
      → Holds LawfulIn (add_start sessions session_id turn_id call_id now)
  unfolding add_start
  add_start-LawfulIn session_id turn_id call_id now =
      set_tool-LawfulIn sessions lawful session_id turn_id call_id now startable (start now)
        λ tool allowed _ _. start-lawful_tool now tool allowed

  add_result-LawfulIn :
      (session_id : SessionId) (turn_id : TurnId) (proposed : ToolResult) (now : ℕ)
      → Holds LawfulIn (add_result sessions session_id turn_id proposed now)
  unfolding add_result
  add_result-LawfulIn session_id turn_id proposed now =
      >>=-Holds LawfulIn (map_err (validate_result proposed) recovery)
        (λ result. find_tool_mut sessions session_id turn_id result.call_id >>= λ tool.
          endable result tool
          >> change_turn sessions session_id turn_id now (set_tool (end result now) result.call_id))
        λ result _.
          set_tool-LawfulIn sessions lawful session_id turn_id result.call_id now (endable result)
            (end result now) (end-lawful_tool result now)

with_sessions-LawfulIn :
    (m : SessionMachine) (done : Result RuntimeErrorCode Sessions)
    → Holds LawfulIn done
    → Holds (λ m'. LawfulIn m'.sessions) (with_sessions m done)
with_sessions-LawfulIn m (ok sessions) h = h
with_sessions-LawfulIn m (err e) h = tt

pub apply_journal-LawfulIn :
    (json : Json) (m : SessionMachine) (entry : JournalRecord)
    → Own m entry
    → LawfulIn m.sessions
    → Holds (λ m'. LawfulIn m'.sessions) (apply_journal json m entry)
unfolding apply_journal
apply_journal-LawfulIn json m (session_created session) own lawful =
    create_session-LawfulIn m session own lawful
apply_journal-LawfulIn json m (session_activated session_id now) own lawful =
    activate_session-LawfulIn m session_id now lawful
apply_journal-LawfulIn json m (turn_started session_id binding turn) own lawful =
    with_sessions-LawfulIn m _ (add_turn-LawfulIn m.sessions lawful session_id binding turn own.1)
apply_journal-LawfulIn json m (turn_delta session_id turn_id delta now) own lawful =
    with_sessions-LawfulIn m _ (add_delta-LawfulIn m.sessions lawful session_id turn_id delta now)
apply_journal-LawfulIn json m (turn_terminal session_id receipt message now) own lawful =
    with_sessions-LawfulIn m _
      (apply_terminal-LawfulIn m.sessions lawful session_id receipt message now)
apply_journal-LawfulIn json m (tool_requested session_id turn_id invocation now) own lawful =
    with_sessions-LawfulIn m _
      (add_tool-LawfulIn m.sessions lawful json session_id turn_id invocation now)
apply_journal-LawfulIn json m (tool_decision_recorded session_id turn_id decision now) own lawful =
    with_sessions-LawfulIn m _
      (add_decision-LawfulIn m.sessions lawful session_id turn_id decision now)
apply_journal-LawfulIn json m (tool_started session_id turn_id call_id now) own lawful =
    with_sessions-LawfulIn m _ (add_start-LawfulIn m.sessions lawful session_id turn_id call_id now)
apply_journal-LawfulIn json m (tool_terminal session_id turn_id result now) own lawful =
    with_sessions-LawfulIn m _ (add_result-LawfulIn m.sessions lawful session_id turn_id result now)
apply_journal-LawfulIn json m (recovery_applied session_id receipt message now) own lawful =
    with_sessions-LawfulIn m _
      (apply_terminal-LawfulIn m.sessions lawful session_id receipt message now)
apply_journal-LawfulIn json m (compaction_stored session_id compaction now) own lawful =
    with_sessions-LawfulIn m _
      (store_compaction-LawfulIn m.sessions lawful session_id compaction now)
apply_journal-LawfulIn json m (trace_stored session_id entry) own lawful =
    >>-Holds (λ m'. LawfulIn m'.sessions)
      (refuse_if (not (contains_key session_id m.sessions)) recovery) (ok m) λ _ _. lawful
