-- ===== src/Session/OneTurn.antt =====
-- Only one turn runs at a time (crates/core/src/session.rs).
use wiki_coding.Prelude.{
  ℕ, ◌+◌, ◌≤◌, ◌≡◌, refl, sym, subst, false, not, some, List, [], ◌∷◌, ◌||◌, any, count_if,
  count_if-append, Result, ok, err, ok_or, refuse_if, ◌>>◌, ◌==◌, string_eq, get, get-map_values,
  update, values, contains_key, map_values, insert, arith, Holds, >>=-Holds, >>-Holds, Holds-ok,
  inl, inr,
}
use wiki_coding.Protocol.Json.{Json}
use wiki_coding.Protocol.Event.{SessionId}
use wiki_coding.Protocol.Runtime.{RuntimeErrorCode, recovery}
use wiki_coding.Protocol.Session.{
  TurnRecord, SessionRecord, JournalRecord, SessionStatus, ModelBinding, model_binding_eq,
  turn_status_eq, CompactionRecord, session_created, session_activated, turn_started, turn_delta,
  turn_terminal, tool_requested, tool_decision_recorded, tool_started, tool_terminal,
  recovery_applied, compaction_stored, trace_stored,
}
use wiki_coding.Session.{
  SessionMachine, SessionCommand, is_running, all_turns, has_running_turn, new,
}
use wiki_coding.Session.Journal.{
  Sessions, push_turn, create_session, activate_session, activate, is_same_turn, add_turn,
}
use wiki_coding.Session.ToolRecords.{startable, start, add_start}
use wiki_coding.Session.Records.{
  apply_journal, store_compaction, store_pointer, check_compaction, with_sessions,
}
use wiki_coding.Session.Commands.{apply}
use wiki_coding.Session.Writes.{Own}
use wiki_coding.Session.Moves.{admit-succeeds, apply-Moved, is_reading}
use wiki_coding.Session.Rebuild.{Run, run, step, empty_run}
use wiki_coding.Session.Running.{
  running_turns, running_in, running_turns-update, running_turns-map_values, running_turns-insert,
}
use wiki_coding.Session.NoMore.{
  NoMore, add_delta-NoMore, apply_terminal-NoMore, add_tool-NoMore, set_tool-NoMore,
  add_decision-NoMore, add_result-NoMore,
}

abbrev Alone : SessionMachine → Type 0
Alone m = running_turns m.sessions ≤ 1

any-count_if :
    (turns : List TurnRecord) → any is_running turns ≡ false → count_if is_running turns ≡ 0
unfolding count_if
any-count_if [] idle = refl
any-count_if (turn ∷ turns) idle = ground (arith, any-count_if turns)

create_session-Alone :
    (m : SessionMachine) (session : SessionRecord)
    → session.turns ≡ []
    → Alone m
    → Holds Alone (create_session m session)
unfolding create_session contains_key
create_session-Alone m session own alone =
    let archive : SessionRecord → SessionRecord =
      λ existing. record existing { status = SessionStatus.archived } in
    let made : SessionMachine = record m {
      sessions = insert session.session_id session (map_values archive m.sessions);
      active_session_id = some session.session_id;
    } in
    >>-Holds Alone (refuse_if (contains_key session.session_id m.sessions) recovery) (ok made)
      λ _ fresh.
        let read = get-map_values session.session_id archive m.sessions in
        let added =
          running_turns-insert session.session_id session (map_values archive m.sessions)
            (ground arith) own in
        let same = running_turns-map_values archive m.sessions λ _. refl in omega arith

activate_session-Alone :
    (m : SessionMachine) (session_id : SessionId) (now : ℕ)
    → Alone m
    → Holds Alone (activate_session m session_id now)
unfolding activate_session
activate_session-Alone m session_id now alone =
    let made : SessionMachine = record m {
      sessions = map_values (activate session_id now) m.sessions;
      active_session_id = some session_id;
    } in
    >>-Holds Alone (refuse_if (not (contains_key session_id m.sessions)) recovery) (ok made) λ _ _.
      let same = running_turns-map_values (activate session_id now) m.sessions λ _. ground arith in
      omega arith

push_turn-running_in :
    (turn : TurnRecord) (session : SessionRecord)
    → running_in (push_turn turn session) ≤ running_in session + 1
unfolding count_if
push_turn-running_in turn session =
    let parts = count_if-append is_running session.turns (turn ∷ []) in ground arith

add_turn-Alone :
    (m : SessionMachine) (session_id : SessionId) (binding : ModelBinding) (turn : TurnRecord)
    → has_running_turn m ≡ false
    → Holds (λ sessions. running_turns sessions ≤ 1) (add_turn m.sessions session_id binding turn)
unfolding add_turn has_running_turn running_turns
add_turn-Alone m session_id binding turn idle =
    let P : Sessions → Type 0 = λ sessions. running_turns sessions ≤ 1 in
    let added : Result RuntimeErrorCode Sessions =
      ok (update session_id (push_turn turn) m.sessions) in
    let checked : SessionRecord → Result RuntimeErrorCode (Unit {0}) = λ session.
      refuse_if
        (not (session.binding == binding)
          || any (is_same_turn turn.turn_id turn.request_id) session.turns
          || not (is_running turn))
        recovery in
    >>=-Holds P (ok_or (get session_id m.sessions) recovery) (λ session. checked session >> added)
      λ session _. >>-Holds P (checked session) added λ _ _.
        let none_ran = any-count_if (all_turns (values m.sessions)) idle in
        let one_more =
          running_turns-update session_id (push_turn turn) m.sessions 1
            λ found _. push_turn-running_in turn found in
        omega arith

store_compaction-NoMore :
    (sessions : Sessions) (session_id : SessionId) (compaction : CompactionRecord) (now : ℕ)
    → Holds (NoMore sessions) (store_compaction sessions session_id compaction now)
unfolding store_compaction
store_compaction-NoMore sessions session_id compaction now =
    let stored : Result RuntimeErrorCode Sessions =
      ok (update session_id (store_pointer compaction now) sessions) in
    >>=-Holds (NoMore sessions) (ok_or (get session_id sessions) recovery)
      (λ session. check_compaction session compaction >> stored)
      λ session _. >>-Holds (NoMore sessions) (check_compaction session compaction) stored λ _ _.
        let same =
          running_turns-update session_id (store_pointer compaction now) sessions 0
            λ _ _. omega arith in
        omega arith

NoMore-Alone :
    (m : SessionMachine) (done : Result RuntimeErrorCode Sessions)
    → Alone m
    → Holds (NoMore m.sessions) done
    → Holds Alone (with_sessions m done)
NoMore-Alone m (ok sessions) alone h = omega arith
NoMore-Alone m (err e) alone h = tt

with_sessions-Alone :
    (m : SessionMachine) (done : Result RuntimeErrorCode Sessions)
    → Holds (λ sessions. running_turns sessions ≤ 1) done
    → Holds Alone (with_sessions m done)
with_sessions-Alone m (ok sessions) h = h
with_sessions-Alone m (err e) h = tt

pub apply_journal-Alone :
    (json : Json) (m : SessionMachine) (entry : JournalRecord)
    → Own m entry
    → Alone m
    → Holds Alone (apply_journal json m entry)
unfolding apply_journal add_start
apply_journal-Alone json m (session_created session) own alone =
    create_session-Alone m session own alone
apply_journal-Alone json m (session_activated session_id now) own alone =
    activate_session-Alone m session_id now alone
apply_journal-Alone json m (turn_started session_id binding turn) own alone =
    with_sessions-Alone m _ (add_turn-Alone m session_id binding turn own.0)
apply_journal-Alone json m (turn_delta session_id turn_id delta now) own alone =
    NoMore-Alone m _ alone (add_delta-NoMore m.sessions session_id turn_id delta now)
apply_journal-Alone json m (turn_terminal session_id receipt message now) own alone =
    NoMore-Alone m _ alone (apply_terminal-NoMore m.sessions session_id receipt message now)
apply_journal-Alone json m (tool_requested session_id turn_id invocation now) own alone =
    NoMore-Alone m _ alone (add_tool-NoMore m.sessions json session_id turn_id invocation now)
apply_journal-Alone json m (tool_decision_recorded session_id turn_id decision now) own alone =
    NoMore-Alone m _ alone (add_decision-NoMore m.sessions session_id turn_id decision now)
apply_journal-Alone json m (tool_started session_id turn_id call_id now) own alone =
    NoMore-Alone m _ alone
      (set_tool-NoMore m.sessions session_id turn_id call_id now startable (start now))
apply_journal-Alone json m (tool_terminal session_id turn_id result now) own alone =
    NoMore-Alone m _ alone (add_result-NoMore m.sessions session_id turn_id result now)
apply_journal-Alone json m (recovery_applied session_id receipt message now) own alone =
    NoMore-Alone m _ alone (apply_terminal-NoMore m.sessions session_id receipt message now)
apply_journal-Alone json m (compaction_stored session_id compaction now) own alone =
    NoMore-Alone m _ alone (store_compaction-NoMore m.sessions session_id compaction now)
apply_journal-Alone json m (trace_stored session_id entry) own alone =
    >>-Holds Alone (refuse_if (not (contains_key session_id m.sessions)) recovery) (ok m)
      λ _ _. alone

apply-Alone :
    (json : Json) (m : SessionMachine) (command : SessionCommand)
    → is_reading command ≡ false
    → Alone m
    → Alone (apply json m command).0
apply-Alone json m command own alone = elim (apply-Moved json m command) [
  | inl same ↦ subst Alone (sym same) alone
  | inr moved ↦
      let (changed, applied, remembered) =
        admit-succeeds json m (apply json m command).0 moved.envelope moved.admitted in
      subst Alone (sym remembered) (
        Holds-ok Alone (apply_journal json m moved.envelope.journal_record) applied
          (apply_journal-Alone json m moved.envelope.journal_record (moved.own own) alone))
]

run-Alone :
    (json : Json) (r : Run json) (commands : List SessionCommand)
    → any is_reading commands ≡ false
    → Alone r.machine
    → Alone (run json r commands).machine
unfolding run
run-Alone json r [] own alone = alone
run-Alone json r (command ∷ commands) own alone =
    run-Alone json (step json r command) commands (ground arith)
      (apply-Alone json r.machine command (ground arith) alone)

-- After any commands on an empty workspace, none of which reads a record of a journal, and whatever
-- fails: no more than one turn runs, counted over all the sessions.
pub one_turn_runs :
    (json : Json) (commands : List SessionCommand)
    → any is_reading commands ≡ false
    → running_turns (run json (empty_run json) commands).machine.sessions ≤ 1
unfolding running_turns new count_if all_turns
one_turn_runs json commands own = run-Alone json (empty_run json) commands own (omega arith)
