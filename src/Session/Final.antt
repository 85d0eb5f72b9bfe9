-- ===== src/Session/Final.antt =====
-- A turn that is over is final (crates/core/src/session.rs).
use wiki_coding.Prelude.{
  ℕ, ◌≡◌, sym, ap, subst, ◌∙◌, true, not, some, ◌||◌, any, find, Result, ok, err, ok_or, refuse_if,
  ◌>>◌, ◌==◌, string_eq, get, update, contains_key, map_values, insert, get-update, get-insert,
  get-map_values, arith, Holds, >>=-Holds, >>-Holds, Holds-ok, Bool-cases, Option-cases, inl, inr,
}
use wiki_coding.Protocol.Json.{Json}
use wiki_coding.Protocol.Event.{SessionId, TurnId}
use wiki_coding.Protocol.Runtime.{RuntimeErrorCode, recovery}
use wiki_coding.Protocol.Session.{
  TurnRecord, SessionRecord, JournalRecord, is_over, SessionStatus, model_binding_eq, ModelBinding,
  CompactionRecord, session_created, session_activated, turn_started, turn_delta, turn_terminal,
  tool_requested, tool_decision_recorded, tool_started, tool_terminal, recovery_applied,
  compaction_stored, trace_stored,
}
use wiki_coding.Session.{SessionCommand, SessionMachine, has_id, is_running}
use wiki_coding.Session.Journal.{
  Sessions, push_turn, create_session, activate_session, activate, is_same_turn, add_turn,
  add_delta, apply_terminal,
}
use wiki_coding.Session.ToolRecords.{
  startable, start, add_tool, add_decision, add_start, add_result,
}
use wiki_coding.Session.Records.{
  apply_journal, apply_record, store_compaction, with_sessions, check_compaction, store_pointer,
}
use wiki_coding.Session.Turns.{turn_in, find-push}
use wiki_coding.Session.Ended.{
  Kept, add_delta-Kept, apply_terminal-Kept, add_tool-Kept, add_decision-Kept, add_result-Kept,
  set_tool-Kept,
}
use wiki_coding.Session.Machine.{admit}
use wiki_coding.Session.Commands.{apply}
use wiki_coding.Session.Moves.{admit-succeeds, apply-Moved}

create_session-Kept :
    (m : SessionMachine) (session : SessionRecord)
    → Holds (λ m'. Kept m.sessions m'.sessions) (create_session m session)
unfolding create_session turn_in contains_key
create_session-Kept m session =
    let archive : SessionRecord → SessionRecord =
      λ existing. record existing { status = SessionStatus.archived } in
    elim (Bool-cases (contains_key session.session_id m.sessions)) [
      | inl used ↦ ground arith
      | inr fresh ↦
          subst
            (λ b.
              Holds (λ m'. Kept m.sessions m'.sessions)
                (refuse_if b recovery
                  >> ok (record m {
                    sessions = insert session.session_id session (map_values archive m.sessions);
                    active_session_id = some session.session_id;
                  })))
            (sym fresh)
            λ k j ended found over.
              let read = get-insert session.session_id k session (map_values archive m.sessions) in
              let same = get-map_values k archive m.sessions in
              elim (Option-cases (get k m.sessions)) [
                | inl none_there ↦ ground arith
                | inr (old, there) ↦ ground arith
              ]
    ]

activate_session-Kept :
    (m : SessionMachine) (session_id : SessionId) (now : ℕ)
    → Holds (λ m'. Kept m.sessions m'.sessions) (activate_session m session_id now)
unfolding activate_session turn_in contains_key
activate_session-Kept m session_id now =
    >>-Holds (λ m'. Kept m.sessions m'.sessions)
      (refuse_if (not (contains_key session_id m.sessions)) recovery)
      (ok (record m {
        sessions = map_values (activate session_id now) m.sessions;
        active_session_id = some session_id;
      }))
      λ _ _ k j ended found over.
        let same = get-map_values k (activate session_id now) m.sessions in
        elim (Option-cases (get k m.sessions)) [
          | inl none_there ↦ ground arith
          | inr (old, there) ↦ ground arith
        ]

-- A write to one session that leaves the turns that were there.
update-Kept :
    (sessions : Sessions) (session_id : SessionId) (change : SessionRecord → SessionRecord)
    → ((session : SessionRecord) (turn_id : TurnId) (turn : TurnRecord)
        → find (has_id turn_id) session.turns ≡ some turn
        → find (has_id turn_id) (change session).turns ≡ some turn)
    → Kept sessions (update session_id change sessions)
unfolding turn_in
update-Kept sessions session_id change keeps k j ended found over =
    let read = get-update session_id k change sessions in
    elim (Option-cases (get k sessions)) [
      | inl none_there ↦ ground arith
      | inr (old, there) ↦ ground (arith, keeps old j ended)
    ]

add_turn-Kept :
    (sessions : Sessions) (session_id : SessionId) (binding : ModelBinding) (turn : TurnRecord)
    → Holds (Kept sessions) (add_turn sessions session_id binding turn)
unfolding add_turn
add_turn-Kept sessions session_id binding turn =
    let result : Result RuntimeErrorCode Sessions =
      ok (update session_id (push_turn turn) sessions) in
    let checked : SessionRecord → Result RuntimeErrorCode (Unit {0}) = λ session.
      refuse_if
        (not (session.binding == binding)
          || any (is_same_turn turn.turn_id turn.request_id) session.turns
          || not (is_running turn))
        recovery in
    >>=-Holds (Kept sessions) (ok_or (get session_id sessions) recovery)
      (λ session. checked session >> result)
      λ session _. >>-Holds (Kept sessions) (checked session) result λ _ _.
        update-Kept sessions session_id (push_turn turn)
          λ session k found there. find-push k turn session.turns ∙ ground arith

store_compaction-Kept :
    (sessions : Sessions) (session_id : SessionId) (compaction : CompactionRecord) (now : ℕ)
    → Holds (Kept sessions) (store_compaction sessions session_id compaction now)
unfolding store_compaction
store_compaction-Kept sessions session_id compaction now =
    let stored : Result RuntimeErrorCode Sessions =
      ok (update session_id (store_pointer compaction now) sessions) in
    >>=-Holds (Kept sessions) (ok_or (get session_id sessions) recovery)
      (λ session. check_compaction session compaction >> stored)
      λ session _.
        >>-Holds (Kept sessions) (check_compaction session compaction) stored
          λ _ _. update-Kept sessions session_id (store_pointer compaction now) λ _ _ _ there. there

with_sessions-Kept :
    (m : SessionMachine) (done : Result RuntimeErrorCode Sessions)
    → Holds (Kept m.sessions) done
    → Holds (λ m'. Kept m.sessions m'.sessions) (with_sessions m done)
with_sessions-Kept m (ok sessions) h = h
with_sessions-Kept m (err e) h = tt

apply_journal-Kept :
    (json : Json) (m : SessionMachine) (entry : JournalRecord)
    → Holds (λ m'. Kept m.sessions m'.sessions) (apply_journal json m entry)
unfolding apply_journal add_decision add_start add_result
apply_journal-Kept json m (session_created session) = create_session-Kept m session
apply_journal-Kept json m (session_activated session_id now) =
    activate_session-Kept m session_id now
apply_journal-Kept json m (turn_started session_id binding turn) =
    with_sessions-Kept m (add_turn m.sessions session_id binding turn)
      (add_turn-Kept m.sessions session_id binding turn)
apply_journal-Kept json m (turn_delta session_id turn_id delta now) =
    with_sessions-Kept m (add_delta m.sessions session_id turn_id delta now)
      (add_delta-Kept m.sessions session_id turn_id delta now)
apply_journal-Kept json m (turn_terminal session_id receipt message now) =
    with_sessions-Kept m (apply_terminal m.sessions session_id receipt message now)
      (apply_terminal-Kept m.sessions session_id receipt message now)
apply_journal-Kept json m (tool_requested session_id turn_id invocation now) =
    with_sessions-Kept m (add_tool json m.sessions session_id turn_id invocation now)
      (add_tool-Kept json m.sessions session_id turn_id invocation now)
apply_journal-Kept json m (tool_decision_recorded session_id turn_id decision now) =
    with_sessions-Kept m (add_decision m.sessions session_id turn_id decision now)
      (add_decision-Kept m.sessions session_id turn_id decision now)
apply_journal-Kept json m (tool_started session_id turn_id call_id now) =
    with_sessions-Kept m (add_start m.sessions session_id turn_id call_id now)
      (set_tool-Kept m.sessions session_id turn_id call_id now startable (start now))
apply_journal-Kept json m (tool_terminal session_id turn_id result now) =
    with_sessions-Kept m (add_result m.sessions session_id turn_id result now)
      (add_result-Kept m.sessions session_id turn_id result now)
apply_journal-Kept json m (recovery_applied session_id receipt message now) =
    with_sessions-Kept m (apply_terminal m.sessions session_id receipt message now)
      (apply_terminal-Kept m.sessions session_id receipt message now)
apply_journal-Kept json m (compaction_stored session_id compaction now) =
    with_sessions-Kept m (store_compaction m.sessions session_id compaction now)
      (store_compaction-Kept m.sessions session_id compaction now)
apply_journal-Kept json m (trace_stored session_id entry) =
    >>-Holds (λ m'. Kept m.sessions m'.sessions)
      (refuse_if (not (contains_key session_id m.sessions)) recovery) (ok m)
      λ _ _ k j turn there over. there

-- Whatever the command and its result: a turn that is over stays, with its answer, its receipt and
-- its tool calls, as it was.
pub ended_turn_final :
    (json : Json) (m : SessionMachine) (command : SessionCommand) (session_id : SessionId)
    (turn_id : TurnId) (turn : TurnRecord)
    → turn_in m.sessions session_id turn_id ≡ some turn
    → is_over turn.status ≡ true
    → turn_in (apply json m command).0.sessions session_id turn_id ≡ some turn
unfolding admit apply_record
ended_turn_final json m command session_id turn_id turn there over =
    elim (apply-Moved json m command) [
      | inl same ↦ ap (λ m'. turn_in m'.sessions session_id turn_id) same ∙ there
      | inr moved ↦
          let (changed, applied, remembered) =
            admit-succeeds json m (apply json m command).0 moved.envelope moved.admitted in
          let still =
            Holds-ok (λ m'. Kept m.sessions m'.sessions)
              (apply_journal json m moved.envelope.journal_record) applied
              (apply_journal-Kept json m moved.envelope.journal_record) session_id turn_id turn
              there over in
          ap (λ m'. turn_in m'.sessions session_id turn_id) remembered ∙ still
    ]
