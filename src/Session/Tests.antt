-- ===== src/Session/Tests.antt =====
-- A workspace with one session and a turn that calls a tool (crates/core/src/session.rs), and the
-- theorems at it.
use wiki_coding.Prelude.{◌≤◌}
use wiki_coding.Session.Running.{running_turns}
use wiki_coding.Session.OneTurn.{one_turn_runs}
use wiki_coding.Prelude.{
  ◌≡◌, refl, true, false, none, some, [], ◌∷◌, ok, err, all, any, get, insert, update, map_values,
  contains_key, String_discrete, ℕ_discrete, is_blank, is_code_text, all_chars, is_whitespace,
}
use wiki_coding.Protocol.Tool.{
  validate_decision, validate_result, tool_invocation, arguments_value, validate_tool_name,
  validate_code, ToolDecisionKind-discrete, ToolTerminalStatus-discrete,
}
use wiki_coding.Protocol.Runtime.{recovery, configuration, workspace_busy, output_settings}
use wiki_coding.Protocol.Request.{validate_request, collect_definitions, check_messages, byte_len}
use wiki_coding.Protocol.Session.{
  SessionRecordV1, TurnStatus-discrete, ModelBinding-discrete, SessionRecordV1-discrete, is_over,
}
use wiki_coding.Session.{
  SessionMachine, SessionEffect, finalize, new, active_session, all_turns, has_running_turn,
  running_session_for, status_from_outcome,
}
use wiki_coding.Session.Journal.{
  create_session, add_turn, apply_terminal, find_turn_mut, find_tool_mut, terminal_is_legal,
}
use wiki_coding.Session.ToolRecords.{add_tool, add_decision, add_start, add_result}
use wiki_coding.Session.Records.{apply_journal, apply_record}
use wiki_coding.Session.Request.{history, turn_request}
use wiki_coding.Session.Machine.{admit, persist_record, begin_turn, start, replay_one}
use wiki_coding.Session.Commands.{
  apply, replay, replay_from, record_running, create_command, finalize_command, continued,
}
use wiki_coding.Session.Rebuild.{
  Run, run, empty_run, is_clean_run, journal_rebuilds, reused_id_breaks_replay,
}
use wiki_coding.Session.Lawful.{lawful_turn}
use wiki_coding.Session.ToolCalls.{tool_calls_lawful}
use wiki_coding.Session.Active.{active_session_unique}
use wiki_coding.Session.Final.{ended_turn_final}
use wiki_coding.Session.LateFailure.{late_failure_leaves_turn}
use wiki_coding.Session.Turns.{turn_in}
use wiki_coding.Session.Journal.{is_same_turn}
use wiki_coding.Session.{persist}
use wiki_coding.Session.Commands.{created}
use wiki_coding.Session.Machine.{new_turn}
use wiki_coding.Protocol.Session.{session_record_v1, turn_started}
use wiki_coding.Session.Samples.{
  binding, receipt, working, ended_turn, session, resting, tokenless, reusing, asked,
}
use wiki_coding.Samples.{toy_json}

abbrev worked : Run toy_json
worked = run toy_json (empty_run toy_json) working

-- Seven records are written; the last command fails, since its session exists.
clean_test : is_clean_run toy_json (empty_run toy_json) working ≡ true
unfolding is_clean_run apply create_command persist_record admit apply_record apply_journal
    create_session contains_key get insert map_values start begin_turn has_running_turn all_turns
    is_blank all_chars is_whitespace active_session add_turn update turn_request history
    output_settings validate_request collect_definitions check_messages byte_len record_running
    running_session_for add_tool tool_invocation arguments_value find_turn_mut find_tool_mut
    add_decision validate_decision validate_code is_code_text add_start add_result validate_result
    validate_tool_name terminal_is_legal finalize_command apply_terminal status_from_outcome
    String_discrete ℕ_discrete TurnStatus-discrete ModelBinding-discrete SessionRecordV1-discrete
    ToolDecisionKind-discrete ToolTerminalStatus-discrete new
clean_test = refl

journal_rebuilds_example : replay toy_json worked.journal ≡ ok worked.machine
journal_rebuilds_example = journal_rebuilds toy_json working clean_test

-- The session after the whole work.
worked_test : get "session" worked.machine.sessions ≡ some (session (ended_turn ∷ []) 7)
unfolding run apply create_command persist_record admit apply_record apply_journal create_session
    contains_key get insert map_values start begin_turn has_running_turn all_turns is_blank
    all_chars is_whitespace active_session add_turn update turn_request history output_settings
    validate_request collect_definitions check_messages byte_len record_running running_session_for
    add_tool tool_invocation arguments_value find_turn_mut find_tool_mut add_decision
    validate_decision validate_code is_code_text add_start add_result validate_result
    validate_tool_name terminal_is_legal finalize_command apply_terminal status_from_outcome
    String_discrete ℕ_discrete TurnStatus-discrete ModelBinding-discrete SessionRecordV1-discrete
    ToolDecisionKind-discrete ToolTerminalStatus-discrete new
worked_test = refl

tool_calls_lawful_example : all lawful_turn (ended_turn ∷ []) ≡ true
tool_calls_lawful_example =
    tool_calls_lawful toy_json working "session" (session (ended_turn ∷ []) 7) refl worked_test

active_session_unique_example : active_session worked.machine ≡ some (session (ended_turn ∷ []) 7)
active_session_unique_example =
    active_session_unique toy_json working "session" (session (ended_turn ∷ []) 7) worked_test refl

resting_test : turn_in resting.sessions "session" "turn" ≡ some ended_turn
unfolding turn_in get String_discrete
resting_test = refl

over_test : is_over ended_turn.status ≡ true
unfolding is_over
over_test = refl

ended_turn_final_example :
    turn_in (apply toy_json resting (finalize "r9" receipt none 9)).0.sessions "session" "turn"
    ≡ some ended_turn
ended_turn_final_example =
    ended_turn_final toy_json resting (finalize "r9" receipt none 9) "session" "turn" ended_turn
      resting_test over_test

refused_test : (apply toy_json resting (finalize "r9" receipt none 9)).1 ≡ err recovery
unfolding apply finalize_command running_session_for String_discrete TurnStatus-discrete
refused_test = refl

idle_test : has_running_turn resting ≡ false
unfolding has_running_turn all_turns TurnStatus-discrete
idle_test = refl

text_test : is_blank "again" ≡ false
unfolding is_blank all_chars is_whitespace ℕ_discrete
text_test = refl

stored_test : get "session" resting.sessions ≡ some (session (ended_turn ∷ []) 7)
unfolding get String_discrete
stored_test = refl

fresh_test : any (is_same_turn "turn-2" "request-2") (ended_turn ∷ []) ≡ false
unfolding String_discrete
fresh_test = refl

tokens_test : output_settings 0 ≡ err configuration
unfolding output_settings ℕ_discrete
tokens_test = refl

late_failure_leaves_turn_example :
    ((start toy_json resting tokenless).1 ≡ err configuration)
    × (turn_in (start toy_json resting tokenless).0.sessions "session" "turn-2"
        ≡ some (new_turn toy_json tokenless))
    × ((start toy_json (start toy_json resting tokenless).0 (continued "r11" "t3" "q3" "x" 5 11)).1
        ≡ err workspace_busy)
late_failure_leaves_turn_example =
    late_failure_leaves_turn toy_json resting tokenless (continued "r11" "t3" "q3" "x" 5 11)
      (session (ended_turn ∷ []) 7) idle_test text_test refl stored_test fresh_test tokens_test

abbrev first_record : SessionRecordV1
first_record = session_record_v1 "r1" (created "session" binding 1)

abbrev second_record : SessionRecordV1
second_record = session_record_v1 "r1" (turn_started "session" binding (new_turn toy_json reusing))

abbrev created_machine : SessionMachine
created_machine = record {
  sessions = ("session", session [] 1) ∷ [];
  active_session_id = some "session";
  seen_records = ("r1", first_record) ∷ [];
}

created_test : replay toy_json (first_record ∷ []) ≡ ok created_machine
unfolding replay replay_from replay_one admit apply_record apply_journal create_session contains_key
    get insert map_values new
created_test = refl

seen_test : get "r1" created_machine.seen_records ≡ some first_record
unfolding get String_discrete
seen_test = refl

restarted_test :
    (start toy_json created_machine reusing).1
    ≡ ok (persist second_record ∷ SessionEffect.start_turn asked ∷ [])
unfolding start begin_turn admit apply_record apply_journal contains_key get insert has_running_turn
    all_turns is_blank all_chars is_whitespace active_session add_turn update turn_request history
    output_settings validate_request collect_definitions check_messages byte_len String_discrete
    ℕ_discrete TurnStatus-discrete ModelBinding-discrete
restarted_test = refl

reused_id_breaks_replay_example : replay toy_json (first_record ∷ second_record ∷ []) ≡ err recovery
reused_id_breaks_replay_example =
    reused_id_breaks_replay toy_json created_machine (first_record ∷ []) reusing first_record
      second_record (persist second_record ∷ SessionEffect.start_turn asked ∷ []) created_test
      seen_test restarted_test refl (λ same. cc)

one_turn_runs_example : running_turns worked.machine.sessions ≤ 1
one_turn_runs_example = one_turn_runs toy_json working refl
