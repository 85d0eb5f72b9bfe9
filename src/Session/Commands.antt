-- ===== src/Session/Commands.antt =====
-- Every command of a session: `SessionMachine::apply` and `replay` of crates/core/src/session.rs.
use wiki_coding.Prelude.{
  ℕ, String, Bool, true, false, not, Option, none, some, List, [], ◌∷◌, ◌++◌, ◌||◌, Result, ok, err,
  refuse_if, ◌>>=◌, ◌>>◌, contains_key,
}
use wiki_coding.Protocol.Json.{Json}
use wiki_coding.Protocol.Event.{SessionId, TurnId}
use wiki_coding.Protocol.Runtime.{
  RequestId, RuntimeErrorCode, recovery, workspace_busy, RuntimeTerminalOutcome, TurnReceipt,
}
use wiki_coding.Protocol.Session.{
  RecordId, ModelBinding, SessionStatus, is_over, JournalRecord, SessionRecordV1, session_record_v1,
  session_created, session_activated, turn_delta, turn_terminal, tool_requested,
  tool_decision_recorded, tool_started, tool_terminal, recovery_applied,
}
use wiki_coding.Session.{
  SessionMachine, SessionCommand, SessionEffect, StartTurnInput, new, create, list, resume,
  continue, record_delta, interrupt, retry, finalize, record_tool_requested, record_tool_decision,
  record_tool_started, record_tool_terminal, recover, replay_record, listed, activated, abort_turn,
  finalized, has_running_turn, running_session_for, find_turn, interrupted_receipt, summaries,
  message_of, partial_message,
}
use wiki_coding.Session.Machine.{Reply, settle, persist_record, replay_one, start}

abbrev pub created : SessionId → ModelBinding → ℕ → JournalRecord
created session_id binding now = session_created (record {
  session_id = session_id;
  created_at_unix_ms = now;
  updated_at_unix_ms = now;
  status = SessionStatus.active;
  binding = binding;
  turns = [];
  compaction = none;
})

abbrev pub is_unfinished : RuntimeTerminalOutcome → Bool
is_unfinished RuntimeTerminalOutcome.completed = false
is_unfinished _ = true

abbrev pub continued : RecordId → TurnId → RequestId → String → ℕ → ℕ → StartTurnInput
continued record_id turn_id request_id user_input max_output_tokens now = record {
  record_id = record_id;
  turn_id = turn_id;
  request_id = request_id;
  retry_of = none;
  user_input = user_input;
  max_output_tokens = max_output_tokens;
  now_unix_ms = now;
}

module _ (json : Json) where
  abbrev Outcome : Type 0
  Outcome = Result RuntimeErrorCode (SessionMachine × List (SessionEffect json))

  -- The commands that write one record about a turn that runs.
  unfoldable pub record_running :
      SessionMachine → RecordId → TurnId → (SessionId → JournalRecord) → Outcome
  unfolding running_session_for persist_record
  record_running m record_id turn_id entry = do
    session ← running_session_for m turn_id
    persist_record json m (session_record_v1 record_id (entry session.session_id)) []

  unfoldable pub create_command : SessionMachine → RecordId → SessionId → ModelBinding → ℕ → Outcome
  unfolding persist_record
  create_command m record_id session_id binding now = do
    refuse_if (contains_key session_id m.sessions) recovery
    persist_record json m (session_record_v1 record_id (created session_id binding now)) []

  unfoldable pub resume_command : SessionMachine → RecordId → SessionId → ℕ → Outcome
  unfolding has_running_turn persist_record
  resume_command m record_id session_id now = do
    refuse_if (has_running_turn m) workspace_busy
    refuse_if (not (contains_key session_id m.sessions)) recovery
    persist_record json m (session_record_v1 record_id (session_activated session_id now))
        (activated session_id ∷ [])

  abbrev pub and_finalized : TurnReceipt → SessionMachine × List (SessionEffect json) → Outcome
  and_finalized receipt (m, effects) = ok (m, effects ++ (finalized receipt ∷ []))

  unfoldable pub interrupt_command :
      SessionMachine → RecordId → TurnId → Option String → ℕ → Outcome
  unfolding interrupted_receipt persist_record
  interrupt_command m record_id turn_id partial_assistant now = do
    receipt ← interrupted_receipt m turn_id
    persisted ←
        persist_record json m
          (session_record_v1 record_id
            (turn_terminal receipt.session_id receipt (partial_message partial_assistant) now))
          (abort_turn receipt.turn_id ∷ [])
    and_finalized receipt persisted

  unfoldable pub finalize_command :
      SessionMachine → RecordId → TurnReceipt → Option String → ℕ → Outcome
  unfolding running_session_for persist_record
  finalize_command m record_id receipt assistant_content now = do
    running_session_for m receipt.turn_id
    persist_record json m
        (session_record_v1 record_id (
          turn_terminal receipt.session_id receipt
            (message_of (is_unfinished receipt.outcome) assistant_content) now))
        (finalized receipt ∷ [])

  unfoldable pub recover_command : SessionMachine → RecordId → TurnId → Option String → ℕ → Outcome
  unfolding interrupted_receipt persist_record
  recover_command m record_id turn_id partial_assistant now = do
    receipt ← interrupted_receipt m turn_id
    persist_record json m
        (session_record_v1 record_id
          (recovery_applied receipt.session_id receipt (partial_message partial_assistant) now))
        (finalized receipt ∷ [])

  -- `Retry` up to its call of `start_turn`: the input of the source turn.
  unfoldable pub retry_input :
      SessionMachine
      → RecordId
      → TurnId
      → TurnId
      → String
      → ℕ
      → ℕ
      → Result RuntimeErrorCode StartTurnInput
  unfolding find_turn has_running_turn is_over
  retry_input m record_id source_turn_id new_turn_id request_id max_output_tokens now = do
    source ← find_turn m source_turn_id
    refuse_if (not (is_over source.status) || has_running_turn m) workspace_busy
    ok (record {
      record_id = record_id;
      turn_id = new_turn_id;
      request_id = request_id;
      retry_of = some source_turn_id;
      user_input = source.user_message.content;
      max_output_tokens = max_output_tokens;
      now_unix_ms = now;
    })

  abbrev pub retry_from :
      SessionMachine → Result RuntimeErrorCode StartTurnInput → SessionMachine × Reply json
  retry_from m (ok input) = start json m input
  retry_from m (err e) = (m, err e)

  unfoldable pub apply : SessionMachine → SessionCommand → SessionMachine × Reply json
  unfolding record_running create_command resume_command interrupt_command finalize_command
      recover_command retry_input summaries replay_one start
  apply m (create record_id session_id binding now) =
      settle json m (create_command m record_id session_id binding now)
  apply m list = (m, ok (listed (summaries m) ∷ []))
  apply m (resume record_id session_id now) =
      settle json m (resume_command m record_id session_id now)
  apply m (continue record_id turn_id request_id user_input max_output_tokens now) =
      start json m (continued record_id turn_id request_id user_input max_output_tokens now)
  apply m (record_delta record_id turn_id delta now) =
      settle json m
        (record_running m record_id turn_id (λ session_id. turn_delta session_id turn_id delta now))
  apply m (interrupt record_id turn_id partial_assistant now) =
      settle json m (interrupt_command m record_id turn_id partial_assistant now)
  apply m (retry record_id source_turn_id new_turn_id request_id max_output_tokens now) =
      retry_from m
        (retry_input m record_id source_turn_id new_turn_id request_id max_output_tokens now)
  apply m (finalize record_id receipt assistant_content now) =
      settle json m (finalize_command m record_id receipt assistant_content now)
  apply m (record_tool_requested record_id turn_id invocation now) = settle json m (
      record_running m record_id turn_id
        (λ session_id. tool_requested session_id turn_id invocation now))
  apply m (record_tool_decision record_id turn_id decision now) = settle json m (
      record_running m record_id turn_id
        (λ session_id. tool_decision_recorded session_id turn_id decision now))
  apply m (record_tool_started record_id turn_id call_id now) = settle json m (
      record_running m record_id turn_id
        (λ session_id. tool_started session_id turn_id call_id now))
  apply m (record_tool_terminal record_id turn_id result now) = settle json m (
      record_running m record_id turn_id
        (λ session_id. tool_terminal session_id turn_id result now))
  apply m (recover record_id turn_id partial_assistant now) =
      settle json m (recover_command m record_id turn_id partial_assistant now)
  apply m (replay_record envelope) = settle json m (replay_one json m envelope)

  -- `SessionMachine::replay`: the first record that is refused ends it.
  unfoldable pub replay_from :
      SessionMachine → List SessionRecordV1 → Result RuntimeErrorCode SessionMachine
  unfolding replay_one
  replay_from m [] = ok m
  replay_from m (envelope ∷ records) = do
    replayed ← replay_one json m envelope
    replay_from replayed.0 records

  unfoldable pub replay : List SessionRecordV1 → Result RuntimeErrorCode SessionMachine
  unfolding replay_from
  replay records = replay_from new records
