-- ===== src/Session/Steps.antt =====
-- The commands that write a record or nothing (crates/core/src/session.rs): all but those that
-- start a turn or read a record.
use wiki_coding.Prelude.{◌≡◌, refl, Bool, true, false, List, Result, ok, err, Holds, inl}
use wiki_coding.Protocol.Json.{Json}
use wiki_coding.Protocol.Runtime.{RuntimeErrorCode}
use wiki_coding.Protocol.Session.{
  JournalRecord, session_record_eq, tool_requested, turn_delta, tool_decision_recorded,
  tool_started, tool_terminal,
}
use wiki_coding.Session.{
  SessionMachine, SessionCommand, SessionEffect, create, list, resume, continue, record_delta,
  interrupt, retry, finalize, record_tool_requested, record_tool_decision, record_tool_started,
  record_tool_terminal, recover, replay_record,
}
use wiki_coding.Session.Machine.{Reply, settle}
use wiki_coding.Session.Commands.{
  apply, record_running, create_command, resume_command, interrupt_command, finalize_command,
  recover_command,
}
use wiki_coding.Protocol.Event.{SessionId}
use wiki_coding.Session.Writes.{
  Writes, record_running-Writes, create_command-Writes, resume_command-Writes,
  finalize_command-Writes, recover_command-Writes, interrupt_command-Writes,
}

-- The commands that neither start a turn nor read a record.
abbrev pub is_ordinary : SessionCommand → Bool
is_ordinary (continue record_id turn_id request_id user_input max_output_tokens now) = false
is_ordinary (retry record_id source_turn_id new_turn_id request_id max_output_tokens now) = false
is_ordinary (replay_record envelope) = false
is_ordinary _ = true

module _ (json : Json) where
  -- A success writes a record or changes nothing; a failure changes nothing.
  abbrev pub Answered : SessionMachine → SessionMachine × Reply json → Type 0
  Answered m (m', ok effects) = Writes json m (m', effects)
  Answered m (m', err e) = m' ≡ m

  settle-Answered :
      (m : SessionMachine)
      (done : Result RuntimeErrorCode (SessionMachine × List (SessionEffect json)))
      → Holds (Writes json m) done
      → Answered m (settle json m done)
  settle-Answered m (err e) h = refl
  settle-Answered m (ok (m', effects)) h = h

  pub apply-Answered :
      (m : SessionMachine) (command : SessionCommand)
      → is_ordinary command ≡ true
      → Answered m (apply json m command)
  unfolding apply
  apply-Answered m (create record_id session_id binding now) ordinary =
      settle-Answered m (create_command json m record_id session_id binding now)
        (create_command-Writes json m record_id session_id binding now)
  apply-Answered m list ordinary = inl (refl, refl)
  apply-Answered m (resume record_id session_id now) ordinary =
      settle-Answered m (resume_command json m record_id session_id now)
        (resume_command-Writes json m record_id session_id now)
  apply-Answered m (continue record_id turn_id request_id user_input tokens now) ordinary = cc
  apply-Answered m (record_delta record_id turn_id delta now) ordinary =
      let entry : SessionId → JournalRecord =
        λ session_id. turn_delta session_id turn_id delta now in
      settle-Answered m (record_running json m record_id turn_id entry)
        (record_running-Writes json m record_id turn_id entry λ _. tt)
  apply-Answered m (interrupt record_id turn_id content now) ordinary =
      settle-Answered m (interrupt_command json m record_id turn_id content now)
        (interrupt_command-Writes json m record_id turn_id content now)
  apply-Answered m (retry record_id source_turn_id new_turn_id request_id tokens now) ordinary = cc
  apply-Answered m (finalize record_id receipt content now) ordinary =
      settle-Answered m (finalize_command json m record_id receipt content now)
        (finalize_command-Writes json m record_id receipt content now)
  apply-Answered m (record_tool_requested record_id turn_id invocation now) ordinary =
      let entry : SessionId → JournalRecord =
        λ session_id. tool_requested session_id turn_id invocation now in
      settle-Answered m (record_running json m record_id turn_id entry)
        (record_running-Writes json m record_id turn_id entry λ _. tt)
  apply-Answered m (record_tool_decision record_id turn_id decision now) ordinary =
      let entry : SessionId → JournalRecord =
        λ session_id. tool_decision_recorded session_id turn_id decision now in
      settle-Answered m (record_running json m record_id turn_id entry)
        (record_running-Writes json m record_id turn_id entry λ _. tt)
  apply-Answered m (record_tool_started record_id turn_id call_id now) ordinary =
      let entry : SessionId → JournalRecord =
        λ session_id. tool_started session_id turn_id call_id now in
      settle-Answered m (record_running json m record_id turn_id entry)
        (record_running-Writes json m record_id turn_id entry λ _. tt)
  apply-Answered m (record_tool_terminal record_id turn_id result now) ordinary =
      let entry : SessionId → JournalRecord =
        λ session_id. tool_terminal session_id turn_id result now in
      settle-Answered m (record_running json m record_id turn_id entry)
        (record_running-Writes json m record_id turn_id entry λ _. tt)
  apply-Answered m (recover record_id turn_id content now) ordinary =
      settle-Answered m (recover_command json m record_id turn_id content now)
        (recover_command-Writes json m record_id turn_id content now)
  apply-Answered m (replay_record envelope) ordinary = cc
