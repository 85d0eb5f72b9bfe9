-- ===== src/Session/Samples.antt =====
-- Values for the tests of sessions (crates/core/src/session.rs): the commands of a turn that calls
-- a tool, and the session after them.
use wiki_coding.Prelude.{ℕ, false, none, some, List, [], ◌∷◌}
use wiki_coding.Protocol.Event.{responses}
use wiki_coding.Protocol.Runtime.{TurnReceipt, RuntimeTerminalOutcome}
use wiki_coding.Protocol.Session.{ModelBinding, SessionRecord, TurnRecord, SessionStatus}
use wiki_coding.Session.{
  SessionMachine, SessionCommand, StartTurnInput, create, continue, record_tool_requested,
  record_tool_decision, record_tool_started, record_tool_terminal, finalize,
}
use wiki_coding.Session.Commands.{continued}
use wiki_coding.Protocol.Request.{TurnRequest}
use wiki_coding.Protocol.Session.{TurnStatus, ToolInvocationRecord}
use wiki_coding.Protocol.Runtime.{user, assistant, message}
use wiki_coding.Samples.{toy_json, invocation, approval, success}

abbrev pub binding : ModelBinding
binding = record { provider_id = "provider"; model_id = "model"; protocol = responses }

abbrev pub receipt : TurnReceipt
receipt = record {
  session_id = "session";
  turn_id = "turn";
  request_id = "request";
  outcome = RuntimeTerminalOutcome.completed;
  usage = none;
}

abbrev pub working : List SessionCommand
working =
    create "r1" "session" binding 1
    ∷ continue "r2" "turn" "request" "hello" 100 2
    ∷ record_tool_requested "r3" "turn" invocation 3
    ∷ record_tool_decision "r4" "turn" approval 4
    ∷ record_tool_started "r5" "turn" "call-1" 5
    ∷ record_tool_terminal "r6" "turn" success 6
    ∷ finalize "r7" receipt (some "done") 7
    ∷ create "r8" "session" binding 8
    ∷ []

abbrev pub called : ToolInvocationRecord
called = record {
  invocation = invocation;
  requested_at_unix_ms = 3;
  decision = some approval;
  decision_at_unix_ms = some 4;
  started_at_unix_ms = some 5;
  terminal_result = some success;
  terminal_at_unix_ms = some 6;
}

abbrev pub ended_turn : TurnRecord
ended_turn = record {
  turn_id = "turn";
  request_id = "request";
  started_at_unix_ms = 2;
  completed_at_unix_ms = some 7;
  retry_of = none;
  status = TurnStatus.completed;
  user_message = record { role = user; content = "hello"; partial = false };
  assistant_message = some (record { role = assistant; content = "done"; partial = false });
  usage = none;
  receipt = some receipt;
  tool_invocations = called ∷ [];
}

abbrev pub session : List TurnRecord → ℕ → SessionRecord
session turns now = record {
  session_id = "session";
  created_at_unix_ms = 1;
  updated_at_unix_ms = now;
  status = SessionStatus.active;
  binding = binding;
  turns = turns;
  compaction = none;
}

abbrev pub holding : SessionRecord → SessionMachine
holding s = record {
  sessions = ("session", s) ∷ [];
  active_session_id = some "session";
  seen_records = [];
}

abbrev pub resting : SessionMachine
resting = holding (session (ended_turn ∷ []) 7)

-- A limit of no tokens.
abbrev pub tokenless : StartTurnInput
tokenless = continued "r10" "turn-2" "request-2" "again" 0 10

-- The id of the first record, used again for a turn.
abbrev pub reusing : StartTurnInput
reusing = continued "r1" "turn" "request" "hello" 100 2

abbrev pub asked : TurnRequest toy_json
asked = record {
  session_id = "session";
  turn_id = "turn";
  request_id = "request";
  provider_id = "provider";
  model_id = "model";
  protocol = responses;
  messages = message (record { role = user; content = "hello" }) ∷ [];
  tools = [];
  agent_limits = none;
  output = record { max_output_tokens = 100 };
}
