-- ===== src/Session.antt =====
-- The sessions of a workspace: `SessionMachine` of crates/core/src/session.rs, its state, commands,
-- effects and queries. The children apply journal records and commands.
pub mod Journal
pub mod ToolRecords
pub mod Records
pub mod Request
pub mod Machine
pub mod Commands
pub mod Writes
pub mod Starts
pub mod Steps
pub mod Replay
pub mod Rebuild
pub mod Turns
pub mod Ended
pub mod Final
pub mod Moves
pub mod Labels
pub mod Active
pub mod Lawful
pub mod ToolLife
pub mod Running
pub mod NoMore
pub mod OneTurn
mod Samples
mod Tests
pub mod LateFailure
pub mod ToolHistory
pub mod ToolCalls
use wiki_coding.Prelude.{
  ℕ, String, Bool, true, false, not, Option, none, some, List, [], ◌∷◌, ◌++◌, ◌&&◌, any, find, map,
  length, Result, ok, err, ok_or, ◌>>=◌, ◌==◌, string_eq, Map, get, values,
}
use wiki_coding.Protocol.Json.{Json}
use wiki_coding.Protocol.Event.{SessionId, TurnId, ToolCallId}
use wiki_coding.Protocol.Tool.{ToolInvocation, ToolDecision, ToolResult}
use wiki_coding.Protocol.Runtime.{
  RequestId, RuntimeErrorCode, recovery, RuntimeTerminalOutcome, TurnReceipt, assistant,
}
use wiki_coding.Protocol.Request.{TurnRequest}
use wiki_coding.Protocol.Session.{
  RecordId, ModelBinding, SessionStatus, TurnStatus, turn_status_eq, running, VisibleMessage,
  TurnRecord, SessionRecord, SessionRecordV1,
}

pub record SessionSummary : Type 0 where
  pub session_id : SessionId
  pub status : SessionStatus
  pub updated_at_unix_ms : ℕ
  pub turn_count : ℕ

pub data SessionCommand : Type 0 where
  create : RecordId → SessionId → ModelBinding → ℕ → SessionCommand
  list : SessionCommand
  resume : RecordId → SessionId → ℕ → SessionCommand
  continue : RecordId → TurnId → RequestId → String → ℕ → ℕ → SessionCommand
  record_delta : RecordId → TurnId → String → ℕ → SessionCommand
  interrupt : RecordId → TurnId → Option String → ℕ → SessionCommand
  retry : RecordId → TurnId → TurnId → RequestId → ℕ → ℕ → SessionCommand
  finalize : RecordId → TurnReceipt → Option String → ℕ → SessionCommand
  record_tool_requested : RecordId → TurnId → ToolInvocation → ℕ → SessionCommand
  record_tool_decision : RecordId → TurnId → ToolDecision → ℕ → SessionCommand
  record_tool_started : RecordId → TurnId → ToolCallId → ℕ → SessionCommand
  record_tool_terminal : RecordId → TurnId → ToolResult → ℕ → SessionCommand
  recover : RecordId → TurnId → Option String → ℕ → SessionCommand
  replay_record : SessionRecordV1 → SessionCommand

pub data SessionEffect (json : Json) : Type 0 where
  persist : SessionRecordV1 → SessionEffect json
  listed : List SessionSummary → SessionEffect json
  activated : SessionId → SessionEffect json
  start_turn : TurnRequest json → SessionEffect json
  abort_turn : TurnId → SessionEffect json
  finalized : TurnReceipt → SessionEffect json

pub record StartTurnInput : Type 0 where
  pub record_id : RecordId
  pub turn_id : TurnId
  pub request_id : RequestId
  pub retry_of : Option TurnId
  pub user_input : String
  pub max_output_tokens : ℕ
  pub now_unix_ms : ℕ

pub record SessionMachine : Type 0 where
  pub sessions : Map SessionRecord
  pub active_session_id : Option SessionId
  pub seen_records : Map SessionRecordV1

unfoldable pub new : SessionMachine
new = record { sessions = []; active_session_id = none; seen_records = [] }

abbrev pub is_running : TurnRecord → Bool
is_running turn = turn.status == running

abbrev pub has_id : TurnId → TurnRecord → Bool
has_id turn_id turn = turn.turn_id == turn_id

abbrev pub get_some : Option SessionId → Map SessionRecord → Option SessionRecord
get_some none sessions = none
get_some (some id) sessions = get id sessions

unfoldable pub active_session : SessionMachine → Option SessionRecord
active_session m = get_some m.active_session_id m.sessions

-- `flat_map(|session| &session.turns)`.
unfoldable pub all_turns : List SessionRecord → List TurnRecord
all_turns [] = []
all_turns (session ∷ sessions) = session.turns ++ all_turns sessions

unfoldable pub has_running_turn : SessionMachine → Bool
unfolding all_turns
has_running_turn m = any is_running (all_turns (values m.sessions))

unfoldable pub running_session_for : SessionMachine → TurnId → Result RuntimeErrorCode SessionRecord
running_session_for m turn_id =
    ok_or
      (find (λ session. any (λ turn. has_id turn_id turn && is_running turn) session.turns)
        (values m.sessions))
      recovery

unfoldable pub find_turn : SessionMachine → TurnId → Result RuntimeErrorCode TurnRecord
unfolding all_turns
find_turn m turn_id = ok_or (find (has_id turn_id) (all_turns (values m.sessions))) recovery

unfoldable pub interrupted_receipt : SessionMachine → TurnId → Result RuntimeErrorCode TurnReceipt
unfolding running_session_for
interrupted_receipt m turn_id = do
  session ← running_session_for m turn_id
  turn ← ok_or (find (has_id turn_id) session.turns) recovery
  ok (record {
    session_id = session.session_id;
    turn_id = turn.turn_id;
    request_id = turn.request_id;
    outcome = RuntimeTerminalOutcome.interrupted;
    usage = turn.usage;
  })

abbrev summary : SessionRecord → SessionSummary
summary session = record {
  session_id = session.session_id;
  status = session.status;
  updated_at_unix_ms = session.updated_at_unix_ms;
  turn_count = length session.turns;
}

unfoldable pub summaries : SessionMachine → List SessionSummary
summaries m = map summary (values m.sessions)

abbrev pub message_of : Bool → Option String → Option VisibleMessage
message_of partial none = none
message_of partial (some content) =
    some (record { role = assistant; content = content; partial = partial })

abbrev pub partial_message : Option String → Option VisibleMessage
partial_message content = message_of true content

unfoldable pub status_from_outcome : RuntimeTerminalOutcome → TurnStatus
status_from_outcome RuntimeTerminalOutcome.completed = TurnStatus.completed
status_from_outcome (RuntimeTerminalOutcome.failed failure) = TurnStatus.failed
status_from_outcome RuntimeTerminalOutcome.interrupted = TurnStatus.interrupted
status_from_outcome RuntimeTerminalOutcome.stopped = TurnStatus.stopped
