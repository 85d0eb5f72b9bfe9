-- ===== src/Session/Journal.antt =====
-- What a journal record does to the sessions: `apply_record` of crates/core/src/session.rs. Each
-- test that can fail stands before the first change, so a record that is refused changes nothing.
use Prim.Native.String.{◌++◌ as push_str}
use wiki_coding.Prelude.{
  ℕ, String, Bool, true, false, not, Option, none, some, [], ◌∷◌, ◌++◌, ◌||◌, any, find,
  update_first, Result, ok, refuse_if, ok_or, ◌>>=◌, ◌>>◌, ◌==◌, string_eq, Map, get, insert,
  contains_key, map_values, update, is_some, if◌then◌else◌,
}
use wiki_coding.Protocol.Event.{SessionId, TurnId, ToolCallId}
use wiki_coding.Protocol.Tool.{
  ToolDecision, ToolResult, ToolTerminalStatus, decision_kind_eq, ToolDecisionKind,
}
use wiki_coding.Protocol.Runtime.{RuntimeErrorCode, recovery, TurnReceipt, assistant}
use wiki_coding.Protocol.Session.{
  SessionStatus, ModelBinding, model_binding_eq, turn_status_eq, VisibleMessage,
  ToolInvocationRecord, TurnRecord, SessionRecord,
}
use wiki_coding.Tool.Invocation.{terminal_is_legal_after_start}
use wiki_coding.Session.{SessionMachine, is_running, has_id, status_from_outcome}

abbrev pub Sessions : Type 0
Sessions = Map SessionRecord

unfoldable pub find_turn_mut : Sessions → SessionId → TurnId → Result RuntimeErrorCode TurnRecord
find_turn_mut sessions session_id turn_id = do
  session ← ok_or (get session_id sessions) recovery
  ok_or (find (has_id turn_id) session.turns) recovery

-- A write through the reference that `find_turn_mut` returns.
abbrev pub set_turn : (TurnRecord → TurnRecord) → TurnId → SessionRecord → SessionRecord
set_turn change turn_id session = record session {
  turns = update_first (has_id turn_id) change session.turns;
}

abbrev pub has_call_id : ToolCallId → ToolInvocationRecord → Bool
has_call_id call_id tool = tool.invocation.call.call_id == call_id

unfoldable pub find_tool_mut :
    Sessions → SessionId → TurnId → ToolCallId → Result RuntimeErrorCode ToolInvocationRecord
unfolding find_turn_mut
find_tool_mut sessions session_id turn_id call_id = do
  turn ← find_turn_mut sessions session_id turn_id
  refuse_if (not (is_running turn)) recovery
  ok_or (find (has_call_id call_id) turn.tool_invocations) recovery

-- A write through the reference that `find_tool_mut` returns.
abbrev pub set_tool :
    (ToolInvocationRecord → ToolInvocationRecord) → ToolCallId → TurnRecord → TurnRecord
set_tool change call_id turn = record turn {
  tool_invocations = update_first (has_call_id call_id) change turn.tool_invocations;
}

-- The second lookup of the session, to set when it was updated.
abbrev pub touch : SessionId → ℕ → Sessions → Result RuntimeErrorCode Sessions
touch session_id now sessions = do
  refuse_if (not (contains_key session_id sessions)) recovery
  ok (update session_id (λ session. record session { updated_at_unix_ms = now }) sessions)

abbrev pub change_turn :
    Sessions → SessionId → TurnId → ℕ → (TurnRecord → TurnRecord) → Result RuntimeErrorCode Sessions
change_turn sessions session_id turn_id now change =
    touch session_id now (update session_id (set_turn change turn_id) sessions)

abbrev pub is_approved : Option ToolDecision → Bool
is_approved none = false
is_approved (some d) = d.decision == ToolDecisionKind.approved

abbrev legal_before_start : Bool → ToolTerminalStatus → Bool
legal_before_start approved ToolTerminalStatus.succeeded = false
legal_before_start approved ToolTerminalStatus.indeterminate = false
legal_before_start approved ToolTerminalStatus.failed = true
legal_before_start approved ToolTerminalStatus.rejected = not approved
legal_before_start approved ToolTerminalStatus.cancelled = true

unfoldable pub terminal_is_legal : ToolInvocationRecord → ToolResult → Bool
unfolding terminal_is_legal_after_start
terminal_is_legal tool result =
    if is_some tool.started_at_unix_ms
    then terminal_is_legal_after_start tool.invocation.call.name result.status result.code
    else legal_before_start (is_approved tool.decision) result.status

unfoldable pub create_session :
    SessionMachine → SessionRecord → Result RuntimeErrorCode SessionMachine
create_session m session = do
  refuse_if (contains_key session.session_id m.sessions) recovery
  ok (record m {
    sessions =
        insert session.session_id session
          (map_values (λ existing. record existing { status = SessionStatus.archived }) m.sessions);
    active_session_id = some session.session_id;
  })

abbrev pub activate : SessionId → ℕ → SessionRecord → SessionRecord
activate session_id now session =
    if session.session_id == session_id
    then record session { updated_at_unix_ms = now; status = SessionStatus.active }
    else record session { status = SessionStatus.archived }

unfoldable pub activate_session :
    SessionMachine → SessionId → ℕ → Result RuntimeErrorCode SessionMachine
activate_session m session_id now = do
  refuse_if (not (contains_key session_id m.sessions)) recovery
  ok (record m {
    sessions = map_values (activate session_id now) m.sessions;
    active_session_id = some session_id;
  })

abbrev pub is_same_turn : TurnId → String → TurnRecord → Bool
is_same_turn turn_id request_id turn = turn.turn_id == turn_id || turn.request_id == request_id

abbrev pub push_turn : TurnRecord → SessionRecord → SessionRecord
push_turn turn session = record session {
  updated_at_unix_ms = turn.started_at_unix_ms;
  turns = session.turns ++ (turn ∷ []);
}

unfoldable pub add_turn :
    Sessions → SessionId → ModelBinding → TurnRecord → Result RuntimeErrorCode Sessions
add_turn sessions session_id binding turn = do
  session ← ok_or (get session_id sessions) recovery
  refuse_if
      (not (session.binding == binding)
        || any (is_same_turn turn.turn_id turn.request_id) session.turns
        || not (is_running turn))
      recovery
  ok (update session_id (push_turn turn) sessions)

abbrev appended : Option VisibleMessage → String → VisibleMessage
appended none delta = record { role = assistant; content = delta; partial = true }
appended (some message) delta = record message { content = push_str message.content delta }

abbrev pub append_delta : String → TurnRecord → TurnRecord
append_delta delta turn = record turn {
  assistant_message = some (appended turn.assistant_message delta);
}

unfoldable pub add_delta :
    Sessions → SessionId → TurnId → String → ℕ → Result RuntimeErrorCode Sessions
unfolding find_turn_mut
add_delta sessions session_id turn_id delta now = do
  turn ← find_turn_mut sessions session_id turn_id
  refuse_if (not (is_running turn)) recovery
  change_turn sessions session_id turn_id now (append_delta delta)

abbrev pub close_turn : TurnReceipt → Option VisibleMessage → ℕ → TurnRecord → TurnRecord
close_turn receipt message now turn = record turn {
  status = status_from_outcome receipt.outcome;
  completed_at_unix_ms = some now;
  assistant_message = message;
  usage = receipt.usage;
  receipt = some receipt;
}

unfoldable pub apply_terminal :
    Sessions
    → SessionId
    → TurnReceipt
    → Option VisibleMessage
    → ℕ
    → Result RuntimeErrorCode Sessions
unfolding find_turn_mut
apply_terminal sessions session_id receipt message now = do
  refuse_if (not (receipt.session_id == session_id)) recovery
  turn ← find_turn_mut sessions session_id receipt.turn_id
  refuse_if
      (not (is_running turn)
        || not (turn.request_id == receipt.request_id)
        || any (λ tool. not (is_some tool.terminal_result)) turn.tool_invocations)
      recovery
  change_turn sessions session_id receipt.turn_id now (close_turn receipt message now)
