-- ===== src/Session/ToolRecords.antt =====
-- The journal records of tool calls: the cases of `apply_record` of crates/core/src/session.rs for
-- a request, a decision, a start and a result.
use wiki_coding.Prelude.{
  ℕ, not, none, some, [], ◌∷◌, ◌++◌, ◌||◌, any, Result, refuse_if, map_err, ◌>>=◌, ◌>>◌, ◌==◌,
  string_eq, is_some,
}
use wiki_coding.Protocol.Json.{Json}
use wiki_coding.Protocol.Event.{SessionId, TurnId, ToolCallId}
use wiki_coding.Protocol.Tool.{
  ToolInvocation, ToolDecision, ToolResult, tool_invocation, validate_decision, validate_result,
}
use wiki_coding.Protocol.Runtime.{RuntimeErrorCode, recovery}
use wiki_coding.Protocol.Session.{ToolInvocationRecord, TurnRecord}
use wiki_coding.Session.{is_running}
use wiki_coding.Session.Journal.{
  Sessions, find_turn_mut, find_tool_mut, change_turn, set_tool, has_call_id, is_approved,
  terminal_is_legal,
}

abbrev pub requested_record : ToolInvocation → ℕ → ToolInvocationRecord
requested_record invocation now = record {
  invocation = invocation;
  requested_at_unix_ms = now;
  decision = none;
  decision_at_unix_ms = none;
  started_at_unix_ms = none;
  terminal_result = none;
  terminal_at_unix_ms = none;
}

abbrev pub push_tool : ToolInvocationRecord → TurnRecord → TurnRecord
push_tool tool turn = record turn { tool_invocations = turn.tool_invocations ++ (tool ∷ []) }

unfoldable pub add_tool :
    Json → Sessions → SessionId → TurnId → ToolInvocation → ℕ → Result RuntimeErrorCode Sessions
unfolding find_turn_mut
add_tool json sessions session_id turn_id invocation now = do
  map_err (tool_invocation json invocation.call invocation.effect) recovery
  turn ← find_turn_mut sessions session_id turn_id
  refuse_if
      (not (is_running turn) || any (has_call_id invocation.call.call_id) turn.tool_invocations)
      recovery
  change_turn sessions session_id turn_id now (push_tool (requested_record invocation now))

abbrev pub decidable : ToolInvocationRecord → Result RuntimeErrorCode (Unit {0})
decidable tool =
    refuse_if
      (is_some tool.decision || is_some tool.started_at_unix_ms || is_some tool.terminal_result)
      recovery

abbrev pub decide : ToolDecision → ℕ → ToolInvocationRecord → ToolInvocationRecord
decide decision now tool = record tool { decision = some decision; decision_at_unix_ms = some now }

unfoldable pub add_decision :
    Sessions → SessionId → TurnId → ToolDecision → ℕ → Result RuntimeErrorCode Sessions
unfolding find_tool_mut
add_decision sessions session_id turn_id proposed now = do
  decision ← map_err (validate_decision proposed) recovery
  tool ← find_tool_mut sessions session_id turn_id decision.call_id
  decidable tool
  change_turn sessions session_id turn_id now (set_tool (decide decision now) decision.call_id)

abbrev pub startable : ToolInvocationRecord → Result RuntimeErrorCode (Unit {0})
startable tool =
    refuse_if
      (is_some tool.started_at_unix_ms
        || is_some tool.terminal_result
        || not (is_approved tool.decision))
      recovery

abbrev pub start : ℕ → ToolInvocationRecord → ToolInvocationRecord
start now tool = record tool { started_at_unix_ms = some now }

unfoldable pub add_start :
    Sessions → SessionId → TurnId → ToolCallId → ℕ → Result RuntimeErrorCode Sessions
unfolding find_tool_mut
add_start sessions session_id turn_id call_id now = do
  tool ← find_tool_mut sessions session_id turn_id call_id
  startable tool
  change_turn sessions session_id turn_id now (set_tool (start now) call_id)

abbrev pub endable : ToolResult → ToolInvocationRecord → Result RuntimeErrorCode (Unit {0})
endable result tool =
    refuse_if
      (is_some tool.terminal_result
        || not (tool.invocation.call.name == result.tool_name)
        || not (terminal_is_legal tool result))
      recovery

abbrev pub end : ToolResult → ℕ → ToolInvocationRecord → ToolInvocationRecord
end result now tool = record tool { terminal_result = some result; terminal_at_unix_ms = some now }

unfoldable pub add_result :
    Sessions → SessionId → TurnId → ToolResult → ℕ → Result RuntimeErrorCode Sessions
unfolding find_tool_mut
add_result sessions session_id turn_id proposed now = do
  result ← map_err (validate_result proposed) recovery
  tool ← find_tool_mut sessions session_id turn_id result.call_id
  endable result tool
  change_turn sessions session_id turn_id now (set_tool (end result now) result.call_id)
