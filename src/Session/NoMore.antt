-- ===== src/Session/NoMore.antt =====
-- At most one turn runs (crates/core/src/session.rs).
use wiki_coding.Prelude.{
  ℕ, ◌≤◌, String, ◌≡◌, Bool, true, not, Option, some, ◌||◌, any, Result, ok, refuse_if, map_err,
  ◌>>=◌, ◌>>◌, ◌==◌, string_eq, update, contains_key, arith, Holds, >>=-Holds, >>-Holds, Holds-ok,
  is_some,
}
use wiki_coding.Protocol.Json.{Json}
use wiki_coding.Protocol.Event.{SessionId, TurnId, ToolCallId}
use wiki_coding.Protocol.Runtime.{RuntimeErrorCode, recovery, TurnReceipt}
use wiki_coding.Protocol.Tool.{
  ToolDecision, ToolResult, ToolInvocation, tool_invocation, validate_decision, validate_result,
}
use wiki_coding.Protocol.Session.{
  TurnRecord, SessionRecord, ToolInvocationRecord, model_binding_eq, turn_status_eq, VisibleMessage,
}
use wiki_coding.Session.{has_id, is_running}
use wiki_coding.Session.Journal.{
  Sessions, find_turn_mut, find_tool_mut, change_turn, set_turn, set_tool, has_call_id,
  append_delta, close_turn, add_delta, apply_terminal,
}
use wiki_coding.Session.ToolRecords.{
  push_tool, requested_record, decidable, endable, decide, end, add_tool, add_decision, add_result,
}
use wiki_coding.Session.Turns.{turn_in, find_turn_mut-turn_in, FoundTool, find_tool_mut-FoundTool}
use wiki_coding.Session.Running.{running_turns, running_turns-update, running_in-update_first}

-- No more turns run than before.
abbrev pub NoMore : Sessions → Sessions → Type 0
NoMore sessions sessions' = running_turns sessions' ≤ running_turns sessions

change_turn-NoMore :
    (sessions : Sessions) (session_id : SessionId) (turn_id : TurnId) (now : ℕ)
    (change : TurnRecord → TurnRecord) (turn : TurnRecord)
    → turn_in sessions session_id turn_id ≡ some turn
    → is_running turn ≡ true
    → Holds (NoMore sessions) (change_turn sessions session_id turn_id now change)
unfolding turn_in
change_turn-NoMore sessions session_id turn_id now change turn there runs =
    let once = update session_id (set_turn change turn_id) sessions in
    let stamp : SessionRecord → SessionRecord =
      λ session. record session { updated_at_unix_ms = now } in
    let changed =
      running_turns-update session_id (set_turn change turn_id) sessions 0 λ session stored.
        let fewer =
          running_in-update_first (has_id turn_id) change session.turns turn (ground arith) runs in
        omega arith in
    let stamped = running_turns-update session_id stamp once 0 λ session stored. omega arith in
    >>-Holds (NoMore sessions) (refuse_if (not (contains_key session_id once)) recovery)
      (ok (update session_id stamp once)) λ _ _. omega arith

module _ (sessions : Sessions) where
  found_turn :
      (session_id : SessionId) (turn_id : TurnId) (turn : TurnRecord)
      → find_turn_mut sessions session_id turn_id ≡ ok turn
      → turn_in sessions session_id turn_id ≡ some turn
  found_turn session_id turn_id turn found =
      Holds-ok (λ t. turn_in sessions session_id turn_id ≡ some t)
        (find_turn_mut sessions session_id turn_id) found
        (find_turn_mut-turn_in sessions session_id turn_id)

  pub add_delta-NoMore :
      (session_id : SessionId) (turn_id : TurnId) (delta : String) (now : ℕ)
      → Holds (NoMore sessions) (add_delta sessions session_id turn_id delta now)
  unfolding add_delta
  add_delta-NoMore session_id turn_id delta now =
      let changing = change_turn sessions session_id turn_id now (append_delta delta) in
      >>=-Holds (NoMore sessions) (find_turn_mut sessions session_id turn_id)
        (λ turn. refuse_if (not (is_running turn)) recovery >> changing)
        λ turn found.
          >>-Holds (NoMore sessions) (refuse_if (not (is_running turn)) recovery) changing λ _ runs.
            change_turn-NoMore sessions session_id turn_id now (append_delta delta) turn
              (found_turn session_id turn_id turn found) (ground arith)

  pub apply_terminal-NoMore :
      (session_id : SessionId) (receipt : TurnReceipt) (message : Option VisibleMessage) (now : ℕ)
      → Holds (NoMore sessions) (apply_terminal sessions session_id receipt message now)
  unfolding apply_terminal
  apply_terminal-NoMore session_id receipt message now =
      let change = close_turn receipt message now in
      let changing = change_turn sessions session_id receipt.turn_id now change in
      let unanswered : TurnRecord → Bool =
        λ turn. any (λ tool. not (is_some tool.terminal_result)) turn.tool_invocations in
      let checked : TurnRecord → Result RuntimeErrorCode (Unit {0}) = λ turn.
        refuse_if
          (not (is_running turn) || not (turn.request_id == receipt.request_id) || unanswered turn)
          recovery in
      let finding = find_turn_mut sessions session_id receipt.turn_id in
      >>-Holds (NoMore sessions) (refuse_if (not (receipt.session_id == session_id)) recovery)
        (finding >>= λ turn. checked turn >> changing)
        λ _ _.
          >>=-Holds (NoMore sessions) finding (λ turn. checked turn >> changing)
            λ turn found. >>-Holds (NoMore sessions) (checked turn) changing λ _ passed.
              change_turn-NoMore sessions session_id receipt.turn_id now change turn
                (found_turn session_id receipt.turn_id turn found) (ground arith)

  pub add_tool-NoMore :
      (json : Json) (session_id : SessionId) (turn_id : TurnId) (invocation : ToolInvocation)
      (now : ℕ)
      → Holds (NoMore sessions) (add_tool json sessions session_id turn_id invocation now)
  unfolding add_tool
  add_tool-NoMore json session_id turn_id invocation now =
      let change = push_tool (requested_record invocation now) in
      let changing = change_turn sessions session_id turn_id now change in
      let checked : TurnRecord → Result RuntimeErrorCode (Unit {0}) = λ turn.
        refuse_if
          (not (is_running turn) || any (has_call_id invocation.call.call_id) turn.tool_invocations)
          recovery in
      let finding = find_turn_mut sessions session_id turn_id in
      >>-Holds (NoMore sessions)
        (map_err (tool_invocation json invocation.call invocation.effect) recovery)
        (finding >>= λ turn. checked turn >> changing)
        λ _ _.
          >>=-Holds (NoMore sessions) finding (λ turn. checked turn >> changing)
            λ turn found. >>-Holds (NoMore sessions) (checked turn) changing λ _ passed.
              change_turn-NoMore sessions session_id turn_id now change turn
                (found_turn session_id turn_id turn found) (ground arith)

  pub set_tool-NoMore :
      (session_id : SessionId) (turn_id : TurnId) (call_id : ToolCallId) (now : ℕ)
      (checked : ToolInvocationRecord → Result RuntimeErrorCode (Unit {0}))
      (change : ToolInvocationRecord → ToolInvocationRecord)
      → Holds (NoMore sessions) (
          find_tool_mut sessions session_id turn_id call_id >>= λ tool.
          checked tool >> change_turn sessions session_id turn_id now (set_tool change call_id))
  set_tool-NoMore session_id turn_id call_id now checked change =
      let changing = change_turn sessions session_id turn_id now (set_tool change call_id) in
      let finding = find_tool_mut sessions session_id turn_id call_id in
      >>=-Holds (NoMore sessions) finding (λ tool. checked tool >> changing)
        λ tool found. >>-Holds (NoMore sessions) (checked tool) changing λ _ passed.
          let place =
            Holds-ok (FoundTool sessions session_id turn_id call_id) finding found
              (find_tool_mut-FoundTool sessions session_id turn_id call_id) in
          change_turn-NoMore sessions session_id turn_id now (set_tool change call_id) place.turn
            place.there place.runs

  pub add_decision-NoMore :
      (session_id : SessionId) (turn_id : TurnId) (proposed : ToolDecision) (now : ℕ)
      → Holds (NoMore sessions) (add_decision sessions session_id turn_id proposed now)
  unfolding add_decision
  add_decision-NoMore session_id turn_id proposed now =
      >>=-Holds (NoMore sessions) (map_err (validate_decision proposed) recovery)
        (λ decision. find_tool_mut sessions session_id turn_id decision.call_id >>= λ tool.
          decidable tool
          >> change_turn sessions session_id turn_id now
              (set_tool (decide decision now) decision.call_id))
        λ decision _.
          set_tool-NoMore session_id turn_id decision.call_id now decidable (decide decision now)

  pub add_result-NoMore :
      (session_id : SessionId) (turn_id : TurnId) (proposed : ToolResult) (now : ℕ)
      → Holds (NoMore sessions) (add_result sessions session_id turn_id proposed now)
  unfolding add_result
  add_result-NoMore session_id turn_id proposed now =
      >>=-Holds (NoMore sessions) (map_err (validate_result proposed) recovery)
        (λ result. find_tool_mut sessions session_id turn_id result.call_id >>= λ tool.
          endable result tool
          >> change_turn sessions session_id turn_id now (set_tool (end result now) result.call_id))
        λ result _.
          set_tool-NoMore session_id turn_id result.call_id now (endable result) (end result now)
