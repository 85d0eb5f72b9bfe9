-- ===== src/Session/Ended.antt =====
-- A turn that is over: no journal record changes it (crates/core/src/session.rs).
use wiki_coding.Prelude.{
  ℕ, ◌≡◌, refl, sym, subst, true, not, Option, some, ◌||◌, any, Result, ok, refuse_if, map_err,
  ◌>>=◌, ◌>>◌, ◌==◌, string_eq, arith, Holds, >>=-Holds, >>-Holds, Holds-ok, Result-cases, inl, inr,
  String, is_some,
}
use wiki_coding.Protocol.Json.{Json}
use wiki_coding.Protocol.Event.{SessionId, TurnId, ToolCallId}
use wiki_coding.Protocol.Runtime.{RuntimeErrorCode, recovery, TurnReceipt}
use wiki_coding.Protocol.Tool.{
  ToolDecision, ToolResult, ToolInvocation, tool_invocation, validate_decision, validate_result,
}
use wiki_coding.Protocol.Session.{TurnRecord, ToolInvocationRecord, is_over, VisibleMessage}
use wiki_coding.Session.{is_running}
use wiki_coding.Session.Journal.{
  Sessions, find_turn_mut, find_tool_mut, change_turn, set_tool, has_call_id, add_delta,
  append_delta, close_turn, apply_terminal,
}
use wiki_coding.Session.ToolRecords.{
  decidable, endable, decide, end, push_tool, requested_record, add_tool, add_decision, add_result,
}
use wiki_coding.Session.Turns.{
  turn_in, FoundTool, find_tool_mut-FoundTool, find_turn_mut-turn_in, change_turn-turn_in,
}

-- Every turn that was over is still there as it was.
abbrev pub Kept : Sessions → Sessions → Type 0
Kept sessions sessions' =
    (session_id : SessionId) (turn_id : TurnId) (turn : TurnRecord)
    → turn_in sessions session_id turn_id ≡ some turn
    → is_over turn.status ≡ true
    → turn_in sessions' session_id turn_id ≡ some turn

-- A turn that runs may be changed.
change_turn-Kept :
    (sessions : Sessions) (session_id : SessionId) (turn_id : TurnId) (now : ℕ)
    (change : TurnRecord → TurnRecord) (turn : TurnRecord)
    → ((t : TurnRecord) → (change t).turn_id ≡ t.turn_id)
    → turn_in sessions session_id turn_id ≡ some turn
    → is_running turn ≡ true
    → Holds (Kept sessions) (change_turn sessions session_id turn_id now change)
unfolding is_over
change_turn-Kept sessions session_id turn_id now change turn keeps there runs =
    elim (Result-cases (change_turn sessions session_id turn_id now change)) [
      | inl (sessions', done) ↦ subst (Holds (Kept sessions)) (sym done) λ k j ended found over.
          let moved =
            Holds-ok _ (change_turn sessions session_id turn_id now change) done
              (change_turn-turn_in sessions session_id k turn_id j now change keeps) in
          ground arith
      | inr (code, failed) ↦ subst (Holds (Kept sessions)) (sym failed) tt
    ]

found_turn :
    (sessions : Sessions) (session_id : SessionId) (turn_id : TurnId) (turn : TurnRecord)
    → find_turn_mut sessions session_id turn_id ≡ ok turn
    → turn_in sessions session_id turn_id ≡ some turn
found_turn sessions session_id turn_id turn found =
    Holds-ok (λ t. turn_in sessions session_id turn_id ≡ some t)
      (find_turn_mut sessions session_id turn_id) found
      (find_turn_mut-turn_in sessions session_id turn_id)

pub add_delta-Kept :
    (sessions : Sessions) (session_id : SessionId) (turn_id : TurnId) (delta : String) (now : ℕ)
    → Holds (Kept sessions) (add_delta sessions session_id turn_id delta now)
unfolding add_delta
add_delta-Kept sessions session_id turn_id delta now =
    let changing = change_turn sessions session_id turn_id now (append_delta delta) in
    >>=-Holds (Kept sessions) (find_turn_mut sessions session_id turn_id)
      (λ turn. refuse_if (not (is_running turn)) recovery >> changing)
      λ turn found.
        >>-Holds (Kept sessions) (refuse_if (not (is_running turn)) recovery) changing λ _ runs.
          change_turn-Kept sessions session_id turn_id now (append_delta delta) turn (λ _. refl)
            (found_turn sessions session_id turn_id turn found) (ground arith)

pub apply_terminal-Kept :
    (sessions : Sessions) (session_id : SessionId) (receipt : TurnReceipt)
    (message : Option VisibleMessage) (now : ℕ)
    → Holds (Kept sessions) (apply_terminal sessions session_id receipt message now)
unfolding apply_terminal
apply_terminal-Kept sessions session_id receipt message now =
    let change = close_turn receipt message now in
    let changing = change_turn sessions session_id receipt.turn_id now change in
    let checked : TurnRecord → Result RuntimeErrorCode (Unit {0}) = λ turn.
      refuse_if
        (not (is_running turn)
          || not (turn.request_id == receipt.request_id)
          || any (λ tool. not (is_some tool.terminal_result)) turn.tool_invocations)
        recovery in
    let finding = find_turn_mut sessions session_id receipt.turn_id in
    >>-Holds (Kept sessions) (refuse_if (not (receipt.session_id == session_id)) recovery)
      (finding >>= λ turn. checked turn >> changing)
      λ _ _.
        >>=-Holds (Kept sessions) finding (λ turn. checked turn >> changing)
          λ turn found. >>-Holds (Kept sessions) (checked turn) changing λ _ runs.
            change_turn-Kept sessions session_id receipt.turn_id now change turn (λ _. refl)
              (found_turn sessions session_id receipt.turn_id turn found) (ground arith)

pub add_tool-Kept :
    (json : Json) (sessions : Sessions) (session_id : SessionId) (turn_id : TurnId)
    (invocation : ToolInvocation) (now : ℕ)
    → Holds (Kept sessions) (add_tool json sessions session_id turn_id invocation now)
unfolding add_tool
add_tool-Kept json sessions session_id turn_id invocation now =
    let change = push_tool (requested_record invocation now) in
    let changing = change_turn sessions session_id turn_id now change in
    let checked : TurnRecord → Result RuntimeErrorCode (Unit {0}) = λ turn.
      refuse_if
        (not (is_running turn) || any (has_call_id invocation.call.call_id) turn.tool_invocations)
        recovery in
    let finding = find_turn_mut sessions session_id turn_id in
    >>-Holds (Kept sessions)
      (map_err (tool_invocation json invocation.call invocation.effect) recovery)
      (finding >>= λ turn. checked turn >> changing)
      λ _ _.
        >>=-Holds (Kept sessions) finding (λ turn. checked turn >> changing)
          λ turn found. >>-Holds (Kept sessions) (checked turn) changing λ _ runs.
            change_turn-Kept sessions session_id turn_id now change turn (λ _. refl)
              (found_turn sessions session_id turn_id turn found) (ground arith)

-- The records of a decision, a start and a result: a call of a turn that runs is changed.
pub set_tool-Kept :
    (sessions : Sessions) (session_id : SessionId) (turn_id : TurnId) (call_id : ToolCallId)
    (now : ℕ) (checked : ToolInvocationRecord → Result RuntimeErrorCode (Unit {0}))
    (change : ToolInvocationRecord → ToolInvocationRecord)
    → Holds (Kept sessions) (
        find_tool_mut sessions session_id turn_id call_id >>= λ tool.
        checked tool >> change_turn sessions session_id turn_id now (set_tool change call_id))
set_tool-Kept sessions session_id turn_id call_id now checked change =
    let changing = change_turn sessions session_id turn_id now (set_tool change call_id) in
    let finding = find_tool_mut sessions session_id turn_id call_id in
    >>=-Holds (Kept sessions) finding (λ tool. checked tool >> changing)
      λ tool found. >>-Holds (Kept sessions) (checked tool) changing λ _ _.
        let place =
          Holds-ok (FoundTool sessions session_id turn_id call_id) finding found
            (find_tool_mut-FoundTool sessions session_id turn_id call_id) in
        change_turn-Kept sessions session_id turn_id now (set_tool change call_id) place.turn
          (λ _. refl) place.there place.runs

pub add_decision-Kept :
    (sessions : Sessions) (session_id : SessionId) (turn_id : TurnId) (proposed : ToolDecision)
    (now : ℕ)
    → Holds (Kept sessions) (add_decision sessions session_id turn_id proposed now)
unfolding add_decision
add_decision-Kept sessions session_id turn_id proposed now =
    >>=-Holds (Kept sessions) (map_err (validate_decision proposed) recovery)
      (λ decision. find_tool_mut sessions session_id turn_id decision.call_id >>= λ tool.
        decidable tool
        >> change_turn sessions session_id turn_id now
            (set_tool (decide decision now) decision.call_id))
      λ decision _.
        set_tool-Kept sessions session_id turn_id decision.call_id now decidable
          (decide decision now)

pub add_result-Kept :
    (sessions : Sessions) (session_id : SessionId) (turn_id : TurnId) (proposed : ToolResult)
    (now : ℕ)
    → Holds (Kept sessions) (add_result sessions session_id turn_id proposed now)
unfolding add_result
add_result-Kept sessions session_id turn_id proposed now =
    >>=-Holds (Kept sessions) (map_err (validate_result proposed) recovery)
      (λ result. find_tool_mut sessions session_id turn_id result.call_id >>= λ tool.
        endable result tool
        >> change_turn sessions session_id turn_id now (set_tool (end result now) result.call_id))
      λ result _.
        set_tool-Kept sessions session_id turn_id result.call_id now (endable result)
          (end result now)
