-- ===== src/Session/ToolLife.antt =====
-- The tool calls of every turn through a life of commands (crates/core/src/session.rs).
use wiki_coding.Prelude.{
  ℕ, ◌≡◌, Bool, true, not, Option, some, ◌||◌, any, all, Result, ok, refuse_if, map_err, ◌>>=◌,
  ◌>>◌, ◌==◌, string_eq, get, update, contains_key, get-update, arith, Holds, >>=-Holds, >>-Holds,
  Holds-ok, Option-cases, inl, inr, String, is_some,
}
use wiki_coding.Protocol.Json.{Json}
use wiki_coding.Protocol.Event.{SessionId, TurnId, ToolCallId}
use wiki_coding.Protocol.Runtime.{RuntimeErrorCode, recovery, TurnReceipt}
use wiki_coding.Protocol.Tool.{ToolInvocation, tool_invocation}
use wiki_coding.Protocol.Session.{
  TurnRecord, SessionRecord, ToolInvocationRecord, model_binding_eq, VisibleMessage,
}
use wiki_coding.Session.{has_id, is_running}
use wiki_coding.Session.Journal.{
  Sessions, find_turn_mut, find_tool_mut, change_turn, set_tool, has_call_id, set_turn,
  append_delta, close_turn, add_delta, append_delta, close_turn, apply_terminal,
}
use wiki_coding.Session.ToolRecords.{push_tool, requested_record, add_tool}
use wiki_coding.Session.Turns.{turn_in, FoundTool, find_tool_mut-FoundTool, find_turn_mut-turn_in}
use wiki_coding.Protocol.Session.{turn_status_eq}
use wiki_coding.Session.Journal.{has_call_id}
use wiki_coding.Session.Turns.{turn_in, FoundTool, find_tool_mut-FoundTool}
use wiki_coding.Session.Lawful.{
  lawful_turn, lawful_tool, all-find, all-update_first, append_delta-lawful_turn,
  close_turn-lawful_turn, push_tool-lawful_turn, set_tool-lawful_turn,
}
use wiki_coding.Session.Turns.{find_turn_mut-turn_in}

abbrev pub LawfulIn : Sessions → Type 0
LawfulIn sessions =
    (k : SessionId) (session : SessionRecord)
    → get k sessions ≡ some session
    → all lawful_turn session.turns ≡ true

pub update-LawfulIn :
    (sessions : Sessions) (session_id : SessionId) (change : SessionRecord → SessionRecord)
    → ((session : SessionRecord)
        → get session_id sessions ≡ some session
        → all lawful_turn session.turns ≡ true
        → all lawful_turn (change session).turns ≡ true)
    → LawfulIn sessions
    → LawfulIn (update session_id change sessions)
update-LawfulIn sessions session_id change keeps lawful k session there =
    let read = get-update session_id k change sessions in
    elim (Option-cases (get k sessions)) [
      | inl missing ↦ ground arith
      | inr (old, was) ↦ let before = lawful k old was in ground (arith, keeps old)
    ]

change_turn-LawfulIn :
    (sessions : Sessions) (session_id : SessionId) (turn_id : TurnId) (now : ℕ)
    (change : TurnRecord → TurnRecord) (turn : TurnRecord)
    → turn_in sessions session_id turn_id ≡ some turn
    → (lawful_turn turn ≡ true → lawful_turn (change turn) ≡ true)
    → LawfulIn sessions
    → Holds LawfulIn (change_turn sessions session_id turn_id now change)
unfolding turn_in
change_turn-LawfulIn sessions session_id turn_id now change turn there keeps lawful =
    let once = update session_id (set_turn change turn_id) sessions in
    let stamp : SessionRecord → SessionRecord =
      λ session. record session { updated_at_unix_ms = now } in
    >>-Holds LawfulIn (refuse_if (not (contains_key session_id once)) recovery)
      (ok (update session_id stamp once))
      λ _ _.
        update-LawfulIn once session_id stamp (λ _ _ before. before)
          (update-LawfulIn sessions session_id (set_turn change turn_id)
            (λ session stored before.
              let held =
                all-find lawful_turn (has_id turn_id) session.turns turn before (ground arith) in
              all-update_first lawful_turn (has_id turn_id) change session.turns turn before
                (ground arith) (keeps held.0))
            lawful)

module _ (sessions : Sessions) (lawful : LawfulIn sessions) where
  found_turn :
      (session_id : SessionId) (turn_id : TurnId) (turn : TurnRecord)
      → find_turn_mut sessions session_id turn_id ≡ ok turn
      → turn_in sessions session_id turn_id ≡ some turn
  found_turn session_id turn_id turn found =
      Holds-ok (λ t. turn_in sessions session_id turn_id ≡ some t)
        (find_turn_mut sessions session_id turn_id) found
        (find_turn_mut-turn_in sessions session_id turn_id)

  pub add_delta-LawfulIn :
      (session_id : SessionId) (turn_id : TurnId) (delta : String) (now : ℕ)
      → Holds LawfulIn (add_delta sessions session_id turn_id delta now)
  unfolding add_delta
  add_delta-LawfulIn session_id turn_id delta now =
      let changing = change_turn sessions session_id turn_id now (append_delta delta) in
      >>=-Holds LawfulIn (find_turn_mut sessions session_id turn_id)
        (λ turn. refuse_if (not (is_running turn)) recovery >> changing)
        λ turn found. >>-Holds LawfulIn (refuse_if (not (is_running turn)) recovery) changing λ _ _.
          change_turn-LawfulIn sessions session_id turn_id now (append_delta delta) turn
            (found_turn session_id turn_id turn found) (append_delta-lawful_turn delta turn) lawful

  pub apply_terminal-LawfulIn :
      (session_id : SessionId) (receipt : TurnReceipt) (message : Option VisibleMessage) (now : ℕ)
      → Holds LawfulIn (apply_terminal sessions session_id receipt message now)
  unfolding apply_terminal
  apply_terminal-LawfulIn session_id receipt message now =
      let change = close_turn receipt message now in
      let changing = change_turn sessions session_id receipt.turn_id now change in
      let unanswered : TurnRecord → Bool =
        λ turn. any (λ tool. not (is_some tool.terminal_result)) turn.tool_invocations in
      let checked : TurnRecord → Result RuntimeErrorCode (Unit {0}) = λ turn.
        refuse_if
          (not (is_running turn) || not (turn.request_id == receipt.request_id) || unanswered turn)
          recovery in
      let finding = find_turn_mut sessions session_id receipt.turn_id in
      >>-Holds LawfulIn (refuse_if (not (receipt.session_id == session_id)) recovery)
        (finding >>= λ turn. checked turn >> changing)
        λ _ _.
          >>=-Holds LawfulIn finding (λ turn. checked turn >> changing)
            λ turn found. >>-Holds LawfulIn (checked turn) changing λ _ passed.
              change_turn-LawfulIn sessions session_id receipt.turn_id now change turn
                (found_turn session_id receipt.turn_id turn found)
                (close_turn-lawful_turn receipt message now turn (ground arith)) lawful

  pub add_tool-LawfulIn :
      (json : Json) (session_id : SessionId) (turn_id : TurnId) (invocation : ToolInvocation)
      (now : ℕ)
      → Holds LawfulIn (add_tool json sessions session_id turn_id invocation now)
  unfolding add_tool
  add_tool-LawfulIn json session_id turn_id invocation now =
      let change = push_tool (requested_record invocation now) in
      let changing = change_turn sessions session_id turn_id now change in
      let checked : TurnRecord → Result RuntimeErrorCode (Unit {0}) = λ turn.
        refuse_if
          (not (is_running turn) || any (has_call_id invocation.call.call_id) turn.tool_invocations)
          recovery in
      let finding = find_turn_mut sessions session_id turn_id in
      >>-Holds LawfulIn (map_err (tool_invocation json invocation.call invocation.effect) recovery)
        (finding >>= λ turn. checked turn >> changing)
        λ _ _.
          >>=-Holds LawfulIn finding (λ turn. checked turn >> changing)
            λ turn found. >>-Holds LawfulIn (checked turn) changing λ _ passed.
              change_turn-LawfulIn sessions session_id turn_id now change turn
                (found_turn session_id turn_id turn found)
                (push_tool-lawful_turn invocation now turn (ground arith)) lawful

  pub set_tool-LawfulIn :
      (session_id : SessionId) (turn_id : TurnId) (call_id : ToolCallId) (now : ℕ)
      (checked : ToolInvocationRecord → Result RuntimeErrorCode (Unit {0}))
      (change : ToolInvocationRecord → ToolInvocationRecord)
      → ((tool : ToolInvocationRecord)
          → checked tool ≡ ok tt
          → lawful_tool tool ≡ true
          → tool.invocation.call.call_id ≡ call_id
          → lawful_tool (change tool) ≡ true)
      → Holds LawfulIn (
          find_tool_mut sessions session_id turn_id call_id >>= λ tool.
          checked tool >> change_turn sessions session_id turn_id now (set_tool change call_id))
  set_tool-LawfulIn session_id turn_id call_id now checked change keeps =
      let changing = change_turn sessions session_id turn_id now (set_tool change call_id) in
      let finding = find_tool_mut sessions session_id turn_id call_id in
      >>=-Holds LawfulIn finding (λ tool. checked tool >> changing)
        λ tool found. >>-Holds LawfulIn (checked tool) changing λ _ passed.
          let place =
            Holds-ok (FoundTool sessions session_id turn_id call_id) finding found
              (find_tool_mut-FoundTool sessions session_id turn_id call_id) in
          change_turn-LawfulIn sessions session_id turn_id now (set_tool change call_id) place.turn
            place.there
            (set_tool-lawful_turn call_id change place.turn tool place.runs place.found
              (keeps tool passed))
            lawful
