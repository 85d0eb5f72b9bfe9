-- ===== src/Session/Lawful.antt =====
-- What holds of the tool calls of a turn, and what keeps it (crates/core/src/session.rs).
use wiki_coding.Prelude.{
  ℕ, ◌≡◌, refl, Bool, true, false, not, Option, none, some, List, [], ◌∷◌, ◌++◌, ◌&&◌, ◌||◌, any,
  all, find, update_first, ok, ◌==◌, string_eq, arith, String, is_some,
}
use wiki_coding.Protocol.Event.{ToolCallId}
use wiki_coding.Protocol.Runtime.{TurnReceipt}
use wiki_coding.Protocol.Tool.{ToolDecision, ToolResult, ToolInvocation}
use wiki_coding.Protocol.Session.{
  TurnRecord, ToolInvocationRecord, model_binding_eq, VisibleMessage,
}
use wiki_coding.Session.{is_running}
use wiki_coding.Session.Journal.{
  set_tool, has_call_id, append_delta, close_turn, append_delta, close_turn,
}
use wiki_coding.Session.ToolRecords.{
  push_tool, requested_record, decidable, startable, endable, decide, start, end,
}
use wiki_coding.Protocol.Session.{turn_status_eq}
use wiki_coding.Session.Journal.{has_call_id, terminal_is_legal, is_approved}

abbrev pub has_result : ToolInvocationRecord → Bool
has_result tool = is_some tool.terminal_result

-- The result answers the call, and is one that the state of the call allows.
abbrev pub lawful_result : ToolInvocationRecord → Option ToolResult → Bool
lawful_result tool none = true
lawful_result tool (some result) =
    result.call_id == tool.invocation.call.call_id
    && result.tool_name == tool.invocation.call.name
    && terminal_is_legal tool result

-- A call that was started had been approved.
unfoldable pub lawful_tool : ToolInvocationRecord → Bool
unfolding terminal_is_legal
lawful_tool tool =
    (not (is_some tool.started_at_unix_ms) || is_approved tool.decision)
    && lawful_result tool tool.terminal_result

-- A turn that is over has a result for each of its calls.
unfoldable pub lawful_turn : TurnRecord → Bool
unfolding lawful_tool
lawful_turn turn =
    all lawful_tool turn.tool_invocations
    && (is_running turn || all has_result turn.tool_invocations)

module _ {ℓ} {A : Type ℓ} (q p : A → Bool) where
  pub all-find :
      (xs : List A) (x : A) → all q xs ≡ true → find p xs ≡ some x → (q x ≡ true) × (p x ≡ true)
  all-find [] x every found = cc
  all-find (y ∷ ys) x every found = ground (arith, all-find ys x)

  pub all-update_first :
      (f : A → A) (xs : List A) (x : A)
      → all q xs ≡ true
      → find p xs ≡ some x
      → q (f x) ≡ true
      → all q (update_first p f xs) ≡ true
  all-update_first f [] x every found after = cc
  all-update_first f (y ∷ ys) x every found after = ground (arith, all-update_first f ys x)

  pub all-push :
      (xs : List A) (x : A) → all q xs ≡ true → q x ≡ true → all q (xs ++ (x ∷ [])) ≡ true
  all-push [] x every last = ground arith
  all-push (y ∷ ys) x every last = ground (arith, all-push ys x)

all_have_results :
    (tools : List ToolInvocationRecord)
    → any (λ tool. not (is_some tool.terminal_result)) tools ≡ false
    → all has_result tools ≡ true
all_have_results [] h = refl
all_have_results (tool ∷ tools) h = ground (arith, all_have_results tools)

pub append_delta-lawful_turn :
    (delta : String) (turn : TurnRecord)
    → lawful_turn turn ≡ true
    → lawful_turn (append_delta delta turn) ≡ true
unfolding lawful_turn
append_delta-lawful_turn delta turn lawful = ground arith

pub close_turn-lawful_turn :
    (receipt : TurnReceipt) (message : Option VisibleMessage) (now : ℕ) (turn : TurnRecord)
    → any (λ tool. not (is_some tool.terminal_result)) turn.tool_invocations ≡ false
    → lawful_turn turn ≡ true
    → lawful_turn (close_turn receipt message now turn) ≡ true
unfolding lawful_turn
close_turn-lawful_turn receipt message now turn answered lawful =
    ground (arith, all_have_results turn.tool_invocations answered)

pub push_tool-lawful_turn :
    (invocation : ToolInvocation) (now : ℕ) (turn : TurnRecord)
    → is_running turn ≡ true
    → lawful_turn turn ≡ true
    → lawful_turn (push_tool (requested_record invocation now) turn) ≡ true
unfolding lawful_turn
push_tool-lawful_turn invocation now turn runs lawful =
    ground (
      arith,
      all-push lawful_tool has_result turn.tool_invocations (requested_record invocation now),
    )

pub set_tool-lawful_turn :
    (call_id : ToolCallId) (change : ToolInvocationRecord → ToolInvocationRecord)
    (turn : TurnRecord) (tool : ToolInvocationRecord)
    → is_running turn ≡ true
    → find (has_call_id call_id) turn.tool_invocations ≡ some tool
    → (lawful_tool tool ≡ true
        → tool.invocation.call.call_id ≡ call_id
        → lawful_tool (change tool) ≡ true)
    → lawful_turn turn ≡ true
    → lawful_turn (set_tool change call_id turn) ≡ true
unfolding lawful_turn
set_tool-lawful_turn call_id change turn tool runs found keeps lawful =
    let (tool_lawful, named) =
      all-find lawful_tool (has_call_id call_id) turn.tool_invocations tool (ground arith) found in
    let all_lawful =
      all-update_first lawful_tool (has_call_id call_id) change turn.tool_invocations tool
        (ground arith) found (keeps tool_lawful (ground arith)) in
    ground arith

pub decide-lawful_tool :
    (decision : ToolDecision) (now : ℕ) (tool : ToolInvocationRecord)
    → decidable tool ≡ ok tt
    → lawful_tool (decide decision now tool) ≡ true
unfolding lawful_tool
decide-lawful_tool decision now tool allowed = ground arith

pub start-lawful_tool :
    (now : ℕ) (tool : ToolInvocationRecord)
    → startable tool ≡ ok tt
    → lawful_tool (start now tool) ≡ true
unfolding lawful_tool
start-lawful_tool now tool allowed = ground arith

pub end-lawful_tool :
    (result : ToolResult) (now : ℕ) (tool : ToolInvocationRecord)
    → endable result tool ≡ ok tt
    → lawful_tool tool ≡ true
    → tool.invocation.call.call_id ≡ result.call_id
    → lawful_tool (end result now tool) ≡ true
unfolding lawful_tool
end-lawful_tool result now tool allowed lawful named = ground arith
