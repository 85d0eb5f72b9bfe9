-- ===== src/Session/Labels.antt =====
-- Which session is active (crates/core/src/session.rs).
use wiki_coding.Prelude.{
  ℕ, ◌≡◌, refl, ◌∙◌, Bool, true, false, not, Option, none, some, Result, ok, err, refuse_if,
  map_err, ◌>>=◌, ◌>>◌, string_eq, get, update, contains_key, get-update, arith, Holds, >>=-Holds,
  >>-Holds, Option-cases, inl, inr, String,
}
use wiki_coding.Protocol.Json.{Json}
use wiki_coding.Protocol.Event.{SessionId, TurnId, ToolCallId}
use wiki_coding.Protocol.Runtime.{RuntimeErrorCode, recovery, TurnReceipt}
use wiki_coding.Protocol.Tool.{
  ToolDecision, ToolResult, ToolInvocation, validate_decision, validate_result,
}
use wiki_coding.Protocol.Session.{
  TurnRecord, SessionRecord, JournalRecord, SessionStatus, model_binding_eq, ModelBinding,
  VisibleMessage, CompactionRecord, session_created, session_activated, turn_started, turn_delta,
  turn_terminal, tool_requested, tool_decision_recorded, tool_started, tool_terminal,
  recovery_applied, compaction_stored, trace_stored,
}
use wiki_coding.Session.{SessionMachine}
use wiki_coding.Session.Journal.{
  Sessions, find_tool_mut, change_turn, set_tool, set_turn, push_turn, append_delta, close_turn,
  add_turn, add_delta, append_delta, close_turn, apply_terminal,
}
use wiki_coding.Session.ToolRecords.{
  push_tool, requested_record, decidable, endable, decide, start, end, add_tool, add_decision,
  add_start, add_result,
}
use wiki_coding.Session.Records.{apply_journal, store_compaction, with_sessions, store_pointer}

abbrev label_of : Option SessionRecord → Option (SessionId × SessionStatus)
label_of none = none
label_of (some session) = some (session.session_id, session.status)

-- The id and the status of the session under a key.
unfoldable pub label : SessionId → Sessions → Option (SessionId × SessionStatus)
label k sessions = label_of (get k sessions)

update-label :
    (k session_id : SessionId) (change : SessionRecord → SessionRecord) (sessions : Sessions)
    → ((session : SessionRecord) → (change session).session_id ≡ session.session_id)
    → ((session : SessionRecord) → (change session).status ≡ session.status)
    → label k (update session_id change sessions) ≡ label k sessions
unfolding label
update-label k session_id change sessions keeps_id keeps_status =
    let read = get-update session_id k change sessions in
    elim (Option-cases (get k sessions)) [
      | inl missing ↦ ground arith
      | inr (session, there) ↦ ground (arith, keeps_id session, keeps_status session)
    ]

change_turn-label :
    (k : SessionId) (sessions : Sessions) (session_id : SessionId) (turn_id : TurnId) (now : ℕ)
    (change : TurnRecord → TurnRecord)
    → Holds
        (λ sessions'. label k sessions' ≡ label k sessions)
        (change_turn sessions session_id turn_id now change)
change_turn-label k sessions session_id turn_id now change =
    let once = update session_id (set_turn change turn_id) sessions in
    let written =
      update-label k session_id (set_turn change turn_id) sessions (λ _. refl) (λ _. refl) in
    let touched =
      update-label k session_id (λ session. record session { updated_at_unix_ms = now }) once
        (λ _. refl) (λ _. refl) in
    >>-Holds (λ sessions'. label k sessions' ≡ label k sessions)
      (refuse_if (not (contains_key session_id once)) recovery)
      (ok (update session_id (λ session. record session { updated_at_unix_ms = now }) once))
      λ _ _. touched ∙ written

add_delta-label :
    (k : SessionId) (sessions : Sessions) (session_id : SessionId) (turn_id : TurnId)
    (delta : String) (now : ℕ)
    → Holds
        (λ sessions'. label k sessions' ≡ label k sessions)
        (add_delta sessions session_id turn_id delta now)
unfolding add_delta
add_delta-label k sessions session_id turn_id delta now =
    ground (arith, change_turn-label k sessions session_id turn_id now (append_delta delta))

module _ (k : SessionId) (sessions : Sessions) where
  abbrev Same : Sessions → Type 0
  Same sessions' = label k sessions' ≡ label k sessions

  apply_terminal-label :
      (session_id : SessionId) (receipt : TurnReceipt) (message : Option VisibleMessage) (now : ℕ)
      → Holds Same (apply_terminal sessions session_id receipt message now)
  unfolding apply_terminal
  apply_terminal-label session_id receipt message now = ground (
    arith,
    change_turn-label k sessions session_id receipt.turn_id now (close_turn receipt message now),
  )

  add_tool-label :
      (json : Json) (session_id : SessionId) (turn_id : TurnId) (invocation : ToolInvocation)
      (now : ℕ)
      → Holds Same (add_tool json sessions session_id turn_id invocation now)
  unfolding add_tool
  add_tool-label json session_id turn_id invocation now = ground (
    arith,
    change_turn-label k sessions session_id turn_id now
        (push_tool (requested_record invocation now)),
  )

  add_decision-label :
      (session_id : SessionId) (turn_id : TurnId) (proposed : ToolDecision) (now : ℕ)
      → Holds Same (add_decision sessions session_id turn_id proposed now)
  unfolding add_decision
  add_decision-label session_id turn_id proposed now =
      >>=-Holds Same (map_err (validate_decision proposed) recovery)
        (λ decision. find_tool_mut sessions session_id turn_id decision.call_id >>= λ tool.
          decidable tool
          >> change_turn sessions session_id turn_id now
              (set_tool (decide decision now) decision.call_id))
        λ decision _. ground (
          arith,
          change_turn-label k sessions session_id turn_id now
              (set_tool (decide decision now) decision.call_id),
        )

  add_start-label :
      (session_id : SessionId) (turn_id : TurnId) (call_id : ToolCallId) (now : ℕ)
      → Holds Same (add_start sessions session_id turn_id call_id now)
  unfolding add_start
  add_start-label session_id turn_id call_id now =
      ground
        (arith, change_turn-label k sessions session_id turn_id now (set_tool (start now) call_id))

  add_result-label :
      (session_id : SessionId) (turn_id : TurnId) (proposed : ToolResult) (now : ℕ)
      → Holds Same (add_result sessions session_id turn_id proposed now)
  unfolding add_result
  add_result-label session_id turn_id proposed now =
      >>=-Holds Same (map_err (validate_result proposed) recovery)
        (λ result. find_tool_mut sessions session_id turn_id result.call_id >>= λ tool.
          endable result tool
          >> change_turn sessions session_id turn_id now (set_tool (end result now) result.call_id))
        λ result _. ground (
          arith,
          change_turn-label k sessions session_id turn_id now
              (set_tool (end result now) result.call_id),
        )

  add_turn-label :
      (session_id : SessionId) (binding : ModelBinding) (turn : TurnRecord)
      → Holds Same (add_turn sessions session_id binding turn)
  unfolding add_turn
  add_turn-label session_id binding turn =
      ground (arith, update-label k session_id (push_turn turn) sessions (λ _. refl) (λ _. refl))

  store_compaction-label :
      (session_id : SessionId) (compaction : CompactionRecord) (now : ℕ)
      → Holds Same (store_compaction sessions session_id compaction now)
  unfolding store_compaction
  store_compaction-label session_id compaction now = ground (
    arith,
    update-label k session_id (store_pointer compaction now) sessions (λ _. refl) (λ _. refl),
  )

-- The records that neither create nor activate a session.
abbrev pub chooses : JournalRecord → Bool
chooses (session_created session) = true
chooses (session_activated session_id now) = true
chooses _ = false

abbrev Labelled : SessionId → SessionMachine → SessionMachine → Type 0
Labelled k m m' =
    (label k m'.sessions ≡ label k m.sessions) × (m'.active_session_id ≡ m.active_session_id)

with_sessions-label :
    (k : SessionId) (m : SessionMachine) (done : Result RuntimeErrorCode Sessions)
    → Holds (λ sessions. label k sessions ≡ label k m.sessions) done
    → Holds (Labelled k m) (with_sessions m done)
with_sessions-label k m (ok sessions) h = (h, refl)
with_sessions-label k m (err e) h = tt

pub apply_journal-label :
    (json : Json) (k : SessionId) (m : SessionMachine) (entry : JournalRecord)
    → chooses entry ≡ false
    → Holds (Labelled k m) (apply_journal json m entry)
unfolding apply_journal
apply_journal-label json k m (session_created session) other = cc
apply_journal-label json k m (session_activated session_id now) other = cc
apply_journal-label json k m (turn_started session_id binding turn) other =
    with_sessions-label k m _ (add_turn-label k m.sessions session_id binding turn)
apply_journal-label json k m (turn_delta session_id turn_id delta now) other =
    with_sessions-label k m _ (add_delta-label k m.sessions session_id turn_id delta now)
apply_journal-label json k m (turn_terminal session_id receipt message now) other =
    with_sessions-label k m _ (apply_terminal-label k m.sessions session_id receipt message now)
apply_journal-label json k m (tool_requested session_id turn_id invocation now) other =
    with_sessions-label k m _ (add_tool-label k m.sessions json session_id turn_id invocation now)
apply_journal-label json k m (tool_decision_recorded session_id turn_id decision now) other =
    with_sessions-label k m _ (add_decision-label k m.sessions session_id turn_id decision now)
apply_journal-label json k m (tool_started session_id turn_id call_id now) other =
    with_sessions-label k m _ (add_start-label k m.sessions session_id turn_id call_id now)
apply_journal-label json k m (tool_terminal session_id turn_id result now) other =
    with_sessions-label k m _ (add_result-label k m.sessions session_id turn_id result now)
apply_journal-label json k m (recovery_applied session_id receipt message now) other =
    with_sessions-label k m _ (apply_terminal-label k m.sessions session_id receipt message now)
apply_journal-label json k m (compaction_stored session_id compaction now) other =
    with_sessions-label k m _ (store_compaction-label k m.sessions session_id compaction now)
apply_journal-label json k m (trace_stored session_id entry) other = ground arith
