-- ===== src/Session/Turns.antt =====
-- The turn that a session holds under an id, and what writes to the sessions do to it
-- (crates/core/src/session.rs).
use wiki_coding.Prelude.{
  ℕ, ◌≡◌, sym, ap, subst, true, not, Option, none, some, List, [], ◌∷◌, ◌++◌, ◌&&◌, find,
  update_first, Result, ◌==◌, string_eq, get, update, contains_key, get-update, arith,
  if◌then◌else◌, Holds, >>=-Holds, >>-Holds, Holds-ok, ok_or, refuse_if, ◌>>◌, Option-cases, inl,
  inr,
}
use wiki_coding.Protocol.Event.{SessionId, TurnId, ToolCallId}
use wiki_coding.Protocol.Runtime.{RuntimeErrorCode, recovery}
use wiki_coding.Protocol.Session.{TurnRecord, SessionRecord, ToolInvocationRecord}
use wiki_coding.Session.{has_id, is_running}
use wiki_coding.Session.Journal.{
  Sessions, find_turn_mut, change_turn, set_turn, find_tool_mut, has_call_id,
}

abbrev turn_of : TurnId → Option SessionRecord → Option TurnRecord
turn_of turn_id none = none
turn_of turn_id (some session) = find (has_id turn_id) session.turns

unfoldable pub turn_in : Sessions → SessionId → TurnId → Option TurnRecord
turn_in sessions session_id turn_id = turn_of turn_id (get session_id sessions)

pub find_turn_mut-turn_in :
    (sessions : Sessions) (session_id : SessionId) (turn_id : TurnId)
    → Holds
        (λ turn. turn_in sessions session_id turn_id ≡ some turn)
        (find_turn_mut sessions session_id turn_id)
unfolding find_turn_mut turn_in
find_turn_mut-turn_in sessions session_id turn_id = ground arith

-- A change of a turn that keeps its id is seen under that id alone.
pub find-update_first :
    (j k : TurnId) (change : TurnRecord → TurnRecord) (turns : List TurnRecord)
    → ((turn : TurnRecord) → (change turn).turn_id ≡ turn.turn_id)
    → find (has_id k) (update_first (has_id j) change turns) ≡ (
        if k == j
        then elim (find (has_id k) turns) [ none ↦ none | some turn ↦ some (change turn) ]
        else find (has_id k) turns)
find-update_first j k change [] keeps = ground arith
find-update_first j k change (turn ∷ turns) keeps =
    ground (arith, keeps turn, find-update_first j k change turns keeps)

pub find-push :
    (k : TurnId) (turn : TurnRecord) (turns : List TurnRecord)
    → find (has_id k) (turns ++ (turn ∷ [])) ≡ elim (find (has_id k) turns) [
      | none ↦ if turn.turn_id == k then some turn else none
      | some found ↦ some found
    ]
find-push k turn [] = ground arith
find-push k turn (other ∷ turns) = ground (arith, find-push k turn turns)

abbrev changed : (TurnRecord → TurnRecord) → Option TurnRecord → Option TurnRecord
changed change none = none
changed change (some turn) = some (change turn)

pub change_turn-turn_in :
    (sessions : Sessions) (s k : SessionId) (t j : TurnId) (now : ℕ)
    (change : TurnRecord → TurnRecord)
    → ((turn : TurnRecord) → (change turn).turn_id ≡ turn.turn_id)
    → Holds
        (λ sessions'. turn_in sessions' k j ≡ (
          if k == s && j == t then changed change (turn_in sessions k j) else turn_in sessions k j))
        (change_turn sessions s t now change)
unfolding turn_in contains_key
change_turn-turn_in sessions s k t j now change keeps =
    let step = get-update s k (set_turn change t) sessions in
    let touched =
      get-update s k (λ session. record session { updated_at_unix_ms = now })
        (update s (set_turn change t) sessions) in
    elim (Option-cases (get k sessions)) [
      | inl none_there ↦ ground arith
      | inr (session, there) ↦ ground (arith, find-update_first t j change session.turns keeps)
    ]

-- What `find_tool_mut` finds: a tool call of a turn that runs.
pub record FoundTool (sessions : Sessions) (session_id : SessionId) (turn_id : TurnId)
    (call_id : ToolCallId) (tool : ToolInvocationRecord) : Type 0 where
  pub turn : TurnRecord
  pub there : turn_in sessions session_id turn_id ≡ some turn
  pub runs : is_running turn ≡ true
  pub found : find (has_call_id call_id) turn.tool_invocations ≡ some tool

pub find_tool_mut-FoundTool :
    (sessions : Sessions) (session_id : SessionId) (turn_id : TurnId) (call_id : ToolCallId)
    → Holds
        (FoundTool sessions session_id turn_id call_id)
        (find_tool_mut sessions session_id turn_id call_id)
unfolding find_tool_mut
find_tool_mut-FoundTool sessions session_id turn_id call_id =
    let P = FoundTool sessions session_id turn_id call_id in
    let looking : TurnRecord → Result RuntimeErrorCode ToolInvocationRecord =
      λ turn. ok_or (find (has_call_id call_id) turn.tool_invocations) recovery in
    let turn_found = find_turn_mut sessions session_id turn_id in
    >>=-Holds P turn_found (λ turn. refuse_if (not (is_running turn)) recovery >> looking turn)
      λ turn found_turn.
        >>-Holds P (refuse_if (not (is_running turn)) recovery) (looking turn) λ _ runs.
          elim (Option-cases (find (has_call_id call_id) turn.tool_invocations)) [
            | inl missing ↦ subst (Holds P) (ap (λ o. ok_or o recovery) (sym missing)) tt
            | inr (tool, found) ↦ subst (Holds P) (ap (λ o. ok_or o recovery) (sym found)) (record {
              turn = turn;
              there =
                  Holds-ok (λ t. turn_in sessions session_id turn_id ≡ some t) turn_found found_turn
                    (find_turn_mut-turn_in sessions session_id turn_id);
              runs = ground arith;
              found = found;
            })
          ]
