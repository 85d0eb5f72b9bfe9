-- ===== src/Session/Request.antt =====
-- The request of a turn: `turn_request` of crates/core/src/session.rs.
use wiki_coding.Prelude.{
  ℕ, not, Option, none, some, List, [], ◌∷◌, ◌++◌, ◌||◌, Result, ok_or, ◌>>=◌, ◌==◌, string_eq,
  if◌then◌else◌,
}
use wiki_coding.Protocol.Json.{Json}
use wiki_coding.Protocol.Event.{TurnId}
use wiki_coding.Protocol.Runtime.{
  RuntimeErrorCode, recovery, MessageRole, user, assistant, ConversationItem, message,
  output_settings,
}
use wiki_coding.Protocol.Request.{TurnRequest, validate_request}
use wiki_coding.Protocol.Session.{
  ModelBinding, TurnStatus, turn_status_eq, VisibleMessage, TurnRecord,
}
use wiki_coding.Session.{SessionMachine, active_session, has_id}

abbrev pub said : MessageRole → VisibleMessage → ConversationItem
said role visible = message (record { role = role; content = visible.content })

abbrev answer : Option VisibleMessage → List ConversationItem
answer none = []
answer (some visible) = if visible.partial then [] else said assistant visible ∷ []

-- The loop over the turns before: those that were completed are told again.
unfoldable pub history : TurnId → List TurnRecord → List ConversationItem
history turn_id [] = []
history turn_id (previous ∷ turns) =
    let rest = history turn_id turns in
    if has_id turn_id previous || not (previous.status == TurnStatus.completed)
    then rest
    else said user previous.user_message ∷ (answer previous.assistant_message ++ rest)

module _ (json : Json) where
  unfoldable pub turn_request :
      SessionMachine → TurnRecord → ModelBinding → ℕ → Result RuntimeErrorCode (TurnRequest json)
  unfolding active_session history output_settings validate_request
  turn_request m turn binding max_output_tokens = do
    session ← ok_or (active_session m) recovery
    output ← output_settings max_output_tokens
    validate_request json (record {
      session_id = session.session_id;
      turn_id = turn.turn_id;
      request_id = turn.request_id;
      provider_id = binding.provider_id;
      model_id = binding.model_id;
      protocol = binding.protocol;
      messages = history turn.turn_id session.turns ++ (said user turn.user_message ∷ []);
      tools = [];
      agent_limits = none;
      output = output;
    })
