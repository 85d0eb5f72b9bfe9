-- ===== src/Protocol/Request.antt =====
-- A turn's request and its validation: crates/protocol/src/runtime.rs.
use Prim.Native.String.{len}
use wiki_coding.Prelude.{
  ℕ, String, Bool, false, not, Option, none, some, List, [], ◌∷◌, ◌||◌, ◌&&◌, ◌+◌, ltb, any, length,
  is_empty, Result, refuse_if, ok, ok_or, map_err, ◌>>=◌, ◌>>◌, Map, StringSet, get, insert,
  contains_key, is_some, ◌==◌, string_eq,
}
use wiki_coding.Protocol.Json.{Json}
use wiki_coding.Protocol.Event.{SessionId, TurnId, ProviderProtocolKind}
use wiki_coding.Protocol.Tool.{
  ToolCall, ToolDefinition, validate_result, validate_definition, validate_call,
  validate_call_shape,
}
use wiki_coding.Protocol.Runtime.{
  RuntimeErrorCode, configuration, ProviderId, ModelId, RequestId, ConversationItem, message,
  assistant_tool_calls, tool_result, AgentLimits, validate_limits, OutputSettings, output_settings,
}

abbrev pub max_messages : ℕ
max_messages = 4096

abbrev pub max_message_bytes : ℕ
max_message_bytes = 1048576

sum_call_bytes : List ToolCall → ℕ
sum_call_bytes [] = 0
sum_call_bytes (call ∷ calls) = len call.name + len call.arguments_json + sum_call_bytes calls

-- The sum over a batch is that of `usize` values of texts in memory, so it does not wrap.
unfoldable pub byte_len : ConversationItem → ℕ
unfolding sum_call_bytes
byte_len (message m) = len m.content
byte_len (assistant_tool_calls calls) = sum_call_bytes calls
byte_len (tool_result result) = elim result.output [ none ↦ 0 | some output ↦ len output ]

module _ (json : Json) where
  pub record TurnRequest : Type 0 where
    pub session_id : SessionId
    pub turn_id : TurnId
    pub request_id : RequestId
    pub provider_id : ProviderId
    pub model_id : ModelId
    pub protocol : ProviderProtocolKind
    pub messages : List ConversationItem
    pub tools : List (ToolDefinition json)
    pub agent_limits : Option AgentLimits
    pub output : OutputSettings

  -- The loop over the tools: each is valid, and no two have one name.
  unfoldable pub collect_definitions :
      Map (ToolDefinition json)
      → List (ToolDefinition json)
      → Result RuntimeErrorCode (Map (ToolDefinition json))
  collect_definitions definitions [] = ok definitions
  collect_definitions definitions (tool ∷ tools) =
      let rest = collect_definitions (insert tool.name tool definitions) tools in
      do
        map_err (validate_definition json tool) configuration
        refuse_if (contains_key tool.name definitions) configuration
        rest

  -- The loop over a batch of calls: each is valid for its definition, and its id is new.
  unfoldable pub check_calls :
      Map (ToolDefinition json) → Map String → List ToolCall → Result RuntimeErrorCode (Map String)
  check_calls definitions call_names [] = ok call_names
  check_calls definitions call_names (call ∷ calls) =
      let rest = check_calls definitions (insert call.call_id call.name call_names) calls in
      do
        map_err (validate_call_shape json call) configuration
        definition ← ok_or (get call.name definitions) configuration
        map_err (validate_call json definition call) configuration
        refuse_if (contains_key call.call_id call_names) configuration
        rest

  abbrev is_named : Option String → String → Bool
  is_named none name = false
  is_named (some found) name = found == name

  -- The loop over the messages; what it returns are the names of the calls that it met.
  unfoldable pub check_messages :
      Map (ToolDefinition json)
      → Map String
      → StringSet
      → List ConversationItem
      → Result RuntimeErrorCode (Map String)
  check_messages definitions call_names result_ids [] = ok call_names
  check_messages definitions call_names result_ids (message m ∷ items) =
      check_messages definitions call_names result_ids items
  check_messages definitions call_names result_ids (assistant_tool_calls calls ∷ items) = do
    refuse_if (is_empty calls) configuration
    names ← check_calls definitions call_names calls
    check_messages definitions names result_ids items
  check_messages definitions call_names result_ids (tool_result result ∷ items) =
      let rest =
        check_messages definitions call_names (insert result.call_id tt result_ids) items in
      do
        map_err (validate_result result) configuration
        refuse_if
            (not (is_named (get result.call_id call_names) result.tool_name)
              || contains_key result.call_id result_ids)
            configuration
        rest

  abbrev check_limits : Option AgentLimits → Result RuntimeErrorCode (Unit {0})
  check_limits none = ok tt
  check_limits (some limits) = do validate_limits limits; ok tt

  unfoldable pub validate_request : TurnRequest → Result RuntimeErrorCode TurnRequest
  unfolding validate_limits output_settings
  validate_request request = do
    refuse_if
        (is_empty request.messages
          || ltb max_messages (length request.messages)
          || any (λ item. ltb max_message_bytes (byte_len item)) request.messages)
        configuration
    definitions ← collect_definitions [] request.tools
    call_names ← check_messages definitions [] [] request.messages
    refuse_if
        ((not (is_empty request.tools) || not (is_empty call_names))
          && not (is_some request.agent_limits))
        configuration
    check_limits request.agent_limits
    output_settings request.output.max_output_tokens
    ok request
