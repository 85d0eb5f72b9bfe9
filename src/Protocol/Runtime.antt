-- ===== src/Protocol/Runtime.antt =====
-- Runtime errors, outcomes, events and receipts, and the limits of a request:
-- crates/protocol/src/runtime.rs.
use Prim.Native.String.{len}
use wiki_coding.Prelude.{
  ℕ, String, Option, none, List, ◌||◌, ◌*◌, ltb, ◌==◌, nat_eq, is_blank, Result, refuse_if, ok,
  ◌>>◌,
}
use wiki_coding.Protocol.Event.{
  SchemaVersion, v1, SessionId, TurnId, ToolCallId, Usage, ProtocolErrorCode, malformed_json,
  missing_tool_call_id, premature_eof, duplicate_terminal, event_after_terminal, unknown_event,
  duplicate_tool_call_id, invalid_tool_arguments, tool_arguments_too_large,
}
use wiki_coding.Protocol.Tool.{ToolCall, ToolResult}

abbrev pub ProviderId : Type 0
ProviderId = String

abbrev pub ModelId : Type 0
ModelId = String

abbrev pub RequestId : Type 0
RequestId = String

pub data RuntimeErrorCode : Type 0 where
  configuration credential_missing transport_timeout transport_network http_status
        protocol_malformed_json protocol_premature_eof protocol_duplicate_terminal
        protocol_event_after_terminal protocol_unknown_event interrupted workspace_busy recovery
        tool_unavailable agent_budget_exhausted :
      RuntimeErrorCode

-- `new` of the identifiers that `validated_runtime_id!` declares.
unfoldable pub validated_runtime_id : String → Result RuntimeErrorCode String
validated_runtime_id value = do
  refuse_if (is_blank value || ltb 256 (len value)) configuration
  ok value

-- `From<ProtocolErrorCode>`.
unfoldable pub from_protocol : ProtocolErrorCode → RuntimeErrorCode
from_protocol malformed_json = protocol_malformed_json
from_protocol missing_tool_call_id = protocol_malformed_json
from_protocol premature_eof = protocol_premature_eof
from_protocol duplicate_terminal = protocol_duplicate_terminal
from_protocol event_after_terminal = protocol_event_after_terminal
from_protocol unknown_event = protocol_unknown_event
from_protocol duplicate_tool_call_id = protocol_malformed_json
from_protocol invalid_tool_arguments = protocol_malformed_json
from_protocol tool_arguments_too_large = protocol_malformed_json

pub record RuntimeFailure : Type 0 where
  pub code : RuntimeErrorCode
  pub http_status : Option ℕ

abbrev pub runtime_failure : RuntimeErrorCode → RuntimeFailure
runtime_failure code = record { code = code; http_status = none }

pub data RuntimeTerminalOutcome : Type 0 where
  completed : RuntimeTerminalOutcome
  failed : RuntimeFailure → RuntimeTerminalOutcome
  interrupted stopped : RuntimeTerminalOutcome

pub data DiagnosticCode : Type 0 where
  provider_connected provider_disconnected recovery_applied not_available : DiagnosticCode

pub data RuntimeEvent : Type 0 where
  turn_started : SessionId → TurnId → RequestId → RuntimeEvent
  visible_text_delta : String → RuntimeEvent
  reasoning_filtered : RuntimeEvent
  tool_call_observed : ToolCallId → Option String → RuntimeEvent
  usage : Usage → RuntimeEvent
  diagnostic : DiagnosticCode → RuntimeEvent
  terminal : RuntimeTerminalOutcome → RuntimeEvent

pub record RuntimeEventV1 : Type 0 where
  pub schema_version : SchemaVersion
  pub event : RuntimeEvent

abbrev pub runtime_event_v1 : RuntimeEvent → RuntimeEventV1
runtime_event_v1 event = record { schema_version = v1; event = event }

pub record TurnReceipt : Type 0 where
  pub session_id : SessionId
  pub turn_id : TurnId
  pub request_id : RequestId
  pub outcome : RuntimeTerminalOutcome
  pub usage : Option Usage

pub data MessageRole : Type 0 where
  system user assistant : MessageRole

pub record ModelMessage : Type 0 where
  pub role : MessageRole
  pub content : String

pub data ConversationItem : Type 0 where
  message : ModelMessage → ConversationItem
  assistant_tool_calls : List ToolCall → ConversationItem
  tool_result : ToolResult → ConversationItem

pub record AgentLimits : Type 0 where
  pub max_provider_rounds : ℕ  -- u16
  pub max_tool_calls : ℕ  -- u16
  pub max_elapsed_ms : ℕ  -- u64
  pub max_tool_result_bytes : ℕ  -- u64

abbrev pub default_limits : AgentLimits
default_limits = record {
  max_provider_rounds = 8;
  max_tool_calls = 64;
  max_elapsed_ms = 300000;
  max_tool_result_bytes = 1048576;
}

unfoldable pub validate_limits : AgentLimits → Result RuntimeErrorCode AgentLimits
validate_limits limits = do
  refuse_if
      (limits.max_provider_rounds == 0
        || ltb 64 limits.max_provider_rounds
        || limits.max_tool_calls == 0
        || ltb 256 limits.max_tool_calls
        || limits.max_elapsed_ms == 0
        || ltb 3600000 limits.max_elapsed_ms
        || limits.max_tool_result_bytes == 0
        || ltb (16 * 1024 * 1024) limits.max_tool_result_bytes)
      configuration
  ok limits

abbrev pub max_output_tokens_limit : ℕ
max_output_tokens_limit = 1048576

pub record OutputSettings : Type 0 where
  pub max_output_tokens : ℕ  -- u32

-- `OutputSettings::new`, which `validate` calls too.
unfoldable pub output_settings : ℕ → Result RuntimeErrorCode OutputSettings
output_settings max_output_tokens = do
  refuse_if (max_output_tokens == 0 || ltb max_output_tokens_limit max_output_tokens) configuration
  ok (record { max_output_tokens = max_output_tokens })
