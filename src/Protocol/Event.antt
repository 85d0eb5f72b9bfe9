-- ===== src/Protocol/Event.antt =====
-- Provider-neutral stream events: crates/protocol/src/event.rs.
use Prim.Native.String.{len}
use wiki_coding.Prelude.{
  ℕ, String, Bool, true, false, Option, List, ◌||◌, ltb, is_blank, Result, refuse_if, ok, ◌>>◌,
  ℕ_discrete,
}

-- The marker holds the one version that is supported.
pub data SchemaVersion : Type 0 where
  v1 : SchemaVersion

pub data ProtocolErrorCode : Type 0 where
  malformed_json missing_tool_call_id premature_eof duplicate_terminal event_after_terminal
        unknown_event duplicate_tool_call_id invalid_tool_arguments tool_arguments_too_large :
      ProtocolErrorCode

-- An identifier is a text that passed `new`.
abbrev pub SessionId : Type 0
SessionId = String

abbrev pub TurnId : Type 0
TurnId = String

abbrev pub ToolCallId : Type 0
ToolCallId = String

-- `new` of the identifiers that `validated_id!` declares.
unfoldable pub validated_id : String → Result ProtocolErrorCode String
validated_id value = do refuse_if (is_blank value || ltb 256 (len value)) malformed_json; ok value

pub data ProviderProtocolKind : Type 0 where
  responses chat_completions : ProviderProtocolKind

-- The counts are `u64`.
pub record Usage : Type 0 where
  pub input_tokens : Option ℕ
  pub output_tokens : Option ℕ
  pub total_tokens : Option ℕ

pub record ToolCallFragment : Type 0 where
  pub call_id : ToolCallId
  pub stream_id : Option String
  pub name : Option String
  pub arguments_delta : Option String
  pub arguments_complete : Bool
  pub index : Option ℕ

pub data TerminalOutcome : Type 0 where
  completed : TerminalOutcome
  failed : ProtocolErrorCode → TerminalOutcome
  interrupted stopped : TerminalOutcome

pub data StreamEvent : Type 0 where
  reasoning_filtered : StreamEvent
  visible_text_delta : String → StreamEvent
  tool_call_fragments : List ToolCallFragment → StreamEvent
  usage : Usage → StreamEvent
  terminal : TerminalOutcome → StreamEvent

unfoldable pub is_terminal : StreamEvent → Bool
is_terminal (terminal outcome) = true
is_terminal _ = false

pub record StreamEventV1 : Type 0 where
  pub schema_version : SchemaVersion
  pub event : StreamEvent

abbrev pub stream_event_v1 : StreamEvent → StreamEventV1
stream_event_v1 event = record { schema_version = v1; event = event }

unfoldable pub ProviderProtocolKind-discrete : Discrete ProviderProtocolKind
ProviderProtocolKind-discrete = hlevel

unfoldable pub Usage-discrete : Discrete Usage
Usage-discrete = hlevel ℕ_discrete
