-- ===== src/Protocol/Session.antt =====
-- The records of a session and its journal: protocol/src/session.rs in crates/.
use wiki_coding.Prelude.{
  ℕ, String, Bool, true, false, Option, List, Result, ok, Map, refuse_if, ltb, is_blank, ◌||◌, ◌>>◌,
  Eq, ℕ_discrete, String_discrete,
}
use Prim.Native.String.{len}
use wiki_coding.Protocol.Event.{
  SchemaVersion, v1, SessionId, TurnId, ToolCallId, ProviderProtocolKind, Usage,
}
use wiki_coding.Protocol.Tool.{ToolInvocation, ToolDecision, ToolResult}
use wiki_coding.Protocol.Runtime.{
  ProviderId, ModelId, RequestId, RuntimeErrorCode, recovery, MessageRole, TurnReceipt,
}

abbrev pub RecordId : Type 0
RecordId = String

abbrev pub CompactionId : Type 0
CompactionId = String

-- `RecordId::new` and `CompactionId::new`.
unfoldable pub validated_record_id : String → Result RuntimeErrorCode String
unfolding is_blank
validated_record_id value = do refuse_if (is_blank value || ltb 256 (len value)) recovery; ok value

pub record ModelBinding : Type 0 where
  pub provider_id : ProviderId
  pub model_id : ModelId
  pub protocol : ProviderProtocolKind

pub data SessionStatus : Type 0 where
  active archived : SessionStatus

pub data TurnStatus : Type 0 where
  running completed failed interrupted stopped : TurnStatus

unfoldable pub TurnStatus-discrete : Discrete TurnStatus
TurnStatus-discrete = hlevel

instance abbrev pub turn_status_eq : Eq TurnStatus
turn_status_eq = record { eq? = TurnStatus-discrete }

-- `TurnStatus::is_terminal`.
unfoldable pub is_over : TurnStatus → Bool
is_over running = false
is_over completed = true
is_over failed = true
is_over interrupted = true
is_over stopped = true

pub record VisibleMessage : Type 0 where
  pub role : MessageRole
  pub content : String
  pub partial : Bool

pub record ToolInvocationRecord : Type 0 where
  pub invocation : ToolInvocation
  pub requested_at_unix_ms : ℕ
  pub decision : Option ToolDecision
  pub decision_at_unix_ms : Option ℕ
  pub started_at_unix_ms : Option ℕ
  pub terminal_result : Option ToolResult
  pub terminal_at_unix_ms : Option ℕ

pub record TurnRecord : Type 0 where
  pub turn_id : TurnId
  pub request_id : RequestId
  pub started_at_unix_ms : ℕ
  pub completed_at_unix_ms : Option ℕ
  pub retry_of : Option TurnId
  pub status : TurnStatus
  pub user_message : VisibleMessage
  pub assistant_message : Option VisibleMessage
  pub usage : Option Usage
  pub receipt : Option TurnReceipt
  pub tool_invocations : List ToolInvocationRecord

pub record CompactionPointer : Type 0 where
  pub compaction_id : CompactionId
  pub covered_through_turn_id : TurnId

pub record SessionRecord : Type 0 where
  pub session_id : SessionId
  pub created_at_unix_ms : ℕ
  pub updated_at_unix_ms : ℕ
  pub status : SessionStatus
  pub binding : ModelBinding
  pub turns : List TurnRecord
  pub compaction : Option CompactionPointer

pub record CompactionRecentTurn : Type 0 where
  pub turn_id : TurnId
  pub user : String
  pub assistant : String

pub record CompactionRecord : Type 0 where
  pub compaction_id : CompactionId
  pub covered_through_turn_id : TurnId
  pub goal : List String
  pub constraints : List String
  pub decisions : List String
  pub open_items : List String
  pub retained_recent_turns : List CompactionRecentTurn
  pub before_estimated_tokens : ℕ
  pub after_estimated_tokens : ℕ

pub data TraceCode : Type 0 where
  turn_started provider_connected provider_failed turn_interrupted turn_recovered
        compaction_completed command_rejected tool_completed :
      TraceCode

pub record TraceEntry : Type 0 where
  pub recorded_at_unix_ms : ℕ
  pub code : TraceCode
  pub facts : Map String

pub data JournalRecord : Type 0 where
  session_created : SessionRecord → JournalRecord
  session_activated : SessionId → ℕ → JournalRecord
  turn_started : SessionId → ModelBinding → TurnRecord → JournalRecord
  turn_delta : SessionId → TurnId → String → ℕ → JournalRecord
  turn_terminal : SessionId → TurnReceipt → Option VisibleMessage → ℕ → JournalRecord
  tool_requested : SessionId → TurnId → ToolInvocation → ℕ → JournalRecord
  tool_decision_recorded : SessionId → TurnId → ToolDecision → ℕ → JournalRecord
  tool_started : SessionId → TurnId → ToolCallId → ℕ → JournalRecord
  tool_terminal : SessionId → TurnId → ToolResult → ℕ → JournalRecord
  recovery_applied : SessionId → TurnReceipt → Option VisibleMessage → ℕ → JournalRecord
  compaction_stored : SessionId → CompactionRecord → ℕ → JournalRecord
  trace_stored : SessionId → TraceEntry → JournalRecord

pub record SessionRecordV1 : Type 0 where
  pub schema_version : SchemaVersion
  pub record_id : RecordId
  pub journal_record : JournalRecord

abbrev pub session_record_v1 : RecordId → JournalRecord → SessionRecordV1
session_record_v1 record_id journal_record = record {
  schema_version = v1;
  record_id = record_id;
  journal_record = journal_record;
}

unfoldable pub ModelBinding-discrete : Discrete ModelBinding
ModelBinding-discrete = hlevel String_discrete

instance abbrev pub model_binding_eq : Eq ModelBinding
model_binding_eq = record { eq? = ModelBinding-discrete }

unfoldable pub SessionRecordV1-discrete : Discrete SessionRecordV1
SessionRecordV1-discrete = hlevel (ℕ_discrete, String_discrete)

instance abbrev pub session_record_eq : Eq SessionRecordV1
session_record_eq = record { eq? = SessionRecordV1-discrete }
