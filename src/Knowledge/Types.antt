-- ===== src/Knowledge/Types.antt =====
-- Inputs, effects and state of the wiki workflow: crates/core/src/knowledge.rs.
use wiki_coding.Prelude.{ℕ, String, Bool, nat_eq, string_eq, Option, List, Result}
use wiki_coding.Protocol.Event.{Usage}
use wiki_coding.Protocol.Session.{ModelBinding}
use wiki_coding.Protocol.Vault.{ContentHash, EvidenceId, TransactionId}
use wiki_coding.Protocol.Knowledge.{
  KnowledgeEvaluationJob, KnowledgePatch, KnowledgeReceipt, PageId, TopicId, WikiWorkflowEvent,
  WikiWorkflowState,
}
use wiki_coding.Knowledge.{DurabilityDecision}

pub record WikiEvidenceChunk : Type 0 where
  pub source_id : EvidenceId
  pub source_hash : ContentHash
  pub label : String
  pub content : String

pub record WikiCurrentExcerpt : Type 0 where
  pub page_id : PageId
  pub topic_id : TopicId
  pub title : String
  pub content : String
  pub content_hash : ContentHash

pub record WikiGenerationRequest : Type 0 where
  pub job : KnowledgeEvaluationJob
  pub evidence : List WikiEvidenceChunk
  pub current : List WikiCurrentExcerpt
  pub schema_repair_only : Bool

pub data KnowledgeInput : Type 0 where
  evaluated : DurabilityDecision → KnowledgeInput
  generated_patch : KnowledgePatch → Usage → KnowledgeInput
  schema_rejected : (code : String) → Usage → KnowledgeInput
  unsafe_generation_rejected : (code : String) → Usage → KnowledgeInput
  semantic_rejected : (code : String) → KnowledgeInput
  generation_unavailable : (code : String) → KnowledgeInput
  patch_validated : ContentHash → KnowledgeInput
  committed : TransactionId → KnowledgeInput
  commit_pending : (code : String) → KnowledgeInput
  rebind : ModelBinding → KnowledgeInput
  recover : KnowledgeInput

pub data KnowledgeEffect : Type 0 where
  persist_event : WikiWorkflowEvent → KnowledgeEffect
  publish_event : WikiWorkflowEvent → KnowledgeEffect
  generate : WikiGenerationRequest → KnowledgeEffect
  validate : KnowledgePatch → KnowledgeEffect
  commit : KnowledgePatch → (patch_hash : ContentHash) → KnowledgeEffect
  persist_receipt : KnowledgeReceipt → KnowledgeEffect
  publish_receipt : KnowledgeReceipt → KnowledgeEffect

pub data WikiWorkflowError : Type 0 where
  invalid_transition invalid_job wrong_job invalid_code missing_patch : WikiWorkflowError

pub record MainModelWikiWorkflow : Type 0 where
  pub job : KnowledgeEvaluationJob
  pub state : WikiWorkflowState
  pub generation_attempts : ℕ
  pub usage : Option Usage
  pub patch : Option KnowledgePatch
  pub patch_hash : Option ContentHash

abbrev pub Reply : Type 0
Reply = Result WikiWorkflowError (List KnowledgeEffect)
