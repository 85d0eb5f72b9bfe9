-- ===== src/Protocol/Knowledge.antt =====
-- Jobs, pages, patches, events and receipts of the wiki, with their validations:
-- crates/protocol/src/knowledge.rs.
use wiki_coding.Prelude.{
  ℕ, String, len, Bool, true, false, not, ◌&&◌, ◌||◌, Option, none, some, List, [], ◌∷◌, ◌*◌, map,
  length, is_empty, any_char, is_control, is_blank, is_code_text, starts_with, ends_with, Result,
  ok, refuse_if, map_err, ◌>>◌, StringSet, insert, contains_key, ◌==◌, nat_eq, string_eq, ltb,
}
use Prim.Native.Nat.{Ordering}
use Prim.Native.String.{compare}
use wiki_coding.Protocol.Event.{SchemaVersion, Usage}
use wiki_coding.Protocol.Session.{ModelBinding}
use wiki_coding.Protocol.Vault.{
  EvidenceId, ContentHash, TransactionId, validate_vault_relative_path,
}

pub data KnowledgeValidationError : Type 0 where
  invalid_id invalid_code invalid_path invalid_title empty_body body_too_large too_many_operations
        too_many_sources duplicate_operation duplicate_source invalid_supersession empty_patch :
      KnowledgeValidationError

abbrev pub KnowledgeJobId : Type 0
KnowledgeJobId = String

abbrev pub PageId : Type 0
PageId = String

abbrev pub TopicId : Type 0
TopicId = String

-- `new` of the identifiers that `knowledge_id!` declares.
unfoldable pub validated_knowledge_id : String → Result KnowledgeValidationError String
validated_knowledge_id value = do
  refuse_if (is_blank value || ltb 256 (len value) || any_char is_control value) invalid_id
  ok value

pub record KnowledgeEvaluationJob : Type 0 where
  pub schema_version : SchemaVersion
  pub job_id : KnowledgeJobId
  pub source_id : EvidenceId
  pub source_hash : ContentHash
  pub model_binding : ModelBinding
  pub prompt_version : ℕ
  pub patch_schema_version : ℕ
  pub max_evidence_bytes : ℕ
  pub max_output_tokens : ℕ

-- `SCHEMA_VERSION`.
abbrev pub current_schema_version : ℕ
current_schema_version = 1

unfoldable pub validate_job :
    KnowledgeEvaluationJob → Result KnowledgeValidationError KnowledgeEvaluationJob
validate_job job = do
  refuse_if
      (job.prompt_version == 0
        || not (job.patch_schema_version == current_schema_version)
        || job.max_evidence_bytes == 0
        || ltb (4 * 1024 * 1024) (job.max_evidence_bytes)
        || job.max_output_tokens == 0
        || ltb 16384 (job.max_output_tokens))
      invalid_code
  ok job

pub record SourceCitation : Type 0 where
  pub source_id : EvidenceId
  pub source_hash : ContentHash

pub data KnowledgePageStatus : Type 0 where
  current superseded : KnowledgePageStatus

pub record KnowledgePage : Type 0 where
  pub schema_version : SchemaVersion
  pub page_id : PageId
  pub topic_id : TopicId
  pub relative_path : String
  pub title : String
  pub status : KnowledgePageStatus
  pub superseded_by : Option PageId
  pub sources : List SourceCitation
  pub body : String

-- `any(|id| !seen.insert(id))`.
unfoldable pub has_repeat : StringSet → List String → Bool
has_repeat seen [] = false
has_repeat seen (id ∷ ids) = contains_key id seen || has_repeat (insert id tt seen) ids

-- `windows(2).any(|pair| pair[0] >= pair[1])`.
unfoldable pub has_descent : List String → Bool
has_descent [] = false
has_descent (a ∷ []) = false
has_descent (a ∷ (b ∷ ids)) =
    (elim (compare a b) [ Ordering.lt ↦ false | _ ↦ true ]) || has_descent (b ∷ ids)

-- The last match of `KnowledgePage::validate`.
unfoldable pub status_fits : KnowledgePageStatus → Option PageId → Bool
status_fits current none = true
status_fits current (some id) = false
status_fits superseded none = false
status_fits superseded (some id) = true

unfoldable pub is_wiki_path : String → Bool
is_wiki_path path = starts_with path "wiki/" && ends_with path ".md"

unfoldable pub validate_wiki_path : String → Result KnowledgeValidationError (Unit {0})
validate_wiki_path path = do
  map_err (validate_vault_relative_path path) invalid_path
  refuse_if (not (is_wiki_path path)) invalid_path

unfoldable pub validate_page : KnowledgePage → Result KnowledgeValidationError KnowledgePage
validate_page page = do
  validate_wiki_path (page.relative_path)
  refuse_if
      (is_blank (page.title) || ltb 512 (len (page.title)) || any_char is_control (page.title))
      invalid_title
  refuse_if (is_blank (page.body)) empty_body
  refuse_if (ltb (128 * 1024) (len (page.body))) body_too_large
  refuse_if (is_empty (page.sources) || ltb 64 (length (page.sources))) too_many_sources
  refuse_if (has_repeat [] (map (λ source. source.source_id) (page.sources))) duplicate_source
  refuse_if (has_descent (map (λ source. source.source_id) (page.sources))) duplicate_source
  refuse_if (not (status_fits (page.status) (page.superseded_by))) invalid_supersession
  ok page

pub data KnowledgeOperation : Type 0 where
  create : KnowledgePage → KnowledgeOperation
  replace : KnowledgePage → (expected_hash : ContentHash) → KnowledgeOperation
  remove_page :
      (page_id : PageId)
      → (relative_path : String) → (expected_hash : ContentHash) → KnowledgeOperation

unfoldable pub validate_operation :
    KnowledgeOperation → Result KnowledgeValidationError KnowledgeOperation
validate_operation (create page) = do validate_page page; ok (create page)
validate_operation (replace page hash) = do validate_page page; ok (replace page hash)
validate_operation (remove_page id path hash) = do
  validate_wiki_path path
  ok (remove_page id path hash)

unfoldable pub operation_page_id : KnowledgeOperation → PageId
operation_page_id (create page) = page.page_id
operation_page_id (replace page hash) = page.page_id
operation_page_id (remove_page id path hash) = id

pub record KnowledgePatch : Type 0 where
  pub schema_version : SchemaVersion
  pub job_id : KnowledgeJobId
  pub operations : List KnowledgeOperation

-- The loop of `KnowledgePatch::validate`, from an operation on.
unfoldable pub check_operations :
    StringSet → List KnowledgeOperation → Result KnowledgeValidationError (Unit {0})
check_operations page_ids [] = ok tt
check_operations page_ids (operation ∷ operations) = do
  validate_operation operation
  refuse_if (contains_key (operation_page_id operation) page_ids) duplicate_operation
  check_operations (insert (operation_page_id operation) tt page_ids) operations

unfoldable pub validate_patch : KnowledgePatch → Result KnowledgeValidationError KnowledgePatch
validate_patch patch = do
  refuse_if (is_empty (patch.operations)) empty_patch
  refuse_if (ltb 32 (length (patch.operations))) too_many_operations
  check_operations [] (patch.operations)
  ok patch

pub data WikiWorkflowState : Type 0 where
  evaluation_pending no_op synthesis_pending generating validating committing synthesized pending
        failed :
      WikiWorkflowState

pub record WikiWorkflowUsage : Type 0 where
  pub model_binding : ModelBinding
  pub usage : Usage

pub record WikiWorkflowEvent : Type 0 where
  pub schema_version : SchemaVersion
  pub job_id : KnowledgeJobId
  pub state : WikiWorkflowState
  pub code : String
  pub usage : Option WikiWorkflowUsage

unfoldable pub validate_code : String → Result KnowledgeValidationError (Unit {0})
validate_code code =
    refuse_if (len code == 0 || ltb 64 (len code) || not (is_code_text code)) invalid_code

unfoldable pub validate_event :
    WikiWorkflowEvent → Result KnowledgeValidationError WikiWorkflowEvent
validate_event event = do validate_code (event.code); ok event

pub data KnowledgeReceiptOutcome : Type 0 where
  no_op pending synthesized failed : KnowledgeReceiptOutcome

pub record KnowledgeReceipt : Type 0 where
  pub schema_version : SchemaVersion
  pub job_id : KnowledgeJobId
  pub source_id : EvidenceId
  pub source_hash : ContentHash
  pub outcome : KnowledgeReceiptOutcome
  pub code : String
  pub model_binding : ModelBinding
  pub usage : Option Usage
  pub patch_hash : Option ContentHash
  pub transaction_id : Option TransactionId

unfoldable pub validate_receipt :
    KnowledgeReceipt → Result KnowledgeValidationError KnowledgeReceipt
validate_receipt receipt = do validate_code (receipt.code); ok receipt
