-- ===== src/Knowledge/Workflow.antt =====
-- The parts of `MainModelWikiWorkflow`: its start, its events, receipts and requests, and the
-- changes of its fields (crates/core/src/knowledge.rs).
use wiki_coding.Prelude.{
  ℕ, String, len, Bool, not, ◌||◌, ◌+◌, ◌-◌, ◌^◌, min, ltb, ◌==◌, nat_eq, string_eq, Option, none,
  some, List, [], ◌∷◌, Result, ok, refuse_if, map_err, ◌>>=◌, ◌>>◌, is_code_text,
}
use wiki_coding.Protocol.Event.{v1, Usage}
use wiki_coding.Protocol.Session.{ModelBinding}
use wiki_coding.Protocol.Vault.{ContentHash, TransactionId}
use wiki_coding.Protocol.Knowledge.{
  KnowledgeEvaluationJob, KnowledgePatch, KnowledgeReceipt, KnowledgeReceiptOutcome,
  WikiWorkflowEvent, WikiWorkflowState, WikiWorkflowUsage, evaluation_pending, generating,
  validate_job, validate_event,
}
use wiki_coding.Knowledge.Types.{
  WikiEvidenceChunk, WikiCurrentExcerpt, WikiGenerationRequest, KnowledgeEffect, persist_event,
  publish_event, persist_receipt, publish_receipt, WikiWorkflowError, invalid_job, invalid_code,
  MainModelWikiWorkflow, Reply,
}

-- `MainModelWikiWorkflow::new`.
unfoldable pub new : KnowledgeEvaluationJob → Result WikiWorkflowError MainModelWikiWorkflow
new submitted = do
  job ← map_err (validate_job submitted) invalid_job
  ok (record {
    job = job;
    state = evaluation_pending;
    generation_attempts = 0;
    usage = none;
    patch = none;
    patch_hash = none;
  })

unfoldable pub validate_code : String → Result WikiWorkflowError (Unit {0})
validate_code code =
    refuse_if (len code == 0 || ltb 64 (len code) || not (is_code_text code)) invalid_code

-- `saturating_add` on `u64`.
unfoldable pub merge_optional : Option ℕ → Option ℕ → Option ℕ
merge_optional (some left) (some right) = some (min (left + right) (2 ^ 64 - 1))
merge_optional (some value) none = some value
merge_optional none (some value) = some value
merge_optional none none = none

abbrev pub no_usage : Usage
no_usage = record { input_tokens = none; output_tokens = none; total_tokens = none }

abbrev pub usage_or_default : Option Usage → Usage
usage_or_default none = no_usage
usage_or_default (some usage) = usage

unfoldable pub merge_usage : Option Usage → Usage → Usage
merge_usage current next =
    let before = usage_or_default current in
    record {
      input_tokens = merge_optional (before.input_tokens) (next.input_tokens);
      output_tokens = merge_optional (before.output_tokens) (next.output_tokens);
      total_tokens = merge_optional (before.total_tokens) (next.total_tokens);
    }

module _ (m : MainModelWikiWorkflow) where
  abbrev bound_usage : Option Usage → Option WikiWorkflowUsage
  bound_usage none = none
  bound_usage (some usage) = some (record { model_binding = m.job.model_binding; usage = usage })

  abbrev pub workflow_event : String → Option Usage → WikiWorkflowEvent
  workflow_event code usage = record {
    schema_version = v1;
    job_id = m.job.job_id;
    state = m.state;
    code = code;
    usage = bound_usage usage;
  }

  unfoldable pub observable : String → Option Usage → Reply
  observable code usage = do
    validate_code code
    event ← map_err (validate_event (workflow_event code usage)) invalid_code
    ok (persist_event event ∷ publish_event event ∷ [])

  unfoldable pub receipt :
      KnowledgeReceiptOutcome → String → Option TransactionId → List KnowledgeEffect
  receipt outcome code transaction_id =
      let written : KnowledgeReceipt = record {
        schema_version = v1;
        job_id = m.job.job_id;
        source_id = m.job.source_id;
        source_hash = m.job.source_hash;
        outcome = outcome;
        code = code;
        model_binding = m.job.model_binding;
        usage = m.usage;
        patch_hash = m.patch_hash;
        transaction_id = transaction_id;
      } in
      persist_receipt written ∷ publish_receipt written ∷ []

  unfoldable pub generation_request :
      List WikiEvidenceChunk → List WikiCurrentExcerpt → Bool → WikiGenerationRequest
  generation_request evidence current schema_repair_only = record {
    job = m.job;
    evidence = evidence;
    current = current;
    schema_repair_only = schema_repair_only;
  }

  abbrev pub set_state : WikiWorkflowState → MainModelWikiWorkflow
  set_state state = record m { state = state }

  abbrev pub add_usage : Usage → MainModelWikiWorkflow
  add_usage usage = record m { usage = some (merge_usage m.usage usage) }

  abbrev pub set_attempts : ℕ → MainModelWikiWorkflow
  set_attempts attempts = record m { generation_attempts = attempts }

  abbrev pub set_patch : KnowledgePatch → MainModelWikiWorkflow
  set_patch patch = record m { patch = some patch }

  abbrev pub set_patch_hash : ContentHash → MainModelWikiWorkflow
  set_patch_hash patch_hash = record m { patch_hash = some patch_hash }

  -- The machine of a `Rebind`.
  abbrev pub rebound : ModelBinding → MainModelWikiWorkflow
  rebound binding = record {
    job = record (m.job) { model_binding = binding };
    state = generating;
    generation_attempts = 1;
    usage = none;
    patch = none;
    patch_hash = none;
  }
