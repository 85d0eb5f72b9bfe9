-- ===== src/Knowledge/Missing.antt =====
-- No step of a run finds the patch missing (crates/core/src/knowledge.rs).
use wiki_coding.Prelude.{◌≡◌, ◌≢◌, string_eq, none, List, err, arith}
use wiki_coding.Protocol.Knowledge.{
  KnowledgeEvaluationJob, WikiWorkflowState, evaluation_pending, generating, validating, committing,
  validate_event, validate_code as validate_event_code,
}
use wiki_coding.Knowledge.{durable, no_op}
use wiki_coding.Knowledge.Types.{
  WikiEvidenceChunk, WikiCurrentExcerpt, KnowledgeInput, KnowledgeEffect, evaluated,
  generated_patch, schema_rejected, unsafe_generation_rejected, semantic_rejected,
  generation_unavailable, patch_validated, committed, commit_pending, rebind, recover,
  MainModelWikiWorkflow, missing_patch,
}
use wiki_coding.Knowledge.Workflow.{observable, validate_code}
use wiki_coding.Knowledge.Machine.{
  apply, step, after_evaluation, after_generation, after_schema_rejection, unsafe_generation,
  end_with, after_validation, synthesized, after_rebind, after_recover,
}
use wiki_coding.Knowledge.Runs.{Run}
use wiki_coding.Knowledge.Patches.{Run-held}

step_missing :
    (evidence : List WikiEvidenceChunk) (current : List WikiCurrentExcerpt)
    (m : MainModelWikiWorkflow) (state : WikiWorkflowState) (input : KnowledgeInput)
    → (step evidence current m state input).1 ≡ err missing_patch
    → (state ≡ validating) × (m.patch ≡ none)
unfolding step after_evaluation after_generation after_schema_rejection unsafe_generation end_with
    after_validation synthesized after_rebind after_recover observable validate_event validate_code
    validate_event_code
step_missing evidence current m evaluation_pending (evaluated (durable code)) e = ground arith
step_missing evidence current m evaluation_pending (evaluated (no_op code)) e = ground arith
step_missing evidence current m generating (generated_patch patch usage) e = ground arith
step_missing evidence current m generating (schema_rejected code usage) e = ground arith
step_missing evidence current m generating (unsafe_generation_rejected code usage) e = ground arith
step_missing evidence current m generating (generation_unavailable code) e = ground arith
step_missing evidence current m validating (semantic_rejected code) e = ground arith
step_missing evidence current m validating (patch_validated patch_hash) e = ground arith
step_missing evidence current m committing (committed transaction_id) e = ground arith
step_missing evidence current m committing (commit_pending code) e = ground arith
step_missing evidence current m WikiWorkflowState.pending (rebind binding) e = ground arith
step_missing evidence current m state recover e = ground arith
step_missing evidence current m _ _ e = cc

-- In every run of a job, no input is ever answered with a missing patch.
pub patch_never_missing :
    {job : KnowledgeEvaluationJob} {m : MainModelWikiWorkflow} {log : List KnowledgeEffect}
    → Run job m log
    → (evidence : List WikiEvidenceChunk) (current : List WikiCurrentExcerpt)
      (input : KnowledgeInput)
    → (apply evidence current m input).1 ≢ err missing_patch
unfolding apply
patch_never_missing {job} {m} run evidence current input e =
    let (at, absent) = step_missing evidence current m m.state input e in
    let (patch, held) = Run-held run at in cc
