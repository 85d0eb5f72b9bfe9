-- ===== src/Knowledge/Refines.antt =====
-- Every step of the workflow is a move or leaves the machine (crates/core/src/knowledge.rs).
use wiki_coding.Prelude.{◌≡◌, refl, string_eq, List, is_code_text, ℕ_discrete}
use wiki_coding.Protocol.Knowledge.{
  WikiWorkflowState, evaluation_pending, synthesis_pending, generating, validating, committing,
}
use wiki_coding.Knowledge.Types.{
  WikiEvidenceChunk, WikiCurrentExcerpt, KnowledgeInput, MainModelWikiWorkflow, evaluated,
  generated_patch, schema_rejected, unsafe_generation_rejected, semantic_rejected,
  generation_unavailable, patch_validated, committed, commit_pending, rebind, recover,
}
use wiki_coding.Knowledge.Workflow.{validate_code}
use wiki_coding.Knowledge.Machine.{after_recover, step, apply}
use wiki_coding.Knowledge.Moves.{Outcome, stays, for_now, for_good}
use wiki_coding.Knowledge.Handlers.{
  ends-Outcome, unsafe_generation-Outcome, synthesized-Outcome, after_validation-Outcome,
  after_generation-Outcome, after_schema_rejection-Outcome, after_rebind-Outcome,
  after_evaluation-Outcome,
}

module _ (evidence : List WikiEvidenceChunk) (current : List WikiCurrentExcerpt)
    (m : MainModelWikiWorkflow) where
  after_recover-Outcome :
      (state : WikiWorkflowState)
      → m.state ≡ state
      → Outcome evidence current m (after_recover evidence current m state)
  unfolding after_recover validate_code is_code_text ℕ_discrete
  after_recover-Outcome synthesis_pending at =
      ends-Outcome evidence current m "recovered_pending" for_now (cc)
  after_recover-Outcome generating at =
      ends-Outcome evidence current m "recovered_pending" for_now cc
  after_recover-Outcome validating at =
      ends-Outcome evidence current m "recovered_pending" for_now cc
  after_recover-Outcome committing at =
      ends-Outcome evidence current m "recovered_pending" for_now cc
  after_recover-Outcome evaluation_pending at = stays cc
  after_recover-Outcome WikiWorkflowState.no_op at = stays cc
  after_recover-Outcome WikiWorkflowState.synthesized at = stays cc
  after_recover-Outcome WikiWorkflowState.pending at = stays cc
  after_recover-Outcome WikiWorkflowState.failed at = stays cc

  step-Outcome :
      (state : WikiWorkflowState) (input : KnowledgeInput)
      → m.state ≡ state
      → Outcome evidence current m (step evidence current m state input)
  unfolding step
  step-Outcome evaluation_pending (evaluated decision) at =
      after_evaluation-Outcome evidence current m decision at
  step-Outcome generating (generated_patch patch usage) at =
      after_generation-Outcome evidence current m patch usage at
  step-Outcome generating (schema_rejected code usage) at =
      after_schema_rejection-Outcome evidence current m code usage at cc
  step-Outcome generating (unsafe_generation_rejected code usage) at =
      unsafe_generation-Outcome evidence current m code usage cc
  step-Outcome generating (generation_unavailable code) at =
      ends-Outcome evidence current m code for_now cc
  step-Outcome validating (semantic_rejected code) at =
      ends-Outcome evidence current m code for_good cc
  step-Outcome validating (patch_validated patch_hash) at =
      after_validation-Outcome evidence current m patch_hash at
  step-Outcome committing (committed transaction_id) at =
      synthesized-Outcome evidence current m transaction_id at
  step-Outcome committing (commit_pending code) at = ends-Outcome evidence current m code for_now cc
  step-Outcome WikiWorkflowState.pending (rebind binding) at =
      after_rebind-Outcome evidence current m binding at
  step-Outcome state recover at = after_recover-Outcome state at
  step-Outcome _ _ at = refl

-- A step that succeeds is a move of the workflow, and one that fails leaves the machine as it was,
-- also where the code changes fields before a check: no state, usage, patch or attempt is lost.
pub apply-Outcome :
    (evidence : List WikiEvidenceChunk) (current : List WikiCurrentExcerpt)
    (m : MainModelWikiWorkflow) (input : KnowledgeInput)
    → Outcome evidence current m (apply evidence current m input)
unfolding apply
apply-Outcome evidence current m input = step-Outcome evidence current m m.state input refl
