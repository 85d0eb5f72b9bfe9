-- ===== src/Knowledge/Machine.antt =====
-- `MainModelWikiWorkflow::apply` and its handlers: crates/core/src/knowledge.rs. A step returns the
-- machine beside its result, since a step that fails may have changed it. Attempts are `u8`: `+= 1`
-- comes only below two of them.
use wiki_coding.Prelude.{
  suc, String, true, false, not, leb, ◌==◌, nat_eq, string_eq, Option, none, some, List, [], ◌∷◌,
  ◌++◌, ok, err, ◌>>=◌, if◌then◌else◌,
}
use wiki_coding.Protocol.Event.{Usage}
use wiki_coding.Protocol.Session.{ModelBinding}
use wiki_coding.Protocol.Vault.{ContentHash, TransactionId}
use wiki_coding.Protocol.Knowledge.{
  KnowledgePatch, KnowledgeReceiptOutcome, WikiWorkflowState, evaluation_pending, synthesis_pending,
  generating, validating, committing,
}
use wiki_coding.Knowledge.{DurabilityDecision, durable, no_op, code_text}
use wiki_coding.Knowledge.Types.{
  WikiEvidenceChunk, WikiCurrentExcerpt, KnowledgeInput, evaluated, generated_patch,
  schema_rejected, unsafe_generation_rejected, semantic_rejected, generation_unavailable,
  patch_validated, committed, commit_pending, rebind, recover, KnowledgeEffect, generate, validate,
  commit, invalid_transition, wrong_job, missing_patch, MainModelWikiWorkflow, Reply,
}
use wiki_coding.Knowledge.Workflow.{
  observable, receipt, generation_request, validate_code, set_state, add_usage, set_attempts,
  set_patch, set_patch_hash, rebound,
}

-- A machine that writes an event and goes on with more effects.
abbrev pub Step : Type 0
Step = MainModelWikiWorkflow × Reply

abbrev pub observe_then :
    MainModelWikiWorkflow → String → Option Usage → List KnowledgeEffect → Step
observe_then m code usage more = (m, observable m code usage >>= λ effects. ok (effects ++ more))

-- A step that is refused unless its code is valid.
abbrev pub if_valid_code : MainModelWikiWorkflow → String → Step → Step
if_valid_code m code next = elim (validate_code code) [ ok _ ↦ next | err e ↦ (m, err e) ]

-- `pending` and `failed`: the event and the receipt of a state.
unfoldable pub end_with :
    MainModelWikiWorkflow → WikiWorkflowState → KnowledgeReceiptOutcome → String → Step
end_with m state outcome code =
    if_valid_code m code (
      observe_then (set_state m state) code m.usage (receipt (set_state m state) outcome code none))

abbrev pub pending : MainModelWikiWorkflow → String → Step
pending m code = end_with m WikiWorkflowState.pending KnowledgeReceiptOutcome.pending code

abbrev pub failed : MainModelWikiWorkflow → String → Step
failed m code = end_with m WikiWorkflowState.failed KnowledgeReceiptOutcome.failed code

unfoldable pub synthesized : MainModelWikiWorkflow → TransactionId → Step
synthesized m transaction_id =
    let ended = set_state m WikiWorkflowState.synthesized in
    observe_then ended "synthesized" m.usage
      (receipt ended KnowledgeReceiptOutcome.synthesized "synthesized" (some transaction_id))

unfoldable pub after_validation : MainModelWikiWorkflow → ContentHash → Step
after_validation m patch_hash = elim m.patch [
  | none ↦ (m, err missing_patch)
  | some patch ↦
      observe_then (set_state (set_patch_hash m patch_hash) committing) "patch_validated" m.usage
        (commit patch patch_hash ∷ [])
]

unfoldable pub after_generation : MainModelWikiWorkflow → KnowledgePatch → Usage → Step
after_generation m patch usage =
    if not (patch.job_id == m.job.job_id)
    then (m, err wrong_job)
    else (let received = set_state (set_patch (add_usage m usage) patch) validating in
        observe_then received "patch_received" received.usage (validate patch ∷ []))

module _ (evidence : List WikiEvidenceChunk) (current : List WikiCurrentExcerpt) where
  unfoldable pub after_schema_rejection : MainModelWikiWorkflow → String → Usage → Step
  after_schema_rejection m code usage = if_valid_code m code (
      let used = add_usage m usage in
      if leb 2 used.generation_attempts
      then failed used "schema_repair_exhausted"
      else (let again = set_attempts used (suc used.generation_attempts) in
          observe_then again "schema_repair_started" again.usage
            (generate (generation_request again evidence current true) ∷ [])))

  unfoldable pub after_evaluation : MainModelWikiWorkflow → DurabilityDecision → Step
  after_evaluation m (no_op code) =
      let ended = set_state m WikiWorkflowState.no_op in
      observe_then ended (code_text code) none
        (receipt ended KnowledgeReceiptOutcome.no_op (code_text code) none)
  after_evaluation m (durable code) =
      let planned = set_state m synthesis_pending in
      elim (observable planned (code_text code) none) [
        | err e ↦ (planned, err e)
        | ok effects ↦
            let started = set_attempts (set_state m generating) 1 in
            (
              started,
              observable started "generation_started" none >>= λ more. ok (
                  effects
                  ++ (more ++ (generate (generation_request started evidence current false) ∷ []))),
            )
      ]

  unfoldable pub unsafe_generation : MainModelWikiWorkflow → String → Usage → Step
  unsafe_generation m code usage = if_valid_code m code (failed (add_usage m usage) code)

  unfoldable pub after_rebind : MainModelWikiWorkflow → ModelBinding → Step
  after_rebind m binding =
      let again = rebound m binding in
      observe_then again "explicit_model_rebind" none
        (generate (generation_request again evidence current false) ∷ [])

  unfoldable pub after_recover : MainModelWikiWorkflow → WikiWorkflowState → Step
  after_recover m synthesis_pending = pending m "recovered_pending"
  after_recover m generating = pending m "recovered_pending"
  after_recover m validating = pending m "recovered_pending"
  after_recover m committing = pending m "recovered_pending"
  after_recover m evaluation_pending = (m, ok [])
  after_recover m WikiWorkflowState.no_op = (m, ok [])
  after_recover m WikiWorkflowState.synthesized = (m, ok [])
  after_recover m WikiWorkflowState.pending = (m, ok [])
  after_recover m WikiWorkflowState.failed = (m, ok [])

  -- The match of `apply`.
  unfoldable pub step : MainModelWikiWorkflow → WikiWorkflowState → KnowledgeInput → Step
  step m evaluation_pending (evaluated decision) = after_evaluation m decision
  step m generating (generated_patch patch usage) = after_generation m patch usage
  step m generating (schema_rejected code usage) = after_schema_rejection m code usage
  step m generating (unsafe_generation_rejected code usage) = unsafe_generation m code usage
  step m generating (generation_unavailable code) = pending m code
  step m validating (semantic_rejected code) = failed m code
  step m validating (patch_validated patch_hash) = after_validation m patch_hash
  step m committing (committed transaction_id) = synthesized m transaction_id
  step m committing (commit_pending code) = pending m code
  step m WikiWorkflowState.pending (rebind binding) = after_rebind m binding
  step m state recover = after_recover m state
  step m _ _ = (m, err invalid_transition)

  unfoldable pub apply : MainModelWikiWorkflow → KnowledgeInput → Step
  unfolding step
  apply m input = step m m.state input
