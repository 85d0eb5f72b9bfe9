-- ===== src/Knowledge/Moves.antt =====
-- The moves of the wiki workflow: a relation between a machine, the machine after and the effects
-- (crates/core/src/knowledge.rs).
use wiki_coding.Prelude.{
  suc, String, Bool, true, false, ◌≡◌, refl, ◌≤◌, string_eq, Option, none, some, List, [], ◌∷◌, ok,
  err, arith, is_code_text, ℕ_discrete,
}
use wiki_coding.Protocol.Event.{Usage}
use wiki_coding.Protocol.Session.{ModelBinding}
use wiki_coding.Protocol.Vault.{ContentHash, TransactionId}
use wiki_coding.Protocol.Knowledge.{
  KnowledgePatch, KnowledgeReceiptOutcome, WikiWorkflowState, evaluation_pending, synthesis_pending,
  generating, validating, committing,
}
use wiki_coding.Protocol.Knowledge.{validate_event, validate_code as validate_event_code}
use wiki_coding.Knowledge.{
  DurabilityCode, code_text, decision, constraint, preference, architecture, durable_behavior,
  diagnosed_lesson, todo_or_risk, repeated, lookup_only, inconclusive_failure, no_durable_signal,
}
use wiki_coding.Knowledge.Types.{
  WikiEvidenceChunk, WikiCurrentExcerpt, KnowledgeEffect, persist_event, publish_event, generate,
  validate, commit, MainModelWikiWorkflow,
}
use wiki_coding.Knowledge.Workflow.{
  observable, receipt, generation_request, workflow_event, validate_code, merge_usage, set_state,
  add_usage, set_attempts, set_patch, set_patch_hash, rebound,
}
use wiki_coding.Knowledge.Machine.{Step}

-- An event in front of other effects.
abbrev pub announced :
    MainModelWikiWorkflow → String → Option Usage → List KnowledgeEffect → List KnowledgeEffect
announced m code usage more =
    let event = workflow_event m code usage in persist_event event ∷ publish_event event ∷ more

abbrev pub set_usage : MainModelWikiWorkflow → Option Usage → MainModelWikiWorkflow
set_usage m usage = record m { usage = usage }

-- A job is being worked on; work has ended for good.
abbrev pub is_busy : WikiWorkflowState → Bool
is_busy synthesis_pending = true
is_busy generating = true
is_busy validating = true
is_busy committing = true
is_busy _ = false

-- How work stops without a patch in the wiki, and the outcome on the receipt.
pub data Stop : WikiWorkflowState → KnowledgeReceiptOutcome → Type 0 where
  for_now : Stop WikiWorkflowState.pending KnowledgeReceiptOutcome.pending
  for_good : Stop WikiWorkflowState.failed KnowledgeReceiptOutcome.failed

module _ (evidence : List WikiEvidenceChunk) (current : List WikiCurrentExcerpt)
    (m : MainModelWikiWorkflow) where
  pub data Move : MainModelWikiWorkflow → List KnowledgeEffect → Type 0 where
    stays : is_busy m.state ≡ false → Move m []
    declines :
        m.state ≡ evaluation_pending
        → (code : DurabilityCode)
        → Move (set_state m WikiWorkflowState.no_op) (
            announced (set_state m WikiWorkflowState.no_op) (code_text code) none (
              receipt
                (set_state m WikiWorkflowState.no_op)
                KnowledgeReceiptOutcome.no_op
                (code_text code)
                none))
    starts :
        m.state ≡ evaluation_pending
        → (code : DurabilityCode)
        → Move (set_attempts (set_state m generating) 1) (
            announced (set_state m synthesis_pending) (code_text code) none (
              announced (set_attempts (set_state m generating) 1) "generation_started" none (
                generate (
                  generation_request
                    (set_attempts (set_state m generating) 1)
                    evidence
                    current
                    false)
                ∷ [])))
    receives :
        m.state ≡ generating
        → (patch : KnowledgePatch) (usage : Usage) → patch.job_id ≡ m.job.job_id
        → Move (set_state (set_patch (add_usage m usage) patch) validating) (
            announced
              (set_state (set_patch (add_usage m usage) patch) validating)
              "patch_received"
              (some (merge_usage m.usage usage))
              (validate patch ∷ []))
    repairs :
        m.state ≡ generating
        → suc m.generation_attempts ≤ 2
        → (usage : Usage)
        → Move (set_attempts (add_usage m usage) (suc m.generation_attempts)) (
            announced
              (set_attempts (add_usage m usage) (suc m.generation_attempts))
              "schema_repair_started"
              (some (merge_usage m.usage usage))
              (generate (
                  generation_request
                    (set_attempts (add_usage m usage) (suc m.generation_attempts))
                    evidence
                    current
                    true)
                ∷ []))
    approves :
        m.state ≡ validating
        → (patch : KnowledgePatch) (patch_hash : ContentHash) → m.patch ≡ some patch
        → Move (set_state (set_patch_hash m patch_hash) committing) (
            announced
              (set_state (set_patch_hash m patch_hash) committing)
              "patch_validated"
              m.usage
              (commit patch patch_hash ∷ []))
    finishes :
        m.state ≡ committing
        → (transaction_id : TransactionId)
        → Move (set_state m WikiWorkflowState.synthesized) (
            announced (set_state m WikiWorkflowState.synthesized) "synthesized" m.usage (
              receipt
                (set_state m WikiWorkflowState.synthesized)
                KnowledgeReceiptOutcome.synthesized
                "synthesized"
                (some transaction_id)))
    stops :
        is_busy m.state ≡ true
        → (usage : Option Usage) {state : WikiWorkflowState} {outcome : KnowledgeReceiptOutcome}
        → Stop state outcome
        → (code : String)
        → Move (set_state (set_usage m usage) state) (
            announced
              (set_state (set_usage m usage) state)
              code
              usage
              (receipt (set_state (set_usage m usage) state) outcome code none))
    rebinds :
        m.state ≡ WikiWorkflowState.pending
        → (binding : ModelBinding)
        → Move (rebound m binding) (
            announced
              (rebound m binding)
              "explicit_model_rebind"
              none
              (generate (generation_request (rebound m binding) evidence current false) ∷ []))

  -- A step that fails leaves the machine, and one that succeeds is a move; a step without a patch
  -- fails only where it needs one.
  abbrev pub Outcome : Step → Type 0
  Outcome (after, ok effects) = Move after effects
  Outcome (after, err e) = after ≡ m

pub observable-announces :
    (m : MainModelWikiWorkflow) (code : String) (usage : Option Usage)
    → validate_code code ≡ ok tt
    → observable m code usage ≡ ok (announced m code usage [])
unfolding observable validate_event validate_code validate_event_code
observable-announces m code usage valid = ground arith

pub code_text-valid : (code : DurabilityCode) → validate_code (code_text code) ≡ ok tt
unfolding validate_code code_text is_code_text ℕ_discrete
code_text-valid decision = refl
code_text-valid constraint = refl
code_text-valid preference = refl
code_text-valid architecture = refl
code_text-valid durable_behavior = refl
code_text-valid diagnosed_lesson = refl
code_text-valid todo_or_risk = refl
code_text-valid repeated = refl
code_text-valid lookup_only = refl
code_text-valid inconclusive_failure = refl
code_text-valid no_durable_signal = refl
