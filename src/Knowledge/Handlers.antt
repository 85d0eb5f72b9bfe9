-- ===== src/Knowledge/Handlers.antt =====
-- Every handler of the workflow makes a move or leaves the machine (crates/core/src/knowledge.rs).
use wiki_coding.Prelude.{
  suc, String, true, false, not, ◌≡◌, refl, sym, subst, ◌==◌, string_eq, Option, none, some, List,
  [], ◌∷◌, ◌++◌, Result, ok, err, ◌>>=◌, if◌then◌else◌, if-keeps, leb, arith, is_code_text,
  ℕ_discrete,
}
use wiki_coding.Protocol.Event.{Usage}
use wiki_coding.Protocol.Session.{ModelBinding}
use wiki_coding.Protocol.Vault.{ContentHash, TransactionId}
use wiki_coding.Protocol.Knowledge.{
  KnowledgePatch, KnowledgeReceiptOutcome, WikiWorkflowState, evaluation_pending, synthesis_pending,
  generating, validating, committing,
}
use wiki_coding.Knowledge.{DurabilityDecision, durable, no_op, code_text}
use wiki_coding.Knowledge.Types.{
  WikiEvidenceChunk, WikiCurrentExcerpt, KnowledgeEffect, WikiWorkflowError, MainModelWikiWorkflow,
  missing_patch, generate, commit, validate,
}
use wiki_coding.Knowledge.Workflow.{
  observable, receipt, generation_request, validate_code, merge_usage, set_state, add_usage,
  set_attempts, set_patch, set_patch_hash, rebound,
}
use wiki_coding.Knowledge.Machine.{
  Step, observe_then, end_with, failed, synthesized, after_validation, after_generation,
  after_schema_rejection, after_evaluation, unsafe_generation, after_rebind,
}
use wiki_coding.Knowledge.Moves.{
  Move, Outcome, Stop, declines, starts, receives, repairs, approves, finishes, stops, rebinds,
  for_good, announced, set_usage, is_busy, observable-announces, code_text-valid,
}

module _ (evidence : List WikiEvidenceChunk) (current : List WikiCurrentExcerpt)
    (m : MainModelWikiWorkflow) where
  pub observe_then-Outcome :
      (after : MainModelWikiWorkflow) (code : String) (usage : Option Usage)
      (more : List KnowledgeEffect)
      → validate_code code ≡ ok tt
      → Move evidence current m after (announced after code usage more)
      → Outcome evidence current m (observe_then after code usage more)
  observe_then-Outcome after code usage more valid move =
      subst (λ reply. Outcome evidence current m (after, reply >>= λ effects. ok (effects ++ more)))
        (sym (observable-announces after code usage valid)) move

  pub if_valid_code-Outcome :
      (b : MainModelWikiWorkflow) (checked : Result WikiWorkflowError (Unit {0})) (next : Step)
      → b ≡ m
      → (checked ≡ ok tt → Outcome evidence current m next)
      → Outcome evidence current m (elim checked [ ok _ ↦ next | err e ↦ (b, err e) ])
  if_valid_code-Outcome b (ok u) next same good = good refl
  if_valid_code-Outcome b (err e) next same good = same

  pub end_with-Outcome :
      (usage : Option Usage) {state : WikiWorkflowState} {outcome : KnowledgeReceiptOutcome}
      (code : String)
      → Stop state outcome
      → is_busy m.state ≡ true
      → validate_code code ≡ ok tt
      → Outcome evidence current m (end_with (set_usage m usage) state outcome code)
  unfolding end_with
  end_with-Outcome usage {state} {outcome} code stop busy valid =
      let ended = set_state (set_usage m usage) state in
      let effects = receipt ended outcome code none in
      subst
        (λ checked. Outcome evidence current m (elim checked [
          | ok _ ↦ observe_then ended code usage effects
          | err e ↦ (set_usage m usage, err e)
        ]))
        (sym valid)
        (observe_then-Outcome ended code usage effects valid (stops busy usage stop code))

  -- An end whose code comes from the input, and is tested first.
  pub ends-Outcome :
      {state : WikiWorkflowState} {outcome : KnowledgeReceiptOutcome} (code : String)
      → Stop state outcome
      → is_busy m.state ≡ true
      → Outcome evidence current m (end_with m state outcome code)
  unfolding end_with
  ends-Outcome {state} {outcome} code stop busy =
      let ended = set_state m state in
      let effects = receipt ended outcome code none in
      if_valid_code-Outcome m (validate_code code) (observe_then ended code m.usage effects) refl
        (λ valid.
          observe_then-Outcome ended code m.usage effects valid (stops busy m.usage stop code))

  pub unsafe_generation-Outcome :
      (code : String) (usage : Usage)
      → is_busy m.state ≡ true
      → Outcome evidence current m (unsafe_generation evidence current m code usage)
  unfolding unsafe_generation
  unsafe_generation-Outcome code usage busy =
      if_valid_code-Outcome m (validate_code code) (failed (add_usage m usage) code) refl
        (λ valid. end_with-Outcome (some (merge_usage m.usage usage)) code for_good busy valid)

  pub synthesized-Outcome :
      (transaction_id : TransactionId)
      → m.state ≡ committing
      → Outcome evidence current m (synthesized m transaction_id)
  unfolding synthesized validate_code is_code_text ℕ_discrete
  synthesized-Outcome transaction_id at =
      let ended = set_state m WikiWorkflowState.synthesized in
      observe_then-Outcome ended "synthesized" m.usage
        (receipt ended KnowledgeReceiptOutcome.synthesized "synthesized" (some transaction_id)) refl
        (finishes at transaction_id)

  pub approval-Outcome :
      (patch_hash : ContentHash) (held : Option KnowledgePatch)
      → m.state ≡ validating
      → m.patch ≡ held
      → Outcome evidence current m (elim held [
        | none ↦ (m, err missing_patch)
        | some patch ↦
            observe_then
              (set_state (set_patch_hash m patch_hash) committing)
              "patch_validated"
              m.usage
              (commit patch patch_hash ∷ [])
      ])
  unfolding validate_code is_code_text ℕ_discrete
  approval-Outcome patch_hash none at holds = refl
  approval-Outcome patch_hash (some patch) at holds =
      observe_then-Outcome (set_state (set_patch_hash m patch_hash) committing) "patch_validated"
        m.usage (commit patch patch_hash ∷ []) refl (approves at patch patch_hash holds)

  pub after_validation-Outcome :
      (patch_hash : ContentHash)
      → m.state ≡ validating
      → Outcome evidence current m (after_validation m patch_hash)
  unfolding after_validation
  after_validation-Outcome patch_hash at = approval-Outcome patch_hash m.patch at refl

  pub after_generation-Outcome :
      (patch : KnowledgePatch) (usage : Usage)
      → m.state ≡ generating
      → Outcome evidence current m (after_generation m patch usage)
  unfolding after_generation validate_code is_code_text ℕ_discrete
  after_generation-Outcome patch usage at =
      let received = set_state (set_patch (add_usage m usage) patch) validating in
      if-keeps (Outcome evidence current m) (not (patch.job_id == m.job.job_id)) (λ other. refl)
        (λ own.
          observe_then-Outcome received "patch_received" (some (merge_usage m.usage usage))
            (validate patch ∷ []) refl (receives at patch usage (ground arith)))

  pub after_schema_rejection-Outcome :
      (code : String) (usage : Usage)
      → m.state ≡ generating
      → is_busy m.state ≡ true
      → Outcome evidence current m (after_schema_rejection evidence current m code usage)
  unfolding after_schema_rejection validate_code is_code_text ℕ_discrete
  after_schema_rejection-Outcome code usage at busy =
      let used = add_usage m usage in
      let again = set_attempts used (suc m.generation_attempts) in
      let asked = generate (generation_request again evidence current true) ∷ [] in
      if_valid_code-Outcome m (validate_code code)
        (if leb 2 m.generation_attempts
          then failed used "schema_repair_exhausted"
          else observe_then again "schema_repair_started" (some (merge_usage m.usage usage)) asked)
        refl
        (λ valid.
          if-keeps (Outcome evidence current m) (leb 2 m.generation_attempts)
            (λ exhausted.
              end_with-Outcome (some (merge_usage m.usage usage)) "schema_repair_exhausted" for_good
                busy refl)
            (λ left.
              observe_then-Outcome again "schema_repair_started" (some (merge_usage m.usage usage))
                asked refl (repairs at (ground arith) usage)))

  pub after_rebind-Outcome :
      (binding : ModelBinding)
      → m.state ≡ WikiWorkflowState.pending
      → Outcome evidence current m (after_rebind evidence current m binding)
  unfolding after_rebind validate_code is_code_text ℕ_discrete
  after_rebind-Outcome binding at =
      let again = rebound m binding in
      observe_then-Outcome again "explicit_model_rebind" none
        (generate (generation_request again evidence current false) ∷ []) refl (rebinds at binding)

  pub after_evaluation-Outcome :
      (decision : DurabilityDecision)
      → m.state ≡ evaluation_pending
      → Outcome evidence current m (after_evaluation evidence current m decision)
  unfolding after_evaluation validate_code is_code_text ℕ_discrete
  after_evaluation-Outcome (no_op code) at =
      let ended = set_state m WikiWorkflowState.no_op in
      observe_then-Outcome ended (code_text code) none
        (receipt ended KnowledgeReceiptOutcome.no_op (code_text code) none) (code_text-valid code)
        (declines at code)
  after_evaluation-Outcome (durable code) at =
      let planned = set_state m synthesis_pending in
      let started = set_attempts (set_state m generating) 1 in
      let asked = generate (generation_request started evidence current false) ∷ [] in
      subst
        (λ first. Outcome evidence current m (elim first [
          | err e ↦ (planned, err e)
          | ok effects ↦ (
            started,
            observable started "generation_started" none >>= λ more.
                ok (effects ++ (more ++ asked)),
          )
        ]))
        (sym (observable-announces planned (code_text code) none (code_text-valid code)))
        (subst
          (λ second. Outcome evidence current m (
            started,
            second >>= λ more. ok (announced planned (code_text code) none [] ++ (more ++ asked)),
          ))
          (sym (observable-announces started "generation_started" none refl)) (starts at code))
