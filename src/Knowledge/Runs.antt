-- ===== src/Knowledge/Runs.antt =====
-- Whole runs of the wiki workflow: receipts, rounds of generation, and the patches that are committed
-- (crates/core/src/knowledge.rs).
use wiki_coding.Prelude.{
  ℕ, Bool, true, false, not, ◌≡◌, refl, sym, subst, ◌≤◌, ◌+◌, List, [], ◌++◌, ok, err, count_if,
  count_if-append, arith, ◌&&◌, Result-cases, inl, inr,
}
use mathlib.Core.List.{append-nil}
use wiki_coding.Protocol.Knowledge.{
  KnowledgeEvaluationJob, KnowledgeReceiptOutcome, WikiWorkflowState, evaluation_pending,
  synthesis_pending, generating, validating, committing, validate_job,
}
use wiki_coding.Knowledge.Types.{
  WikiEvidenceChunk, WikiCurrentExcerpt, KnowledgeInput, KnowledgeEffect, MainModelWikiWorkflow,
  Reply, generate, persist_receipt, evaluated, generated_patch, schema_rejected,
  unsafe_generation_rejected, semantic_rejected, generation_unavailable, patch_validated, committed,
  commit_pending, rebind, recover,
}
use wiki_coding.Knowledge.Workflow.{new, receipt, generation_request, observable}
use wiki_coding.Knowledge.{durable, no_op}
use wiki_coding.Knowledge.Machine.{
  Step, apply, step, after_evaluation, after_generation, after_schema_rejection, unsafe_generation,
  after_rebind, after_recover, after_validation, synthesized, end_with,
}
use wiki_coding.Knowledge.Moves.{
  Move, Outcome, stays, declines, starts, receives, repairs, approves, finishes, stops, rebinds,
  for_now, for_good, is_busy,
}
use wiki_coding.Knowledge.Refines.{apply-Outcome}

abbrev pub effects_of : Reply → List KnowledgeEffect
effects_of (ok effects) = effects
effects_of (err e) = []

-- What a run has reached: the machine and all effects so far. An input comes with the evidence and
-- the excerpts of its moment, and the machine is kept after an error too.
pub data Run (job : KnowledgeEvaluationJob)
    : MainModelWikiWorkflow → List KnowledgeEffect → Type 0 where
  fresh : {m : MainModelWikiWorkflow} → new job ≡ ok m → Run job m []
  then_apply :
      {m : MainModelWikiWorkflow} {log : List KnowledgeEffect}
      → Run job m log
      → (evidence : List WikiEvidenceChunk) (current : List WikiCurrentExcerpt)
        (input : KnowledgeInput)
      → Run job
          ((apply evidence current m input).0)
          (log ++ effects_of ((apply evidence current m input).1))

abbrev pub is_outcome_pending : KnowledgeReceiptOutcome → Bool
is_outcome_pending KnowledgeReceiptOutcome.pending = true
is_outcome_pending _ = false

abbrev is_outcome_no_op : KnowledgeReceiptOutcome → Bool
is_outcome_no_op KnowledgeReceiptOutcome.no_op = true
is_outcome_no_op _ = false

abbrev is_outcome_synthesized : KnowledgeReceiptOutcome → Bool
is_outcome_synthesized KnowledgeReceiptOutcome.synthesized = true
is_outcome_synthesized _ = false

abbrev is_outcome_failed : KnowledgeReceiptOutcome → Bool
is_outcome_failed KnowledgeReceiptOutcome.failed = true
is_outcome_failed _ = false

-- A receipt of a final outcome, each kind by itself.
abbrev pub is_no_op_receipt : KnowledgeEffect → Bool
is_no_op_receipt (persist_receipt written) = is_outcome_no_op (written.outcome)
is_no_op_receipt _ = false

abbrev pub is_synthesized_receipt : KnowledgeEffect → Bool
is_synthesized_receipt (persist_receipt written) = is_outcome_synthesized (written.outcome)
is_synthesized_receipt _ = false

abbrev pub is_failed_receipt : KnowledgeEffect → Bool
is_failed_receipt (persist_receipt written) = is_outcome_failed (written.outcome)
is_failed_receipt _ = false

abbrev pub is_pending_receipt : KnowledgeEffect → Bool
is_pending_receipt (persist_receipt written) = is_outcome_pending (written.outcome)
is_pending_receipt _ = false

-- A request that opens a round of generation, and one that repairs the output of a round.
abbrev pub is_opening : KnowledgeEffect → Bool
is_opening (generate request) = not (request.schema_repair_only)
is_opening _ = false

abbrev pub is_repair : KnowledgeEffect → Bool
is_repair (generate request) = request.schema_repair_only
is_repair _ = false

abbrev pub one_if : Bool → ℕ
one_if true = 1
one_if false = 0

abbrev pub is_pending : WikiWorkflowState → Bool
is_pending WikiWorkflowState.pending = true
is_pending _ = false

abbrev pub is_started : WikiWorkflowState → Bool
is_started evaluation_pending = false
is_started WikiWorkflowState.no_op = false
is_started _ = true

abbrev pub is_no_op : WikiWorkflowState → Bool
is_no_op WikiWorkflowState.no_op = true
is_no_op _ = false

abbrev pub is_synthesized : WikiWorkflowState → Bool
is_synthesized WikiWorkflowState.synthesized = true
is_synthesized _ = false

abbrev pub is_failed : WikiWorkflowState → Bool
is_failed WikiWorkflowState.failed = true
is_failed _ = false

-- The inputs that open a round of generation, where the machine waits for them.
abbrev pub opens_round : WikiWorkflowState → KnowledgeInput → Bool
opens_round evaluation_pending (evaluated (durable code)) = true
opens_round WikiWorkflowState.pending (rebind binding) = true
opens_round _ _ = false

pub record Accounted (m : MainModelWikiWorkflow) (log : List KnowledgeEffect) : Type 0 where
  pub no_ops : count_if is_no_op_receipt log ≡ one_if (is_no_op m.state)
  pub syntheses : count_if is_synthesized_receipt log ≡ one_if (is_synthesized m.state)
  pub failures : count_if is_failed_receipt log ≡ one_if (is_failed m.state)
  pub rounds :
      count_if is_opening log
      ≡ count_if is_pending_receipt log + one_if (is_started m.state && not (is_pending m.state))
  pub attempts : m.generation_attempts ≤ one_if (is_started m.state) + one_if (is_started m.state)
  pub repaired :
      count_if is_repair log + one_if (is_started m.state) + one_if (is_started m.state)
      ≤ count_if is_opening log + m.generation_attempts

busy-IsStarted :
    (state : WikiWorkflowState)
    → is_busy state ≡ true
    → (is_started state ≡ true)
      × (is_pending state ≡ false)
      × (is_no_op state ≡ false)
      × (is_synthesized state ≡ false)
      × (is_failed state ≡ false)
busy-IsStarted synthesis_pending busy = (refl, refl, refl, refl, refl)
busy-IsStarted generating busy = (refl, refl, refl, refl, refl)
busy-IsStarted validating busy = (refl, refl, refl, refl, refl)
busy-IsStarted committing busy = (refl, refl, refl, refl, refl)
busy-IsStarted evaluation_pending busy = cc
busy-IsStarted WikiWorkflowState.no_op busy = cc
busy-IsStarted WikiWorkflowState.synthesized busy = cc
busy-IsStarted WikiWorkflowState.pending busy = cc
busy-IsStarted WikiWorkflowState.failed busy = cc

-- What a step adds, seen from the states before and after it.
Accounted-append :
    (m after : MainModelWikiWorkflow) (log effects : List KnowledgeEffect)
    → Accounted m log
    → count_if is_no_op_receipt effects + one_if (is_no_op m.state) ≡ one_if (is_no_op after.state)
    → count_if is_synthesized_receipt effects + one_if (is_synthesized m.state)
      ≡ one_if (is_synthesized after.state)
    → count_if is_failed_receipt effects + one_if (is_failed m.state)
      ≡ one_if (is_failed after.state)
    → count_if is_opening effects + one_if (is_started m.state && not (is_pending m.state))
      ≡ count_if is_pending_receipt effects
        + one_if (is_started after.state && not (is_pending after.state))
    → after.generation_attempts ≤ one_if (is_started after.state) + one_if (is_started after.state)
    → count_if is_repair effects
        + one_if (is_started after.state)
        + one_if (is_started after.state)
        + m.generation_attempts
      ≤ count_if is_opening effects
        + after.generation_attempts
        + one_if (is_started m.state)
        + one_if (is_started m.state)
    → Accounted after (log ++ effects)
Accounted-append m after log effects a no_ops syntheses failures rounds attempts repaired = record {
  no_ops = omega (arith, count_if-append is_no_op_receipt log effects, a.no_ops);
  syntheses = omega (arith, count_if-append is_synthesized_receipt log effects, a.syntheses);
  failures = omega (arith, count_if-append is_failed_receipt log effects, a.failures);
  rounds = omega (
    arith,
    count_if-append is_opening log effects,
    count_if-append is_pending_receipt log effects,
    a.rounds,
  );
  attempts = attempts;
  repaired = omega (
    arith,
    count_if-append is_opening log effects,
    count_if-append is_repair log effects,
    a.repaired,
  );
}

module _ (evidence : List WikiEvidenceChunk) (current : List WikiCurrentExcerpt)
    (m : MainModelWikiWorkflow) where
  Accounted-move :
      (log : List KnowledgeEffect) {after : MainModelWikiWorkflow} {effects : List KnowledgeEffect}
      → Move evidence current m after effects
      → Accounted m log
      → Accounted after (log ++ effects)
  unfolding count_if receipt generation_request
  Accounted-move log (stays idle) a =
      Accounted-append m _ log _ a (ground arith) (ground arith) (ground arith) (ground arith)
        (ground (arith, a.attempts)) (ground (arith, a.attempts))
  Accounted-move log (declines at code) a =
      Accounted-append m _ log _ a (ground arith) (ground arith) (ground arith) (ground arith)
        (ground (arith, a.attempts)) (ground (arith, a.attempts))
  Accounted-move log (starts at code) a =
      Accounted-append m _ log _ a (ground arith) (ground arith) (ground arith) (ground arith)
        (ground (arith, a.attempts)) (ground (arith, a.attempts))
  Accounted-move log (receives at patch usage own) a =
      Accounted-append m _ log _ a (ground arith) (ground arith) (ground arith) (ground arith)
        (ground (arith, a.attempts)) (ground (arith, a.attempts))
  Accounted-move log (repairs at left usage) a =
      Accounted-append m _ log _ a (ground arith) (ground arith) (ground arith) (ground arith)
        (ground (arith, a.attempts)) (ground (arith, a.attempts))
  Accounted-move log (approves at patch patch_hash held) a =
      Accounted-append m _ log _ a (ground arith) (ground arith) (ground arith) (ground arith)
        (ground (arith, a.attempts)) (ground (arith, a.attempts))
  Accounted-move log (finishes at transaction_id) a =
      Accounted-append m _ log _ a (ground arith) (ground arith) (ground arith) (ground arith)
        (ground (arith, a.attempts)) (ground (arith, a.attempts))
  Accounted-move log (stops busy usage for_now code) a =
      Accounted-append m _ log _ a (ground (arith, busy-IsStarted m.state busy))
        (ground (arith, busy-IsStarted m.state busy)) (ground (arith, busy-IsStarted m.state busy))
        (ground (arith, busy-IsStarted m.state busy))
        (ground (arith, a.attempts, busy-IsStarted m.state busy))
        (ground (arith, a.attempts, busy-IsStarted m.state busy))
  Accounted-move log (stops busy usage for_good code) a =
      Accounted-append m _ log _ a (ground (arith, busy-IsStarted m.state busy))
        (ground (arith, busy-IsStarted m.state busy)) (ground (arith, busy-IsStarted m.state busy))
        (ground (arith, busy-IsStarted m.state busy))
        (ground (arith, a.attempts, busy-IsStarted m.state busy))
        (ground (arith, a.attempts, busy-IsStarted m.state busy))
  Accounted-move log (rebinds at binding) a =
      Accounted-append m _ log _ a (ground arith) (ground arith) (ground arith) (ground arith)
        (ground (arith, a.attempts)) (ground (arith, a.attempts))

Accounted-apply :
    (m : MainModelWikiWorkflow) (log : List KnowledgeEffect) (evidence : List WikiEvidenceChunk)
    (current : List WikiCurrentExcerpt) (taken : Step)
    → Outcome evidence current m taken
    → Accounted m log
    → Accounted (taken.0) (log ++ effects_of (taken.1))
Accounted-apply m log evidence current (after, ok effects) move a =
    Accounted-move evidence current m log move a
Accounted-apply m log evidence current (after, err e) same a =
    subst (λ w. Accounted w (log ++ [])) (sym same) (subst (Accounted m) (sym (append-nil log)) a)

new-Accounted :
    (job : KnowledgeEvaluationJob) (m : MainModelWikiWorkflow) → new job ≡ ok m → Accounted m []
unfolding new count_if
new-Accounted job m made = elim (Result-cases (validate_job job)) [
  | inr (e, refused) ↦ ground arith
  | inl (checked, valid) ↦ record {
    no_ops = ground arith;
    syntheses = ground arith;
    failures = ground arith;
    rounds = ground arith;
    attempts = ground arith;
    repaired = ground arith;
  }
]

Run-Accounted :
    {job : KnowledgeEvaluationJob} {m : MainModelWikiWorkflow} {log : List KnowledgeEffect}
    → Run job m log
    → Accounted m log
Run-Accounted {job} (fresh {m} made) = new-Accounted job m made
Run-Accounted (then_apply {m} {log} before evidence current input) =
    Accounted-apply m log evidence current (apply evidence current m input)
      (apply-Outcome evidence current m input) (Run-Accounted before)

-- Whether a reply is a success.
abbrev pub succeeds : Reply → Bool
succeeds (ok effects) = true
succeeds (err e) = false

module _ (evidence : List WikiEvidenceChunk) (current : List WikiCurrentExcerpt) where
  Opens : WikiWorkflowState → KnowledgeInput → Reply → Type 0
  Opens state input reply =
      count_if is_opening (effects_of reply) ≡ one_if (succeeds reply && opens_round state input)

  step-Opens :
      (m : MainModelWikiWorkflow) (state : WikiWorkflowState) (input : KnowledgeInput)
      → Opens state input (step evidence current m state input).1
  unfolding Opens step count_if after_evaluation after_generation after_schema_rejection
      unsafe_generation after_rebind after_recover after_validation synthesized end_with observable
      receipt generation_request
  step-Opens m evaluation_pending (evaluated (durable code)) = ground arith
  step-Opens m evaluation_pending (evaluated (no_op code)) = ground arith
  step-Opens m generating (generated_patch patch usage) = ground arith
  step-Opens m generating (schema_rejected code usage) = ground arith
  step-Opens m generating (unsafe_generation_rejected code usage) = ground arith
  step-Opens m generating (generation_unavailable code) = ground arith
  step-Opens m validating (semantic_rejected code) = ground arith
  step-Opens m validating (patch_validated patch_hash) = ground arith
  step-Opens m committing (committed transaction_id) = ground arith
  step-Opens m committing (commit_pending code) = ground arith
  step-Opens m WikiWorkflowState.pending (rebind binding) = ground arith
  step-Opens m evaluation_pending recover = refl
  step-Opens m synthesis_pending recover = ground arith
  step-Opens m generating recover = ground arith
  step-Opens m validating recover = ground arith
  step-Opens m committing recover = ground arith
  step-Opens m WikiWorkflowState.no_op recover = refl
  step-Opens m WikiWorkflowState.synthesized recover = refl
  step-Opens m WikiWorkflowState.pending recover = refl
  step-Opens m WikiWorkflowState.failed recover = refl
  step-Opens m _ _ = refl

-- In every run of a job: a receipt that nothing is to be kept, one that the patch is in the wiki and one
-- that the job failed is written once when the machine reaches that very state and never otherwise; each
-- round of generation ends in one pending receipt, but for the last round where it is not pending; there
-- are at most as many requests for a repair as rounds; and the next input opens a round exactly when it
-- succeeds and is a durable evaluation of a job that waits for it, or a rebind of a pending one.
pub wiki_run_accounts :
    {job : KnowledgeEvaluationJob} {m : MainModelWikiWorkflow} {log : List KnowledgeEffect}
    → Run job m log
    → (evidence : List WikiEvidenceChunk) (current : List WikiCurrentExcerpt)
      (next : KnowledgeInput)
    → (count_if is_no_op_receipt log ≡ one_if (is_no_op m.state))
      × (count_if is_synthesized_receipt log ≡ one_if (is_synthesized m.state))
      × (count_if is_failed_receipt log ≡ one_if (is_failed m.state))
      × (count_if is_opening log
          ≡ count_if is_pending_receipt log
            + one_if (is_started m.state && not (is_pending m.state)))
      × (count_if is_repair log ≤ count_if is_opening log)
      × (let reply = (apply evidence current m next).1 in
          count_if is_opening (effects_of reply)
          ≡ one_if (succeeds reply && opens_round m.state next))
unfolding apply Opens
wiki_run_accounts {job} {m} {log} run evidence current next =
    let a = Run-Accounted run in
    (
      a.no_ops,
      a.syntheses,
      a.failures,
      a.rounds,
      omega (arith, a.repaired, a.attempts),
      step-Opens evidence current m m.state next,
    )
