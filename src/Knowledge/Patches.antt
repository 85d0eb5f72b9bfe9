-- ===== src/Knowledge/Patches.antt =====
-- The patches of a run, and the order of its effects (crates/core/src/knowledge.rs).
use wiki_coding.Prelude.{
  ◌≡◌, refl, sym, subst, string_eq, Option, some, List, [], ◌∷◌, ◌++◌, ok, err, arith,
}
use wiki_coding.Protocol.Knowledge.{
  KnowledgeEvaluationJob, KnowledgeJobId, KnowledgePatch, KnowledgeReceipt, WikiWorkflowEvent,
  WikiWorkflowState, evaluation_pending, validating, validate_job,
}
use wiki_coding.Knowledge.Types.{
  WikiEvidenceChunk, WikiCurrentExcerpt, KnowledgeEffect, MainModelWikiWorkflow, persist_event,
  publish_event, generate, validate, commit, persist_receipt, publish_receipt,
}
use wiki_coding.Knowledge.Workflow.{new, receipt, generation_request}
use wiki_coding.Knowledge.Machine.{Step, apply}
use wiki_coding.Knowledge.Moves.{
  Move, Outcome, stays, declines, starts, receives, repairs, approves, finishes, stops, rebinds,
  for_now, for_good,
}
use wiki_coding.Knowledge.Refines.{apply-Outcome}
use wiki_coding.Knowledge.Runs.{Run, fresh, then_apply, effects_of}

-- Each event and each receipt is persisted and then published at once, and nothing else of the two
-- kinds is there; what is validated or committed belongs to the job.
pub data Ordered (job_id : KnowledgeJobId) : List KnowledgeEffect → Type 0 where
  nothing : Ordered job_id []
  event :
      (e : WikiWorkflowEvent) {rest : List KnowledgeEffect}
      → Ordered job_id rest
      → Ordered job_id (persist_event e ∷ publish_event e ∷ rest)
  receipted :
      (written : KnowledgeReceipt) {rest : List KnowledgeEffect}
      → Ordered job_id rest
      → Ordered job_id (persist_receipt written ∷ publish_receipt written ∷ rest)
  generates :
      {request : _} {rest : List KnowledgeEffect}
      → Ordered job_id rest
      → Ordered job_id (generate request ∷ rest)
  validates :
      (patch : KnowledgePatch) {rest : List KnowledgeEffect}
      → patch.job_id ≡ job_id
      → Ordered job_id rest
      → Ordered job_id (validate patch ∷ rest)
  commits :
      (patch : KnowledgePatch) {hash : _} {rest : List KnowledgeEffect}
      → patch.job_id ≡ job_id
      → Ordered job_id rest
      → Ordered job_id (commit patch hash ∷ rest)

Ordered-append :
    {job_id : KnowledgeJobId} {xs ys : List KnowledgeEffect}
    → Ordered job_id xs
    → Ordered job_id ys
    → Ordered job_id (xs ++ ys)
Ordered-append nothing q = q
Ordered-append (event e p) q = event e (Ordered-append p q)
Ordered-append (receipted w p) q = receipted w (Ordered-append p q)
Ordered-append (generates p) q = generates (Ordered-append p q)
Ordered-append (validates patch own p) q = validates patch own (Ordered-append p q)
Ordered-append (commits patch own p) q = commits patch own (Ordered-append p q)

-- A patch is held wherever one is needed, and it is the job's.
abbrev Held : KnowledgeJobId → WikiWorkflowState → Option KnowledgePatch → Type 0
Held job_id validating held =
    (patch : KnowledgePatch) × (held ≡ some patch) × (patch.job_id ≡ job_id)
Held job_id _ held = Unit

record Kept (job_id : KnowledgeJobId) (m : MainModelWikiWorkflow) (log : List KnowledgeEffect)
    : Type 0 where
  pub same_job : m.job.job_id ≡ job_id
  pub held : Held job_id m.state m.patch
  pub ordered : Ordered job_id log

module _ (evidence : List WikiEvidenceChunk) (current : List WikiCurrentExcerpt)
    (job_id : KnowledgeJobId) (m : MainModelWikiWorkflow) where
  needed :
      (state : WikiWorkflowState)
      → m.state ≡ state
      → Held job_id m.state m.patch
      → Held job_id state m.patch
  needed state at held = subst (λ s. Held job_id s m.patch) at held

  Kept-move :
      (log : List KnowledgeEffect) {after : MainModelWikiWorkflow} {effects : List KnowledgeEffect}
      → Move evidence current m after effects
      → Kept job_id m log
      → Kept job_id after (log ++ effects)
  unfolding receipt generation_request
  Kept-move log (stays idle) k = record {
    same_job = k.same_job;
    held = k.held;
    ordered = Ordered-append k.ordered nothing;
  }
  Kept-move log (declines at code) k = record {
    same_job = k.same_job;
    held = tt;
    ordered = Ordered-append k.ordered (event _ (receipted _ nothing));
  }
  Kept-move log (starts at code) k = record {
    same_job = k.same_job;
    held = tt;
    ordered = Ordered-append k.ordered (event _ (event _ (generates nothing)));
  }
  Kept-move log (receives at patch usage own) k = record {
    same_job = k.same_job;
    held = (patch, refl, ground arith);
    ordered = Ordered-append k.ordered (event _ (validates patch (ground arith) nothing));
  }
  Kept-move log (repairs at left usage) k = record {
    same_job = k.same_job;
    held = k.held;
    ordered = Ordered-append k.ordered (event _ (generates nothing));
  }
  Kept-move log (approves at patch hash held) k =
      let (kept, same, own) = needed validating at k.held in
      record {
        same_job = k.same_job;
        held = tt;
        ordered = Ordered-append k.ordered (event _ (commits patch (ground arith) nothing));
      }
  Kept-move log (finishes at id) k = record {
    same_job = k.same_job;
    held = tt;
    ordered = Ordered-append k.ordered (event _ (receipted _ nothing));
  }
  Kept-move log (stops busy usage for_now code) k = record {
    same_job = k.same_job;
    held = tt;
    ordered = Ordered-append k.ordered (event _ (receipted _ nothing));
  }
  Kept-move log (stops busy usage for_good code) k = record {
    same_job = k.same_job;
    held = tt;
    ordered = Ordered-append k.ordered (event _ (receipted _ nothing));
  }
  Kept-move log (rebinds at binding) k = record {
    same_job = k.same_job;
    held = tt;
    ordered = Ordered-append k.ordered (event _ (generates nothing));
  }

  Kept-apply :
      (log : List KnowledgeEffect) (taken : Step)
      → Outcome evidence current m taken
      → Kept job_id m log
      → Kept job_id (taken.0) (log ++ effects_of (taken.1))
  Kept-apply log (after, ok effects) move k = Kept-move log move k
  Kept-apply log (after, err e) same k =
      subst (λ w. Kept job_id w (log ++ [])) (sym same)
        (record {
          same_job = k.same_job;
          held = k.held;
          ordered = Ordered-append k.ordered nothing;
        })

new-IsStart :
    (job : KnowledgeEvaluationJob) (m : MainModelWikiWorkflow)
    → new job ≡ ok m
    → (m.state ≡ evaluation_pending) × (m.job.job_id ≡ job.job_id)
unfolding new validate_job
new-IsStart job m made = (ground arith, ground arith)

new-Kept :
    (job : KnowledgeEvaluationJob) (m : MainModelWikiWorkflow)
    → new job ≡ ok m
    → Kept (job.job_id) m []
new-Kept job m made =
    let (at, same) = new-IsStart job m made in
    record {
      same_job = same;
      held = subst (λ state. Held job.job_id state m.patch) (sym at) tt;
      ordered = nothing;
    }

Run-Kept :
    {job : KnowledgeEvaluationJob} {m : MainModelWikiWorkflow} {log : List KnowledgeEffect}
    → Run job m log
    → Kept (job.job_id) m log
Run-Kept {job} (fresh {m} made) = new-Kept job m made
Run-Kept {job} (then_apply {m} {log} before evidence current input) =
    Kept-apply evidence current job.job_id m log (apply evidence current m input)
      (apply-Outcome evidence current m input) (Run-Kept before)

-- In every run of a job, each event and each receipt is persisted and published right after, neither
-- of the two is there without the other, and every patch that is handed on to be validated or
-- committed carries the id of the job.
pub wiki_run-Ordered :
    {job : KnowledgeEvaluationJob} {m : MainModelWikiWorkflow} {log : List KnowledgeEffect}
    → Run job m log
    → Ordered job.job_id log
wiki_run-Ordered run = (Run-Kept run).ordered

-- A machine of a run that waits for the validation of a patch holds one.
pub Run-held :
    {job : KnowledgeEvaluationJob} {m : MainModelWikiWorkflow} {log : List KnowledgeEffect}
    → Run job m log
    → m.state ≡ validating
    → (patch : KnowledgePatch) × (m.patch ≡ some patch)
Run-held {job} {m} run at =
    let (patch, same, own) = subst (λ s. Held job.job_id s m.patch) at (Run-Kept run).held in
    (patch, same)
