-- ===== src/Knowledge/RunTests.antt =====
-- A run of the workflow, and the theorems at it (crates/core/src/knowledge.rs).
use wiki_coding.Prelude.{
  ◌≡◌, ◌≢◌, ◌≤◌, ◌+◌, ◌&&◌, not, refl, none, List, [], ◌++◌, ok, err, count_if, is_code_text,
  ℕ_discrete, String_discrete,
}
use wiki_coding.Protocol.Knowledge.{
  validate_job, evaluation_pending, validate_event, WikiWorkflowState,
}
use wiki_coding.Protocol.Knowledge.{validate_code as validate_event_code}
use wiki_coding.Knowledge.{durable, decision, code_text}
use wiki_coding.Knowledge.Types.{
  KnowledgeInput, KnowledgeEffect, MainModelWikiWorkflow, evaluated, schema_rejected,
  generated_patch, patch_validated, committed, missing_patch,
}
use wiki_coding.Knowledge.Workflow.{new, observable, validate_code}
use wiki_coding.Knowledge.Machine.{
  apply, step, after_evaluation, after_schema_rejection, after_generation,
}
use wiki_coding.Knowledge.Moves.{Outcome}
use wiki_coding.Knowledge.Refines.{apply-Outcome}
use wiki_coding.Knowledge.Runs.{
  Run, fresh, then_apply, effects_of, wiki_run_accounts, is_no_op_receipt, is_synthesized_receipt,
  is_failed_receipt, is_no_op, is_synthesized, is_failed, succeeds, opens_round, is_opening,
  is_pending_receipt, is_repair, is_started, is_pending, one_if,
}
use wiki_coding.Knowledge.Types.{recover}
use wiki_coding.Knowledge.Patches.{Ordered, wiki_run-Ordered}
use wiki_coding.Knowledge.Missing.{patch_never_missing}
use wiki_coding.Knowledge.Samples.{job, patch, some_usage}

abbrev start : MainModelWikiWorkflow
start = record {
  job = job;
  state = evaluation_pending;
  generation_attempts = 0;
  usage = none;
  patch = none;
  patch_hash = none;
}

abbrev after : MainModelWikiWorkflow → KnowledgeInput → MainModelWikiWorkflow
after m input = (apply [] [] m input).0

abbrev log_after :
    MainModelWikiWorkflow → List KnowledgeEffect → KnowledgeInput → List KnowledgeEffect
log_after m log input = log ++ effects_of (apply [] [] m input).1

abbrev asked : MainModelWikiWorkflow
asked = after start (evaluated (durable decision))

abbrev asked_log : List KnowledgeEffect
asked_log = log_after start [] (evaluated (durable decision))

abbrev repaired : MainModelWikiWorkflow
repaired = after asked (schema_rejected "bad_json" some_usage)

abbrev repaired_log : List KnowledgeEffect
repaired_log = log_after asked asked_log (schema_rejected "bad_json" some_usage)

abbrev received : MainModelWikiWorkflow
received = after repaired (generated_patch patch some_usage)

abbrev received_log : List KnowledgeEffect
received_log = log_after repaired repaired_log (generated_patch patch some_usage)

new_job : new job ≡ ok start
unfolding new validate_job ℕ_discrete
new_job = refl

received_run : Run job received received_log
received_run =
    then_apply
      (then_apply (then_apply (fresh new_job) [] [] (evaluated (durable decision))) [] []
        (schema_rejected "bad_json" some_usage))
      [] [] (generated_patch patch some_usage)

-- The run gets as far as it says.
received_waits : received.state ≡ WikiWorkflowState.validating
unfolding apply step after_evaluation after_schema_rejection after_generation observable
    validate_event validate_event_code validate_code code_text is_code_text ℕ_discrete
    String_discrete
received_waits = refl

wiki_run_accounts_example :
    (count_if is_no_op_receipt received_log ≡ one_if (is_no_op received.state))
    × (count_if is_synthesized_receipt received_log ≡ one_if (is_synthesized received.state))
    × (count_if is_failed_receipt received_log ≡ one_if (is_failed received.state))
    × (count_if is_opening received_log
        ≡ count_if is_pending_receipt received_log
          + one_if (is_started received.state && not (is_pending received.state)))
    × (count_if is_repair received_log ≤ count_if is_opening received_log)
    × (let reply = (apply [] [] received recover).1 in
        count_if is_opening (effects_of reply)
        ≡ one_if (succeeds reply && opens_round received.state recover))
wiki_run_accounts_example = wiki_run_accounts received_run [] [] recover

wiki_run-Ordered_example : Ordered "job" received_log
wiki_run-Ordered_example = wiki_run-Ordered received_run

patch_never_missing_example : (apply [] [] received (patch_validated "hash")).1 ≢ err missing_patch
patch_never_missing_example = patch_never_missing received_run [] [] (patch_validated "hash")

apply-Outcome_example : Outcome [] [] received (apply [] [] received (committed "id"))
apply-Outcome_example = apply-Outcome [] [] received (committed "id")
