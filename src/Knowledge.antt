-- ===== src/Knowledge.antt =====
-- What is worth keeping of a turn (crates/core/src/knowledge.rs), and the modules of the wiki: the
-- workflow of a job and the guard of a patch.
use wiki_coding.Prelude.{ℕ, String, Bool, Option, none, some, if◌then◌else◌, ltb}
pub mod Guard
pub mod Operations
pub mod Truth
pub mod Accepted
pub mod Types
pub mod Workflow
pub mod Machine
pub mod Moves
pub mod Refines
pub mod Runs
pub mod Patches
pub mod Missing
pub mod Handlers
mod Samples
mod Tests
mod RunTests
pub mod Fits
pub mod Sources

pub record DurabilitySignals : Type 0 where
  pub decisions : ℕ
  pub constraints : ℕ
  pub preferences : ℕ
  pub architecture_changes : ℕ
  pub durable_behavior_changes : ℕ
  pub diagnosed_lessons : ℕ
  pub todos_or_risks : ℕ
  pub repeated_only : Bool
  pub lookup_only : Bool
  pub inconclusive_failure : Bool

pub data DurabilityCode : Type 0 where
  decision constraint preference architecture durable_behavior diagnosed_lesson todo_or_risk
        repeated lookup_only inconclusive_failure no_durable_signal :
      DurabilityCode

-- `DurabilityCode::as_str`.
unfoldable pub code_text : DurabilityCode → String
code_text decision = "durable_decision"
code_text constraint = "durable_constraint"
code_text preference = "durable_preference"
code_text architecture = "durable_architecture"
code_text durable_behavior = "durable_behavior"
code_text diagnosed_lesson = "diagnosed_lesson"
code_text todo_or_risk = "todo_or_risk"
code_text repeated = "repeated_information"
code_text lookup_only = "lookup_only"
code_text inconclusive_failure = "inconclusive_failure"
code_text no_durable_signal = "no_durable_signal"

pub data DurabilityDecision : Type 0 where
  durable no_op : DurabilityCode → DurabilityDecision

-- `DurabilityDecision::code`.
unfoldable pub decision_code : DurabilityDecision → DurabilityCode
decision_code (durable code) = code
decision_code (no_op code) = code

-- The first kind of signal that was counted, in the order of the gate.
unfoldable pub durable_code : DurabilitySignals → Option DurabilityCode
durable_code signals =
    if ltb 0 (signals.decisions)
    then some decision
    else if ltb 0 (signals.constraints)
    then some constraint
    else if ltb 0 (signals.preferences)
    then some preference
    else if ltb 0 (signals.architecture_changes)
    then some architecture
    else if ltb 0 (signals.durable_behavior_changes)
    then some durable_behavior
    else if ltb 0 (signals.diagnosed_lessons)
    then some diagnosed_lesson
    else if ltb 0 (signals.todos_or_risks)
    then some todo_or_risk
    else none

-- `DurabilityGate::evaluate`.
unfoldable pub evaluate : DurabilitySignals → DurabilityDecision
evaluate signals = elim (durable_code signals) [
  | some code ↦ durable code
  | none ↦
      if signals.repeated_only
      then no_op repeated
      else if signals.lookup_only
      then no_op lookup_only
      else if signals.inconclusive_failure
      then no_op inconclusive_failure
      else no_op no_durable_signal
]
