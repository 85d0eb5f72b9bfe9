-- ===== src/Tool/Invocation/Log.antt =====
-- A whole life of a tool call: the inputs are applied in turn, the effects are logged, and an input
-- that is refused leaves the machine as it is, as the callers of crates/core/src/tool.rs do.
use wiki_coding.Prelude.{ℕ, Bool, true, false, List, [], ◌∷◌, ◌++◌, ok, err, count_if, ◌==◌}
use wiki_coding.Protocol.Tool.{ToolInvocation, ToolDecisionKind, decision_kind_eq}
use wiki_coding.Tool.Invocation.{
  InvocationMachine, InvocationInput, InvocationEffect, Step, request, apply, execute,
  persist_decision, persist_terminal, publish_terminal,
}

pub record Life : Type 0 where
  pub machine : InvocationMachine
  pub log : List InvocationEffect

abbrev pub logged : Life → Step → Life
logged life (ok (m, effects)) = record { machine = m; log = life.log ++ effects }
logged life (err e) = life

unfoldable pub live : Life → List InvocationInput → Life
live life [] = life
live life (input ∷ inputs) = live (logged life (apply life.machine input)) inputs

unfoldable pub born : ToolInvocation → Life
unfolding request
born invocation = record { machine = (request invocation).0; log = (request invocation).1 }

abbrev pub is_execute : InvocationEffect → Bool
is_execute (execute invocation context) = true
is_execute _ = false

abbrev pub is_publish : InvocationEffect → Bool
is_publish (publish_terminal result) = true
is_publish _ = false

abbrev pub is_persist : InvocationEffect → Bool
is_persist (persist_terminal result) = true
is_persist _ = false

abbrev pub is_approval : InvocationEffect → Bool
is_approval (persist_decision d) = d.decision == ToolDecisionKind.approved
is_approval _ = false

abbrev pub executions : List InvocationEffect → ℕ
executions = count_if is_execute

abbrev pub publications : List InvocationEffect → ℕ
publications = count_if is_publish

abbrev pub approvals : List InvocationEffect → ℕ
approvals = count_if is_approval
