-- ===== src/Tool/Invocation/Safety.antt =====
-- Safety of the life of a tool call (crates/core/src/tool.rs): what the log of effects looks like in
-- each state, whatever inputs come in.
use wiki_coding.Prelude.{
  count_if, count_if-append, ℕ, ◌+◌, ◌≤◌, ◌≡◌, refl, sym, subst, ◌≢◌, ◌⊎◌, inl, inr, if◌then◌else◌,
  false, List, [], ◌∷◌, ok, err, arith, String, Bool, true,
}
use wiki_coding.Protocol.Tool.{
  ToolInvocation, ToolResult, succeeded, indeterminate, decision_kind_eq, terminal_status_eq,
}
use wiki_coding.Tool.Invocation.{
  InvocationMachine, InvocationState, InvocationInput, Step, requested, awaiting_decision, approved,
  started, terminal, preflight_allowed, preflight_denied, decision, cancel, confirm, full_access,
  apply, dispatch, request, terminal_is_legal_after_start,
}
use wiki_coding.Tool.Invocation.Log.{
  Life, live, logged, born, executions, publications, approvals, is_execute, is_publish,
  is_approval,
}

-- What holds in a state after `x` executions, `p` published results and `a` recorded approvals.
abbrev pub Safe : ToolInvocation → InvocationState → ℕ → ℕ → ℕ → Type 0
Safe inv requested x p a = (x ≡ 0) × (p ≡ 0)
Safe inv awaiting_decision x p a = (x ≡ 0) × (p ≡ 0)
Safe inv (approved s) x p a = (x ≡ 0) × (p ≡ 0) × (1 ≤ a)
Safe inv (started s) x p a = (x ≡ 1) × (p ≡ 0) × (1 ≤ a)
Safe inv (terminal r) x p a =
    (x ≤ 1)
    × (p ≡ 1)
    × (x ≤ a)
    × (r.status ≡ succeeded → x ≡ 1)
    × (r.call_id ≡ inv.call.call_id)
    × (r.tool_name ≡ inv.call.name)
    × (x ≡ 1 → terminal_is_legal_after_start r.tool_name r.status r.code ≡ true)

legal-indeterminate :
    (name code : String) → terminal_is_legal_after_start name indeterminate code ≡ true
unfolding terminal_is_legal_after_start
legal-indeterminate name code = refl

abbrev Stepped : ToolInvocation → ℕ → ℕ → ℕ → Step → Type 0
Stepped inv x p a (ok (m, effects)) =
    Safe inv m.state (x + executions effects) (p + publications effects) (a + approvals effects)
    × (m.invocation ≡ inv)
Stepped inv x p a (err e) = Unit {0}

dispatch-Safe :
    (st : InvocationState) (input : InvocationInput) (m : InvocationMachine) (x p a : ℕ)
    → m.state ≡ st
    → Safe m.invocation st x p a
    → Stepped m.invocation x p a (dispatch st input m)
unfolding dispatch count_if
dispatch-Safe requested (preflight_allowed confirm) m x p a e s = ground arith
dispatch-Safe requested (preflight_allowed full_access) m x p a e s = ground arith
dispatch-Safe requested (preflight_denied r) m x p a e s = ground arith
dispatch-Safe requested cancel m x p a e s = ground arith
dispatch-Safe requested _ m x p a e s = ground arith
dispatch-Safe awaiting_decision (decision d mode) m x p a e s = ground arith
dispatch-Safe awaiting_decision _ m x p a e s = ground arith
dispatch-Safe (approved t) _ m x p a e s = ground arith
dispatch-Safe (started t) _ m x p a e s =
    ground (arith, legal-indeterminate m.invocation.call.name "effect_unknown")
dispatch-Safe (terminal r) _ m x p a e s = ground arith

logged-Safe :
    (life : Life) (step : Step)
    → Stepped life.machine.invocation
        (executions life.log)
        (publications life.log)
        (approvals life.log)
        step
    → Safe life.machine.invocation life.machine.state
        (executions life.log)
        (publications life.log)
        (approvals life.log)
    → let after = logged life step in
      Safe life.machine.invocation after.machine.state
        (executions after.log)
        (publications after.log)
        (approvals after.log)
      × (after.machine.invocation ≡ life.machine.invocation)
logged-Safe life (err e) stepped safe = (safe, refl)
logged-Safe life (ok (m, effects)) stepped safe =
    rw
      (
        count_if-append is_execute life.log effects,
        count_if-append is_publish life.log effects,
        count_if-append is_approval life.log effects,
      )
      stepped

abbrev pub is_terminal : InvocationState → Bool
is_terminal (terminal r) = true
is_terminal _ = false

-- The invariant of a life.
abbrev pub IsSafe : ToolInvocation → Life → Type 0
IsSafe inv life =
    Safe inv life.machine.state (executions life.log) (publications life.log) (approvals life.log)
    × (life.machine.invocation ≡ inv)

apply-IsSafe :
    (inv : ToolInvocation) (life : Life) (input : InvocationInput)
    → IsSafe inv life
    → IsSafe inv (logged life (apply life.machine input))
unfolding apply
apply-IsSafe inv life input (safe, same) =
    let here =
      subst (λ i. Safe i m.state (executions log) (publications log) (approvals log)) (sym same)
        safe in
    subst (λ i. IsSafe i (logged life (apply m input))) same
      (logged-Safe life (apply m input) (dispatch-Safe m.state input m _ _ _ refl here) here)
  where
    open life use {machine as m, log}

live-IsSafe :
    (inv : ToolInvocation) (life : Life) (inputs : List InvocationInput)
    → IsSafe inv life
    → IsSafe inv (live life inputs)
unfolding live
live-IsSafe inv life [] safe = safe
live-IsSafe inv life (input ∷ inputs) safe =
    live-IsSafe inv (logged life (apply life.machine input)) inputs
      (apply-IsSafe inv life input safe)

born-IsSafe : (inv : ToolInvocation) → IsSafe inv (born inv)
unfolding born request count_if
born-IsSafe inv = ground arith

-- In any life of a call, whatever inputs come and in whatever order: the tool is executed at most
-- once, and never more often than its approval was recorded before.
pub executes_once :
    (inv : ToolInvocation) (inputs : List InvocationInput)
    → let log = (live (born inv) inputs).log in
      (executions log ≤ 1) × (executions log ≤ approvals log)
executes_once inv inputs =
    bounds (live (born inv) inputs) (live-IsSafe inv (born inv) inputs (born-IsSafe inv))
  where
    bounds :
        (life : Life)
        → IsSafe inv life
        → (executions life.log ≤ 1) × (executions life.log ≤ approvals life.log)
    bounds life safe = ground arith

-- In any life of a call: exactly one result is published once the machine is in its last state, and
-- none before.
pub publishes_once :
    (inv : ToolInvocation) (inputs : List InvocationInput)
    → let life = live (born inv) inputs in
      publications life.log ≡ (if is_terminal life.machine.state then 1 else 0)
publishes_once inv inputs =
    published (live (born inv) inputs) (live-IsSafe inv (born inv) inputs (born-IsSafe inv))
  where
    published :
        (life : Life)
        → IsSafe inv life
        → publications life.log ≡ (if is_terminal life.machine.state then 1 else 0)
    published life safe = ground arith

-- In any life of a call that has ended with a result: the result names the call and its tool; it
-- does not say "succeeded" unless the tool was executed; and its status and code are among those
-- that are legal after the start unless the tool was never executed.
pub terminal_result_sound :
    (inv : ToolInvocation) (inputs : List InvocationInput) (r : ToolResult)
    → (live (born inv) inputs).machine.state ≡ terminal r
    → let log = (live (born inv) inputs).log in
      (r.call_id ≡ inv.call.call_id)
      × (r.tool_name ≡ inv.call.name)
      × ((r.status ≢ succeeded) ⊎ (executions log ≡ 1))
      × ((executions log ≡ 0) ⊎ (terminal_is_legal_after_start r.tool_name r.status r.code ≡ true))
terminal_result_sound inv inputs r e =
    sound (live (born inv) inputs) (live-IsSafe inv (born inv) inputs (born-IsSafe inv)) e
  where
    succeeded_cases : (n : ℕ) → (r.status ≡ succeeded → n ≡ 1) → (r.status ≢ succeeded) ⊎ (n ≡ 1)
    succeeded_cases n h = elim (terminal_status_eq.eq? r.status succeeded) [
      | yes p ↦ inr (h p)
      | no p ↦ inl p
    ]

    sound :
        (life : Life)
        → IsSafe inv life
        → life.machine.state ≡ terminal r
        → (r.call_id ≡ inv.call.call_id)
          × (r.tool_name ≡ inv.call.name)
          × ((r.status ≢ succeeded) ⊎ (executions life.log ≡ 1))
          × ((executions life.log ≡ 0)
              ⊎ (terminal_is_legal_after_start r.tool_name r.status r.code ≡ true))
    sound life safe e' =
        let facts : Safe inv (terminal r) (executions life.log) (publications life.log)
            (approvals life.log) =
          subst
            (λ st. Safe inv st (executions life.log) (publications life.log) (approvals life.log))
            e' safe.0 in
        (facts.4, facts.5, succeeded_cases _ facts.3, ground arith)
