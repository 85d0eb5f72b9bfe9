-- ===== src/Tool/Budget/Bounds.antt =====
-- What a budget admits (crates/core/src/tool.rs): the counters are exact, never wrap, and never
-- pass their limits.
use wiki_coding.Prelude.{
  ℕ, ◌+◌, ◌≤◌, ◌≡◌, refl, List, [], ◌∷◌, Result, ok, err, arith, ◌-◌, Bool, true, all, ltb,
}
use wiki_coding.Protocol.Runtime.{AgentLimits}
use wiki_coding.Tool.Budget.{
  AgentBudget, AgentBudgetError, new, consume_provider_round, consume_tool_call,
  consume_result_bytes, elapsed, budget_error,
}

pub data Spend : Type 0 where
  round call : ℕ → Spend
  bytes : ℕ → ℕ → Spend

unfoldable pub consume : AgentBudget → Spend → Result AgentBudgetError AgentBudget
unfolding consume_provider_round consume_tool_call consume_result_bytes
consume budget (round now) = consume_provider_round budget now
consume budget (call now) = consume_tool_call budget now
consume budget (bytes n now) = consume_result_bytes budget n now

-- What was granted of each kind.
pub record Granted : Type 0 where
  pub rounds : ℕ
  pub calls : ℕ
  pub bytes : ℕ

abbrev pub add : Spend → Granted → Granted
add (round now) g = record g { rounds = g.rounds + 1 }
add (call now) g = record g { calls = g.calls + 1 }
add (bytes n now) g = record g { bytes = g.bytes + n }

-- A run asks in turn, and goes on after a refusal with the budget as it was.
abbrev pub after :
    AgentBudget → Granted → Spend → Result AgentBudgetError AgentBudget → AgentBudget × Granted
after budget g spend (ok next) = (next, add spend g)
after budget g spend (err e) = (budget, g)

unfoldable pub spend_all : AgentBudget → Granted → List Spend → AgentBudget × Granted
spend_all budget g [] = (budget, g)
spend_all budget g (spend ∷ spends) =
    let (next, g') = after budget g spend (consume budget spend) in spend_all next g' spends

-- The limits are those of `validate_limits`, the counters say what was granted, and none is past
-- its limit.
pub record IsWithin (limits : AgentLimits) (budget : AgentBudget) (g : Granted) : Type 0 where
  pub same_limits : budget.limits ≡ limits
  pub valid_limits : (limits.max_provider_rounds ≤ 64) × (limits.max_tool_calls ≤ 256)
  pub rounds_exact : budget.provider_rounds ≡ g.rounds
  pub calls_exact : budget.tool_calls ≡ g.calls
  pub bytes_exact : budget.tool_result_bytes ≡ g.bytes
  pub rounds_bounded : g.rounds ≤ limits.max_provider_rounds
  pub calls_bounded : g.calls ≤ limits.max_tool_calls
  pub bytes_bounded : g.bytes ≤ limits.max_tool_result_bytes

consume-IsWithin :
    (limits : AgentLimits) (budget : AgentBudget) (g : Granted) (spend : Spend)
    → IsWithin limits budget g
    → let next = after budget g spend (consume budget spend) in IsWithin limits next.0 next.1
unfolding consume
consume-IsWithin limits budget g (round now) w = ground arith
consume-IsWithin limits budget g (call now) w = ground arith
consume-IsWithin limits budget g (bytes n now) w = ground arith

spend_all-IsWithin :
    (limits : AgentLimits) (budget : AgentBudget) (g : Granted) (spends : List Spend)
    → IsWithin limits budget g
    → let last = spend_all budget g spends in IsWithin limits last.0 last.1
unfolding spend_all
spend_all-IsWithin limits budget g [] w = w
spend_all-IsWithin limits budget g (spend ∷ spends) w =
    let next = after budget g spend (consume budget spend) in
    spend_all-IsWithin limits next.0 next.1 spends (consume-IsWithin limits budget g spend w)

abbrev pub nothing_granted : Granted
nothing_granted = record { rounds = 0; calls = 0; bytes = 0 }

new-IsWithin :
    (limits : AgentLimits) (started : ℕ) (budget : AgentBudget)
    → new limits started ≡ ok budget
    → IsWithin limits budget nothing_granted
unfolding new
new-IsWithin limits started budget h = ground arith

-- A new budget, asked any number of times in any order, keeps its counters equal to what it
-- granted, with each kind within its limit; so no `u16` counter wraps.
pub granted-IsWithin_limits :
    (limits : AgentLimits) (started : ℕ) (budget : AgentBudget) (spends : List Spend)
    → new limits started ≡ ok budget
    → let last = spend_all budget nothing_granted spends in IsWithin limits last.0 last.1
granted-IsWithin_limits limits started budget spends h =
    spend_all-IsWithin limits budget nothing_granted spends (new-IsWithin limits started budget h)

abbrev pub time_of : Spend → ℕ
time_of (round now) = now
time_of (call now) = now
time_of (bytes n now) = now

abbrev pub all_late : AgentBudget → List Spend → Bool
all_late budget spends =
    all (λ spend. ltb budget.limits.max_elapsed_ms (time_of spend - budget.started_at_unix_ms))
      spends

late_refused :
    (budget : AgentBudget) (spend : Spend)
    → ltb budget.limits.max_elapsed_ms (time_of spend - budget.started_at_unix_ms) ≡ true
    → consume budget spend ≡ err (budget_error elapsed)
unfolding consume
late_refused budget (round now) h = ground arith
late_refused budget (call now) h = ground arith
late_refused budget (bytes n now) h = ground arith

-- Once the time is over, nothing of any kind is granted, and the budget stays as it is.
pub late_grants_nothing :
    (budget : AgentBudget) (g : Granted) (spends : List Spend)
    → all_late budget spends ≡ true
    → spend_all budget g spends ≡ (budget, g)
unfolding spend_all
late_grants_nothing budget g [] h = refl
late_grants_nothing budget g (spend ∷ spends) h =
    rw (late_refused budget spend (ground arith))
      (late_grants_nothing budget g spends (ground arith))
