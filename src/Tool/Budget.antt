-- ===== src/Tool/Budget.antt =====
-- The budget of an agent run: `AgentBudget` of crates/core/src/tool.rs. A counter is written only
-- where a method succeeds, so a method returns the new budget or an error alone.
pub mod Bounds
use wiki_coding.Prelude.{
  ℕ, ◌+◌, ◌-◌, ◌%◌, Option, none, some, String, ltb, leb, Result, ok, err, refuse_if, map_err,
  ok_or, ◌>>=◌, ◌>>◌, if◌then◌else◌,
}
use wiki_coding.Protocol.Tool.{ToolInvocation, ToolResult, failed}
use wiki_coding.Protocol.Runtime.{AgentLimits, validate_limits}
use wiki_coding.Tool.Invocation.{terminal_result}

abbrev pub u16_mod : ℕ
u16_mod = 65536

abbrev pub u64_mod : ℕ
u64_mod = 18446744073709551616

pub data BudgetKind : Type 0 where
  invalid_limits provider_rounds tool_calls elapsed tool_result_bytes : BudgetKind

-- `AgentBudgetError` has the kind as its one field.
pub record AgentBudgetError : Type 0 where
  pub kind : BudgetKind

abbrev pub budget_error : BudgetKind → AgentBudgetError
budget_error kind = record { kind = kind }

pub record AgentBudget : Type 0 where
  pub limits : AgentLimits
  pub started_at_unix_ms : ℕ
  pub provider_rounds : ℕ
  pub tool_calls : ℕ
  pub tool_result_bytes : ℕ

unfoldable pub new : AgentLimits → ℕ → Result AgentBudgetError AgentBudget
unfolding validate_limits
new limits started_at_unix_ms = do
  map_err (validate_limits limits) (budget_error invalid_limits)
  ok (record {
    limits = limits;
    started_at_unix_ms = started_at_unix_ms;
    provider_rounds = 0;
    tool_calls = 0;
    tool_result_bytes = 0;
  })

-- `saturating_sub` stops at 0, as `-` does.
unfoldable pub check_elapsed : AgentBudget → ℕ → Result AgentBudgetError (Unit {0})
check_elapsed budget now_unix_ms =
    refuse_if (ltb budget.limits.max_elapsed_ms (now_unix_ms - budget.started_at_unix_ms))
      (budget_error elapsed)

unfoldable pub consume_provider_round : AgentBudget → ℕ → Result AgentBudgetError AgentBudget
unfolding check_elapsed
consume_provider_round budget now_unix_ms = do
  check_elapsed budget now_unix_ms
  refuse_if (leb budget.limits.max_provider_rounds budget.provider_rounds)
      (budget_error provider_rounds)
  ok (record budget { provider_rounds = (budget.provider_rounds + 1) % u16_mod })

unfoldable pub consume_tool_call : AgentBudget → ℕ → Result AgentBudgetError AgentBudget
unfolding check_elapsed
consume_tool_call budget now_unix_ms = do
  check_elapsed budget now_unix_ms
  refuse_if (leb budget.limits.max_tool_calls budget.tool_calls) (budget_error tool_calls)
  ok (record budget { tool_calls = (budget.tool_calls + 1) % u16_mod })

-- `u64::try_from` of a `usize`, and `checked_add` of two `u64`.
abbrev pub to_u64 : ℕ → Option ℕ
to_u64 n = if ltb n u64_mod then some n else none

unfoldable pub consume_result_bytes : AgentBudget → ℕ → ℕ → Result AgentBudgetError AgentBudget
unfolding check_elapsed
consume_result_bytes budget bytes now_unix_ms = do
  check_elapsed budget now_unix_ms
  converted ← ok_or (to_u64 bytes) (budget_error tool_result_bytes)
  next ← ok_or (to_u64 (budget.tool_result_bytes + converted)) (budget_error tool_result_bytes)
  refuse_if (ltb budget.limits.max_tool_result_bytes next) (budget_error tool_result_bytes)
  ok (record budget { tool_result_bytes = next })

abbrev failure_code : BudgetKind → String
failure_code invalid_limits = "invalid_agent_limits"
failure_code provider_rounds = "provider_round_budget_exhausted"
failure_code tool_calls = "tool_call_budget_exhausted"
failure_code elapsed = "elapsed_budget_exhausted"
failure_code tool_result_bytes = "tool_result_budget_exhausted"

unfoldable pub failure_result : AgentBudget → ToolInvocation → AgentBudgetError → ToolResult
unfolding terminal_result
failure_result budget invocation error = terminal_result invocation failed (failure_code error.kind)
