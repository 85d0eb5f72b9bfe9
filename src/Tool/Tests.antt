-- ===== src/Tool/Tests.antt =====
-- The registry and the budget (crates/core/src/tool.rs) at concrete inputs.
use wiki_coding.Prelude.{◌≡◌, refl, false, List, [], ◌∷◌, String_discrete, ℕ_discrete}
use wiki_coding.Protocol.Runtime.{default_limits}
use wiki_coding.Tool.Registry.{validate_unique_call_ids}
use wiki_coding.Tool.Registry.Unique.{validate_unique_call_ids_lem, is_ok}
use wiki_coding.Tool.Budget.{AgentBudget, new}
use wiki_coding.Tool.Budget.Bounds.{
  Spend, round, call, bytes, spend_all, consume, nothing_granted, IsWithin, granted-IsWithin_limits,
}
use wiki_coding.Samples.{git_call}

validate_unique_call_ids_lem_example :
    is_ok (validate_unique_call_ids (git_call "a" ∷ git_call "b" ∷ git_call "a" ∷ [])) ≡ false
unfolding String_discrete
validate_unique_call_ids_lem_example =
    validate_unique_call_ids_lem (git_call "a" ∷ git_call "b" ∷ git_call "a" ∷ [])

abbrev budget : AgentBudget
budget = record {
  limits = default_limits;
  started_at_unix_ms = 1000;
  provider_rounds = 0;
  tool_calls = 0;
  tool_result_bytes = 0;
}

abbrev spends : List Spend
spends = round 1001 ∷ call 1002 ∷ bytes 2000000 1003 ∷ bytes 500 1004 ∷ []

granted-IsWithin_limits_example :
    IsWithin default_limits
      (spend_all budget nothing_granted spends).0
      (spend_all budget nothing_granted spends).1
unfolding new ℕ_discrete
granted-IsWithin_limits_example = granted-IsWithin_limits default_limits 1000 budget spends refl

-- The large result is refused, the small one granted.
spends_granted :
    (spend_all budget nothing_granted spends).1 ≡ record { rounds = 1; calls = 1; bytes = 500 }
unfolding spend_all consume
spends_granted = refl
