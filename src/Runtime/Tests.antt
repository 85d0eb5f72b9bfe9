-- ===== src/Runtime/Tests.antt =====
-- Runs of the turn's machine (crates/core/src/runtime.rs), and the theorems at concrete inputs.
use wiki_coding.Prelude.{
  ℕ, ◌≤◌, subst, sym, ◌≡◌, refl, List, [], ◌∷◌, none, some, err, String_discrete, ℕ_discrete,
  is_code_text, get, contains_key, arith,
}
use mathlib.Core.List.{Memᴰ}
use wiki_coding.Runtime.{u64_max, observable}
use wiki_coding.Protocol.Event
use wiki_coding.Protocol.Event.{
  ToolCallFragment, tool_call_fragments, ProviderProtocolKind-discrete,
}
use wiki_coding.Protocol.Runtime.{
  RuntimeTerminalOutcome, TurnReceipt, workspace_busy, protocol_malformed_json,
}
use wiki_coding.Protocol.Request.{validate_request, collect_definitions, check_messages, byte_len}
use wiki_coding.Protocol.Tool.{validate_call, tool_call, tool_invocation}
use wiki_coding.Runtime.{
  RunInput, RunMachine, running, terminal, begin, provider_event, cancel, new, find_definition,
  effect_for_tool, check_fragment, collect_fragments, merge_usage, add_optional, start_run, finish,
}
use wiki_coding.Runtime.Machine.{apply, dispatch, receive}
use wiki_coding.Runtime.Run.{run, fresh}
use wiki_coding.Runtime.Receipts.{Accounted, run_accounts}
use wiki_coding.Runtime.Errors.{apply_error_unchanged, ended_turn_stays}
use wiki_coding.Runtime.Pairing.{Paired, events-Paired}
use wiki_coding.Runtime.Pending.{IsAdmitted}
use wiki_coding.Runtime.Admission.{pending-IsAdmitted}
use wiki_coding.Runtime.Usages.{Bounded, tallied}
use wiki_coding.Runtime.Arrivals.{usages, arrived}
use wiki_coding.Runtime.Accounting.{state_usage, usage_balanced}
use wiki_coding.Samples.{toy_json, git_tool, turn_request, tokens, fragment}

-- A turn that answers, uses tokens twice, and completes.
abbrev answering : List (RunInput toy_json)
answering =
    begin (turn_request [])
    ∷ provider_event (Event.visible_text_delta "hi")
    ∷ provider_event (Event.usage (tokens 3))
    ∷ provider_event (Event.usage (tokens 4))
    ∷ provider_event (Event.terminal Event.completed)
    ∷ cancel
    ∷ []

-- A turn that calls a tool and waits for it.
abbrev calling : List (RunInput toy_json)
calling =
    begin (turn_request (git_tool ∷ []))
    ∷ provider_event (tool_call_fragments (fragment "call-1" ∷ fragment "call-2" ∷ []))
    ∷ provider_event (Event.terminal Event.completed)
    ∷ []

abbrev last_receipt : TurnReceipt
last_receipt = record {
  session_id = "session";
  turn_id = "turn";
  request_id = "request";
  outcome = RuntimeTerminalOutcome.completed;
  usage = some (tokens 7);
}

answering_ends : (run toy_json (fresh toy_json) answering).machine.state ≡ terminal last_receipt
unfolding run apply dispatch new start_run validate_request collect_definitions check_messages
    byte_len receive merge_usage add_optional finish ℕ_discrete String_discrete
answering_ends = refl

run_accounts_example :
    Accounted toy_json
      (run toy_json (fresh toy_json) answering).machine.state
      (run toy_json (fresh toy_json) answering).log
run_accounts_example = run_accounts toy_json answering

events-Paired_example : Paired toy_json (run toy_json (fresh toy_json) answering).log
events-Paired_example = events-Paired toy_json answering

pending-IsAdmitted_example :
    IsAdmitted toy_json (run toy_json (fresh toy_json) calling).machine.state
pending-IsAdmitted_example = pending-IsAdmitted toy_json calling

arrived_test : arrived toy_json (fresh toy_json) answering ≡ tokens 3 ∷ tokens 4 ∷ []
unfolding run apply dispatch new start_run validate_request collect_definitions check_messages
    byte_len receive merge_usage add_optional finish ℕ_discrete String_discrete arrived observable
arrived_test = refl

small_numbers : (n : ℕ) → Memᴰ n (3 ∷ 4 ∷ []) → n ≤ u64_max
small_numbers n at = elim at [
  | Memᴰ.head same ↦ omega (arith, same)
  | Memᴰ.tail later ↦ elim later [
    | Memᴰ.head same ↦ omega (arith, same)
    | Memᴰ.tail past ↦ elim past [ ]
  ]
]

small : Bounded (tokens 3 ∷ tokens 4 ∷ [])
small = record { input = small_numbers; output = small_numbers; total = small_numbers }

usage_balanced_example :
    let last = run toy_json (fresh toy_json) answering in
    (state_usage toy_json last.machine.state
      ≡ tallied (arrived toy_json (fresh toy_json) answering))
    × (usages toy_json last.log ≡ arrived toy_json (fresh toy_json) answering)
usage_balanced_example = usage_balanced toy_json answering (subst Bounded (sym arrived_test) small)

abbrev busy : RunMachine toy_json
busy = record { state = running (turn_request (git_tool ∷ [])) none [] }

apply_error_unchanged_example : (apply toy_json busy (begin (turn_request []))).0 ≡ busy
apply_error_unchanged_example =
    apply_error_unchanged toy_json busy (begin (turn_request [])) workspace_busy refl
      (unfold apply dispatch in refl)

abbrev repeated : List ToolCallFragment
repeated = fragment "call-1" ∷ fragment "call-1" ∷ []

repeated_refused :
    (apply toy_json busy (provider_event (tool_call_fragments repeated))).1
    ≡ err protocol_malformed_json
unfolding apply dispatch receive collect_fragments check_fragment find_definition effect_for_tool
    tool_call tool_invocation validate_call get contains_key is_code_text String_discrete ℕ_discrete
repeated_refused = refl

-- The second fragment repeats the id of the first one, which stays pending.
ended_turn_stays_example :
    run toy_json (run toy_json (fresh toy_json) answering) calling
    ≡ run toy_json (fresh toy_json) answering
ended_turn_stays_example =
    ended_turn_stays toy_json (run toy_json (fresh toy_json) answering) last_receipt calling
      answering_ends
