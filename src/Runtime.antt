-- ===== src/Runtime.antt =====
-- The state machine of one turn: `RunMachine` of crates/core/src/runtime.rs. Some events change the
-- state before they fail, so a step returns the machine beside its result, whatever that is.
pub mod Machine
pub mod Run
pub mod Fragments
pub mod Receipts
pub mod Errors
pub mod Pairing
pub mod Pending
pub mod Admission
pub mod Usages
pub mod Arrivals
pub mod Accounting
pub mod Tests
use wiki_coding.Prelude.{
  ℕ, ◌+◌, min, ◌-◌, String, Bool, true, false, not, Option, none, some, List, [], ◌∷◌, ◌++◌, ◌&&◌,
  ◌||◌, any, all, Result, ok, err, refuse_if, ok_or, map_err, ◌>>=◌, ◌>>◌, ◌==◌, Eq, string_eq,
  if◌then◌else◌,
}
use wiki_coding.Protocol.Json.{Json}
use wiki_coding.Protocol.Event
use wiki_coding.Protocol.Event.{
  StreamEvent, ToolCallFragment, TerminalOutcome, is_terminal, Usage, ProviderProtocolKind-discrete,
  ProviderProtocolKind,
}
use wiki_coding.Protocol.Tool.{
  ToolEffect, read, write, process, ToolCall, ToolDefinition, ToolInvocation, tool_call,
  tool_invocation, validate_call,
}
use wiki_coding.Protocol.Runtime.{
  RuntimeErrorCode, protocol_malformed_json, protocol_premature_eof, protocol_duplicate_terminal,
  protocol_event_after_terminal, workspace_busy, recovery, tool_unavailable, from_protocol,
  RuntimeFailure, runtime_failure, RuntimeTerminalOutcome, RuntimeEvent, RuntimeEventV1,
  runtime_event_v1, turn_started, tool_call_observed, TurnReceipt, ConversationItem, tool_result,
}
use wiki_coding.Protocol.Request.{TurnRequest, validate_request}

abbrev pub u64_max : ℕ
u64_max = 18446744073709551615

abbrev pub saturating_add : ℕ → ℕ → ℕ
saturating_add a b = min (a + b) u64_max

unfoldable pub add_optional : Option ℕ → Option ℕ → Option ℕ
add_optional (some left) (some right) = some (saturating_add left right)
add_optional (some value) none = some value
add_optional none (some value) = some value
add_optional none none = none

abbrev pub no_usage : Usage
no_usage = record { input_tokens = none; output_tokens = none; total_tokens = none }

abbrev pub usage_or_default : Option Usage → Usage
usage_or_default none = no_usage
usage_or_default (some usage) = usage

unfoldable pub merge_usage : Option Usage → Usage → Usage
merge_usage current next =
    let current' = usage_or_default current in
    record {
      input_tokens = add_optional current'.input_tokens next.input_tokens;
      output_tokens = add_optional current'.output_tokens next.output_tokens;
      total_tokens = add_optional current'.total_tokens next.total_tokens;
    }

unfoldable pub effect_for_tool : String → Option ToolEffect
effect_for_tool name =
    if name == "read_file" || name == "list_directory"
    then some read
    else if name == "apply_patch" || name == "write_file"
    then some write
    else if name == "run_diagnostic"
        || name == "git_status"
        || name == "git_diff"
        || name == "npm_diagnostic"
        || name == "shell_command"
        || name == "shell_session"
    then some process
    else none

instance abbrev pub protocol_kind_eq : Eq ProviderProtocolKind
protocol_kind_eq = record { eq? = ProviderProtocolKind-discrete }

unfoldable pub runtime_outcome : TerminalOutcome → RuntimeTerminalOutcome
runtime_outcome TerminalOutcome.completed = RuntimeTerminalOutcome.completed
runtime_outcome (TerminalOutcome.failed code) =
    RuntimeTerminalOutcome.failed (runtime_failure (from_protocol code))
runtime_outcome TerminalOutcome.interrupted = RuntimeTerminalOutcome.interrupted
runtime_outcome TerminalOutcome.stopped = RuntimeTerminalOutcome.stopped

module _ (json : Json) where
  pub data RunState : Type 0 where
    idle : RunState
    running : TurnRequest json → Option Usage → List ToolInvocation → RunState
    awaiting_tools : TurnRequest json → Option Usage → List ToolInvocation → RunState
    terminal : TurnReceipt → RunState

  pub data RunInput : Type 0 where
    begin : TurnRequest json → RunInput
    provider_event : StreamEvent → RunInput
    provider_failed : RuntimeFailure → RunInput
    provider_eof : RunInput
    continue_after_tools : TurnRequest json → RunInput
    cancel shutdown : RunInput

  pub data RunEffect : Type 0 where
    persist publish : RuntimeEventV1 → RunEffect
    open_provider : TurnRequest json → RunEffect
    abort_provider : RunEffect
    begin_tools : List ToolInvocation → RunEffect
    finalize : TurnReceipt → RunEffect

  abbrev pub Reply : Type 0
  Reply = Result RuntimeErrorCode (List RunEffect)

  pub record RunMachine : Type 0 where
    pub state : RunState

  unfoldable pub new : RunMachine
  new = record { state = idle }

  unfoldable pub observable : RuntimeEvent → List RunEffect
  observable event = persist (runtime_event_v1 event) ∷ publish (runtime_event_v1 event) ∷ []

  -- `begin` after the validation of the request.
  unfoldable pub started :
      RunMachine → Result RuntimeErrorCode (TurnRequest json) → RunMachine × Reply
  started m (err e) = (m, err e)
  started m (ok request) =
      let opening =
        runtime_event_v1 (turn_started request.session_id request.turn_id request.request_id) in
      (
        record { state = running request none [] },
        ok (persist opening ∷ publish opening ∷ open_provider request ∷ []),
      )

  unfoldable pub start_run : RunMachine → TurnRequest json → RunMachine × Reply
  unfolding started
  start_run m proposed = started m (validate_request json proposed)

  abbrev abort_if : Bool → List RunEffect
  abort_if true = abort_provider ∷ []
  abort_if false = []

  unfoldable pub finish_turn :
      TurnRequest json → Option Usage → RuntimeTerminalOutcome → Bool → RunMachine × Reply
  finish_turn request usage outcome abort =
      let receipt : TurnReceipt = record {
        session_id = request.session_id;
        turn_id = request.turn_id;
        request_id = request.request_id;
        outcome = outcome;
        usage = usage;
      } in
      let closing = runtime_event_v1 (RuntimeEvent.terminal outcome) in
      (
        record { state = terminal receipt },
        ok (abort_if abort ++ persist closing ∷ publish closing ∷ finalize receipt ∷ []),
      )

  unfoldable pub finish : RunMachine → RuntimeTerminalOutcome → Bool → RunMachine × Reply
  unfolding finish_turn
  finish m outcome abort = elim m.state [
    | running request usage pending ↦ finish_turn request usage outcome abort
    | awaiting_tools request usage invocations ↦ finish_turn request usage outcome abort
    | _ ↦ (m, err protocol_event_after_terminal)
  ]

  -- The definition that a call names.
  unfoldable pub find_definition :
      String → List (ToolDefinition json) → Option (ToolDefinition json)
  find_definition name [] = none
  find_definition name (definition ∷ definitions) =
      let rest = find_definition name definitions in
      if definition.name == name then some definition else rest

  -- One round of the loop over the fragments, up to its `push`.
  unfoldable pub check_fragment :
      List (ToolDefinition json)
      → List ToolInvocation
      → ToolCallFragment
      → Result RuntimeErrorCode ToolInvocation
  check_fragment tools pending fragment = do
    refuse_if (not fragment.arguments_complete) protocol_malformed_json
    name ← ok_or fragment.name protocol_malformed_json
    arguments ← ok_or fragment.arguments_delta protocol_malformed_json
    call ← map_err (tool_call json fragment.call_id name arguments) protocol_malformed_json
    definition ← ok_or (find_definition call.name tools) tool_unavailable
    map_err (validate_call json definition call) protocol_malformed_json
    refuse_if (any (λ invocation. invocation.call.call_id == call.call_id) pending)
        protocol_malformed_json
    effect ← ok_or (effect_for_tool call.name) tool_unavailable
    map_err (tool_invocation json call effect) protocol_malformed_json

  abbrev observed : ToolInvocation → List RunEffect
  observed invocation =
      observable (tool_call_observed invocation.call.call_id (some invocation.call.name))

  -- What was pushed before a fragment fails stays pushed.
  unfoldable pub collect_fragments :
      List (ToolDefinition json)
      → List ToolInvocation
      → List RunEffect
      → List ToolCallFragment
      → List ToolInvocation × Reply
  collect_fragments tools pending effects [] = (pending, ok effects)
  collect_fragments tools pending effects (fragment ∷ fragments) =
      elim (check_fragment tools pending fragment) [
        | err e ↦ (pending, err e)
        | ok invocation ↦
            collect_fragments tools (pending ++ invocation ∷ []) (effects ++ observed invocation)
              fragments
      ]

  unfoldable pub observe_fragments : List ToolCallFragment → List RunEffect
  unfolding observable
  observe_fragments [] = []
  observe_fragments (fragment ∷ fragments) =
      observable (tool_call_observed fragment.call_id fragment.name) ++ observe_fragments fragments
