-- ===== src/Runtime/Machine.antt =====
-- `RunMachine::apply` and the events that it hands on (crates/core/src/runtime.rs).
use wiki_coding.Prelude.{
  String, Bool, true, false, Option, some, List, [], ◌∷◌, ◌++◌, ◌&&◌, ◌||◌, all, Result, ok, err,
  ◌==◌, string_eq, if◌then◌else◌,
}
use wiki_coding.Protocol.Json.{Json}
use wiki_coding.Protocol.Event.{
  StreamEvent, reasoning_filtered, visible_text_delta, tool_call_fragments, TerminalOutcome, Usage,
  is_terminal, ToolCallFragment,
}
use wiki_coding.Protocol.Event
use wiki_coding.Protocol.Tool.{ToolInvocation, ToolDefinition}
use wiki_coding.Protocol.Runtime.{
  RuntimeErrorCode, protocol_premature_eof, protocol_duplicate_terminal,
  protocol_event_after_terminal, workspace_busy, recovery, tool_unavailable, runtime_failure,
  RuntimeTerminalOutcome, RuntimeEvent, ConversationItem, tool_result,
}
use wiki_coding.Protocol.Request.{TurnRequest, validate_request}
use wiki_coding.Runtime.{
  RunMachine, RunEffect, RunState, RunInput, Reply, idle, running, awaiting_tools, terminal, begin,
  provider_event, provider_failed, provider_eof, continue_after_tools, cancel, shutdown,
  open_provider, begin_tools, observable, start_run, finish, merge_usage, collect_fragments,
  observe_fragments, runtime_outcome, protocol_kind_eq,
}

-- A result for the call among the messages of the new request.
unfoldable pub has_result : String → List ConversationItem → Bool
has_result call_id [] = false
has_result call_id (tool_result result ∷ items) =
    result.call_id == call_id || has_result call_id items
has_result call_id (_ ∷ items) = has_result call_id items

module _ (json : Json) where
  -- Effects in front of those of a step that succeeds.
  abbrev pub after_effects :
      List (RunEffect json) → RunMachine json × Reply json → RunMachine json × Reply json
  after_effects effects (m, ok more) = (m, ok (effects ++ more))
  after_effects effects (m, err e) = (m, err e)

  -- The two cases of an event with fragments: no tool was offered, or some were.
  unfoldable pub receive_offered :
      RunMachine json
      → TurnRequest json
      → Option Usage
      → List ToolInvocation
      → List ToolCallFragment
      → List (ToolDefinition json)
      → RunMachine json × Reply json
  receive_offered m request active pending fragments [] =
      after_effects (observe_fragments json fragments)
        (finish json m (RuntimeTerminalOutcome.failed (runtime_failure tool_unavailable)) true)
  receive_offered m request active pending fragments (tool ∷ tools) =
      let (pending', reply) = collect_fragments json (tool ∷ tools) pending [] fragments in
      (record { state = running request active pending' }, reply)

  unfoldable pub receive_fragments :
      RunMachine json
      → TurnRequest json
      → Option Usage
      → List ToolInvocation
      → List ToolCallFragment
      → RunMachine json × Reply json
  unfolding receive_offered
  receive_fragments m request active pending fragments =
      receive_offered m request active pending fragments request.tools

  abbrev begin_pending :
      RunMachine json
      → TurnRequest json
      → Option Usage
      → List ToolInvocation
      → RunMachine json × Reply json
  begin_pending m request usage [] = finish json m RuntimeTerminalOutcome.completed false
  begin_pending m request usage (invocation ∷ invocations) = (
    record { state = awaiting_tools request usage (invocation ∷ invocations) },
    ok (begin_tools (invocation ∷ invocations) ∷ []),
  )

  unfoldable pub receive_terminal :
      RunMachine json
      → TurnRequest json
      → Option Usage
      → List ToolInvocation
      → TerminalOutcome
      → RunMachine json × Reply json
  unfolding runtime_outcome
  receive_terminal m request usage pending TerminalOutcome.completed =
      begin_pending m request usage pending
  receive_terminal m request usage pending outcome = finish json m (runtime_outcome outcome) false

  -- `provider_event` in the running state, whose fields it reads and writes.
  unfoldable pub receive :
      RunMachine json
      → TurnRequest json
      → Option Usage
      → List ToolInvocation
      → StreamEvent
      → RunMachine json × Reply json
  unfolding receive_fragments receive_terminal merge_usage
  receive m request active pending reasoning_filtered =
      (m, ok (observable json RuntimeEvent.reasoning_filtered))
  receive m request active pending (visible_text_delta delta) =
      (m, ok (observable json (RuntimeEvent.visible_text_delta delta)))
  receive m request active pending (Event.usage u) = (
    record { state = running request (some (merge_usage active u)) pending },
    ok (observable json (RuntimeEvent.usage u)),
  )
  receive m request active pending (tool_call_fragments fragments) =
      receive_fragments m request active pending fragments
  receive m request active pending (Event.terminal outcome) =
      receive_terminal m request active pending outcome

  unfoldable pub continues : TurnRequest json → TurnRequest json → List ToolInvocation → Bool
  unfolding has_result
  continues previous request invocations =
      request.session_id == previous.session_id
      && request.turn_id == previous.turn_id
      && request.request_id == previous.request_id
      && request.provider_id == previous.provider_id
      && request.model_id == previous.model_id
      && request.protocol == previous.protocol
      && all (λ invocation. has_result invocation.call.call_id request.messages) invocations

  -- `continue_after_tools` after the validation of the request, in the waiting state, whose fields
  -- it reads.
  unfoldable pub resumed :
      RunMachine json
      → TurnRequest json
      → Option Usage
      → List ToolInvocation
      → Result RuntimeErrorCode (TurnRequest json)
      → RunMachine json × Reply json
  resumed m previous active invocations (err e) = (m, err e)
  resumed m previous active invocations (ok request) =
      if continues previous request invocations
      then (record { state = running request active [] }, ok (open_provider request ∷ []))
      else (m, err recovery)

  unfoldable pub resume :
      RunMachine json
      → TurnRequest json
      → Option Usage
      → List ToolInvocation
      → TurnRequest json
      → RunMachine json × Reply json
  unfolding resumed
  resume m previous active invocations proposed =
      resumed m previous active invocations (validate_request json proposed)

  -- The `match` of `apply`, in the order of its arms.
  unfoldable pub dispatch :
      RunState json → RunInput json → RunMachine json → RunMachine json × Reply json
  dispatch idle (begin request) m = start_run json m request
  dispatch idle shutdown m = (m, ok [])
  dispatch idle _ m = (m, err protocol_event_after_terminal)
  dispatch (running request usage pending) (begin proposed) m = (m, err workspace_busy)
  dispatch (running request usage pending) (continue_after_tools proposed) m =
      (m, err workspace_busy)
  dispatch (running request usage pending) (provider_event event) m =
      receive m request usage pending event
  dispatch (running request usage pending) (provider_failed failure) m =
      finish json m (RuntimeTerminalOutcome.failed failure) true
  dispatch (running request usage pending) provider_eof m =
      finish json m (RuntimeTerminalOutcome.failed (runtime_failure protocol_premature_eof)) true
  dispatch (running request usage pending) cancel m =
      finish json m RuntimeTerminalOutcome.interrupted true
  dispatch (running request usage pending) shutdown m =
      finish json m RuntimeTerminalOutcome.interrupted true
  dispatch (awaiting_tools request usage invocations) (continue_after_tools proposed) m =
      resume m request usage invocations proposed
  dispatch (awaiting_tools request usage invocations) cancel m =
      finish json m RuntimeTerminalOutcome.interrupted false
  dispatch (awaiting_tools request usage invocations) shutdown m =
      finish json m RuntimeTerminalOutcome.interrupted false
  dispatch (awaiting_tools request usage invocations) (begin proposed) m = (m, err workspace_busy)
  dispatch (awaiting_tools request usage invocations) _ m = (m, err protocol_event_after_terminal)
  dispatch (terminal receipt) shutdown m = (m, ok [])
  dispatch (terminal receipt) cancel m = (m, ok [])
  dispatch (terminal receipt) (provider_event event) m = (
    m,
    err (if is_terminal event then protocol_duplicate_terminal else protocol_event_after_terminal),
  )
  dispatch (terminal receipt) _ m = (m, err protocol_event_after_terminal)

  unfoldable pub apply : RunMachine json → RunInput json → RunMachine json × Reply json
  apply m input = dispatch m.state input m
