-- ===== src/Runtime/Accounting.antt =====
-- The usage that a run accounts for (crates/core/src/runtime.rs).
use wiki_coding.Prelude.{
  ◌≡◌, refl, sym, ap, ◌∙◌, Option, none, List, [], ◌∷◌, ok, err, inl, inr, Result, Bool-cases,
}
use wiki_coding.Protocol.Json.{Json}
use wiki_coding.Protocol.Event.{
  ToolCallFragment, Usage, StreamEvent, TerminalOutcome, reasoning_filtered, visible_text_delta,
  tool_call_fragments,
}
use wiki_coding.Protocol.Event
use wiki_coding.Protocol.Tool.{ToolInvocation, ToolDefinition}
use wiki_coding.Protocol.Runtime.{RuntimeErrorCode}
use wiki_coding.Protocol.Request.{TurnRequest, validate_request}
use wiki_coding.Runtime.{
  RunMachine, RunState, RunInput, Reply, idle, running, awaiting_tools, terminal, begin,
  provider_event, continue_after_tools, shutdown, new, observable, start_run, started, finish,
  finish_turn,
}
use wiki_coding.Runtime.Machine.{
  apply, dispatch, receive, receive_offered, receive_fragments, receive_terminal, resume, resumed,
  continues,
}
use wiki_coding.Runtime.Arrivals.{usages, arriving, arrived, run-arrived}
use wiki_coding.Runtime.Usages.{total, total-append, Bounded, tallied, total-tallied}
use wiki_coding.Runtime.Run.{Run, run, fresh, logged, effects_of}

module _ (json : Json) where
  -- The usage that a state accounts for.
  abbrev pub state_usage : RunState json → Option Usage
  state_usage idle = none
  state_usage (running request usage pending) = usage
  state_usage (awaiting_tools request usage invocations) = usage
  state_usage (terminal receipt) = receipt.usage

  -- A step takes the usages that arrive into its state.
  Adds : Option Usage → List Usage → RunMachine json × Reply json → Type 0
  Adds before us p = total before us ≡ state_usage p.0.state

  abbrev at_state : RunState json → RunMachine json
  at_state state = record { state = state }

  receive_offered-Adds :
      (request : TurnRequest json) (usage : Option Usage) (pending : List ToolInvocation)
      (fragments : List ToolCallFragment) (tools : List (ToolDefinition json))
      → Adds usage [] (
          receive_offered json
            (at_state (running request usage pending))
            request
            usage
            pending
            fragments
            tools)
  unfolding receive_offered Adds finish finish_turn
  receive_offered-Adds request usage pending fragments [] = unfold total in refl
  receive_offered-Adds request usage pending fragments (tool ∷ tools) = unfold total in refl

  receive-Adds :
      (request : TurnRequest json) (usage : Option Usage) (pending : List ToolInvocation)
      (event : StreamEvent)
      → Adds usage
          (arriving json (running request usage pending) (provider_event event))
          (receive json (at_state (running request usage pending)) request usage pending event)
  unfolding receive receive_fragments receive_terminal finish finish_turn Adds observable total
  receive-Adds request usage pending (tool_call_fragments fragments) =
      receive_offered-Adds request usage pending fragments request.tools
  receive-Adds request usage [] (Event.terminal TerminalOutcome.completed) = refl
  receive-Adds request usage (p ∷ ps) (Event.terminal TerminalOutcome.completed) = refl
  receive-Adds request usage pending (Event.terminal _) = refl
  receive-Adds request usage pending _ = refl

  started-Adds :
      (r : Result RuntimeErrorCode (TurnRequest json))
      → Adds none [] (started json (at_state idle) r)
  unfolding started Adds total
  started-Adds (ok request) = refl
  started-Adds (err e) = refl

  resumed-Adds :
      (previous : TurnRequest json) (usage : Option Usage) (invocations : List ToolInvocation)
      (r : Result RuntimeErrorCode (TurnRequest json))
      → Adds usage [] (
          resumed json
            (at_state (awaiting_tools previous usage invocations))
            previous
            usage
            invocations
            r)
  unfolding resumed Adds total
  resumed-Adds previous usage invocations (err e) = refl
  resumed-Adds previous usage invocations (ok request) =
      elim (Bool-cases (continues json previous request invocations)) [
        | inl same ↦ rw (same, effects_of)
        | inr differs ↦ rw (differs, effects_of)
      ]

  dispatch-Adds :
      (state : RunState json) (input : RunInput json)
      → Adds
          (state_usage state)
          (arriving json state input)
          (dispatch json state input (at_state state))
  unfolding dispatch start_run resume finish finish_turn Adds total
  dispatch-Adds idle (begin request) = started-Adds (validate_request json request)
  dispatch-Adds idle _ = refl
  dispatch-Adds (running request usage pending) (provider_event event) =
      receive-Adds request usage pending event
  dispatch-Adds (running request usage pending) _ = refl
  dispatch-Adds (awaiting_tools request usage invocations) (continue_after_tools proposed) =
      resumed-Adds request usage invocations (validate_request json proposed)
  dispatch-Adds (awaiting_tools request usage invocations) _ = refl
  dispatch-Adds (terminal receipt) shutdown = refl
  dispatch-Adds (terminal receipt) _ = refl

  -- The usage of a run after more inputs, from what it was.
  run-Adds :
      (r : Run json) (inputs : List (RunInput json))
      → total (state_usage r.machine.state) (arrived json r inputs)
        ≡ state_usage (run json r inputs).machine.state
  unfolding run apply arrived Adds total
  run-Adds r [] = refl
  run-Adds r (input ∷ inputs) =
      let step = apply json r.machine input in
      total-append (state_usage r.machine.state) (arriving json r.machine.state input)
        (arrived json (logged json r.log step) inputs)
      ∙ ap (λ t. total t (arrived json (logged json r.log step) inputs))
          (dispatch-Adds r.machine.state input)
      ∙ run-Adds (logged json r.log step) inputs

  -- The usage of a run, in every state that it reaches, is there exactly when a usage event has come while
  -- the turn ran, over all its rounds, and each of its three counts is the sum of those that these events
  -- report, saturated at 2 ^ 64 - 1; a count that no event reports is none. The log persists the usages
  -- of exactly these events, in their order. The reported numbers are u64.
  pub usage_balanced :
      (inputs : List (RunInput json))
      → Bounded (arrived json (fresh json) inputs)
      → let last = run json (fresh json) inputs in
        (state_usage last.machine.state ≡ tallied (arrived json (fresh json) inputs))
        × (usages json last.log ≡ arrived json (fresh json) inputs)
  unfolding new usages
  usage_balanced inputs fits = (
    sym (run-Adds (fresh json) inputs) ∙ total-tallied (arrived json (fresh json) inputs) fits,
    run-arrived json (fresh json) inputs,
  )
