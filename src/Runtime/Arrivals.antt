-- ===== src/Runtime/Arrivals.antt =====
-- The usages that a run persists are those that arrive (crates/core/src/runtime.rs).
use mathlib.Core.List.{append_assoc, append-nil}
use wiki_coding.Prelude.{
  ◌≡◌, refl, sym, ap, ◌∙◌, Option, List, [], ◌∷◌, ◌++◌, ok, err, inl, inr, Result, Result-cases,
  Bool-cases,
}
use wiki_coding.Protocol.Json.{Json}
use wiki_coding.Protocol.Event.{
  ToolCallFragment, Usage, StreamEvent, TerminalOutcome, reasoning_filtered, visible_text_delta,
  tool_call_fragments,
}
use wiki_coding.Protocol.Event
use wiki_coding.Protocol.Tool.{ToolInvocation, ToolDefinition}
use wiki_coding.Protocol.Runtime.{RuntimeErrorCode, RuntimeEvent}
use wiki_coding.Protocol.Request.{TurnRequest, validate_request}
use wiki_coding.Runtime.{
  RunMachine, RunState, RunInput, RunEffect, Reply, idle, running, awaiting_tools, terminal, begin,
  provider_event, continue_after_tools, shutdown, persist, observable, observed, check_fragment,
  collect_fragments, observe_fragments, start_run, started, finish, finish_turn,
}
use wiki_coding.Runtime.Machine.{
  apply, dispatch, receive, receive_offered, receive_fragments, receive_terminal, resume, resumed,
  continues,
}
use wiki_coding.Runtime.Fragments.{collect_fragments-accepted, collect_fragments-refused}
use wiki_coding.Runtime.Run.{Run, run, logged, effects_of}

module _ (json : Json) where
  abbrev event_usages : RuntimeEvent → List Usage
  event_usages (RuntimeEvent.usage u) = u ∷ []
  event_usages _ = []

  -- The usages that a log persists.
  unfoldable pub usages : List (RunEffect json) → List Usage
  usages [] = []
  usages (persist e ∷ rest) = event_usages e.event ++ usages rest
  usages (_ ∷ rest) = usages rest

  pub usages-append : (es fs : List (RunEffect json)) → usages (es ++ fs) ≡ usages es ++ usages fs
  unfolding usages
  usages-append [] fs = refl
  usages-append (persist e ∷ es) fs =
      ap (◌++◌ (event_usages e.event)) (usages-append es fs)
      ∙ sym (append_assoc (event_usages e.event) (usages es) (usages fs))
  usages-append (_ ∷ es) fs = usages-append es fs

  -- The usages that an input brings: those of an event that comes while a turn runs.
  abbrev pub arriving : RunState json → RunInput json → List Usage
  arriving (running request usage pending) (provider_event (Event.usage u)) = u ∷ []
  arriving _ _ = []

  -- The usages that arrive in the rest of a run.
  unfoldable pub arrived : Run json → List (RunInput json) → List Usage
  arrived r [] = []
  arrived r (input ∷ inputs) =
      arriving r.machine.state input
      ++ arrived (logged json r.log (apply json r.machine input)) inputs

  pub observe_fragments-usages :
      (fragments : List ToolCallFragment) → usages (observe_fragments json fragments) ≡ []
  unfolding observe_fragments usages
  observe_fragments-usages [] = refl
  observe_fragments-usages (fragment ∷ fragments) = observe_fragments-usages fragments

  observed-usages :
      (effects : List (RunEffect json)) (invocation : ToolInvocation)
      → usages effects ≡ []
      → usages (effects ++ observed json invocation) ≡ []
  unfolding observable usages
  observed-usages effects invocation e =
      usages-append effects (observed json invocation) ∙ ap (λ us. us ++ []) e

  pub collect_fragments-usages :
      (tools : List (ToolDefinition json)) (pending : List ToolInvocation)
      (effects : List (RunEffect json)) (fragments : List ToolCallFragment)
      → usages effects ≡ []
      → usages (effects_of json (collect_fragments json tools pending effects fragments).1) ≡ []
  unfolding collect_fragments
  collect_fragments-usages tools pending effects [] q = q
  collect_fragments-usages tools pending effects (fragment ∷ fragments) q =
      elim (Result-cases (check_fragment json tools pending fragment)) [
        | inl (invocation, e) ↦
            ap (λ r. usages (effects_of json r.1))
              (collect_fragments-accepted json tools pending effects fragment fragments invocation
                e)
            ∙ collect_fragments-usages tools (pending ++ invocation ∷ [])
                (effects ++ observed json invocation) fragments
                (observed-usages effects invocation q)
        | inr (c, e) ↦
            ap (λ r. usages (effects_of json r.1))
              (collect_fragments-refused json tools pending effects fragment fragments c e)
            ∙ (unfold usages in refl)
      ]

  abbrev at_state : RunState json → RunMachine json
  at_state state = record { state = state }

  Brings : List Usage → RunMachine json × Reply json → Type 0
  Brings us p = usages (effects_of json p.1) ≡ us

  receive_offered-Brings :
      (request : TurnRequest json) (usage : Option Usage) (pending : List ToolInvocation)
      (fragments : List ToolCallFragment) (tools : List (ToolDefinition json))
      → Brings [] (
          receive_offered json
            (at_state (running request usage pending))
            request
            usage
            pending
            fragments
            tools)
  unfolding receive_offered Brings finish finish_turn usages
  receive_offered-Brings request usage pending fragments [] =
      usages-append (observe_fragments json fragments) _
      ∙ ap (λ us. us ++ []) (observe_fragments-usages fragments)
  receive_offered-Brings request usage pending fragments (tool ∷ tools) =
      collect_fragments-usages (tool ∷ tools) pending [] fragments (unfold usages in refl)

  receive-Brings :
      (request : TurnRequest json) (usage : Option Usage) (pending : List ToolInvocation)
      (event : StreamEvent)
      → Brings
          (arriving (running request usage pending) (provider_event event))
          (receive json (at_state (running request usage pending)) request usage pending event)
  unfolding receive receive_fragments receive_terminal finish finish_turn Brings observable usages
  receive-Brings request usage pending (tool_call_fragments fragments) =
      receive_offered-Brings request usage pending fragments request.tools
  receive-Brings request usage [] (Event.terminal TerminalOutcome.completed) = refl
  receive-Brings request usage (p ∷ ps) (Event.terminal TerminalOutcome.completed) = refl
  receive-Brings request usage pending (Event.terminal _) = refl
  receive-Brings request usage pending _ = refl

  started-Brings :
      (r : Result RuntimeErrorCode (TurnRequest json)) → Brings [] (started json (at_state idle) r)
  unfolding started Brings usages
  started-Brings (ok request) = refl
  started-Brings (err e) = refl

  resumed-Brings :
      (previous : TurnRequest json) (usage : Option Usage) (invocations : List ToolInvocation)
      (r : Result RuntimeErrorCode (TurnRequest json))
      → Brings [] (
          resumed json
            (at_state (awaiting_tools previous usage invocations))
            previous
            usage
            invocations
            r)
  unfolding resumed Brings usages
  resumed-Brings previous usage invocations (err e) = refl
  resumed-Brings previous usage invocations (ok request) =
      elim (Bool-cases (continues json previous request invocations)) [
        | inl same ↦ rw (same, effects_of)
        | inr differs ↦ rw (differs, effects_of)
      ]

  dispatch-Brings :
      (state : RunState json) (input : RunInput json)
      → Brings (arriving state input) (dispatch json state input (at_state state))
  unfolding dispatch start_run resume finish finish_turn Brings usages
  dispatch-Brings idle (begin request) = started-Brings (validate_request json request)
  dispatch-Brings idle _ = refl
  dispatch-Brings (running request usage pending) (provider_event event) =
      receive-Brings request usage pending event
  dispatch-Brings (running request usage pending) _ = refl
  dispatch-Brings (awaiting_tools request usage invocations) (continue_after_tools proposed) =
      resumed-Brings request usage invocations (validate_request json proposed)
  dispatch-Brings (awaiting_tools request usage invocations) _ = refl
  dispatch-Brings (terminal receipt) shutdown = refl
  dispatch-Brings (terminal receipt) _ = refl

  -- What a run has persisted at its end, from what it had.
  pub run-arrived :
      (r : Run json) (inputs : List (RunInput json))
      → usages (run json r inputs).log ≡ usages r.log ++ arrived r inputs
  unfolding run apply arrived Brings
  run-arrived r [] = sym (append-nil (usages r.log))
  run-arrived r (input ∷ inputs) =
      let step = apply json r.machine input in
      run-arrived (logged json r.log step) inputs
      ∙ ap (λ us. us ++ arrived (logged json r.log step) inputs)
          (usages-append r.log (effects_of json step.1)
            ∙ ap (◌++◌ (usages r.log)) (dispatch-Brings r.machine.state input))
      ∙ append_assoc (usages r.log) (arriving r.machine.state input)
          (arrived (logged json r.log step) inputs)
