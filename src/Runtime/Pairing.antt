-- ===== src/Runtime/Pairing.antt =====
-- Events are persisted before they are published (crates/core/src/runtime.rs).
use wiki_coding.Prelude.{
  ◌≡◌, refl, sym, subst, Bool, true, false, Option, List, [], ◌∷◌, ◌++◌, ok, err, inl, inr, Result,
  Result-cases, Bool-cases,
}
use wiki_coding.Protocol.Json.{Json}
use wiki_coding.Protocol.Event.{
  ToolCallFragment, Usage, StreamEvent, TerminalOutcome, reasoning_filtered, visible_text_delta,
  tool_call_fragments,
}
use wiki_coding.Protocol.Event
use wiki_coding.Protocol.Tool.{ToolInvocation, ToolDefinition}
use wiki_coding.Protocol.Runtime.{
  RuntimeErrorCode, RuntimeEventV1, RuntimeEvent, RuntimeTerminalOutcome,
}
use wiki_coding.Protocol.Request.{TurnRequest, validate_request}
use wiki_coding.Runtime.{
  RunMachine, RunState, RunInput, RunEffect, Reply, idle, running, awaiting_tools, terminal, begin,
  provider_event, provider_failed, provider_eof, continue_after_tools, cancel, shutdown, persist,
  publish, abort_provider, observable, observed, check_fragment, collect_fragments,
  observe_fragments, start_run, started, finish, finish_turn,
}
use wiki_coding.Runtime.Machine.{
  apply, dispatch, receive, receive_offered, receive_fragments, receive_terminal, resume, resumed,
  continues,
}
use wiki_coding.Runtime.Fragments.{collect_fragments-accepted, collect_fragments-refused}
use wiki_coding.Runtime.Run.{Run, run, fresh, logged, effects_of}

module _ (json : Json) where
  abbrev pub is_event : RunEffect json → Bool
  is_event (persist e) = true
  is_event (publish e) = true
  is_event _ = false

  -- Each event that is persisted is published right after, and none is published otherwise.
  pub data Paired : List (RunEffect json) → Type 0 where
    nothing : Paired []
    pair :
        (e : RuntimeEventV1) {rest : List (RunEffect json)}
        → Paired rest
        → Paired (persist e ∷ publish e ∷ rest)
    other :
        (x : RunEffect json) {rest : List (RunEffect json)}
        → is_event x ≡ false
        → Paired rest
        → Paired (x ∷ rest)

  Paired-append : {xs ys : List (RunEffect json)} → Paired xs → Paired ys → Paired (xs ++ ys)
  Paired-append nothing q = q
  Paired-append (pair e p) q = pair e (Paired-append p q)
  Paired-append (other x h p) q = other x h (Paired-append p q)

  observable-Paired : (event : RuntimeEvent) → Paired (observable json event)
  unfolding observable
  observable-Paired event = pair _ nothing

  observe_fragments-Paired :
      (fragments : List ToolCallFragment) → Paired (observe_fragments json fragments)
  unfolding observe_fragments
  observe_fragments-Paired [] = nothing
  observe_fragments-Paired (fragment ∷ fragments) = pair _ (observe_fragments-Paired fragments)

  PairedReply : RunMachine json × Reply json → Type 0
  PairedReply p = Paired (effects_of json p.1)

  collect_fragments-Paired :
      (tools : List (ToolDefinition json)) (pending : List ToolInvocation)
      (effects : List (RunEffect json)) (fragments : List ToolCallFragment)
      → Paired effects
      → Paired (effects_of json (collect_fragments json tools pending effects fragments).1)
  unfolding collect_fragments
  collect_fragments-Paired tools pending effects [] p = p
  collect_fragments-Paired tools pending effects (fragment ∷ fragments) p =
      elim (Result-cases (check_fragment json tools pending fragment)) [
        | inl (invocation, e) ↦
            subst (λ r. Paired (effects_of json r.1))
              (sym (
                collect_fragments-accepted json tools pending effects fragment fragments invocation
                  e))
              (collect_fragments-Paired tools (pending ++ invocation ∷ [])
                (effects ++ observed json invocation) fragments
                (Paired-append p (observable-Paired _)))
        | inr (c, e) ↦
            subst (λ r. Paired (effects_of json r.1))
              (sym (collect_fragments-refused json tools pending effects fragment fragments c e))
              nothing
      ]

  finish_turn-Paired :
      (request : TurnRequest json) (usage : Option Usage) (outcome : RuntimeTerminalOutcome)
      (abort : Bool)
      → Paired (effects_of json (finish_turn json request usage outcome abort).1)
  unfolding finish_turn
  finish_turn-Paired request usage outcome true =
      other abort_provider refl (pair _ (other _ refl nothing))
  finish_turn-Paired request usage outcome false = pair _ (other _ refl nothing)

  abbrev while_running : TurnRequest json → Option Usage → List ToolInvocation → RunMachine json
  while_running request usage pending = record { state = running request usage pending }

  receive_offered-Paired :
      (request : TurnRequest json) (usage : Option Usage) (pending : List ToolInvocation)
      (fragments : List ToolCallFragment) (tools : List (ToolDefinition json))
      → PairedReply (
          receive_offered json
            (while_running request usage pending)
            request
            usage
            pending
            fragments
            tools)
  unfolding receive_offered finish PairedReply finish_turn
  receive_offered-Paired request usage pending fragments [] =
      Paired-append (observe_fragments-Paired fragments) (finish_turn-Paired request usage _ true)
  receive_offered-Paired request usage pending fragments (tool ∷ tools) =
      collect_fragments-Paired (tool ∷ tools) pending [] fragments nothing

  receive_terminal-Paired :
      (request : TurnRequest json) (usage : Option Usage) (pending : List ToolInvocation)
      (outcome : TerminalOutcome)
      → PairedReply (
          receive_terminal json (while_running request usage pending) request usage pending outcome)
  unfolding receive_terminal finish PairedReply
  receive_terminal-Paired request usage [] TerminalOutcome.completed =
      finish_turn-Paired request usage _ false
  receive_terminal-Paired request usage (p ∷ ps) TerminalOutcome.completed = other _ refl nothing
  receive_terminal-Paired request usage pending _ = finish_turn-Paired request usage _ false

  receive-Paired :
      (request : TurnRequest json) (usage : Option Usage) (pending : List ToolInvocation)
      (event : StreamEvent)
      → PairedReply (receive json (while_running request usage pending) request usage pending event)
  unfolding receive receive_fragments PairedReply
  receive-Paired request usage pending reasoning_filtered = observable-Paired _
  receive-Paired request usage pending (visible_text_delta d) = observable-Paired _
  receive-Paired request usage pending (Event.usage u) = observable-Paired _
  receive-Paired request usage pending (tool_call_fragments fragments) =
      receive_offered-Paired request usage pending fragments request.tools
  receive-Paired request usage pending (Event.terminal o) =
      receive_terminal-Paired request usage pending o

  started-Paired :
      (m : RunMachine json) (r : Result RuntimeErrorCode (TurnRequest json))
      → PairedReply (started json m r)
  unfolding started PairedReply
  started-Paired m (ok request) = pair _ (other _ refl nothing)
  started-Paired m (err e) = nothing

  resumed-Paired :
      (m : RunMachine json) (previous : TurnRequest json) (usage : Option Usage)
      (invocations : List ToolInvocation) (r : Result RuntimeErrorCode (TurnRequest json))
      → PairedReply (resumed json m previous usage invocations r)
  unfolding resumed PairedReply
  resumed-Paired m previous usage invocations (err e) = nothing
  resumed-Paired m previous usage invocations (ok request) =
      elim (Bool-cases (continues json previous request invocations)) [
        | inl same ↦ rw (same, effects_of) (other _ refl nothing)
        | inr differs ↦ rw (differs, effects_of) nothing
      ]

  dispatch-Paired :
      (state : RunState json) (input : RunInput json)
      → PairedReply (dispatch json state input (record { state = state }))
  unfolding dispatch start_run resume finish PairedReply
  dispatch-Paired idle (begin request) = started-Paired _ (validate_request json request)
  dispatch-Paired idle _ = nothing
  dispatch-Paired (running request usage pending) (provider_event event) =
      receive-Paired request usage pending event
  dispatch-Paired (running request usage pending) (provider_failed failure) =
      finish_turn-Paired request usage _ true
  dispatch-Paired (running request usage pending) provider_eof =
      finish_turn-Paired request usage _ true
  dispatch-Paired (running request usage pending) cancel = finish_turn-Paired request usage _ true
  dispatch-Paired (running request usage pending) shutdown = finish_turn-Paired request usage _ true
  dispatch-Paired (running request usage pending) _ = nothing
  dispatch-Paired (awaiting_tools request usage invocations) (continue_after_tools proposed) =
      resumed-Paired _ request usage invocations (validate_request json proposed)
  dispatch-Paired (awaiting_tools request usage invocations) cancel =
      finish_turn-Paired request usage _ false
  dispatch-Paired (awaiting_tools request usage invocations) shutdown =
      finish_turn-Paired request usage _ false
  dispatch-Paired (awaiting_tools request usage invocations) _ = nothing
  dispatch-Paired (terminal receipt) shutdown = nothing
  dispatch-Paired (terminal receipt) _ = nothing

  run-Paired :
      (r : Run json) (inputs : List (RunInput json)) → Paired r.log → Paired (run json r inputs).log
  unfolding run apply PairedReply
  run-Paired r [] p = p
  run-Paired r (input ∷ inputs) p =
      run-Paired (logged json r.log (apply json r.machine input)) inputs
        (Paired-append p (dispatch-Paired r.machine.state input))

  -- In the log of a run, whatever its inputs, each runtime event that is persisted is published
  -- right after, and no event is published that was not persisted right before.
  pub events-Paired : (inputs : List (RunInput json)) → Paired (run json (fresh json) inputs).log
  events-Paired inputs = run-Paired (fresh json) inputs nothing
