-- ===== src/Runtime/Admission.antt =====
-- The pending calls of every state that a run reaches (crates/core/src/runtime.rs).
use wiki_coding.Prelude.{
  ◌≡◌, refl, sym, subst, Option, List, [], ◌∷◌, ◌++◌, ok, err, inl, inr, Result, Result-cases,
  Bool-cases, string_eq,
}
use wiki_coding.Protocol.Json.{Json}
use wiki_coding.Protocol.Event.{
  ToolCallFragment, Usage, StreamEvent, TerminalOutcome, reasoning_filtered, visible_text_delta,
  tool_call_fragments,
}
use wiki_coding.Protocol.Event
use wiki_coding.Protocol.Tool.{ToolInvocation, ToolDefinition}
use wiki_coding.Protocol.Runtime.{RuntimeErrorCode}
use wiki_coding.Protocol.Request.{TurnRequest, validate_request}
use wiki_coding.Runtime.{
  RunMachine, RunState, RunInput, RunEffect, Reply, idle, running, awaiting_tools, terminal, begin,
  provider_event, continue_after_tools, cancel, shutdown, observed, new, check_fragment,
  collect_fragments, start_run, started, finish, finish_turn,
}
use wiki_coding.Runtime.Machine.{
  apply, dispatch, receive, receive_offered, receive_fragments, receive_terminal, resume, resumed,
  continues,
}
use wiki_coding.Runtime.Pending.{
  IsAdmitted, Admitted, distinct_calls-push, Offered-push, check_fragment_sound,
}
use wiki_coding.Runtime.Fragments.{collect_fragments-accepted, collect_fragments-refused}
use wiki_coding.Runtime.Run.{Run, run, fresh, logged}

module _ (json : Json) where
  collect_fragments-Admitted :
      (tools : List (ToolDefinition json)) (pending : List ToolInvocation)
      (effects : List (RunEffect json)) (fragments : List ToolCallFragment)
      → Admitted json tools pending
      → Admitted json tools (collect_fragments json tools pending effects fragments).0
  unfolding collect_fragments
  collect_fragments-Admitted tools pending effects [] a = a
  collect_fragments-Admitted tools pending effects (fragment ∷ fragments) a =
      elim (Result-cases (check_fragment json tools pending fragment)) [
        | inl (invocation, e) ↦
            let sound = check_fragment_sound json tools pending fragment invocation e in
            subst (λ r. Admitted json tools r.0)
              (sym (
                collect_fragments-accepted json tools pending effects fragment fragments invocation
                  e))
              (collect_fragments-Admitted tools (pending ++ invocation ∷ [])
                (effects ++ observed json invocation) fragments
                (
                  distinct_calls-push pending invocation a.0 sound.0,
                  Offered-push json tools pending invocation a.1 (sound.1, sound.2),
                ))
        | inr (c, e) ↦
            subst (λ r. Admitted json tools r.0)
              (sym (collect_fragments-refused json tools pending effects fragment fragments c e)) a
      ]

  After : RunMachine json × Reply json → Type 0
  After p = IsAdmitted json p.0.state

  abbrev at_state : RunState json → RunMachine json
  at_state state = record { state = state }

  receive_offered-Admitted :
      (request : TurnRequest json) (usage : Option Usage) (pending : List ToolInvocation)
      (fragments : List ToolCallFragment) (tools : List (ToolDefinition json))
      → tools ≡ request.tools
      → Admitted json request.tools pending
      → After (
          receive_offered json
            (at_state (running request usage pending))
            request
            usage
            pending
            fragments
            tools)
  unfolding receive_offered After finish finish_turn
  receive_offered-Admitted request usage pending fragments [] e a = tt
  receive_offered-Admitted request usage pending fragments (tool ∷ tools) e a =
      subst (λ ts. Admitted json ts (collect_fragments json (tool ∷ tools) pending [] fragments).0)
        e
        (collect_fragments-Admitted (tool ∷ tools) pending [] fragments
          (subst (λ ts. Admitted json ts pending) (sym e) a))

  receive_terminal-Admitted :
      (request : TurnRequest json) (usage : Option Usage) (pending : List ToolInvocation)
      (outcome : TerminalOutcome)
      → Admitted json request.tools pending
      → After (
          receive_terminal json
            (at_state (running request usage pending))
            request
            usage
            pending
            outcome)
  unfolding receive_terminal After finish finish_turn
  receive_terminal-Admitted request usage [] TerminalOutcome.completed a = tt
  receive_terminal-Admitted request usage (p ∷ ps) TerminalOutcome.completed a = (a, refl)
  receive_terminal-Admitted request usage pending _ a = tt

  receive-Admitted :
      (request : TurnRequest json) (usage : Option Usage) (pending : List ToolInvocation)
      (event : StreamEvent)
      → Admitted json request.tools pending
      → After (receive json (at_state (running request usage pending)) request usage pending event)
  unfolding receive receive_fragments After
  receive-Admitted request usage pending (tool_call_fragments fragments) a =
      receive_offered-Admitted request usage pending fragments request.tools refl a
  receive-Admitted request usage pending (Event.terminal o) a =
      receive_terminal-Admitted request usage pending o a
  receive-Admitted request usage pending _ a = a

  started-Admitted :
      (r : Result RuntimeErrorCode (TurnRequest json)) → After (started json (at_state idle) r)
  unfolding started After
  started-Admitted (ok request) = (refl, tt)
  started-Admitted (err e) = tt

  resumed-Admitted :
      (previous : TurnRequest json) (usage : Option Usage) (invocations : List ToolInvocation)
      (r : Result RuntimeErrorCode (TurnRequest json))
      → IsAdmitted json (awaiting_tools previous usage invocations)
      → After (
          resumed json
            (at_state (awaiting_tools previous usage invocations))
            previous
            usage
            invocations
            r)
  unfolding resumed After
  resumed-Admitted previous usage invocations (err e) a = a
  resumed-Admitted previous usage invocations (ok request) a =
      elim (Bool-cases (continues json previous request invocations)) [
        | inl same ↦ rw same (refl, tt)
        | inr differs ↦ rw differs a
      ]

  dispatch-Admitted :
      (state : RunState json) (input : RunInput json)
      → IsAdmitted json state
      → After (dispatch json state input (at_state state))
  unfolding dispatch start_run resume finish finish_turn After
  dispatch-Admitted idle (begin request) a = started-Admitted (validate_request json request)
  dispatch-Admitted idle _ a = tt
  dispatch-Admitted (running request usage pending) (provider_event event) a =
      receive-Admitted request usage pending event a
  dispatch-Admitted (running request usage pending) (begin proposed) a = a
  dispatch-Admitted (running request usage pending) (continue_after_tools proposed) a = a
  dispatch-Admitted (running request usage pending) _ a = tt
  dispatch-Admitted (awaiting_tools request usage invocations) (continue_after_tools proposed) a =
      resumed-Admitted request usage invocations (validate_request json proposed) a
  dispatch-Admitted (awaiting_tools request usage invocations) cancel a = tt
  dispatch-Admitted (awaiting_tools request usage invocations) shutdown a = tt
  dispatch-Admitted (awaiting_tools request usage invocations) _ a = a
  dispatch-Admitted (terminal receipt) shutdown a = tt
  dispatch-Admitted (terminal receipt) _ a = tt

  run-IsAdmitted :
      (r : Run json) (inputs : List (RunInput json))
      → IsAdmitted json r.machine.state
      → IsAdmitted json (run json r inputs).machine.state
  unfolding run apply After
  run-IsAdmitted r [] a = a
  run-IsAdmitted r (input ∷ inputs) a =
      run-IsAdmitted (logged json r.log (apply json r.machine input)) inputs
        (dispatch-Admitted r.machine.state input a)

  -- In every state that a run reaches, the pending tool calls have ids of their own, and each names
  -- a tool that the request offered and has the effect of that tool; and the machine waits for
  -- tools only if there is a call.
  pub pending-IsAdmitted :
      (inputs : List (RunInput json)) → IsAdmitted json (run json (fresh json) inputs).machine.state
  unfolding new
  pending-IsAdmitted inputs = run-IsAdmitted (fresh json) inputs tt
