-- ===== src/Runtime/Receipts.antt =====
-- One start, one end and one receipt for each run of the turn's machine
-- (crates/core/src/runtime.rs).
use wiki_coding.Prelude.{
  ℕ, ◌+◌, ◌≡◌, refl, sym, subst, Bool, true, false, Option, List, [], ◌∷◌, ◌++◌, arith, count_if,
  count_if-append, not, inl, inr, Result-cases, List-cases,
}
use wiki_coding.Protocol.Json.{Json}
use wiki_coding.Protocol.Event.{
  ToolCallFragment, TerminalOutcome, Usage, StreamEvent, tool_call_fragments,
}
use wiki_coding.Protocol.Event
use wiki_coding.Protocol.Tool.{ToolInvocation, ToolDefinition}
use wiki_coding.Protocol.Request.{TurnRequest}
use wiki_coding.Runtime.{
  RunMachine, RunState, RunInput, RunEffect, Reply, idle, running, awaiting_tools, terminal, begin,
  provider_event, observable, observed, check_fragment, collect_fragments, observe_fragments,
  start_run, finish, new,
}
use wiki_coding.Runtime.Machine.{apply, dispatch, receive, receive_fragments, resume}
use wiki_coding.Runtime.Fragments.{collect_fragments-accepted, collect_fragments-refused}
use wiki_coding.Runtime.Run.{
  Run, run, fresh, logged, effects_of, is_finalize, is_closing, is_opening, finalizations, closings,
  openings, is_idle, is_ended,
}

module _ (json : Json) where
  abbrev one_if : Bool → ℕ
  one_if true = 1
  one_if false = 0

  -- What was logged up to a state: one start unless it is idle, one end and one receipt if the turn
  -- has ended.
  pub record Accounted (state : RunState json) (log : List (RunEffect json)) : Type 0 where
    pub started : openings json log ≡ one_if (not (is_idle json state))
    pub ended : closings json log ≡ one_if (is_ended json state)
    pub receipted : finalizations json log ≡ one_if (is_ended json state)

  -- What a step logs, seen from the state before.
  abbrev Logs : RunState json → RunMachine json × Reply json → Type 0
  Logs before (m, reply) =
      (openings json (effects_of json reply) + one_if (not (is_idle json before))
        ≡ one_if (not (is_idle json m.state)))
      × (closings json (effects_of json reply) + one_if (is_ended json before)
          ≡ one_if (is_ended json m.state))
      × (finalizations json (effects_of json reply) + one_if (is_ended json before)
          ≡ one_if (is_ended json m.state))

  -- Effects that are neither a start, an end nor a receipt.
  abbrev Quiet : List (RunEffect json) → Type 0
  Quiet effects =
      (openings json effects ≡ 0) × (closings json effects ≡ 0) × (finalizations json effects ≡ 0)

  observe_fragments-Quiet :
      (fragments : List ToolCallFragment) → Quiet (observe_fragments json fragments)
  unfolding observe_fragments count_if
  observe_fragments-Quiet [] = (refl, refl, refl)
  observe_fragments-Quiet (fragment ∷ fragments) = observe_fragments-Quiet fragments

  nil-Quiet : Quiet []
  unfolding count_if
  nil-Quiet = (refl, refl, refl)

  Quiet-append : (es fs : List (RunEffect json)) → Quiet es → Quiet fs → Quiet (es ++ fs)
  Quiet-append es fs p q = omega (
    arith,
    count_if-append (is_opening json) es fs,
    count_if-append (is_closing json) es fs,
    count_if-append (is_finalize json) es fs,
  )

  observed-Quiet : (invocation : ToolInvocation) → Quiet (observed json invocation)
  unfolding observable count_if
  observed-Quiet invocation = (refl, refl, refl)

  collect_fragments-Quiet :
      (tools : List (ToolDefinition json)) (pending : List ToolInvocation)
      (effects : List (RunEffect json)) (fragments : List ToolCallFragment)
      → Quiet effects
      → Quiet (effects_of json (collect_fragments json tools pending effects fragments).1)
  unfolding collect_fragments
  collect_fragments-Quiet tools pending effects [] q = q
  collect_fragments-Quiet tools pending effects (fragment ∷ fragments) q =
      elim (Result-cases (check_fragment json tools pending fragment)) [
        | inl (invocation, e) ↦
            subst (λ p. Quiet (effects_of json p.1))
              (sym (
                collect_fragments-accepted json tools pending effects fragment fragments invocation
                  e))
              (collect_fragments-Quiet tools (pending ++ invocation ∷ [])
                (effects ++ observed json invocation) fragments
                (Quiet-append effects (observed json invocation) q (observed-Quiet invocation)))
        | inr (c, e) ↦
            subst (λ p. Quiet (effects_of json p.1))
              (sym (collect_fragments-refused json tools pending effects fragment fragments c e))
              nil-Quiet
      ]

  receive_fragments-Logs :
      (m : RunMachine json) (request : TurnRequest json) (usage : Option Usage)
      (pending : List ToolInvocation) (fragments : List ToolCallFragment)
      → m.state ≡ running request usage pending
      → Logs
          (running request usage pending)
          (receive_fragments json m request usage pending fragments)
  unfolding receive_fragments finish observable
  receive_fragments-Logs m request usage pending fragments e = elim (List-cases request.tools) [
    | inl none_offered ↦
        rw (none_offered, e)
          (unfold count_if in
            omega (
              arith,
              count_if-append (is_opening json),
              count_if-append (is_closing json),
              count_if-append (is_finalize json),
              observe_fragments-Quiet fragments,
            ))
    | inr (tool, tools, some_offered) ↦
        rw some_offered
          (omega (arith, collect_fragments-Quiet (tool ∷ tools) pending [] fragments nil-Quiet))
  ]

  dispatch-Logs :
      (state : RunState json) (input : RunInput json) (m : RunMachine json)
      → m.state ≡ state
      → Logs state (dispatch json state input m)
  unfolding dispatch start_run finish receive resume observable count_if
  dispatch-Logs idle (begin request) m e = ground arith
  dispatch-Logs idle _ m e = ground arith
  dispatch-Logs (running request usage pending) (provider_event (tool_call_fragments fragments)) m
        e =
      receive_fragments-Logs m request usage pending fragments e
  dispatch-Logs (running request usage pending) (provider_event (Event.terminal o)) m e =
      ground arith
  dispatch-Logs (running request usage pending) _ m e = ground arith
  dispatch-Logs (awaiting_tools request usage pending) _ m e = ground arith
  dispatch-Logs (terminal receipt) _ m e = ground arith

  start : Accounted idle []
  unfolding count_if
  start = record { started = refl; ended = refl; receipted = refl }

  Logs-Accounted :
      (m : RunMachine json) (log : List (RunEffect json)) (step : RunMachine json × Reply json)
      → Logs m.state step
      → Accounted m.state log
      → Accounted step.0.state (logged json log step).log
  Logs-Accounted m log (m', reply) logs a = omega (
    arith,
    count_if-append (is_opening json) log (effects_of json reply),
    count_if-append (is_closing json) log (effects_of json reply),
    count_if-append (is_finalize json) log (effects_of json reply),
  )

  run-Accounted :
      (r : Run json) (inputs : List (RunInput json))
      → Accounted r.machine.state r.log
      → let last = run json r inputs in Accounted last.machine.state last.log
  unfolding run apply
  run-Accounted r [] a = a
  run-Accounted r (input ∷ inputs) a =
      run-Accounted (logged json r.log (apply json r.machine input)) inputs (
        Logs-Accounted r.machine r.log (apply json r.machine input)
          (dispatch-Logs r.machine.state input r.machine refl) a)

  -- Whatever inputs come in, and in whatever order: the log of a run has one start of the turn as
  -- soon as the machine is not idle, and one terminal event and one receipt as soon as the turn has
  -- ended; before that it has none of them.
  pub run_accounts :
      (inputs : List (RunInput json))
      → let last = run json (fresh json) inputs in Accounted last.machine.state last.log
  unfolding new
  run_accounts inputs = run-Accounted (fresh json) inputs start
