-- ===== src/Runtime/Errors.antt =====
-- What an input that fails leaves behind, and what an ended turn answers
-- (crates/core/src/runtime.rs).
use mathlib.Core.List.{append-nil, append_assoc}
use wiki_coding.Prelude.{
  ◌<◌, ◌≡◌, refl, sym, ap, subst, ◌∙◌, Bool, true, false, Option, List, [], ◌∷◌, ◌++◌, err, arith,
  inl, inr, Result-cases, List-cases, length,
}
use wiki_coding.Protocol.Json.{Json}
use wiki_coding.Protocol.Event.{ToolCallFragment, Usage, StreamEvent, tool_call_fragments}
use wiki_coding.Protocol.Event
use wiki_coding.Protocol.Tool.{ToolInvocation, ToolDefinition}
use wiki_coding.Protocol.Runtime.{RuntimeErrorCode, TurnReceipt}
use wiki_coding.Protocol.Request.{TurnRequest}
use wiki_coding.Runtime.{
  RunMachine, RunState, RunInput, RunEffect, idle, running, awaiting_tools, terminal, begin,
  provider_event, shutdown, check_fragment, collect_fragments, start_run, finish, finish_turn,
  observed,
}
use wiki_coding.Runtime.Machine.{apply, dispatch, receive, receive_fragments, resume}
use wiki_coding.Runtime.Fragments.{
  collect_fragments-accepted, collect_fragments-refused, receive_fragments-offered,
  receive_fragments-unoffered,
}
use wiki_coding.Runtime.Run.{Run, run, logged}

module _ (json : Json) where
  abbrev pub is_fragments : RunInput json → Bool
  is_fragments (provider_event (tool_call_fragments fragments)) = true
  is_fragments _ = false

  dispatch_error :
      (state : RunState json) (input : RunInput json) (m : RunMachine json)
      (code : RuntimeErrorCode)
      → m.state ≡ state
      → is_fragments input ≡ false
      → (dispatch json state input m).1 ≡ err code
      → (dispatch json state input m).0 ≡ m
  unfolding dispatch start_run finish receive resume
  dispatch_error idle (begin request) m code e f h = ground arith
  dispatch_error idle _ m code e f h = ground arith
  dispatch_error (running request usage pending) (provider_event (tool_call_fragments fs)) m code e
        f h =
      cc
  dispatch_error (running request usage pending) (provider_event (Event.terminal o)) m code e f h =
      ground arith
  dispatch_error (running request usage pending) _ m code e f h = ground arith
  dispatch_error (awaiting_tools request usage pending) _ m code e f h = ground arith
  dispatch_error (terminal receipt) _ m code e f h = ground arith

  -- An input that fails leaves the machine as it was, unless it is an event with fragments of tool
  -- calls.
  pub apply_error_unchanged :
      (m : RunMachine json) (input : RunInput json) (code : RuntimeErrorCode)
      → is_fragments input ≡ false
      → (apply json m input).1 ≡ err code
      → (apply json m input).0 ≡ m
  unfolding apply
  apply_error_unchanged m input code f h = dispatch_error m.state input m code refl f h

  -- What a refused list of fragments leaves pending: what was pending, and the fragments accepted
  -- before the one that is refused.
  pub record Kept (pending after : List ToolInvocation) (fragments : List ToolCallFragment)
      : Type 0 where
    pub added : List ToolInvocation
    pub kept : after ≡ pending ++ added
    pub fewer : length added < length fragments

  collect-Kept :
      (tools : List (ToolDefinition json)) (pending : List ToolInvocation)
      (effects : List (RunEffect json)) (fragments : List ToolCallFragment)
      (code : RuntimeErrorCode)
      → (collect_fragments json tools pending effects fragments).1 ≡ err code
      → Kept pending (collect_fragments json tools pending effects fragments).0 fragments
  unfolding collect_fragments
  collect-Kept tools pending effects [] code h = cc
  collect-Kept tools pending effects (fragment ∷ fragments) code h =
      elim (Result-cases (check_fragment json tools pending fragment)) [
        | inl (invocation, e) ↦
            let step =
              collect_fragments-accepted json tools pending effects fragment fragments invocation
                e in
            let rest =
              collect-Kept tools (pending ++ invocation ∷ []) (effects ++ observed json invocation)
                fragments code (subst (λ p. p.1 ≡ err code) step h) in
            record {
              added = invocation ∷ rest.added;
              kept =
                  ap (λ p. p.0) step
                  ∙ rest.kept
                  ∙ append_assoc pending (invocation ∷ []) rest.added;
              fewer = omega (arith, rest.fewer);
            }
        | inr (c, e) ↦ record {
          added = [];
          kept =
              ap (λ p. p.0)
                (collect_fragments-refused json tools pending effects fragment fragments c e)
              ∙ sym (append-nil pending);
          fewer = omega arith;
        }
      ]

  abbrev pub while_running : TurnRequest json → Option Usage → List ToolInvocation → RunMachine json
  while_running request usage pending = record { state = running request usage pending }

  abbrev pub KeptRunning :
      TurnRequest json
      → Option Usage
      → List ToolInvocation
      → List ToolCallFragment
      → RunMachine json
      → Type 0
  KeptRunning request usage pending fragments m =
      (after : List ToolInvocation) × (m.state ≡ running request usage after)
      × Kept pending after fragments

  offered_kept :
      (m : RunMachine json) (request : TurnRequest json) (usage : Option Usage)
      (pending : List ToolInvocation) (fragments : List ToolCallFragment) (code : RuntimeErrorCode)
      (tool : ToolDefinition json) (tools : List (ToolDefinition json))
      → request.tools ≡ tool ∷ tools
      → (receive_fragments json m request usage pending fragments).1 ≡ err code
      → KeptRunning request usage pending fragments
          (receive_fragments json m request usage pending fragments).0
  offered_kept m request usage pending fragments code tool tools e h =
      let step = receive_fragments-offered json m request usage pending fragments tool tools e in
      let collected = collect_fragments json (tool ∷ tools) pending [] fragments in
      (
        collected.0,
        ap (λ p. p.0.state) step,
        collect-Kept (tool ∷ tools) pending [] fragments code (subst (λ p. p.1 ≡ err code) step h),
      )

  -- Fragments of tool calls that fail in the running state leave it running with the same request
  -- and usage, and keep pending what was pending and the fragments accepted before the failing one.
  pub fragments_error_keeps :
      (request : TurnRequest json) (usage : Option Usage) (pending : List ToolInvocation)
      (fragments : List ToolCallFragment) (code : RuntimeErrorCode)
      → (apply json
          (while_running request usage pending)
          (provider_event (tool_call_fragments fragments))).1
        ≡ err code
      → KeptRunning request usage pending fragments
          (apply json
            (while_running request usage pending)
            (provider_event (tool_call_fragments fragments))).0
  unfolding apply dispatch receive finish_turn
  fragments_error_keeps request usage pending fragments code h = elim (List-cases request.tools) [
    | inl none_offered ↦ cc (
      h,
      ap (λ p. p.1) (receive_fragments-unoffered json request usage pending fragments none_offered),
    )
    | inr (tool, tools, some_offered) ↦
        offered_kept (while_running request usage pending) request usage pending fragments code tool
          tools some_offered h
  ]

  ended_dispatch :
      (m : RunMachine json) (log : List (RunEffect json)) (receipt : TurnReceipt)
      (input : RunInput json)
      → logged json log (dispatch json (terminal receipt) input m)
        ≡ record { machine = m; log = log }
  unfolding dispatch
  ended_dispatch m log receipt shutdown = rw (append-nil log)
  ended_dispatch m log receipt _ = rw (append-nil log)

  -- An ended turn stays ended: no input changes the machine or adds an effect.
  pub ended_turn_stays :
      (r : Run json) (receipt : TurnReceipt) (inputs : List (RunInput json))
      → r.machine.state ≡ terminal receipt
      → run json r inputs ≡ r
  unfolding run apply
  ended_turn_stays r receipt [] e = refl
  ended_turn_stays r receipt (input ∷ inputs) e =
      ap (λ next. run json next inputs)
        (ap (λ st. logged json r.log (dispatch json st input r.machine)) e
          ∙ ended_dispatch r.machine r.log receipt input)
      ∙ ended_turn_stays r receipt inputs e
