-- ===== src/Runtime/Fragments.antt =====
-- The loop over the fragments of tool calls (crates/core/src/runtime.rs), one round at a time.
use wiki_coding.Prelude.{Option, true, ap, ◌≡◌, List, [], ◌∷◌, ◌++◌, ok, err}
use wiki_coding.Protocol.Json.{Json}
use wiki_coding.Protocol.Event.{ToolCallFragment, Usage}
use wiki_coding.Protocol.Tool.{ToolInvocation, ToolDefinition}
use wiki_coding.Protocol.Runtime.{
  RuntimeErrorCode, RuntimeTerminalOutcome, runtime_failure, tool_unavailable,
}
use wiki_coding.Protocol.Request.{TurnRequest}
use wiki_coding.Runtime.Machine.{receive_fragments, receive_offered, after_effects}
use wiki_coding.Runtime.{
  RunMachine, running, finish, finish_turn, observe_fragments, RunEffect, check_fragment,
  collect_fragments, observed,
}

module _ (json : Json) where
  pub collect_fragments-accepted :
      (tools : List (ToolDefinition json)) (pending : List ToolInvocation)
      (effects : List (RunEffect json)) (fragment : ToolCallFragment)
      (fragments : List ToolCallFragment) (invocation : ToolInvocation)
      → check_fragment json tools pending fragment ≡ ok invocation
      → collect_fragments json tools pending effects (fragment ∷ fragments)
        ≡ collect_fragments json tools
            (pending ++ invocation ∷ [])
            (effects ++ observed json invocation)
            fragments
  unfolding collect_fragments
  collect_fragments-accepted tools pending effects fragment fragments invocation e =
      rw (e, collect_fragments)

  pub collect_fragments-refused :
      (tools : List (ToolDefinition json)) (pending : List ToolInvocation)
      (effects : List (RunEffect json)) (fragment : ToolCallFragment)
      (fragments : List ToolCallFragment) (code : RuntimeErrorCode)
      → check_fragment json tools pending fragment ≡ err code
      → collect_fragments json tools pending effects (fragment ∷ fragments) ≡ (pending, err code)
  unfolding collect_fragments
  collect_fragments-refused tools pending effects fragment fragments code e =
      rw (e, collect_fragments)

  -- No tool was offered: the turn fails.
  pub receive_fragments-unoffered :
      (request : TurnRequest json) (usage : Option Usage) (pending : List ToolInvocation)
      (fragments : List ToolCallFragment)
      → request.tools ≡ []
      → receive_fragments json
          (record { state = running request usage pending })
          request
          usage
          pending
          fragments
        ≡ after_effects json (observe_fragments json fragments) (
            finish_turn json request usage
              (RuntimeTerminalOutcome.failed (runtime_failure tool_unavailable))
              true)
  unfolding receive_fragments finish
  receive_fragments-unoffered request usage pending fragments e =
      ap
        (receive_offered json (record { state = running request usage pending }) request usage
          pending fragments)
        e

  pub receive_fragments-offered :
      (m : RunMachine json) (request : TurnRequest json) (usage : Option Usage)
      (pending : List ToolInvocation) (fragments : List ToolCallFragment)
      (tool : ToolDefinition json) (tools : List (ToolDefinition json))
      → request.tools ≡ tool ∷ tools
      → receive_fragments json m request usage pending fragments ≡ (
          let collected = collect_fragments json (tool ∷ tools) pending [] fragments in
          (record { state = running request usage collected.0 }, collected.1))
  unfolding receive_fragments
  receive_fragments-offered m request usage pending fragments tool tools e =
      ap (receive_offered json m request usage pending fragments) e
