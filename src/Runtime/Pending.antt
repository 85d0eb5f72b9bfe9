-- ===== src/Runtime/Pending.antt =====
-- The tool calls that wait for the end of a response (crates/core/src/runtime.rs).
use wiki_coding.Prelude.{
  ◌≡◌, refl, Bool, true, false, not, ◌&&◌, ◌||◌, some, List, [], ◌∷◌, ◌++◌, ok, >>=-succeeds, ok_or,
  map_err, refuse_if, ◌>>=◌, ◌>>◌, any, is_empty, is_some, arith, ◌==◌, string_eq, String,
}
use wiki_coding.Protocol.Json.{Json}
use wiki_coding.Protocol.Event.{ToolCallFragment}
use wiki_coding.Protocol.Tool.{
  ToolInvocation, ToolDefinition, ToolCall, ToolEffect, tool_call, tool_invocation, arguments_value,
  validate_call,
}
use wiki_coding.Protocol.Runtime.{tool_unavailable, protocol_malformed_json}
use wiki_coding.Runtime.{
  RunState, running, awaiting_tools, find_definition, effect_for_tool, check_fragment,
}
use wiki_coding.Runtime.Run.{fresh}

abbrev pub has_call : String → List ToolInvocation → Bool
has_call id pending = any (λ invocation. invocation.call.call_id == id) pending

-- Each call has an id of its own.
abbrev pub distinct_calls : List ToolInvocation → Bool
distinct_calls [] = true
distinct_calls (invocation ∷ invocations) =
    not (has_call invocation.call.call_id invocations) && distinct_calls invocations

has_call-append :
    (id : String) (xs ys : List ToolInvocation)
    → has_call id (xs ++ ys) ≡ (has_call id xs || has_call id ys)
has_call-append id [] ys = refl
has_call-append id (x ∷ xs) ys = ground (arith, has_call-append id xs ys)

pub distinct_calls-push :
    (xs : List ToolInvocation) (x : ToolInvocation)
    → distinct_calls xs ≡ true
    → has_call x.call.call_id xs ≡ false
    → distinct_calls (xs ++ x ∷ []) ≡ true
distinct_calls-push [] x d h = refl
distinct_calls-push (y ∷ ys) x d h =
    ground (arith, has_call-append y.call.call_id ys (x ∷ []), distinct_calls-push ys x)

module _ (json : Json) where
  -- The call's tool was offered by the request, and the effect is that of the tool.
  abbrev pub is_offered : List (ToolDefinition json) → ToolInvocation → Bool
  is_offered tools invocation = is_some (find_definition json invocation.call.name tools)

  abbrev pub Offered : List (ToolDefinition json) → List ToolInvocation → Type 0
  Offered tools [] = Unit {0}
  Offered tools (invocation ∷ invocations) =
      (is_offered tools invocation ≡ true)
      × (effect_for_tool invocation.call.name ≡ some invocation.effect)
      × Offered tools invocations

  pub Offered-push :
      (tools : List (ToolDefinition json)) (xs : List ToolInvocation) (x : ToolInvocation)
      → Offered tools xs
      → (is_offered tools x ≡ true) × (effect_for_tool x.call.name ≡ some x.effect)
      → Offered tools (xs ++ x ∷ [])
  Offered-push tools [] x o h = (h.0, h.1, tt)
  Offered-push tools (y ∷ ys) x o h = (o.0, o.1, Offered-push tools ys x o.2 h)

  tool_invocation-fields :
      (call : ToolCall) (effect : ToolEffect) (invocation : ToolInvocation)
      → tool_invocation json call effect ≡ ok invocation
      → (invocation.call ≡ call) × (invocation.effect ≡ effect)
  unfolding tool_invocation
  tool_invocation-fields call effect invocation h =
      let (arguments, _, made) = >>=-succeeds _ (arguments_value json call) h in ground arith

  -- The last tests on a fragment's call, in the order of the code.
  admit_sound :
      (tools : List (ToolDefinition json)) (pending : List ToolInvocation) (call : ToolCall)
      (invocation : ToolInvocation)
      → (do
        definition ← ok_or (find_definition json call.name tools) tool_unavailable
        map_err (validate_call json definition call) protocol_malformed_json
        refuse_if (has_call call.call_id pending) protocol_malformed_json
        effect ← ok_or (effect_for_tool call.name) tool_unavailable
        map_err (tool_invocation json call effect) protocol_malformed_json)
        ≡ ok invocation
      → (has_call invocation.call.call_id pending ≡ false)
        × (is_offered tools invocation ≡ true)
        × (effect_for_tool invocation.call.name ≡ some invocation.effect)
  admit_sound tools pending call invocation h =
      let (definition, found, h₁) =
        >>=-succeeds _ (ok_or (find_definition json call.name tools) tool_unavailable) h in
      let (_, _, h₂) =
        >>=-succeeds _ (map_err (validate_call json definition call) protocol_malformed_json) h₁ in
      let (_, fresh, h₃) =
        >>=-succeeds _ (refuse_if (has_call call.call_id pending) protocol_malformed_json) h₂ in
      let (effect, known, h₄) =
        >>=-succeeds _ (ok_or (effect_for_tool call.name) tool_unavailable) h₃ in
      ground (arith, tool_invocation-fields call effect invocation)

  pub check_fragment_sound :
      (tools : List (ToolDefinition json)) (pending : List ToolInvocation)
      (fragment : ToolCallFragment) (invocation : ToolInvocation)
      → check_fragment json tools pending fragment ≡ ok invocation
      → (has_call invocation.call.call_id pending ≡ false)
        × (is_offered tools invocation ≡ true)
        × (effect_for_tool invocation.call.name ≡ some invocation.effect)
  unfolding check_fragment
  check_fragment_sound tools pending fragment invocation h =
      let (_, _, h₁) =
        >>=-succeeds _ (refuse_if (not fragment.arguments_complete) protocol_malformed_json) h in
      let (name, _, h₂) = >>=-succeeds _ (ok_or fragment.name protocol_malformed_json) h₁ in
      let (arguments, _, h₃) =
        >>=-succeeds _ (ok_or fragment.arguments_delta protocol_malformed_json) h₂ in
      let (call, _, h₄) =
        >>=-succeeds _
          (map_err (tool_call json fragment.call_id name arguments) protocol_malformed_json) h₃ in
      admit_sound tools pending call invocation h₄

  -- The calls of a state: each has an id of its own and was offered by the request with the effect
  -- of its tool; the machine waits for tools only if there are any.
  abbrev pub Admitted : List (ToolDefinition json) → List ToolInvocation → Type 0
  Admitted tools pending = (distinct_calls pending ≡ true) × Offered tools pending

  abbrev pub IsAdmitted : RunState json → Type 0
  IsAdmitted (running request usage pending) = Admitted request.tools pending
  IsAdmitted (awaiting_tools request usage invocations) =
      Admitted request.tools invocations × (is_empty invocations ≡ false)
  IsAdmitted _ = Unit {0}
