-- ===== src/Tool/Invocation/Tests.antt =====
-- Lives of tool calls (crates/core/src/tool.rs), and the theorems at concrete inputs.
use wiki_coding.Prelude.{
  ◌≡◌, ◌≢◌, ◌⊎◌, ◌≤◌, refl, true, List, [], ◌∷◌, String_discrete, ℕ_discrete, is_code_text,
  count_if,
}
use wiki_coding.Protocol.Tool.{
  succeeded, ToolDecisionKind-discrete, ToolTerminalStatus-discrete, validate_decision,
  validate_result,
}
use wiki_coding.Tool.Invocation.{
  InvocationInput, preflight_allowed, confirm, full_access, decision, start, complete, cancel,
  recover, terminal, apply, request, terminal_is_legal_after_start,
}
use wiki_coding.Tool.Invocation.Log.{live, born, executions, publications, approvals}
use wiki_coding.Tool.Invocation.Safety.{executes_once, publishes_once, terminal_result_sound}
use wiki_coding.Tool.Invocation.Progress.{
  cancel_and_recover_end, ended_call_stays, ended_with, rejections, cut_short,
}
use wiki_coding.Tool.Invocation.Sandbox.{sandbox_kept, unsandboxed}
use wiki_coding.Samples.{invocation, success, approval}

-- Approval, a start, two results and a late cancellation.
abbrev whole : List InvocationInput
whole =
    preflight_allowed confirm
    ∷ decision approval confirm
    ∷ start
    ∷ complete success
    ∷ complete success
    ∷ cancel
    ∷ []

whole_ends : (live (born invocation) whole).machine.state ≡ terminal success
unfolding live born request apply validate_decision validate_result is_code_text String_discrete
    ℕ_discrete ToolDecisionKind-discrete ToolTerminalStatus-discrete terminal_is_legal_after_start
whole_ends = refl

executes_once_example :
    (executions (live (born invocation) whole).log ≤ 1)
    × (executions (live (born invocation) whole).log ≤ approvals (live (born invocation) whole).log)
executes_once_example = executes_once invocation whole

publishes_once_example : publications (live (born invocation) whole).log ≡ 1
unfolding live born request apply validate_decision validate_result is_code_text String_discrete
    ℕ_discrete ToolDecisionKind-discrete ToolTerminalStatus-discrete terminal_is_legal_after_start
publishes_once_example = publishes_once invocation whole

terminal_result_sound_example :
    let log = (live (born invocation) whole).log in
    ◌≡◌ "call-1" invocation.call.call_id
    × ◌≡◌ "git_status" invocation.call.name
    × ((success.status ≢ succeeded) ⊎ (executions log ≡ 1))
    × ((executions log ≡ 0)
        ⊎ (terminal_is_legal_after_start success.tool_name success.status success.code ≡ true))
terminal_result_sound_example = terminal_result_sound invocation whole success whole_ends

cancel_and_recover_end_example :
    let life = live (born invocation) (preflight_allowed confirm ∷ []) in
    (live life (cancel ∷ whole)
      ≡ ended_with life (rejections life.machine) (cut_short life.machine "cancelled_before_start"))
    × (live life (recover ∷ whole)
        ≡ ended_with life [] (cut_short life.machine "recovered_before_start"))
cancel_and_recover_end_example =
    cancel_and_recover_end (live (born invocation) (preflight_allowed confirm ∷ [])) whole
      (unfold live born request apply in refl)

ended_call_stays_example : live (live (born invocation) whole) whole ≡ live (born invocation) whole
ended_call_stays_example = ended_call_stays (live (born invocation) whole) whole success whole_ends

sandbox_kept_example : unsandboxed (live (born invocation) whole).log ≡ 0
sandbox_kept_example = sandbox_kept invocation whole refl

-- With full access the sandbox is off.
full_access_unsandboxed :
    unsandboxed (live (born invocation) (preflight_allowed full_access ∷ start ∷ [])).log ≡ 1
unfolding live born request apply count_if validate_decision is_code_text String_discrete ℕ_discrete
    ToolDecisionKind-discrete
full_access_unsandboxed = refl
