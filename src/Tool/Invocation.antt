-- ===== src/Tool/Invocation.antt =====
-- The state machine of one tool call: `InvocationMachine` of crates/core/src/tool.rs. No method
-- writes the state before it returns an error, so a step returns the new machine with its effects,
-- or an error alone.
pub mod Log
pub mod Safety
pub mod Progress
pub mod Sandbox
pub mod Tests
use wiki_coding.Prelude.{
  String, Bool, true, false, Option, none, List, [], ◌∷◌, ◌++◌, ◌&&◌, ◌||◌, not, Result, ok, err,
  refuse_if, map_err, ◌>>=◌, ◌>>◌, ◌==◌, string_eq, if◌then◌else◌,
}
use wiki_coding.Protocol.Event.{v1, ToolCallId}
use wiki_coding.Protocol.Tool.{
  ToolInvocation, ToolDecision, ToolDecisionKind, ToolResult, ToolTerminalStatus, succeeded, failed,
  cancelled, indeterminate, validate_decision, decision_kind_eq, terminal_status_eq,
}
use wiki_coding.Protocol.Tool

pub data PermissionMode : Type 0 where
  confirm full_access : PermissionMode

pub data ToolSandboxPolicy : Type 0 where
  restricted disabled : ToolSandboxPolicy

unfoldable pub sandbox_policy : PermissionMode → ToolSandboxPolicy
sandbox_policy confirm = restricted
sandbox_policy full_access = disabled

pub record ToolExecutionContext : Type 0 where
  pub permission_mode : PermissionMode
  pub sandbox_policy : ToolSandboxPolicy

unfoldable pub for_permission_mode : PermissionMode → ToolExecutionContext
unfolding sandbox_policy
for_permission_mode mode = record { permission_mode = mode; sandbox_policy = sandbox_policy mode }

pub record DecisionSnapshot : Type 0 where
  pub decision : ToolDecision
  pub permission_mode : PermissionMode

pub data InvocationState : Type 0 where
  requested awaiting_decision : InvocationState
  approved started : DecisionSnapshot → InvocationState
  terminal : ToolResult → InvocationState

pub data InvocationInput : Type 0 where
  preflight_allowed : PermissionMode → InvocationInput
  preflight_denied pre_start_failed : ToolResult → InvocationInput
  decision : ToolDecision → PermissionMode → InvocationInput
  start : InvocationInput
  complete : ToolResult → InvocationInput
  cancel recover : InvocationInput

pub data InvocationEffect : Type 0 where
  persist_requested request_approval : ToolInvocation → InvocationEffect
  persist_decision : ToolDecision → InvocationEffect
  persist_started : ToolCallId → InvocationEffect
  execute : ToolInvocation → ToolExecutionContext → InvocationEffect
  persist_terminal publish_terminal : ToolResult → InvocationEffect

pub data InvocationError : Type 0 where
  invalid_transition wrong_call_id wrong_tool_name duplicate_call_id duplicate_decision
        duplicate_started duplicate_terminal invalid_terminal :
      InvocationError

pub record InvocationMachine : Type 0 where
  pub invocation : ToolInvocation
  pub state : InvocationState

abbrev pub Step : Type 0
Step = Result InvocationError (InvocationMachine × List InvocationEffect)

unfoldable pub request : ToolInvocation → InvocationMachine × List InvocationEffect
request invocation =
    (record { invocation = invocation; state = requested }, persist_requested invocation ∷ [])

unfoldable pub terminal_result : ToolInvocation → ToolTerminalStatus → String → ToolResult
terminal_result invocation status code = record {
  schema_version = v1;
  call_id = invocation.call.call_id;
  tool_name = invocation.call.name;
  status = status;
  code = code;
  output = none;
}

unfoldable pub validate_result : ToolInvocation → ToolResult → Result InvocationError (Unit {0})
validate_result invocation result = do
  map_err (Tool.validate_result result) invalid_terminal
  refuse_if (not (result.call_id == invocation.call.call_id)) wrong_call_id
  refuse_if (not (result.tool_name == invocation.call.name)) wrong_tool_name

unfoldable pub late_shell_rejection_is_legal : String → String → Bool
late_shell_rejection_is_legal tool_name code =
    (tool_name == "shell_command"
      && (code == "invalid_arguments"
          || code == "input_limit"
          || code == "path_not_found"
          || code == "wrong_file_type"
          || code == "shell_requires_full_access"
          || code == "shell_session_limit"))
    || (tool_name == "shell_session"
        && (code == "invalid_arguments"
            || code == "input_limit"
            || code == "shell_requires_full_access"
            || code == "shell_session_not_found"))

unfoldable pub terminal_is_legal_after_start : String → ToolTerminalStatus → String → Bool
terminal_is_legal_after_start tool_name succeeded code = true
terminal_is_legal_after_start tool_name failed code = true
terminal_is_legal_after_start tool_name indeterminate code = true
terminal_is_legal_after_start tool_name ToolTerminalStatus.rejected code =
    late_shell_rejection_is_legal tool_name code
terminal_is_legal_after_start tool_name cancelled code =
    (tool_name == "shell_command" || tool_name == "shell_session") && code == "cancelled"

-- The machine in its last state, with the two effects that tell of it.
abbrev terminated : InvocationMachine → ToolResult → InvocationMachine × List InvocationEffect
terminated m result =
    (record m { state = terminal result }, persist_terminal result ∷ publish_terminal result ∷ [])

unfoldable pub record_decision : InvocationMachine → ToolDecision → PermissionMode → Step
unfolding terminal_result
record_decision m proposed permission_mode = do
  refuse_if (not (proposed.call_id == m.invocation.call.call_id)) wrong_call_id
  d ← map_err (validate_decision proposed) invalid_transition
  let result = terminal_result m.invocation ToolTerminalStatus.rejected d.code
  ok (
      if d.decision == ToolDecisionKind.approved
      then (
        record m { state = approved (record { decision = d; permission_mode = permission_mode }) },
        persist_decision d ∷ [],
      )
      else (
        record m { state = terminal result },
        persist_decision d ∷ persist_terminal result ∷ publish_terminal result ∷ [],
      ))

unfoldable pub approve_full_access : InvocationMachine → Step
unfolding record_decision
approve_full_access m =
    record_decision m
      (record {
        schema_version = v1;
        call_id = m.invocation.call.call_id;
        decision = ToolDecisionKind.approved;
        code = "policy_approved";
      })
      full_access

unfoldable pub terminate_preflight : InvocationMachine → ToolResult → Step
unfolding validate_result
terminate_preflight m result = do
  validate_result m.invocation result
  refuse_if (result.status == succeeded) invalid_terminal
  ok (terminated m result)

unfoldable pub terminate_started : InvocationMachine → ToolResult → Step
unfolding validate_result
terminate_started m result = do
  validate_result m.invocation result
  refuse_if (not (terminal_is_legal_after_start result.tool_name result.status result.code))
      invalid_terminal
  ok (terminated m result)

-- The decision that a cancelled wait for approval records.
abbrev cancelled_decision : InvocationMachine → InvocationState → List InvocationEffect
cancelled_decision m awaiting_decision =
    persist_decision (record {
      schema_version = v1;
      call_id = m.invocation.call.call_id;
      decision = ToolDecisionKind.rejected;
      code = "cancelled";
    })
    ∷ []
cancelled_decision m _ = []

unfoldable pub cancel_pre_start : InvocationMachine → Step
unfolding terminal_result
cancel_pre_start m =
    let result = terminal_result m.invocation cancelled "cancelled_before_start" in
    ok (
      record m { state = terminal result },
      cancelled_decision m m.state ++ persist_terminal result ∷ publish_terminal result ∷ [],
    )

unfoldable pub recover_pre_start : InvocationMachine → Step
unfolding terminal_result
recover_pre_start m =
    ok (terminated m (terminal_result m.invocation cancelled "recovered_before_start"))

unfoldable pub terminate_unknown_effect : InvocationMachine → Step
unfolding terminal_result
terminate_unknown_effect m =
    ok (terminated m (terminal_result m.invocation indeterminate "effect_unknown"))

unfoldable pub start_approved : InvocationMachine → DecisionSnapshot → Step
unfolding for_permission_mode
start_approved m snapshot = ok (
  record m { state = started snapshot },
  persist_started m.invocation.call.call_id
      ∷ execute m.invocation (for_permission_mode snapshot.permission_mode)
      ∷ [],
)

-- The `match` of `apply`, in the order of its arms.
unfoldable pub dispatch : InvocationState → InvocationInput → InvocationMachine → Step
unfolding approve_full_access terminate_preflight record_decision start_approved terminate_started
    cancel_pre_start recover_pre_start terminate_unknown_effect
dispatch requested (preflight_allowed confirm) m =
    ok (record m { state = awaiting_decision }, request_approval m.invocation ∷ [])
dispatch requested (preflight_allowed full_access) m = approve_full_access m
dispatch requested (preflight_denied result) m = terminate_preflight m result
dispatch (approved snapshot) (pre_start_failed result) m = terminate_preflight m result
dispatch awaiting_decision (decision d mode) m = record_decision m d mode
dispatch (approved snapshot) start m = start_approved m snapshot
dispatch (started snapshot) (complete result) m = terminate_started m result
dispatch requested cancel m = cancel_pre_start m
dispatch awaiting_decision cancel m = cancel_pre_start m
dispatch (approved snapshot) cancel m = cancel_pre_start m
dispatch (started snapshot) cancel m = terminate_unknown_effect m
dispatch requested recover m = recover_pre_start m
dispatch awaiting_decision recover m = recover_pre_start m
dispatch (approved snapshot) recover m = recover_pre_start m
dispatch (started snapshot) recover m = terminate_unknown_effect m
dispatch (terminal result) recover m = ok (m, [])
dispatch (approved snapshot) (decision d mode) m = err duplicate_decision
dispatch (started snapshot) (decision d mode) m = err duplicate_decision
dispatch (started snapshot) start m = err duplicate_started
dispatch (terminal result) _ m = err duplicate_terminal
dispatch _ _ m = err invalid_transition

unfoldable pub apply : InvocationMachine → InvocationInput → Step
unfolding dispatch
apply m input = dispatch m.state input m
