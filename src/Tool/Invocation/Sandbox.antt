-- ===== src/Tool/Invocation/Sandbox.antt =====
-- The sandbox of an execution (crates/core/src/tool.rs): it is off only where full access was given.
use wiki_coding.Prelude.{
  count_if, count_if-append, ℕ, ◌≡◌, refl, Bool, true, false, List, [], ◌∷◌, all, not, ok, err,
  arith,
}
use wiki_coding.Protocol.Tool.{ToolInvocation}
use wiki_coding.Tool.Invocation.{
  confirm, full_access, restricted, disabled, InvocationMachine, InvocationState, InvocationInput,
  InvocationEffect, Step, requested, awaiting_decision, approved, started, terminal,
  preflight_allowed, decision, execute, apply, dispatch, request,
}
use wiki_coding.Tool.Invocation.Log.{Life, live, logged, born}

-- The inputs that give full access.
abbrev pub gives_full_access : InvocationInput → Bool
gives_full_access (preflight_allowed full_access) = true
gives_full_access (decision d full_access) = true
gives_full_access _ = false

abbrev pub is_unsandboxed : InvocationEffect → Bool
is_unsandboxed (execute invocation context) = elim context.sandbox_policy [
  | restricted ↦ false
  | disabled ↦ true
]
is_unsandboxed _ = false

abbrev pub unsandboxed : List InvocationEffect → ℕ
unsandboxed = count_if is_unsandboxed

-- A state in which no full access was given.
abbrev Confirmed : InvocationState → Type 0
Confirmed (approved s) = s.permission_mode ≡ confirm
Confirmed (started s) = s.permission_mode ≡ confirm
Confirmed _ = Unit {0}

abbrev Sandboxed : Step → Type 0
Sandboxed (ok (m, effects)) = Confirmed m.state × (unsandboxed effects ≡ 0)
Sandboxed (err e) = Unit {0}

dispatch-Sandboxed :
    (st : InvocationState) (input : InvocationInput) (m : InvocationMachine)
    → m.state ≡ st
    → gives_full_access input ≡ false
    → Confirmed st
    → Sandboxed (dispatch st input m)
unfolding dispatch count_if
dispatch-Sandboxed requested (preflight_allowed confirm) m e h c = ground arith
dispatch-Sandboxed requested (preflight_allowed full_access) m e h c = cc
dispatch-Sandboxed requested _ m e h c = ground arith
dispatch-Sandboxed awaiting_decision _ m e h c = ground arith
dispatch-Sandboxed (approved s) _ m e h c = ground arith
dispatch-Sandboxed (started s) _ m e h c = ground arith
dispatch-Sandboxed (terminal r) _ m e h c = ground arith

abbrev IsSandboxed : Life → Type 0
IsSandboxed life = Confirmed life.machine.state × (unsandboxed life.log ≡ 0)

logged-IsSandboxed :
    (life : Life) (step : Step) → Sandboxed step → IsSandboxed life → IsSandboxed (logged life step)
logged-IsSandboxed life (err e) s safe = safe
logged-IsSandboxed life (ok (m, effects)) s safe =
    (s.0, omega (arith, count_if-append is_unsandboxed life.log effects))

live-IsSandboxed :
    (life : Life) (inputs : List InvocationInput)
    → all (λ input. not (gives_full_access input)) inputs ≡ true
    → IsSandboxed life
    → IsSandboxed (live life inputs)
unfolding live apply
live-IsSandboxed life [] h safe = safe
live-IsSandboxed life (input ∷ inputs) h safe =
    live-IsSandboxed (logged life (apply life.machine input)) inputs (ground arith) (
      logged-IsSandboxed life (apply life.machine input)
        (dispatch-Sandboxed life.machine.state input life.machine refl (ground arith) safe.0) safe)

-- In any life of a call in which no input gives full access, neither a preflight nor a decision, no
-- execution has its sandbox disabled.
pub sandbox_kept :
    (inv : ToolInvocation) (inputs : List InvocationInput)
    → all (λ input. not (gives_full_access input)) inputs ≡ true
    → unsandboxed (live (born inv) inputs).log ≡ 0
unfolding born request count_if
sandbox_kept inv inputs h = (live-IsSandboxed (born inv) inputs h (tt, refl)).1
