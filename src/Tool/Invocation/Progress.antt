-- ===== src/Tool/Invocation/Progress.antt =====
-- Every tool call can be ended, and an ended one stays as it is (crates/core/src/tool.rs).
use wiki_coding.Prelude.{◌≡◌, refl, Bool, true, false, List, [], ◌∷◌, arith}
use wiki_coding.Protocol.Event.{v1}
use wiki_coding.Protocol.Tool.{ToolResult, cancelled, indeterminate}
use wiki_coding.Protocol.Tool.ToolDecisionKind.{rejected}
use wiki_coding.Tool.Invocation.{
  InvocationMachine, InvocationState, InvocationInput, requested, awaiting_decision, approved,
  started, terminal, cancel, recover, apply, dispatch, persist_terminal, publish_terminal,
  InvocationEffect, persist_decision,
}
use wiki_coding.Tool.Invocation.Log.{Life, live, logged}
use wiki_coding.Tool.Invocation.Safety.{is_terminal}
use mathlib.Core.List.{append-nil}
use wiki_coding.Prelude.{sym, subst, ap, ◌∙◌, none, String, ◌++◌, if◌then◌else◌}

abbrev pub is_started : InvocationState → Bool
is_started (started s) = true
is_started _ = false

abbrev is_waiting : InvocationState → Bool
is_waiting awaiting_decision = true
is_waiting _ = false

-- The result of a call that is cut short: its effect is unknown once the tool was started.
abbrev pub cut_short : InvocationMachine → String → ToolResult
cut_short m code = record {
  schema_version = v1;
  call_id = m.invocation.call.call_id;
  tool_name = m.invocation.call.name;
  status = if is_started m.state then indeterminate else cancelled;
  code = if is_started m.state then "effect_unknown" else code;
  output = none;
}

-- A wait for approval that is cancelled is a rejection of the call.
abbrev pub rejections : InvocationMachine → List InvocationEffect
rejections m =
    if is_waiting m.state
    then persist_decision (record {
      schema_version = v1;
      call_id = m.invocation.call.call_id;
      decision = rejected;
      code = "cancelled";
    })
      ∷ []
    else []

-- A life that has ended with a result, where it recorded some decisions before.
abbrev pub ended_with : Life → List InvocationEffect → ToolResult → Life
ended_with life decisions r = record {
  machine = record life.machine { state = terminal r };
  log = life.log ++ (decisions ++ persist_terminal r ∷ publish_terminal r ∷ []);
}

forced :
    (st : InvocationState) (life : Life)
    → life.machine.state ≡ st
    → is_terminal st ≡ false
    → (logged life (dispatch st cancel life.machine)
        ≡ ended_with life
            (rejections life.machine)
            (cut_short life.machine "cancelled_before_start"))
      × (logged life (dispatch st recover life.machine)
          ≡ ended_with life [] (cut_short life.machine "recovered_before_start"))
unfolding dispatch
forced requested life e h = ground arith
forced awaiting_decision life e h = ground arith
forced (approved s) life e h = ground arith
forced (started s) life e h = ground arith
forced (terminal r) life e h = cc

ended_dispatch :
    (life : Life) (input : InvocationInput) (r : ToolResult)
    → logged life (dispatch (terminal r) input life.machine) ≡ life
unfolding dispatch
ended_dispatch life recover r = rw (append-nil life.log)
ended_dispatch life _ r = refl

ended_step :
    (life : Life) (input : InvocationInput) (r : ToolResult)
    → life.machine.state ≡ terminal r
    → logged life (apply life.machine input) ≡ life
unfolding apply
ended_step life input r e =
    subst (λ st. logged life (dispatch st input life.machine) ≡ life) (sym e)
      (ended_dispatch life input r)

-- An ended call stays as it is: no input changes the machine or adds an effect.
pub ended_call_stays :
    (life : Life) (inputs : List InvocationInput) (r : ToolResult)
    → life.machine.state ≡ terminal r
    → live life inputs ≡ life
unfolding live
ended_call_stays life [] r e = refl
ended_call_stays life (input ∷ inputs) r e =
    rw (ended_step life input r e) (ended_call_stays life inputs r e)

-- A call that has not ended is ended by a cancellation and by a recovery, always, and whatever inputs
-- come after that: its result is of this call and its tool, "effect unknown" if the tool was started
-- and "cancelled" otherwise; all that is logged from then on is that result, persisted and then
-- published once, and before it the rejection of the call if a wait for approval was cancelled.
pub cancel_and_recover_end :
    (life : Life) (more : List InvocationInput)
    → is_terminal life.machine.state ≡ false
    → (live life (cancel ∷ more)
        ≡ ended_with life
            (rejections life.machine)
            (cut_short life.machine "cancelled_before_start"))
      × (live life (recover ∷ more)
          ≡ ended_with life [] (cut_short life.machine "recovered_before_start"))
unfolding live apply
cancel_and_recover_end life more h =
    let (cancelling, recovering) = forced life.machine.state life refl h in
    (
      ap (λ l. live l more) cancelling ∙ ended_call_stays _ more _ refl,
      ap (λ l. live l more) recovering ∙ ended_call_stays _ more _ refl,
    )
