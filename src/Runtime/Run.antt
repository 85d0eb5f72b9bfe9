-- ===== src/Runtime/Run.antt =====
-- A whole run of the turn's machine (crates/core/src/runtime.rs): the inputs are applied in turn and
-- the effects of those that succeed are logged. The machine is kept after an error too.
use wiki_coding.Prelude.{List, [], ◌∷◌, ◌++◌, ok, err, count_if, Bool, true, false, ℕ}
use wiki_coding.Protocol.Json.{Json}
use wiki_coding.Protocol.Runtime.{turn_started, RuntimeEvent}
use wiki_coding.Runtime.{
  RunMachine, RunState, RunInput, RunEffect, Reply, new, persist, finalize, terminal, idle,
}
use wiki_coding.Runtime.Machine.{apply}

module _ (json : Json) where
  pub record Run : Type 0 where
    pub machine : RunMachine json
    pub log : List (RunEffect json)

  abbrev pub effects_of : Reply json → List (RunEffect json)
  effects_of (ok effects) = effects
  effects_of (err e) = []

  abbrev pub logged : List (RunEffect json) → RunMachine json × Reply json → Run
  logged log (m, reply) = record { machine = m; log = log ++ effects_of reply }

  unfoldable pub run : Run → List (RunInput json) → Run
  run r [] = r
  run r (input ∷ inputs) = run (logged r.log (apply json r.machine input)) inputs

  abbrev pub fresh : Run
  fresh = record { machine = new json; log = [] }

  abbrev pub is_finalize : RunEffect json → Bool
  is_finalize (finalize receipt) = true
  is_finalize _ = false

  abbrev pub is_closing : RunEffect json → Bool
  is_closing (persist envelope) = elim envelope.event [
    | RuntimeEvent.terminal outcome ↦ true
    | _ ↦ false
  ]
  is_closing _ = false

  abbrev pub is_opening : RunEffect json → Bool
  is_opening (persist envelope) = elim envelope.event [
    | turn_started session turn request ↦ true
    | _ ↦ false
  ]
  is_opening _ = false

  abbrev pub finalizations : List (RunEffect json) → ℕ
  finalizations = count_if is_finalize

  abbrev pub closings : List (RunEffect json) → ℕ
  closings = count_if is_closing

  abbrev pub openings : List (RunEffect json) → ℕ
  openings = count_if is_opening

  abbrev pub is_idle : RunState json → Bool
  is_idle idle = true
  is_idle _ = false

  abbrev pub is_ended : RunState json → Bool
  is_ended (terminal receipt) = true
  is_ended _ = false
