-- ===== src/Session/Rebuild.antt =====
-- A journal of many commands, and its replay (crates/core/src/session.rs).
use wiki_coding.Prelude.{
  ◌≡◌, ◌≢◌, refl, ap, ◌∙◌, Bool, true, some, List, [], ◌∷◌, ◌++◌, ◌&&◌, ok, err, ◌>>=◌, get, arith,
  Result-cases, inl, inr,
}
use wiki_coding.Protocol.Json.{Json}
use wiki_coding.Protocol.Runtime.{recovery}
use wiki_coding.Protocol.Session.{SessionRecordV1, session_record_eq}
use wiki_coding.Session.{SessionMachine, SessionCommand, SessionEffect, StartTurnInput, new}
use wiki_coding.Session.Machine.{Reply, replay_one, start}
use wiki_coding.Session.Commands.{apply, replay_from, replay}
use wiki_coding.Session.Replay.{journalled, is_clean, apply-Restored}
use wiki_coding.Session.Starts.{Started, start-Started}
use wiki_coding.Session.Writes.{persisted}

module _ (json : Json) where
  pub record Run : Type 0 where
    pub machine : SessionMachine
    pub journal : List SessionRecordV1

  abbrev pub step : Run → SessionCommand → Run
  step r command = record {
    machine = (apply json r.machine command).0;
    journal = r.journal ++ journalled json command (apply json r.machine command).1;
  }

  -- The commands of a workspace, in their order, each on the state that the one before left.
  unfoldable pub run : Run → List SessionCommand → Run
  run r [] = r
  run r (command ∷ commands) = run (step r command) commands

  unfoldable pub is_clean_run : Run → List SessionCommand → Bool
  is_clean_run r [] = true
  is_clean_run r (command ∷ commands) =
      is_clean json r.machine command && is_clean_run (step r command) commands

  abbrev pub empty_run : Run
  empty_run = record { machine = new; journal = [] }

  replay_from-append :
      (m : SessionMachine) (before after : List SessionRecordV1)
      → replay_from json m (before ++ after)
        ≡ (replay_from json m before >>= λ m'. replay_from json m' after)
  unfolding replay_from
  replay_from-append m [] after = refl
  replay_from-append m (envelope ∷ before) after =
      elim (Result-cases (replay_one json m envelope)) [
        | inl (replayed, e) ↦ ground (arith, replay_from-append replayed.0 before after)
        | inr (code, e) ↦ ground arith
      ]

  run-replays :
      (r : Run) (commands : List SessionCommand)
      → is_clean_run r commands ≡ true
      → replay_from json new r.journal ≡ ok r.machine
      → replay_from json new (run r commands).journal ≡ ok (run r commands).machine
  unfolding run is_clean_run
  run-replays r [] clean h = h
  run-replays r (command ∷ commands) clean h =
      run-replays (step r command) commands (ground arith) (
        replay_from-append new r.journal (journalled json command (apply json r.machine command).1)
        ∙ (ap
              (λ m. m >>= λ m'.
                replay_from json m' (journalled json command (apply json r.machine command).1))
              h
            ∙ apply-Restored json r.machine command (ground arith)))

  -- Any commands on an empty workspace: the replay of the journal that they write succeeds and gives
  -- the state that they leave, if each command that starts a turn succeeds and uses a record id that
  -- was not used before. Commands of the other kinds may fail.
  pub journal_rebuilds :
      (commands : List SessionCommand)
      → is_clean_run empty_run commands ≡ true
      → replay json (run empty_run commands).journal ≡ ok (run empty_run commands).machine
  unfolding replay replay_from
  journal_rebuilds commands clean = run-replays empty_run commands clean refl

  Started-named :
      (m : SessionMachine) (input : StartTurnInput) (reply : SessionMachine × Reply json)
      (effects : List (SessionEffect json)) (written : SessionRecordV1)
      → reply.1 ≡ ok effects
      → persisted json effects ≡ written ∷ []
      → Started json m input reply
      → written.record_id ≡ input.record_id
  Started-named m input (m', err e) effects written done wrote h = cc
  Started-named m input (m', ok sent) effects written done wrote (envelope, begun, alone) =
      let named = begun.named in ground arith

  -- A turn that is started under a record id that another record has writes a record which the
  -- replay of the journal refuses: where the replay of the journal gives the state, the replay with
  -- the new record gives an error.
  pub reused_id_breaks_replay :
      (m : SessionMachine) (journal : List SessionRecordV1) (input : StartTurnInput)
      (seen written : SessionRecordV1) (effects : List (SessionEffect json))
      → replay json journal ≡ ok m
      → get input.record_id m.seen_records ≡ some seen
      → (start json m input).1 ≡ ok effects
      → persisted json effects ≡ written ∷ []
      → seen ≢ written
      → replay json (journal ++ (written ∷ [])) ≡ err recovery
  unfolding replay replay_from replay_one
  reused_id_breaks_replay m journal input seen written effects rebuilt reused done wrote other =
      let named =
        Started-named m input (start json m input) effects written done wrote
          (start-Started json m input) in
      replay_from-append new journal (written ∷ []) ∙ ground arith
