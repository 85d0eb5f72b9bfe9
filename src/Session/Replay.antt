-- ===== src/Session/Replay.antt =====
-- The journal that commands write, and what its replay gives (crates/core/src/session.rs).
use wiki_coding.Prelude.{
  ℕ, ◌≡◌, refl, sym, ap, subst, ◌∙◌, Bool, true, false, not, Option, none, some, List, [], ◌∷◌,
  ◌&&◌, Result, ok, err, Holds, contains_key, arith, inl, inr, ◌⊎◌,
}
use wiki_coding.Protocol.Json.{Json}
use wiki_coding.Protocol.Runtime.{RuntimeErrorCode}
use wiki_coding.Protocol.Session.{RecordId, SessionRecordV1, session_record_eq}
use wiki_coding.Session.{
  SessionMachine, SessionCommand, SessionEffect, StartTurnInput, continue, retry, replay_record,
}
use wiki_coding.Session.Machine.{Reply, settle, replay_one, start}
use wiki_coding.Session.Commands.{apply, continued, replay_from, retry_from, retry_input}
use wiki_coding.Session.Steps.{Answered, apply-Answered}
use wiki_coding.Session.Starts.{Started, start-Started}
use wiki_coding.Protocol.Event.{TurnId}
use wiki_coding.Protocol.Runtime.{RequestId}
use wiki_coding.Session.Writes.{persisted, Written}

retry_input-record_id :
    (json : Json) (m : SessionMachine) (record_id : RecordId) (source_turn_id : TurnId)
    (new_turn_id : TurnId) (request_id : RequestId) (tokens now : ℕ)
    → Holds
        (λ made. made.record_id ≡ record_id)
        (retry_input json m record_id source_turn_id new_turn_id request_id tokens now)
unfolding retry_input
retry_input-record_id json m record_id source_turn_id new_turn_id request_id tokens now =
    ground arith

module _ (json : Json) where
  -- The id of the record that a command which starts a turn would write.
  abbrev pub starts : SessionCommand → Option RecordId
  starts (continue record_id turn_id request_id user_input max_output_tokens now) = some record_id
  starts (retry record_id source_turn_id new_turn_id request_id max_output_tokens now) =
      some record_id
  starts _ = none

  -- What a command writes to the journal, or reads from it.
  abbrev pub journalled : SessionCommand → Reply json → List SessionRecordV1
  journalled command (err e) = []
  journalled (replay_record envelope) (ok effects) = envelope ∷ []
  journalled command (ok effects) = persisted json effects

  abbrev succeeded : Reply json → Bool
  succeeded (ok effects) = true
  succeeded (err e) = false

  abbrev clean_start : SessionMachine → Reply json → Option RecordId → Bool
  clean_start m reply none = true
  clean_start m reply (some record_id) =
      not (contains_key record_id m.seen_records) && succeeded reply

  -- A command that starts a turn does so, under a record id that was not seen; the others are free
  -- to fail.
  abbrev pub is_clean : SessionMachine → SessionCommand → Bool
  is_clean m command = clean_start m (apply json m command).1 (starts command)

  abbrev Restored : SessionMachine → SessionMachine → List SessionRecordV1 → Type 0
  Restored m m' records = replay_from json m records ≡ ok m'

  Written-Restored :
      (m m' : SessionMachine) (records : List SessionRecordV1)
      → ((m' ≡ m) × (records ≡ [])) ⊎ Written json m m' records
      → Restored m m' records
  unfolding replay_from replay_one
  Written-Restored m m' records (inl (same, none_written)) = ground arith
  Written-Restored m m' records (inr written) =
      let fresh = written.fresh in
      let admitted = written.admitted in let alone = written.alone in ground arith

  Answered-Restored :
      (m : SessionMachine) (command : SessionCommand) (done : SessionMachine × Reply json)
      → ((effects : List (SessionEffect json))
          → journalled command (ok effects) ≡ persisted json effects)
      → Answered json m done
      → Restored m done.0 (journalled command done.1)
  unfolding replay_from
  Answered-Restored m command (m', err e) all_persisted h = ap ok (sym h)
  Answered-Restored m command (m', ok effects) all_persisted h =
      subst (Restored m m') (sym (all_persisted effects))
        (Written-Restored m m' (persisted json effects) h)

  Started-Restored :
      (m : SessionMachine) (input : StartTurnInput) (done : SessionMachine × Reply json)
      (command : SessionCommand)
      → ((effects : List (SessionEffect json))
          → journalled command (ok effects) ≡ persisted json effects)
      → not (contains_key input.record_id m.seen_records) && succeeded done.1 ≡ true
      → Started json m input done
      → Restored m done.0 (journalled command done.1)
  unfolding replay_from replay_one contains_key
  Started-Restored m input (m', err e) command all_persisted clean h = ground arith
  Started-Restored m input (m', ok effects) command all_persisted clean (envelope, begun, alone) =
      let admitted = begun.admitted in
      let named = begun.named in
      subst (Restored m m') (sym (all_persisted effects ∙ alone)) (ground arith)

  replay_one-Restored :
      (m : SessionMachine) (envelope : SessionRecordV1)
      (done : Result RuntimeErrorCode (SessionMachine × List (SessionEffect json)))
      → replay_one json m envelope ≡ done
      → Restored m
          (settle json m done).0
          (journalled (replay_record envelope) (settle json m done).1)
  unfolding replay_from
  replay_one-Restored m envelope (err e) h = refl
  replay_one-Restored m envelope (ok (m', effects)) h = ground arith

  retry_from-Restored :
      (m : SessionMachine) (command : SessionCommand)
      (input : Result RuntimeErrorCode StartTurnInput) (record_id : RecordId)
      → ((effects : List (SessionEffect json))
          → journalled command (ok effects) ≡ persisted json effects)
      → not (contains_key record_id m.seen_records) && succeeded (retry_from json m input).1 ≡ true
      → Holds (λ made. made.record_id ≡ record_id) input
      → Restored m (retry_from json m input).0 (journalled command (retry_from json m input).1)
  retry_from-Restored m command (err e) record_id all_persisted clean h = ground arith
  retry_from-Restored m command (ok input) record_id all_persisted clean h =
      Started-Restored m input (start json m input) command all_persisted (ground arith)
        (start-Started json m input)

  pub apply-Restored :
      (m : SessionMachine) (command : SessionCommand)
      → is_clean m command ≡ true
      → Restored m (apply json m command).0 (journalled command (apply json m command).1)
  unfolding apply
  apply-Restored m (continue record_id turn_id request_id user_input tokens now) clean =
      let input = continued record_id turn_id request_id user_input tokens now in
      Started-Restored m input (start json m input)
        (continue record_id turn_id request_id user_input tokens now) (λ _. refl) clean
        (start-Started json m input)
  apply-Restored m (retry record_id source_turn_id new_turn_id request_id tokens now) clean =
      retry_from-Restored m (retry record_id source_turn_id new_turn_id request_id tokens now)
        (retry_input json m record_id source_turn_id new_turn_id request_id tokens now) record_id
        (λ _. refl) clean
        (retry_input-record_id json m record_id source_turn_id new_turn_id request_id tokens now)
  apply-Restored m (replay_record envelope) clean =
      replay_one-Restored m envelope (replay_one json m envelope) refl
  apply-Restored m command clean =
      Answered-Restored m command (apply json m command) (λ _. refl)
        (apply-Answered json m command refl)
