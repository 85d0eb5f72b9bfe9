-- ===== src/Session/Moves.antt =====
-- A command leaves the state as it was, or one journal record is admitted to it
-- (crates/core/src/session.rs).
use wiki_coding.Prelude.{
  ◌≡◌, refl, sym, subst, Bool, true, false, Option, none, some, [], Result, ok, err, ◌>>=◌,
  >>=-succeeds, insert, get, arith, Result-cases, inl, inr, ◌⊎◌,
}
use wiki_coding.Protocol.Json.{Json}
use wiki_coding.Protocol.Runtime.{RuntimeErrorCode}
use wiki_coding.Protocol.Session.{SessionRecordV1, session_record_eq}
use wiki_coding.Session.{
  SessionMachine, SessionCommand, StartTurnInput, continue, retry, replay_record,
}
use wiki_coding.Session.Machine.{Reply, settle, admit, admit_new, replay_one, start}
use wiki_coding.Session.Commands.{apply, continued, retry_from, retry_input}
use wiki_coding.Session.Starts.{Started, start-Started}
use wiki_coding.Session.Writes.{Own}
use wiki_coding.Session.Records.{apply_record, apply_journal}
use wiki_coding.Session.Steps.{Answered, apply-Answered}

abbrev pub is_reading : SessionCommand → Bool
is_reading (replay_record envelope) = true
is_reading _ = false

module _ (json : Json) where
  abbrev pub remembering : SessionRecordV1 → SessionMachine → SessionMachine
  remembering envelope m = record m {
    seen_records = insert envelope.record_id envelope m.seen_records;
  }

  pub admit-succeeds :
      (m m' : SessionMachine) (envelope : SessionRecordV1)
      → admit json m envelope ≡ ok m'
      → (changed : SessionMachine) × (apply_journal json m envelope.journal_record ≡ ok changed)
        × (m' ≡ remembering envelope changed)
  unfolding admit apply_record
  admit-succeeds m m' envelope admitted =
      let (changed, applied, made) =
        >>=-succeeds (λ changed. ok (remembering envelope changed))
          (apply_journal json m envelope.journal_record) admitted in
      (changed, applied, ground arith)

  pub record Admitted (m : SessionMachine) (reading : Bool) (m' : SessionMachine) : Type 0 where
    pub envelope : SessionRecordV1
    pub admitted : admit json m envelope ≡ ok m'
    pub own : reading ≡ false → Own m envelope.journal_record

  -- A record that is only read may hold anything; one that a command makes is its own.
  abbrev pub Moved : SessionMachine → Bool → SessionMachine → Type 0
  Moved m reading m' = (m' ≡ m) ⊎ Admitted m reading m'

  Answered-Moved :
      (m : SessionMachine) (done : SessionMachine × Reply json)
      → Answered json m done
      → Moved m false done.0
  Answered-Moved m (m', err e) same = inl same
  Answered-Moved m (m', ok effects) (inl (same, none_written)) = inl same
  Answered-Moved m (m', ok effects) (inr written) =
      inr (record {
        envelope = written.envelope;
        admitted = written.admitted;
        own = λ _. written.own;
      })

  Started-Moved :
      (m : SessionMachine) (input : StartTurnInput) (done : SessionMachine × Reply json)
      → Started json m input done
      → Moved m false done.0
  Started-Moved m input (m', ok effects) (envelope, begun, alone) =
      inr (record { envelope = envelope; admitted = begun.admitted; own = λ _. begun.own })
  Started-Moved m input (m', err e) (inl same) = inl same
  Started-Moved m input (m', err e) (inr (envelope, begun)) =
      inr (record { envelope = envelope; admitted = begun.admitted; own = λ _. begun.own })

  retry_from-Moved :
      (m : SessionMachine) (input : Result RuntimeErrorCode StartTurnInput)
      → Moved m false (retry_from json m input).0
  retry_from-Moved m (ok input) =
      Started-Moved m input (start json m input) (start-Started json m input)
  retry_from-Moved m (err e) = inl refl

  admit_new-Moved :
      (m : SessionMachine) (envelope : SessionRecordV1) (found : Option SessionRecordV1)
      → Moved m true (settle json m (admit_new json m envelope [] found)).0
  admit_new-Moved m envelope none = elim (Result-cases (admit json m envelope)) [
    | inl (m', admitted) ↦
        subst (λ a. Moved m true (settle json m (a >>= λ m'. ok (m', []))).0) (sym admitted)
          (inr (record { envelope = envelope; admitted = admitted; own = λ reading. cc }))
    | inr (code, refused) ↦ inl (ground arith)
  ]
  admit_new-Moved m envelope (some existing) = inl (ground arith)

  pub apply-Moved :
      (m : SessionMachine) (command : SessionCommand)
      → Moved m (is_reading command) (apply json m command).0
  unfolding apply replay_one
  apply-Moved m (continue record_id turn_id request_id user_input tokens now) =
      let input = continued record_id turn_id request_id user_input tokens now in
      Started-Moved m input (start json m input) (start-Started json m input)
  apply-Moved m (retry record_id source_turn_id new_turn_id request_id tokens now) =
      retry_from-Moved m
        (retry_input json m record_id source_turn_id new_turn_id request_id tokens now)
  apply-Moved m (replay_record envelope) =
      admit_new-Moved m envelope (get envelope.record_id m.seen_records)
  apply-Moved m command =
      Answered-Moved m (apply json m command) (apply-Answered json m command refl)
