-- ===== src/Session/Starts.antt =====
-- What `start_turn` leaves behind, when it succeeds and when it fails (crates/core/src/session.rs).
use wiki_coding.Prelude.{
  ◌≡◌, refl, [], ◌∷◌, Result, ok, err, Holds, >>=-Holds, >>-Holds, refuse_if, ok_or, any, ◌>>=◌,
  ◌>>◌, is_blank, arith, inl, inr, ◌⊎◌,
}
use wiki_coding.Protocol.Json.{Json}
use wiki_coding.Protocol.Runtime.{RuntimeErrorCode, recovery, workspace_busy, configuration}
use wiki_coding.Protocol.Session.{
  SessionRecordV1, ModelBinding, session_record_v1, session_record_eq, turn_started, SessionRecord,
}
use wiki_coding.Session.{SessionMachine, StartTurnInput, has_running_turn, active_session}
use wiki_coding.Session.Journal.{is_same_turn}
use wiki_coding.Session.Machine.{Reply, admit, start, begin_turn, open_turn, opened, new_turn}
use wiki_coding.Session.Request.{turn_request}
use wiki_coding.Session.Writes.{Own, persisted}

module _ (json : Json) where
  -- A turn that is begun: the record names the turn, and the state admits it.
  pub record Begun (m : SessionMachine) (input : StartTurnInput) (envelope : SessionRecordV1)
      (m' : SessionMachine) : Type 0 where
    pub admitted : admit json m envelope ≡ ok m'
    pub named : envelope.record_id ≡ input.record_id
    pub own : Own m envelope.journal_record

  abbrev Beginning :
      SessionMachine → StartTurnInput → SessionRecordV1 × (ModelBinding × SessionMachine) → Type 0
  Beginning m input (envelope, (binding, m')) = Begun m input envelope m'

  pub begin_turn-Begun :
      (m : SessionMachine) (input : StartTurnInput)
      → Holds (Beginning m input) (begin_turn json m input)
  unfolding begin_turn
  begin_turn-Begun m input =
      let P = Beginning m input in
      let envelope : SessionRecord → SessionRecordV1 = λ session.
        session_record_v1 input.record_id
          (turn_started session.session_id session.binding (new_turn json input)) in
      let admitting : SessionRecord
          → Result RuntimeErrorCode (SessionRecordV1 × (ModelBinding × SessionMachine)) =
        λ session.
          admit json m (envelope session) >>= λ m'. ok (envelope session, (session.binding, m')) in
      let checking : SessionRecord
          → Result RuntimeErrorCode (SessionRecordV1 × (ModelBinding × SessionMachine)) =
        λ session.
          refuse_if (any (is_same_turn input.turn_id input.request_id) session.turns) recovery
          >> admitting session in
      let finding = ok_or (active_session m) recovery >>= checking in
      >>-Holds P (refuse_if (has_running_turn m) workspace_busy)
        (refuse_if (is_blank input.user_input) configuration >> finding)
        λ _ idle. >>-Holds P (refuse_if (is_blank input.user_input) configuration) finding λ _ _.
          >>=-Holds P (ok_or (active_session m) recovery) checking λ session _.
            >>-Holds P
              (refuse_if (any (is_same_turn input.turn_id input.request_id) session.turns) recovery)
              (admitting session)
              λ _ _.
                >>=-Holds P (admit json m (envelope session))
                  (λ m'. ok (envelope session, (session.binding, m')))
                  λ m' admitted. record {
                    admitted = admitted;
                    named = refl;
                    own = (ground arith, refl);
                  }

  -- What `start_turn` leaves: on success the turn is begun and its record is to be persisted; a
  -- failure leaves the state as it was, or with the turn begun.
  abbrev pub Started : SessionMachine → StartTurnInput → SessionMachine × Reply json → Type 0
  Started m input (m', ok effects) =
      (envelope : SessionRecordV1) × Begun m input envelope m'
      × (persisted json effects ≡ envelope ∷ [])
  Started m input (m', err e) =
      (m' ≡ m) ⊎ ((envelope : SessionRecordV1) × Begun m input envelope m')

  open_turn-Started :
      (m : SessionMachine) (input : StartTurnInput)
      (begun : Result RuntimeErrorCode (SessionRecordV1 × (ModelBinding × SessionMachine)))
      → Holds (Beginning m input) begun
      → Started m input (open_turn json m input begun)
  open_turn-Started m input (err e) h = inl refl
  open_turn-Started m input (ok (envelope, (binding, m'))) h =
      elim (turn_request json m' (new_turn json input) binding input.max_output_tokens)
        as (λ asked. Started m input (opened json m' envelope asked)) [
          | ok request ↦ (envelope, h, refl)
          | err e ↦ inr (envelope, h)
        ]

  pub start-Started :
      (m : SessionMachine) (input : StartTurnInput) → Started m input (start json m input)
  unfolding start
  start-Started m input =
      open_turn-Started m input (begin_turn json m input) (begin_turn-Begun m input)
