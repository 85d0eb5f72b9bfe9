-- ===== src/Session/Writes.antt =====
-- What a command does, seen from the journal: it writes one new record and the state admits it, or
-- nothing changes (crates/core/src/session.rs).
use wiki_coding.Prelude.{
  ℕ, String, ◌≡◌, refl, sym, ap, subst, false, not, Option, none, some, List, [], ◌∷◌, ◌++◌, Result,
  ok, ◌⊎◌, Holds, >>=-Holds, >>-Holds, refuse_if, ◌>>=◌, ◌>>◌, get, contains_key, Holds-ok, arith,
  inr,
}
use wiki_coding.Protocol.Json.{Json}
use wiki_coding.Protocol.Event.{SessionId, TurnId}
use wiki_coding.Protocol.Runtime.{RuntimeErrorCode, recovery, workspace_busy, TurnReceipt}
use wiki_coding.Protocol.Session.{
  RecordId, JournalRecord, SessionRecordV1, ModelBinding, session_record_v1, session_record_eq,
  session_created, turn_started, session_activated, turn_terminal, recovery_applied,
}
use wiki_coding.Session.{
  SessionMachine, SessionEffect, persist, activated, abort_turn, finalized, message_of,
  partial_message, interrupted_receipt, running_session_for, has_running_turn,
}
use wiki_coding.Session.Machine.{admit, admit_new, persist_record}
use wiki_coding.Session.Commands.{
  created, is_unfinished, and_finalized, record_running, create_command, resume_command,
  interrupt_command, finalize_command, recover_command,
}

-- What a record that a command makes has, over one that is only read: a new session is empty, and a
-- new turn has no tool calls and is alone in running.
abbrev pub Own : SessionMachine → JournalRecord → Type 0
Own m (session_created session) = session.turns ≡ []
Own m (turn_started session_id binding turn) =
    (has_running_turn m ≡ false) × (turn.tool_invocations ≡ [])
Own m _ = Unit

module _ (json : Json) where
  -- The records that a reply asks to persist.
  abbrev pub persisted : List (SessionEffect json) → List SessionRecordV1
  persisted [] = []
  persisted (persist envelope ∷ effects) = envelope ∷ persisted effects
  persisted (_ ∷ effects) = persisted effects

  pub record Written (m m' : SessionMachine) (records : List SessionRecordV1) : Type 0 where
    pub envelope : SessionRecordV1
    pub fresh : get envelope.record_id m.seen_records ≡ none
    pub admitted : admit json m envelope ≡ ok m'
    pub alone : records ≡ envelope ∷ []
    pub own : Own m envelope.journal_record

  abbrev pub Writes : SessionMachine → SessionMachine × List (SessionEffect json) → Type 0
  Writes m (m', effects) = ((m' ≡ m) × (persisted effects ≡ [])) ⊎ Written m m' (persisted effects)

  admit_new-Writes :
      (m : SessionMachine) (envelope : SessionRecordV1) (effects : List (SessionEffect json))
      (found : Option SessionRecordV1)
      → get envelope.record_id m.seen_records ≡ found
      → persisted effects ≡ envelope ∷ []
      → Own m envelope.journal_record
      → Holds (Writes m) (admit_new json m envelope effects found)
  admit_new-Writes m envelope effects none fresh alone own =
      >>=-Holds (Writes m) (admit json m envelope) (λ m'. ok (m', effects))
        λ m' admitted. inr (record {
          envelope = envelope;
          fresh = fresh;
          admitted = admitted;
          alone = alone;
          own = own;
        })
  admit_new-Writes m envelope effects (some existing) fresh alone own = ground arith

  persist_record-Writes :
      (m : SessionMachine) (envelope : SessionRecordV1) (after : List (SessionEffect json))
      → persisted after ≡ []
      → Own m envelope.journal_record
      → Holds (Writes m) (persist_record json m envelope after)
  unfolding persist_record
  persist_record-Writes m envelope after quiet own =
      admit_new-Writes m envelope (persist envelope ∷ after) (get envelope.record_id m.seen_records)
        refl (ap (λ records. envelope ∷ records) quiet) own

  pub record_running-Writes :
      (m : SessionMachine) (record_id : RecordId) (turn_id : TurnId)
      (entry : SessionId → JournalRecord)
      → ((session_id : SessionId) → Own m (entry session_id))
      → Holds (Writes m) (record_running json m record_id turn_id entry)
  unfolding record_running
  record_running-Writes m record_id turn_id entry own =
      let envelope : SessionId → SessionRecordV1 = λ id. session_record_v1 record_id (entry id) in
      >>=-Holds (Writes m) (running_session_for m turn_id)
        (λ session. persist_record json m (envelope session.session_id) [])
        λ session _.
          persist_record-Writes m (envelope session.session_id) [] refl (own session.session_id)

  pub create_command-Writes :
      (m : SessionMachine) (record_id : RecordId) (session_id : SessionId) (binding : ModelBinding)
      (now : ℕ)
      → Holds (Writes m) (create_command json m record_id session_id binding now)
  unfolding create_command
  create_command-Writes m record_id session_id binding now =
      let envelope = session_record_v1 record_id (created session_id binding now) in
      >>-Holds (Writes m) (refuse_if (contains_key session_id m.sessions) recovery)
        (persist_record json m envelope []) λ _ _. persist_record-Writes m envelope [] refl refl

  pub resume_command-Writes :
      (m : SessionMachine) (record_id : RecordId) (session_id : SessionId) (now : ℕ)
      → Holds (Writes m) (resume_command json m record_id session_id now)
  unfolding resume_command
  resume_command-Writes m record_id session_id now =
      let envelope = session_record_v1 record_id (session_activated session_id now) in
      let after : List (SessionEffect json) = activated session_id ∷ [] in
      let known : Result RuntimeErrorCode (Unit {0}) =
        refuse_if (not (contains_key session_id m.sessions)) recovery in
      >>-Holds (Writes m) (refuse_if (has_running_turn m) workspace_busy)
        (known >> persist_record json m envelope after)
        λ _ _.
          >>-Holds (Writes m) known (persist_record json m envelope after)
            λ _ _. persist_record-Writes m envelope after refl tt

  pub finalize_command-Writes :
      (m : SessionMachine) (record_id : RecordId) (receipt : TurnReceipt) (content : Option String)
      (now : ℕ)
      → Holds (Writes m) (finalize_command json m record_id receipt content now)
  unfolding finalize_command
  finalize_command-Writes m record_id receipt content now =
      let envelope = session_record_v1 record_id (
        turn_terminal receipt.session_id receipt
          (message_of (is_unfinished receipt.outcome) content) now) in
      let after : List (SessionEffect json) = finalized receipt ∷ [] in
      >>-Holds (Writes m) (running_session_for m receipt.turn_id)
        (persist_record json m envelope after) λ _ _. persist_record-Writes m envelope after refl tt

  pub recover_command-Writes :
      (m : SessionMachine) (record_id : RecordId) (turn_id : TurnId) (content : Option String)
      (now : ℕ)
      → Holds (Writes m) (recover_command json m record_id turn_id content now)
  unfolding recover_command
  recover_command-Writes m record_id turn_id content now =
      let envelope : TurnReceipt → SessionRecordV1 = λ receipt.
        session_record_v1 record_id
          (recovery_applied receipt.session_id receipt (partial_message content) now) in
      >>=-Holds (Writes m) (interrupted_receipt m turn_id)
        (λ receipt. persist_record json m (envelope receipt) (finalized receipt ∷ []))
        λ receipt _. persist_record-Writes m (envelope receipt) (finalized receipt ∷ []) refl tt

  persisted-append :
      (effects : List (SessionEffect json)) (receipt : TurnReceipt)
      → persisted (effects ++ (finalized receipt ∷ [])) ≡ persisted effects
  persisted-append [] receipt = refl
  persisted-append (effect ∷ effects) receipt = ground (arith, persisted-append effects receipt)

  and_finalized-Writes :
      (m m' : SessionMachine) (effects : List (SessionEffect json)) (receipt : TurnReceipt)
      → Writes m (m', effects)
      → Writes m (m', effects ++ (finalized receipt ∷ []))
  and_finalized-Writes m m' effects receipt h =
      subst (λ records. ((m' ≡ m) × (records ≡ [])) ⊎ Written m m' records)
        (sym (persisted-append effects receipt)) h

  pub interrupt_command-Writes :
      (m : SessionMachine) (record_id : RecordId) (turn_id : TurnId) (content : Option String)
      (now : ℕ)
      → Holds (Writes m) (interrupt_command json m record_id turn_id content now)
  unfolding interrupt_command
  interrupt_command-Writes m record_id turn_id content now =
      let envelope : TurnReceipt → SessionRecordV1 = λ receipt.
        session_record_v1 record_id
          (turn_terminal receipt.session_id receipt (partial_message content) now) in
      let persisting : TurnReceipt
          → Result RuntimeErrorCode (SessionMachine × List (SessionEffect json)) =
        λ receipt. persist_record json m (envelope receipt) (abort_turn receipt.turn_id ∷ []) in
      >>=-Holds (Writes m) (interrupted_receipt m turn_id)
        (λ receipt. persisting receipt >>= and_finalized json receipt)
        λ receipt _.
          >>=-Holds (Writes m) (persisting receipt) (and_finalized json receipt) λ reply done.
            and_finalized-Writes m reply.0 reply.1 receipt (
              Holds-ok (Writes m) (persisting receipt) done (
                persist_record-Writes m (envelope receipt) (abort_turn receipt.turn_id ∷ []) refl
                  tt))
