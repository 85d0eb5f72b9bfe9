-- ===== src/Session/Machine.antt =====
-- The commands of a session: `SessionMachine::apply` of crates/core/src/session.rs. `start_turn`
-- changes the state before it can fail, so a command returns the machine beside its result.
use wiki_coding.Prelude.{
  false, Option, none, some, List, [], ◌∷◌, any, Result, ok, err, refuse_if, ok_or, ◌>>=◌, ◌>>◌,
  ◌==◌, string_eq, get, insert, is_blank, if◌then◌else◌,
}
use wiki_coding.Protocol.Json.{Json}
use wiki_coding.Protocol.Runtime.{RuntimeErrorCode, recovery, workspace_busy, configuration, user}
use wiki_coding.Protocol.Session.{
  ModelBinding, TurnStatus, TurnRecord, SessionRecordV1, session_record_v1, session_record_eq,
  turn_started,
}
use wiki_coding.Session.{
  SessionMachine, SessionEffect, StartTurnInput, persist, start_turn, active_session,
  has_running_turn,
}
use wiki_coding.Session.Journal.{is_same_turn}
use wiki_coding.Session.Records.{apply_record}
use wiki_coding.Protocol.Request.{TurnRequest}
use wiki_coding.Session.Request.{turn_request}

module _ (json : Json) where
  abbrev pub Reply : Type 0
  Reply = Result RuntimeErrorCode (List (SessionEffect json))

  -- A command that fails before it changes anything.
  abbrev pub settle :
      SessionMachine
      → Result RuntimeErrorCode (SessionMachine × List (SessionEffect json))
      → SessionMachine × Reply
  settle m (ok (m', effects)) = (m', ok effects)
  settle m (err e) = (m, err e)

  -- `apply_record`, and the record is kept among those that were seen.
  unfoldable pub admit : SessionMachine → SessionRecordV1 → Result RuntimeErrorCode SessionMachine
  unfolding apply_record
  admit m envelope = do
    m' ← apply_record json m envelope
    ok (record m' { seen_records = insert envelope.record_id envelope m'.seen_records })

  -- A record whose id was seen: nothing happens where it is the same record.
  abbrev pub seen_again :
      SessionMachine
      → SessionRecordV1
      → SessionRecordV1
      → Result RuntimeErrorCode (SessionMachine × List (SessionEffect json))
  seen_again m existing envelope = if existing == envelope then ok (m, []) else err recovery

  abbrev pub admitted_with :
      List (SessionEffect json)
      → Result RuntimeErrorCode SessionMachine
      → Result RuntimeErrorCode (SessionMachine × List (SessionEffect json))
  admitted_with effects admitted = do m' ← admitted; ok (m', effects)

  abbrev pub admit_new :
      SessionMachine
      → SessionRecordV1
      → List (SessionEffect json)
      → Option SessionRecordV1
      → Result RuntimeErrorCode (SessionMachine × List (SessionEffect json))
  admit_new m envelope effects none = admitted_with effects (admit m envelope)
  admit_new m envelope effects (some existing) = seen_again m existing envelope

  -- `persist`, with the effects that the caller appends.
  unfoldable pub persist_record :
      SessionMachine
      → SessionRecordV1
      → List (SessionEffect json)
      → Result RuntimeErrorCode (SessionMachine × List (SessionEffect json))
  unfolding admit
  persist_record m envelope after =
      admit_new m envelope (persist envelope ∷ after) (get envelope.record_id m.seen_records)

  unfoldable pub replay_one :
      SessionMachine
      → SessionRecordV1
      → Result RuntimeErrorCode (SessionMachine × List (SessionEffect json))
  unfolding admit
  replay_one m envelope = admit_new m envelope [] (get envelope.record_id m.seen_records)

  abbrev pub new_turn : StartTurnInput → TurnRecord
  new_turn input = record {
    turn_id = input.turn_id;
    request_id = input.request_id;
    started_at_unix_ms = input.now_unix_ms;
    completed_at_unix_ms = none;
    retry_of = input.retry_of;
    status = TurnStatus.running;
    user_message = record { role = user; content = input.user_input; partial = false };
    assistant_message = none;
    usage = none;
    receipt = none;
    tool_invocations = [];
  }

  -- The tests of `start_turn`, the record that it makes and the state that holds it.
  unfoldable pub begin_turn :
      SessionMachine
      → StartTurnInput
      → Result RuntimeErrorCode (SessionRecordV1 × (ModelBinding × SessionMachine))
  unfolding has_running_turn active_session admit is_blank
  begin_turn m input = do
    refuse_if (has_running_turn m) workspace_busy
    refuse_if (is_blank input.user_input) configuration
    session ← ok_or (active_session m) recovery
    refuse_if (any (is_same_turn input.turn_id input.request_id) session.turns) recovery
    let envelope =
        session_record_v1 input.record_id
          (turn_started session.session_id session.binding (new_turn input))
    m' ← admit m envelope
    ok (envelope, (session.binding, m'))

  abbrev pub opened :
      SessionMachine
      → SessionRecordV1
      → Result RuntimeErrorCode (TurnRequest json)
      → SessionMachine × Reply
  opened m envelope (ok request) = (m, ok (persist envelope ∷ start_turn request ∷ []))
  opened m envelope (err e) = (m, err e)

  abbrev pub open_turn :
      SessionMachine
      → StartTurnInput
      → Result RuntimeErrorCode (SessionRecordV1 × (ModelBinding × SessionMachine))
      → SessionMachine × Reply
  open_turn m input (err e) = (m, err e)
  open_turn m input (ok (envelope, (binding, m'))) =
      opened m' envelope (turn_request json m' (new_turn input) binding input.max_output_tokens)

  unfoldable pub start : SessionMachine → StartTurnInput → SessionMachine × Reply
  unfolding begin_turn turn_request
  start m input = open_turn m input (begin_turn m input)
