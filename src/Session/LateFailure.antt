-- ===== src/Session/LateFailure.antt =====
-- What `start_turn` leaves behind when the request of its turn is refused
-- (crates/core/src/session.rs).
use wiki_coding.Prelude.{
  ℕ, ◌≡◌, refl, ap, ◌∙◌, true, false, none, some, List, [], ◌∷◌, ◌++◌, ◌||◌, any, find, ok, err,
  string_eq, get, update, insert, get-update, arith, String,
}
use wiki_coding.Protocol.Json.{Json}
use wiki_coding.Protocol.Event.{SessionId, TurnId}
use wiki_coding.Protocol.Session.{
  TurnRecord, SessionRecord, model_binding_eq, ModelBinding, turn_started,
}
use wiki_coding.Session.{SessionMachine, has_id, is_running}
use wiki_coding.Session.Journal.{Sessions, push_turn, is_same_turn, add_turn}
use wiki_coding.Session.Records.{apply_journal, apply_record}
use wiki_coding.Session.Machine.{admit}
use wiki_coding.Protocol.Session.{turn_status_eq}
use wiki_coding.Prelude.{is_blank, values}
use wiki_coding.Protocol.Runtime.{configuration, workspace_busy, output_settings}
use wiki_coding.Protocol.Session.{session_record_v1}
use wiki_coding.Session.{StartTurnInput, active_session, has_running_turn, all_turns}
use wiki_coding.Session.Machine.{opened, open_turn, start, begin_turn, new_turn}
use wiki_coding.Session.Request.{turn_request}
use wiki_coding.Session.Turns.{turn_in, find-push}

any-append :
    (turns others : List TurnRecord)
    → any is_running (turns ++ others) ≡ (any is_running turns || any is_running others)
any-append [] others = refl
any-append (turn ∷ turns) others = ground (arith, any-append turns others)

any-push :
    (turn : TurnRecord) (turns : List TurnRecord)
    → is_running turn ≡ true
    → any is_running (turns ++ (turn ∷ [])) ≡ true
any-push turn turns runs = any-append turns (turn ∷ []) ∙ ground arith

-- A running turn of one session is found among all.
running_somewhere :
    (k : SessionId) (session : SessionRecord) (sessions : Sessions)
    → get k sessions ≡ some session
    → any is_running session.turns ≡ true
    → any is_running (all_turns (values sessions)) ≡ true
unfolding get all_turns
running_somewhere k session [] there runs = cc
running_somewhere k session ((j, other) ∷ sessions) there runs =
    any-append other.turns (all_turns (values sessions))
    ∙ ground (arith, running_somewhere k session sessions)

-- The state with the new turn of an input, in a session.
abbrev with_turn : Json → SessionMachine → StartTurnInput → SessionRecord → SessionMachine
with_turn json m input session = record m {
  sessions = update session.session_id (push_turn (new_turn json input)) m.sessions;
  seen_records =
      insert input.record_id
        (session_record_v1 input.record_id
          (turn_started session.session_id session.binding (new_turn json input)))
        m.seen_records;
}

begin_turn-admits :
    (json : Json) (m : SessionMachine) (input : StartTurnInput) (session : SessionRecord)
    → has_running_turn m ≡ false
    → is_blank input.user_input ≡ false
    → active_session m ≡ some session
    → get session.session_id m.sessions ≡ some session
    → any (is_same_turn input.turn_id input.request_id) session.turns ≡ false
    → begin_turn json m input
      ≡ ok (
        session_record_v1 input.record_id
            (turn_started session.session_id session.binding (new_turn json input)),
        (session.binding, with_turn json m input session),
      )
unfolding begin_turn admit apply_record apply_journal add_turn
begin_turn-admits json m input session idle text active stored fresh = ground arith

turn_request-refuses :
    (json : Json) (m : SessionMachine) (turn : TurnRecord) (binding : ModelBinding) (tokens : ℕ)
    (session : SessionRecord)
    → active_session m ≡ some session
    → output_settings tokens ≡ err configuration
    → turn_request json m turn binding tokens ≡ err configuration
unfolding turn_request
turn_request-refuses json m turn binding tokens session active refused = ground arith

unused_id :
    (turn_id : TurnId) (request_id : String) (turns : List TurnRecord)
    → any (is_same_turn turn_id request_id) turns ≡ false
    → find (has_id turn_id) turns ≡ none
unused_id turn_id request_id [] fresh = refl
unused_id turn_id request_id (turn ∷ turns) fresh =
    ground (arith, unused_id turn_id request_id turns)

begin_turn-busy :
    (json : Json) (m : SessionMachine) (input : StartTurnInput)
    → has_running_turn m ≡ true
    → (start json m input).1 ≡ err workspace_busy
unfolding start begin_turn
begin_turn-busy json m input busy = ground arith

with_turn-there :
    (json : Json) (m : SessionMachine) (input : StartTurnInput) (session : SessionRecord)
    → get session.session_id m.sessions ≡ some session
    → get session.session_id (with_turn json m input session).sessions
      ≡ some (push_turn (new_turn json input) session)
with_turn-there json m input session stored =
    get-update session.session_id session.session_id (push_turn (new_turn json input)) m.sessions
    ∙ ground arith

with_turn-active :
    (json : Json) (m : SessionMachine) (input : StartTurnInput) (session : SessionRecord)
    → active_session m ≡ some session
    → m.active_session_id ≡ some session.session_id
    → get session.session_id m.sessions ≡ some session
    → active_session (with_turn json m input session)
      ≡ some (push_turn (new_turn json input) session)
unfolding active_session
with_turn-active json m input session active chosen stored =
    let there = with_turn-there json m input session stored in ground arith

start-refused :
    (json : Json) (m : SessionMachine) (input : StartTurnInput) (session : SessionRecord)
    → has_running_turn m ≡ false
    → is_blank input.user_input ≡ false
    → m.active_session_id ≡ some session.session_id
    → get session.session_id m.sessions ≡ some session
    → any (is_same_turn input.turn_id input.request_id) session.turns ≡ false
    → output_settings input.max_output_tokens ≡ err configuration
    → start json m input ≡ (with_turn json m input session, err configuration)
unfolding start active_session
start-refused json m input session idle text chosen stored fresh refused =
    let active : active_session m ≡ some session = ground arith in
    let begun = begin_turn-admits json m input session idle text active stored fresh in
    let asked =
      turn_request-refuses json (with_turn json m input session) (new_turn json input)
        session.binding input.max_output_tokens (push_turn (new_turn json input) session)
        (with_turn-active json m input session active chosen stored) refused in
    ap (open_turn json m input) begun
    ∙ ap
        (opened json (with_turn json m input session) (
          session_record_v1 input.record_id
            (turn_started session.session_id session.binding (new_turn json input))))
        asked

-- `start_turn` on an active session that stands under its own id, where no turn runs, the text is not
-- blank and the ids are new, with a limit of output tokens that the settings refuse: it answers a
-- configuration error, but the turn stays in the session as a running turn, and any later start of a
-- turn on that state is refused as busy because of it.
pub late_failure_leaves_turn :
    (json : Json) (m : SessionMachine) (input later : StartTurnInput) (session : SessionRecord)
    → has_running_turn m ≡ false
    → is_blank input.user_input ≡ false
    → m.active_session_id ≡ some session.session_id
    → get session.session_id m.sessions ≡ some session
    → any (is_same_turn input.turn_id input.request_id) session.turns ≡ false
    → output_settings input.max_output_tokens ≡ err configuration
    → ((start json m input).1 ≡ err configuration)
      × (turn_in (start json m input).0.sessions session.session_id input.turn_id
          ≡ some (new_turn json input))
      × ((start json (start json m input).0 later).1 ≡ err workspace_busy)
unfolding turn_in has_running_turn
late_failure_leaves_turn json m input later session idle text chosen stored fresh refused =
    let done = start-refused json m input session idle text chosen stored fresh refused in
    let there = with_turn-there json m input session stored in
    let pushed = find-push input.turn_id (new_turn json input) session.turns in
    let unused = unused_id input.turn_id input.request_id session.turns fresh in
    let busy = begin_turn-busy json (with_turn json m input session) later (
      running_somewhere session.session_id (push_turn (new_turn json input) session)
        (with_turn json m input session).sessions there
        (any-push (new_turn json input) session.turns (ground arith))) in
    (
      ap (λ reply. reply.1) done,
      ap (λ reply. turn_in reply.0.sessions session.session_id input.turn_id) done ∙ ground arith,
      ap (λ reply. (start json reply.0 later).1) done ∙ busy,
    )
