-- ===== src/Session/Active.antt =====
-- At most one session is active, and it is the one that the machine takes
-- (crates/core/src/session.rs).
use wiki_coding.Prelude.{
  ℕ, ◌≡◌, refl, sym, ap, subst, ◌∙◌, not, some, List, [], ◌∷◌, ok, refuse_if, string_eq, get,
  contains_key, map_values, insert, get-insert, get-map_values, arith, Holds, >>-Holds, Holds-ok,
  Option-cases, inl, inr,
}
use wiki_coding.Protocol.Json.{Json}
use wiki_coding.Protocol.Event.{SessionId}
use wiki_coding.Protocol.Runtime.{recovery}
use wiki_coding.Protocol.Session.{
  SessionRecord, JournalRecord, SessionStatus, model_binding_eq, session_created, session_activated,
}
use wiki_coding.Session.{SessionCommand, SessionMachine}
use wiki_coding.Session.Journal.{create_session, activate_session, activate}
use wiki_coding.Session.Records.{apply_journal}
use wiki_coding.Session.Commands.{apply}
use wiki_coding.Session.Moves.{admit-succeeds, apply-Moved}
use wiki_coding.Session.Labels.{label, apply_journal-label}
use wiki_coding.Session.{active_session, get_some, new}
use wiki_coding.Session.Rebuild.{Run, run, step, empty_run}

-- A session stands under its own id, and an active one is the one that the machine takes.
abbrev pub CoherentAt : SessionMachine → SessionId → SessionRecord → Type 0
CoherentAt m k session =
    (session.session_id ≡ k)
    × (session.status ≡ SessionStatus.active → m.active_session_id ≡ some k)

abbrev pub Coherent : SessionMachine → Type 0
Coherent m =
    (k : SessionId) (session : SessionRecord)
    → get k m.sessions ≡ some session
    → CoherentAt m k session

create_session-Coherent :
    (m : SessionMachine) (session : SessionRecord)
    → Coherent m
    → Holds Coherent (create_session m session)
unfolding create_session contains_key
create_session-Coherent m session coherent =
    let archive : SessionRecord → SessionRecord =
      λ existing. record existing { status = SessionStatus.archived } in
    let made : SessionMachine = record m {
      sessions = insert session.session_id session (map_values archive m.sessions);
      active_session_id = some session.session_id;
    } in
    >>-Holds Coherent (refuse_if (contains_key session.session_id m.sessions) recovery) (ok made)
      λ _ _ k found there.
        let read = get-insert session.session_id k session (map_values archive m.sessions) in
        let same = get-map_values k archive m.sessions in
        elim (Option-cases (get k m.sessions)) [
          | inl missing ↦ (ground arith, λ is_active. ground arith)
          | inr (old, was) ↦
              let before = coherent k old was in
              let filed = before.0 in (ground arith, λ is_active. ground arith)
        ]

activate_session-Coherent :
    (m : SessionMachine) (session_id : SessionId) (now : ℕ)
    → Coherent m
    → Holds Coherent (activate_session m session_id now)
unfolding activate_session contains_key
activate_session-Coherent m session_id now coherent =
    let made : SessionMachine = record m {
      sessions = map_values (activate session_id now) m.sessions;
      active_session_id = some session_id;
    } in
    >>-Holds Coherent (refuse_if (not (contains_key session_id m.sessions)) recovery) (ok made)
      λ _ _ k found there.
        let same = get-map_values k (activate session_id now) m.sessions in
        elim (Option-cases (get k m.sessions)) [
          | inl missing ↦ (ground arith, λ is_active. ground arith)
          | inr (old, was) ↦
              let before = coherent k old was in
              let filed = before.0 in (ground arith, λ is_active. ground arith)
        ]

Labelled-Coherent :
    (m m' : SessionMachine)
    → ((k : SessionId)
        → (label k m'.sessions ≡ label k m.sessions) × (m'.active_session_id ≡ m.active_session_id))
    → Coherent m
    → Coherent m'
unfolding label
Labelled-Coherent m m' labelled coherent k session there =
    let (same, chosen) = labelled k in
    elim (Option-cases (get k m.sessions)) [
      | inl missing ↦ (ground arith, λ is_active. ground arith)
      | inr (old, was) ↦
          let before = coherent k old was in
          let filed = before.0 in (ground arith, λ is_active. chosen ∙ before.1 (ground arith))
    ]

apply_journal-Coherent :
    (json : Json) (m m' : SessionMachine) (entry : JournalRecord)
    → apply_journal json m entry ≡ ok m'
    → Coherent m
    → Coherent m'
unfolding apply_journal
apply_journal-Coherent json m m' (session_created session) applied coherent =
    Holds-ok Coherent (create_session m session) applied
      (create_session-Coherent m session coherent)
apply_journal-Coherent json m m' (session_activated session_id now) applied coherent =
    Holds-ok Coherent (activate_session m session_id now) applied
      (activate_session-Coherent m session_id now coherent)
apply_journal-Coherent json m m' entry applied coherent =
    Labelled-Coherent m m'
      (λ k.
        Holds-ok
          (λ after.
            (label k after.sessions ≡ label k m.sessions)
            × (after.active_session_id ≡ m.active_session_id))
          (apply_journal json m entry) applied (apply_journal-label json k m entry refl))
      coherent

apply-Coherent :
    (json : Json) (m : SessionMachine) (command : SessionCommand)
    → Coherent m
    → Coherent (apply json m command).0
apply-Coherent json m command coherent = elim (apply-Moved json m command) [
  | inl same ↦ subst Coherent (sym same) coherent
  | inr moved ↦
      let (changed, applied, remembered) =
        admit-succeeds json m (apply json m command).0 moved.envelope moved.admitted in
      subst Coherent (sym remembered)
        (apply_journal-Coherent json m changed moved.envelope.journal_record applied coherent)
]

run-Coherent :
    (json : Json) (r : Run json) (commands : List SessionCommand)
    → Coherent r.machine
    → Coherent (run json r commands).machine
unfolding run
run-Coherent json r [] coherent = coherent
run-Coherent json r (command ∷ commands) coherent =
    run-Coherent json (step json r command) commands
      (apply-Coherent json r.machine command coherent)

-- After any commands on an empty workspace, with the replay of any records among them and whatever
-- fails: a session that is marked active is the one that the machine takes, so there is at most one.
pub active_session_unique :
    (json : Json) (commands : List SessionCommand) (k : SessionId) (session : SessionRecord)
    → get k (run json (empty_run json) commands).machine.sessions ≡ some session
    → session.status ≡ SessionStatus.active
    → active_session (run json (empty_run json) commands).machine ≡ some session
unfolding active_session new get
active_session_unique json commands k session there is_active =
    let coherent =
      run-Coherent json (empty_run json) commands (λ k session missing. cc) k session there in
    ap (λ id. get_some id (run json (empty_run json) commands).machine.sessions)
      (coherent.1 is_active)
    ∙ there
