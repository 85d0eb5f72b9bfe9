-- ===== src/Session/Running.antt =====
-- How many turns run, and how writes to the sessions change it (crates/core/src/session.rs).
use text.Mathlib.TextEquality.{path_by_compare}
use wiki_coding.Prelude.{
  ℕ, ◌+◌, ◌≤◌, ◌≡◌, refl, Bool, true, none, some, List, [], ◌∷◌, find, update_first, count_if,
  count_if-append, ◌==◌, string_eq, get, update, values, map_values, insert, arith, Bool-cases, inl,
  inr,
}
use wiki_coding.Protocol.Event.{SessionId}
use wiki_coding.Protocol.Session.{TurnRecord, SessionRecord, model_binding_eq, turn_status_eq}
use wiki_coding.Session.{is_running, all_turns}
use wiki_coding.Session.Journal.{Sessions}

abbrev pub running_in : SessionRecord → ℕ
running_in session = count_if is_running session.turns

-- The turns that run, in all the sessions.
unfoldable pub running_turns : Sessions → ℕ
unfolding all_turns
running_turns sessions = count_if is_running (all_turns (values sessions))

running_turns-cons :
    (k : SessionId) (session : SessionRecord) (sessions : Sessions)
    → running_turns ((k, session) ∷ sessions) ≡ running_in session + running_turns sessions
unfolding running_turns all_turns
running_turns-cons k session sessions =
    count_if-append is_running session.turns (all_turns (values sessions))

pub running_turns-update :
    (session_id : SessionId) (change : SessionRecord → SessionRecord) (sessions : Sessions)
    (extra : ℕ)
    → ((session : SessionRecord)
        → get session_id sessions ≡ some session
        → running_in (change session) ≤ running_in session + extra)
    → running_turns (update session_id change sessions) ≤ running_turns sessions + extra
unfolding update get
running_turns-update session_id change [] extra bound = omega arith
running_turns-update session_id change ((k, session) ∷ sessions) extra bound =
    let at_head = running_turns-cons k session sessions in
    let changed = running_turns-cons k (change session) sessions in
    let kept = running_turns-cons k session (update session_id change sessions) in
    elim (Bool-cases (session_id == k)) [
      | inl hit ↦ let here = bound session (ground arith) in ground arith
      | inr other ↦
          let rest =
            running_turns-update session_id change sessions extra
              λ found there. bound found (ground arith) in
          ground arith
    ]

pub running_turns-map_values :
    (change : SessionRecord → SessionRecord) (sessions : Sessions)
    → ((session : SessionRecord) → running_in (change session) ≡ running_in session)
    → running_turns (map_values change sessions) ≡ running_turns sessions
unfolding map_values
running_turns-map_values change [] same = refl
running_turns-map_values change ((k, session) ∷ sessions) same =
    let before = running_turns-cons k session sessions in
    let after = running_turns-cons k (change session) (map_values change sessions) in
    let rest = running_turns-map_values change sessions same in ground (arith, same session)

pub running_turns-insert :
    (session_id : SessionId) (session : SessionRecord) (sessions : Sessions)
    → get session_id sessions ≡ none
    → session.turns ≡ []
    → running_turns (insert session_id session sessions) ≡ running_turns sessions
unfolding insert get count_if
running_turns-insert session_id session [] fresh quiet =
    let made = running_turns-cons session_id session [] in ground arith
running_turns-insert session_id session ((k, other) ∷ sessions) fresh quiet =
    let before = running_turns-cons k other sessions in
    let front = running_turns-cons session_id session ((k, other) ∷ sessions) in
    let behind = running_turns-cons k other (insert session_id session sessions) in
    ground (arith, path_by_compare session_id k, running_turns-insert session_id session sessions)

-- A change of the turn that runs, which does not start another.
pub running_in-update_first :
    (p : TurnRecord → Bool) (change : TurnRecord → TurnRecord) (turns : List TurnRecord)
    (turn : TurnRecord)
    → find p turns ≡ some turn
    → is_running turn ≡ true
    → count_if is_running (update_first p change turns) ≤ count_if is_running turns
unfolding count_if
running_in-update_first p change [] turn found runs = omega arith
running_in-update_first p change (other ∷ turns) turn found runs =
    ground (arith, running_in-update_first p change turns turn)
