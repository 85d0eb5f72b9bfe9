-- ===== src/Session/ToolCalls.antt =====
-- The tool calls after any commands of a workspace (crates/core/src/session.rs).
use wiki_coding.Prelude.{
  ◌≡◌, sym, subst, true, false, some, List, [], ◌∷◌, any, all, string_eq, get, arith, Holds-ok, inl,
  inr,
}
use wiki_coding.Protocol.Json.{Json}
use wiki_coding.Protocol.Event.{SessionId}
use wiki_coding.Protocol.Session.{SessionRecord, model_binding_eq}
use wiki_coding.Session.{SessionCommand, SessionMachine}
use wiki_coding.Session.Records.{apply_journal}
use wiki_coding.Session.Commands.{apply}
use wiki_coding.Session.Moves.{admit-succeeds, apply-Moved}
use wiki_coding.Protocol.Session.{turn_status_eq}
use wiki_coding.Session.Lawful.{lawful_turn}
use wiki_coding.Session.ToolLife.{LawfulIn}
use wiki_coding.Session.ToolHistory.{apply_journal-LawfulIn}
use wiki_coding.Session.Moves.{is_reading}
use wiki_coding.Session.Rebuild.{Run, run, step, empty_run}
use wiki_coding.Session.{new}

apply-LawfulIn :
    (json : Json) (m : SessionMachine) (command : SessionCommand)
    → is_reading command ≡ false
    → LawfulIn m.sessions
    → LawfulIn (apply json m command).0.sessions
apply-LawfulIn json m command own lawful = elim (apply-Moved json m command) [
  | inl same ↦ subst (λ m'. LawfulIn m'.sessions) (sym same) lawful
  | inr moved ↦
      let (changed, applied, remembered) =
        admit-succeeds json m (apply json m command).0 moved.envelope moved.admitted in
      subst (λ m'. LawfulIn m'.sessions) (sym remembered)
        (Holds-ok (λ m'. LawfulIn m'.sessions) (apply_journal json m moved.envelope.journal_record)
          applied
          (apply_journal-LawfulIn json m moved.envelope.journal_record (moved.own own) lawful))
]

run-LawfulIn :
    (json : Json) (r : Run json) (commands : List SessionCommand)
    → any is_reading commands ≡ false
    → LawfulIn r.machine.sessions
    → LawfulIn (run json r commands).machine.sessions
unfolding run
run-LawfulIn json r [] own lawful = lawful
run-LawfulIn json r (command ∷ commands) own lawful =
    run-LawfulIn json (step json r command) commands (ground arith)
      (apply-LawfulIn json r.machine command (ground arith) lawful)

-- After any commands on an empty workspace, none of which reads a record of a journal, and whatever
-- fails: in each turn of each session a tool call that was started had been approved, a result
-- stands at the call that it names, for the tool of that call, and is one that a call in its state
-- may have (without a start nothing succeeds or is indeterminate, and what was approved is not
-- rejected), and a turn that is over has a result for each of its calls.
pub tool_calls_lawful :
    (json : Json) (commands : List SessionCommand) (k : SessionId) (session : SessionRecord)
    → any is_reading commands ≡ false
    → get k (run json (empty_run json) commands).machine.sessions ≡ some session
    → all lawful_turn session.turns ≡ true
unfolding new get
tool_calls_lawful json commands k session own there =
    run-LawfulIn json (empty_run json) commands own (λ k session missing. cc) k session there
