-- ===== src/Sequence/Closing.antt =====
-- When a list of events is a closed stream, and what the reducer of crates/core/src/sequence.rs
-- makes of it.
use wiki_coding.Prelude.{
  ◌≡◌, refl, ap, none, some, List, [], ◌∷◌, ◌++◌, false, ok, err, if◌then◌else◌, ◌>>=◌,
}
use mathlib.Core.List.{append_assoc, append-nil}
use wiki_coding.Protocol.Event.{
  TerminalOutcome, duplicate_terminal, event_after_terminal, StreamEvent, terminal, is_terminal,
  reasoning_filtered, visible_text_delta, tool_call_fragments, usage,
}
use wiki_coding.Sequence.{StreamSequence, accept, accept_all}

-- `Open es`: no event of `es` is terminal. `Closed es o`: the last event of `es` is the terminal
-- one, with the outcome `o`, and it is the only one.
pub data Open : List StreamEvent → Type 0 where
  none_yet : Open []
  more : {e : StreamEvent} {es : List StreamEvent} → is_terminal e ≡ false → Open es → Open (e ∷ es)

pub data Closed : List StreamEvent → TerminalOutcome → Type 0 where
  last : (o : TerminalOutcome) (es : List StreamEvent) → es ≡ terminal o ∷ [] → Closed es o
  later :
      (e : StreamEvent) {es : List StreamEvent} {o : TerminalOutcome}
      → is_terminal e ≡ false
      → Closed es o
      → Closed (e ∷ es) o

-- The state after an open list of events.
abbrev pub reading : List StreamEvent → StreamSequence
reading es = record { events = es; terminal = none }

abbrev pub closed : List StreamEvent → TerminalOutcome → StreamSequence
closed es o = record { events = es; terminal = some o }

accept-reading :
    (pre : List StreamEvent) (e : StreamEvent)
    → is_terminal e ≡ false
    → accept (reading pre) e ≡ ok (reading (pre ++ e ∷ []))
unfolding accept is_terminal
accept-reading pre reasoning_filtered h = refl
accept-reading pre (terminal o) h = cc
accept-reading pre _ h = refl

accept-terminal :
    (pre : List StreamEvent) (o : TerminalOutcome)
    → accept (reading pre) (terminal o) ≡ ok (closed (pre ++ terminal o ∷ []) o)
unfolding accept
accept-terminal pre o = refl

pub accept_all-Open :
    (pre : List StreamEvent) {es : List StreamEvent}
    → Open es
    → accept_all (reading pre) es ≡ ok (reading (pre ++ es))
unfolding accept_all
accept_all-Open pre none_yet = rw (append-nil pre)
accept_all-Open pre (more {e = e} {es = es} h o) =
    rw (accept-reading pre e h, accept_all-Open (pre ++ e ∷ []) o, append_assoc pre (e ∷ []) es)

pub accept_all-closed :
    (pre : List StreamEvent) {es : List StreamEvent} {o : TerminalOutcome}
    → Closed es o
    → accept_all (reading pre) es ≡ ok (closed (pre ++ es) o)
unfolding accept_all
accept_all-closed pre (last o es e) = rw (e, accept-terminal pre o)
accept_all-closed pre (later e {es = es} h c) =
    rw (accept-reading pre e h, accept_all-closed (pre ++ e ∷ []) c, append_assoc pre (e ∷ []) es)

pub accept_all-append :
    (s : StreamSequence) (es fs : List StreamEvent)
    → accept_all s (es ++ fs) ≡ (accept_all s es >>= λ t. accept_all t fs)
unfolding accept_all
accept_all-append s [] fs = refl
accept_all-append s (e ∷ es) fs =
    elim (accept s e)
      as (λ r.
        (r >>= λ t. accept_all t (es ++ fs))
        ≡ ((r >>= λ t. accept_all t es) >>= λ t. accept_all t fs)) [
          | ok t ↦ accept_all-append t es fs
          | err c ↦ refl
        ]

-- After the terminal event any other is refused, a second terminal one by another error.
pub accept_all-after :
    (pre : List StreamEvent) (o : TerminalOutcome) (e : StreamEvent) (es : List StreamEvent)
    → accept_all (closed pre o) (e ∷ es)
      ≡ err (if is_terminal e then duplicate_terminal else event_after_terminal)
unfolding accept_all accept
accept_all-after pre o e es = refl

-- A list of events is open, or it is closed, or events follow a closed part of it.
pub data Shape (es : List StreamEvent) : Type 0 where
  is_open : Open es → Shape es
  is_closed : (o : TerminalOutcome) → Closed es o → Shape es
  has_more :
      (pre : List StreamEvent) (o : TerminalOutcome) (e : StreamEvent) (rest : List StreamEvent)
      → Closed pre o
      → es ≡ pre ++ e ∷ rest
      → Shape es

abbrev Shape-of_terminal : (o : TerminalOutcome) (es : List StreamEvent) → Shape (terminal o ∷ es)
Shape-of_terminal o [] = is_closed o (last o _ refl)
Shape-of_terminal o (e ∷ es) = has_more (terminal o ∷ []) o e es (last o _ refl) refl

abbrev Shape-of_other :
    (e : StreamEvent) (es : List StreamEvent) → is_terminal e ≡ false → Shape es → Shape (e ∷ es)
Shape-of_other e es h (is_open o) = is_open (more h o)
Shape-of_other e es h (is_closed o c) = is_closed o (later e h c)
Shape-of_other e es h (has_more pre o f rest c p) =
    has_more (e ∷ pre) o f rest (later e h c) (ap (◌∷◌ e) p)

unfoldable pub shape : (es : List StreamEvent) → Shape es
unfolding is_terminal
shape [] = is_open none_yet
shape (terminal o ∷ es) = Shape-of_terminal o es
shape (reasoning_filtered ∷ es) = Shape-of_other _ es refl (shape es)
shape (visible_text_delta d ∷ es) = Shape-of_other _ es refl (shape es)
shape (tool_call_fragments f ∷ es) = Shape-of_other _ es refl (shape es)
shape (usage u ∷ es) = Shape-of_other _ es refl (shape es)
