-- ===== src/Provider/Chunks.antt =====
-- The loop of the filter shows what the reference reads (crates/provider/src/reasoning_filter.rs).
use Prim.Native.Char.{Char}
use wiki_coding.Prelude.{
  ℕ, zero, suc, ◌+◌, ◌-◌, ◌≤◌, ◌≡◌, refl, sym, ap, ◌∙◌, nat_eq, Option, none, some, List, [], ◌∷◌,
  ◌++◌, map, length, take, drop, length-drop, arith, Option-cases, inl, inr,
}
use mathlib.Core.List.{append_assoc, append-nil}
use wiki_coding.Protocol.Event.{StreamEvent, visible_text_delta, reasoning_filtered}
use wiki_coding.Provider.Filter.{
  FilterMode, visible, reasoning, ChatReasoningFilter, begins, chars, text_of, open_tag, close_tag,
  find_ascii_case_insensitive, longest_suffix_matching_tag_prefix, push_visible, filter_loop,
}
use wiki_coding.Provider.Scanning.{scan_lem, outcome}
use wiki_coding.Provider.Automaton.{
  Token, shown, filtered, tag_of, mark, show, Place, prepend, read,
}
use wiki_coding.Provider.Walks.{after, read-after, tag-IsLong, prepend-empty}

-- What the events show.
unfoldable pub tokens_of : List StreamEvent → List Token
tokens_of [] = []
tokens_of (visible_text_delta delta ∷ events) = map shown (chars delta) ++ tokens_of events
tokens_of (reasoning_filtered ∷ events) = filtered ∷ tokens_of events
tokens_of (event ∷ events) = tokens_of events

abbrev pub place : ChatReasoningFilter → Place
place filter = (filter.mode, filter.pending)

abbrev pub seen : ChatReasoningFilter × List StreamEvent → Place × List Token
seen (filter, events) = (place filter, tokens_of events)

chars-text_of : (cs : List Char) → chars (text_of cs) ≡ cs
unfolding chars text_of
chars-text_of [] = refl
chars-text_of (c ∷ cs) = ap (λ more. c ∷ more) (chars-text_of cs)

tokens_of-push_visible :
    (cs : List Char) (events : List StreamEvent)
    → tokens_of (push_visible cs events) ≡ map shown cs ++ tokens_of events
unfolding tokens_of push_visible
tokens_of-push_visible [] events = refl
tokens_of-push_visible (c ∷ cs) events =
    ap (λ text. map shown text ++ tokens_of events) (chars-text_of (c ∷ cs))

find-nonempty :
    (text tag : List Char) (n : ℕ) → find_ascii_case_insensitive text tag ≡ some n → 1 ≤ length text
unfolding find_ascii_case_insensitive
find-nonempty [] tag n e = cc
find-nonempty (c ∷ text) tag n e = omega arith

-- The walk over a text, by what the code finds.
read-found :
    (mode : FilterMode) (text : List Char) (result : Option ℕ)
    → find_ascii_case_insensitive text (tag_of mode) ≡ result
    → read (mode, []) text ≡ after mode text (outcome (tag_of mode) text result)
unfolding begins
read-found mode text result e =
    read-after mode [] text refl (omega (arith, tag-IsLong mode))
    ∙ ap (after mode text) (sym (scan_lem (tag_of mode) text))
    ∙ ap (λ r. after mode text (outcome (tag_of mode) text r)) e

seen-kept :
    (filter : ChatReasoningFilter) (cs : List Char)
    → seen (filter, push_visible cs []) ≡ (place filter, map shown cs)
unfolding tokens_of
seen-kept filter cs =
    ap (λ tokens. (place filter, tokens)) (tokens_of-push_visible cs [] ∙ append-nil (map shown cs))

seen-opened :
    (cs : List Char) (r : ChatReasoningFilter × List StreamEvent)
    → seen (r.0, push_visible cs (reasoning_filtered ∷ r.1))
      ≡ prepend (show visible cs ++ mark visible) (seen r)
unfolding tokens_of
seen-opened cs (filter, events) =
    ap (λ tokens. (place filter, tokens))
      (tokens_of-push_visible cs (reasoning_filtered ∷ events)
        ∙ sym (append_assoc (map shown cs) (filtered ∷ []) (tokens_of events)))

rest-IsShorter :
    (mode : FilterMode) (text : List Char) (index fuel : ℕ)
    → find_ascii_case_insensitive text (tag_of mode) ≡ some index
    → length text ≤ fuel
    → suc (length (drop (index + length (tag_of mode)) text)) ≤ fuel
rest-IsShorter mode text index fuel e enough = omega (
  arith,
  length-drop (index + length (tag_of mode)) text,
  find-nonempty text (tag_of mode) index e,
  tag-IsLong mode,
)

pub filter_loop-reads :
    (fuel : ℕ) (mode : FilterMode) (text : List Char)
    → suc (length text) ≤ fuel
    → seen (filter_loop fuel mode text) ≡ read (mode, []) text
unfolding filter_loop chars tokens_of
filter_loop-reads zero mode text enough = absurd (omega arith)
filter_loop-reads (suc fuel) visible text enough =
    elim (Option-cases (find_ascii_case_insensitive text (tag_of visible))) [
      | inl e ↦
          let here : find_ascii_case_insensitive text open_tag ≡ none = e in
          let visible_len = length text - longest_suffix_matching_tag_prefix text open_tag in
          rw (here, filter_loop)
            (seen-kept (record { mode = visible; pending = drop visible_len text })
                (take visible_len text)
              ∙ sym (read-found visible text none e))
      | inr (index, e) ↦
          let here : find_ascii_case_insensitive text open_tag ≡ some index = e in
          let rest = drop (index + length open_tag) text in
          rw (here, filter_loop)
            (seen-opened (take index text) (filter_loop fuel reasoning rest)
              ∙ ap (prepend (show visible (take index text) ++ mark visible)) (
                  filter_loop-reads fuel reasoning rest
                    (rest-IsShorter visible text index fuel e (omega arith)))
              ∙ sym (read-found visible text (some index) e))
    ]
filter_loop-reads (suc fuel) reasoning text enough =
    elim (Option-cases (find_ascii_case_insensitive text (tag_of reasoning))) [
      | inl e ↦
          let here : find_ascii_case_insensitive text close_tag ≡ none = e in
          rw (here, filter_loop) (sym (read-found reasoning text none e))
      | inr (index, e) ↦
          let here : find_ascii_case_insensitive text close_tag ≡ some index = e in
          let rest = drop (index + length close_tag) text in
          rw (here, filter_loop)
            (filter_loop-reads fuel visible rest
                (rest-IsShorter reasoning text index fuel e (omega arith))
              ∙ sym (prepend-empty (read (visible, []) rest))
              ∙ sym (read-found reasoning text (some index) e))
    ]
