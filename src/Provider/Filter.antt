-- ===== src/Provider/Filter.antt =====
-- `ChatReasoningFilter`: crates/provider/src/reasoning_filter.rs. The texts are lists of characters:
-- the tags are ASCII, so a window of bytes is a tag just where a window of characters is.
use Prim.Native.Char.{Char, code}
use wiki_coding.Prelude.{
  ℕ, zero, suc, String, Bool, true, false, ◌&&◌, ◌+◌, ◌-◌, min, leb, ◌==◌, nat_eq, Option, none,
  some, List, [], ◌∷◌, ◌++◌, length, take, drop, if◌then◌else◌,
}
use wiki_coding.Protocol.Event.{StreamEvent, visible_text_delta, reasoning_filtered, terminal}

-- The characters of a text, and the text of characters.
unfoldable pub chars : String → List Char
chars String.[] = []
chars (String.◌∷◌ c s) = c ∷ chars s

unfoldable pub text_of : List Char → String
text_of [] = String.[]
text_of (c ∷ cs) = String.◌∷◌ c (text_of cs)

pub data FilterMode : Type 0 where
  visible reasoning : FilterMode

abbrev pub open_tag : List Char
unfolding chars
open_tag = chars "<think>"

abbrev pub close_tag : List Char
unfolding chars
close_tag = chars "</think>"

pub record ChatReasoningFilter : Type 0 where
  pub mode : FilterMode
  pub pending : List Char

-- `to_ascii_lowercase` of a character, by its number.
unfoldable pub lower : Char → ℕ
lower c = let n = code c in if leb b'A' n && leb n b'Z' then n + 32 else n

-- `eq_ignore_ascii_case`, and the same of a text's beginning.
unfoldable pub eq_ignore_ascii_case : List Char → List Char → Bool
eq_ignore_ascii_case [] [] = true
eq_ignore_ascii_case [] (b ∷ text) = false
eq_ignore_ascii_case (a ∷ part) [] = false
eq_ignore_ascii_case (a ∷ part) (b ∷ text) = lower a == lower b && eq_ignore_ascii_case part text

unfoldable pub begins : List Char → List Char → Bool
begins [] text = true
begins (a ∷ part) [] = false
begins (a ∷ part) (b ∷ text) = lower a == lower b && begins part text

-- `windows(needle.len()).position(..)`.
unfoldable pub find_ascii_case_insensitive : List Char → List Char → Option ℕ
find_ascii_case_insensitive [] needle = none
find_ascii_case_insensitive (c ∷ text) needle =
    let later = find_ascii_case_insensitive text needle in
    if begins needle (c ∷ text)
    then some 0
    else (elim later [ none ↦ none | some n ↦ some (suc n) ])

-- `(1..=limit).rev().find(..)`, from a length down.
unfoldable pub longest_from : List Char → List Char → ℕ → ℕ
longest_from value tag zero = 0
longest_from value tag (suc n) =
    let shorter = longest_from value tag n in
    if eq_ignore_ascii_case (drop (length value - suc n) value) (take (suc n) tag)
    then suc n
    else shorter

unfoldable pub longest_suffix_matching_tag_prefix : List Char → List Char → ℕ
longest_suffix_matching_tag_prefix value tag =
    longest_from value tag (min (length value) (length tag - 1))

unfoldable pub push_visible : List Char → List StreamEvent → List StreamEvent
push_visible [] events = events
push_visible (c ∷ cs) events = visible_text_delta (text_of (c ∷ cs)) ∷ events

-- The loop of `accept_content`, with the events that it pushes, on fuel.
unfoldable pub filter_loop : ℕ → FilterMode → List Char → ChatReasoningFilter × List StreamEvent
filter_loop zero mode pending = (record { mode = mode; pending = pending }, [])
filter_loop (suc fuel) visible pending = elim (find_ascii_case_insensitive pending open_tag) [
  | some index ↦
      let (after, events) = filter_loop fuel reasoning (drop (index + length open_tag) pending) in
      (after, push_visible (take index pending) (reasoning_filtered ∷ events))
  | none ↦
      let retained = longest_suffix_matching_tag_prefix pending open_tag in
      let visible_len = length pending - retained in
      (
        record { mode = visible; pending = drop visible_len pending },
        push_visible (take visible_len pending) [],
      )
]
filter_loop (suc fuel) reasoning pending = elim (find_ascii_case_insensitive pending close_tag) [
  | some index ↦ filter_loop fuel visible (drop (index + length close_tag) pending)
  | none ↦
      let retained = longest_suffix_matching_tag_prefix pending close_tag in
      (record { mode = reasoning; pending = drop (length pending - retained) pending }, [])
]

-- Each round but the last takes a tag away, so one round for each character and one more are enough.
unfoldable pub accept_content :
    ChatReasoningFilter → List Char → ChatReasoningFilter × List StreamEvent
accept_content filter delta =
    let text = filter.pending ++ delta in filter_loop (suc (length text)) filter.mode text

unfoldable pub finish : ChatReasoningFilter → ChatReasoningFilter
finish filter = record filter { pending = [] }

unfoldable pub accept : ChatReasoningFilter → StreamEvent → ChatReasoningFilter × List StreamEvent
accept filter (visible_text_delta delta) = accept_content filter (chars delta)
accept filter (terminal outcome) = (finish filter, terminal outcome ∷ [])
accept filter event = (filter, event ∷ [])
