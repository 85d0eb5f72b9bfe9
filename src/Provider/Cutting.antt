-- ===== src/Provider/Cutting.antt =====
-- The filter on a text that comes in deltas (crates/provider/src/reasoning_filter.rs).
use Prim.Native.Char.{Char}
use wiki_coding.Prelude.{
  suc, String, true, ◌≤◌, ◌≡◌, refl, sym, ap, subst, ◌∙◌, ◌==◌, nat_eq, List, [], ◌∷◌, ◌++◌, map,
  length, arith, if-keeps,
}
use mathlib.Core.List.{append_assoc}
use wiki_coding.Protocol.Event.{
  StreamEvent, visible_text_delta, reasoning_filtered, tool_call_fragments, usage, terminal,
}
use wiki_coding.Provider.Filter.{
  FilterMode, visible, reasoning, ChatReasoningFilter, lower, begins, chars, accept_content, accept,
}
use wiki_coding.Provider.Scanning.{outcome}
use wiki_coding.Provider.Automaton.{
  Token, shown, filtered, tag_start, tag_of, other_mode, Place, prepend, read_one, read,
}
use wiki_coding.Provider.Walks.{
  read-after, start_alone, next-IsShort, tag-IsLong, prepend-append, prepend-empty,
}
use wiki_coding.Provider.Chunks.{place, seen, tokens_of, filter_loop-reads}

-- A place between two deltas: what is kept is the start of the tag that the mode waits for.
pub record Between (mode : FilterMode) (kept : List Char) : Type 0 where
  pub start : begins kept (tag_of mode) ≡ true
  pub short : suc (length kept) ≤ length (tag_of mode)

accept_content-reads :
    (filter : ChatReasoningFilter) (delta : List Char)
    → Between filter.mode filter.pending
    → seen (accept_content filter delta) ≡ read (place filter) delta
unfolding accept_content begins
accept_content-reads filter delta between =
    let text = filter.pending ++ delta in
    filter_loop-reads (suc (length text)) filter.mode text (omega arith)
    ∙ read-after filter.mode [] text refl (omega (arith, tag-IsLong filter.mode))
    ∙ sym (read-after filter.mode filter.pending delta between.start between.short)

fresh-Between : (mode : FilterMode) → Between mode []
unfolding begins
fresh-Between mode = record { start = refl; short = omega (arith, tag-IsLong mode) }

abbrev Kept : Place → Type 0
Kept (mode, kept) = Between mode kept

read_one-Kept :
    (mode : FilterMode) (kept : List Char) (c : Char)
    → Between mode kept
    → Kept (read_one mode kept c).0
unfolding read_one
read_one-Kept mode kept c between =
    if-keeps (λ (r : Place × List Token). Kept r.0) (begins (tag_of mode) (kept ++ c ∷ []))
      (λ whole. fresh-Between (other_mode mode))
      (λ other.
        if-keeps (λ (r : Place × List Token). Kept r.0) (begins (kept ++ c ∷ []) (tag_of mode))
          (λ more. record {
            start = more;
            short = next-IsShort mode kept c between.short other more;
          })
          (λ broken.
            if-keeps (λ (r : Place × List Token). Kept r.0) (lower c == lower tag_start)
              (λ again. record { start = start_alone mode c again; short = tag-IsLong mode })
              (λ apart. fresh-Between mode)))

read-Kept : (from : Place) (text : List Char) → Kept from → Kept (read from text).0
unfolding read
read-Kept from [] kept = kept
read-Kept (mode, kept) (c ∷ text) between =
    read-Kept (read_one mode kept c).0 text (read_one-Kept mode kept c between)

read-append :
    (from : Place) (a b : List Char)
    → read from (a ++ b) ≡ prepend (read from a).1 (read (read from a).0 b)
unfolding read
read-append from [] b = sym (prepend-empty (read from b))
read-append (mode, kept) (c ∷ a) b =
    let (next, tokens) = read_one mode kept c in
    ap (prepend tokens) (read-append next a b)
    ∙ sym (prepend-append tokens (read next a).1 (read (read next a).0 b))

-- The filter at its start, and on one delta after another.
abbrev pub fresh_filter : ChatReasoningFilter
fresh_filter = record { mode = visible; pending = [] }

unfoldable pub accept_all :
    ChatReasoningFilter → List String → ChatReasoningFilter × List StreamEvent
accept_all filter [] = (filter, [])
accept_all filter (delta ∷ deltas) =
    let (next, events) = accept filter (visible_text_delta delta) in
    let (last, later) = accept_all next deltas in (last, events ++ later)

-- The whole text of an answer.
abbrev pub joined : List String → List Char
joined [] = []
joined (delta ∷ deltas) = chars delta ++ joined deltas

tokens_of-append : (a b : List StreamEvent) → tokens_of (a ++ b) ≡ tokens_of a ++ tokens_of b
unfolding tokens_of
tokens_of-append [] b = refl
tokens_of-append (visible_text_delta delta ∷ a) b =
    ap (λ more. map shown (chars delta) ++ more) (tokens_of-append a b)
    ∙ sym (append_assoc (map shown (chars delta)) (tokens_of a) (tokens_of b))
tokens_of-append (reasoning_filtered ∷ a) b = ap (λ more. filtered ∷ more) (tokens_of-append a b)
tokens_of-append (tool_call_fragments fragments ∷ a) b = tokens_of-append a b
tokens_of-append (usage used ∷ a) b = tokens_of-append a b
tokens_of-append (terminal outcome ∷ a) b = tokens_of-append a b

accept_all-reads :
    (filter : ChatReasoningFilter) (deltas : List String)
    → Between filter.mode filter.pending
    → seen (accept_all filter deltas) ≡ read (place filter) (joined deltas)
unfolding accept_all accept read tokens_of
accept_all-reads filter [] between = refl
accept_all-reads filter (delta ∷ deltas) between =
    let first = accept_content filter (chars delta) in
    let rest = accept_all first.0 deltas in
    let shows = accept_content-reads filter (chars delta) between in
    let goes_on =
      subst Kept (sym (ap (λ s. s.0) shows)) (read-Kept (place filter) (chars delta) between) in
    ap (λ tokens. (place rest.0, tokens)) (tokens_of-append first.1 rest.1)
    ∙ ap (prepend (tokens_of first.1)) (accept_all-reads first.0 deltas goes_on)
    ∙ ap (λ s. prepend s.1 (read s.0 (joined deltas))) shows
    ∙ sym (read-append (place filter) (chars delta) (joined deltas))

-- Whatever the deltas are, the filter shows what the reference shows of the whole text, which reads
-- one character after another, and stands where the reference does: in the same mode, with the same
-- characters kept back.
pub filter_reads_whole :
    (deltas : List String)
    → seen (accept_all fresh_filter deltas) ≡ read (visible, []) (joined deltas)
filter_reads_whole deltas = accept_all-reads fresh_filter deltas (fresh-Between visible)

-- Two ways to cut one text into deltas show the same and leave the filter in the same state.
pub cut_changes_nothing :
    (a b : List String)
    → joined a ≡ joined b
    → seen (accept_all fresh_filter a) ≡ seen (accept_all fresh_filter b)
cut_changes_nothing a b same =
    filter_reads_whole a ∙ ap (read (visible, [])) same ∙ sym (filter_reads_whole b)

kept-IsShort :
    (mode : FilterMode) (kept : List Char)
    → Between mode kept
    → (begins kept (tag_of mode) ≡ true) × (length kept ≤ 7)
unfolding chars
kept-IsShort visible kept between = (between.start, omega (arith, between.short))
kept-IsShort reasoning kept between = (between.start, omega (arith, between.short))

-- After any deltas, the filter keeps no more than seven characters back, and they are the start of
-- the tag that its mode waits for.
pub pending-IsBounded :
    (deltas : List String)
    → let filter = (accept_all fresh_filter deltas).0 in
      (begins filter.pending (tag_of filter.mode) ≡ true) × (length filter.pending ≤ 7)
pending-IsBounded deltas =
    let filter = (accept_all fresh_filter deltas).0 in
    kept-IsShort filter.mode filter.pending (
      subst Kept (sym (ap (λ s. s.0) (filter_reads_whole deltas)))
        (read-Kept (visible, []) (joined deltas) (fresh-Between visible)))
