-- ===== src/Provider/Tests.antt =====
-- The filter on a text in two deltas, and the theorems at it
-- (crates/provider/src/reasoning_filter.rs).
use wiki_coding.Prelude.{String, ◌≡◌, ◌≤◌, refl, true, List, [], ◌∷◌, map, length, ℕ_discrete}
use wiki_coding.Protocol.Event.{visible_text_delta, reasoning_filtered}
use wiki_coding.Provider.Filter.{
  visible, begins, chars, text_of, lower, find_ascii_case_insensitive, longest_from,
  longest_suffix_matching_tag_prefix, eq_ignore_ascii_case, push_visible, filter_loop,
  accept_content, accept,
}
use wiki_coding.Provider.Automaton.{shown, filtered, tag_of, prepend, read}
use wiki_coding.Provider.Chunks.{seen}
use wiki_coding.Provider.Cutting.{
  accept_all, fresh_filter, joined, filter_reads_whole, pending-IsBounded,
}
use wiki_coding.Provider.Blocks.{block_hidden}

abbrev deltas : List String
deltas = "Hi<THi" ∷ "nk>so</th" ∷ "ink> you" ∷ []

-- The events that the filter lets through.
events_shown :
    (accept_all fresh_filter deltas).1
    ≡ visible_text_delta "Hi" ∷ reasoning_filtered ∷ visible_text_delta " you" ∷ []
unfolding accept_all accept accept_content filter_loop push_visible find_ascii_case_insensitive
    longest_suffix_matching_tag_prefix longest_from eq_ignore_ascii_case begins lower chars text_of
    ℕ_discrete
events_shown = refl

filter_reads_whole_example :
    seen (accept_all fresh_filter deltas) ≡ read (visible, []) (joined deltas)
filter_reads_whole_example = filter_reads_whole deltas

pending-IsBounded_example :
    (begins
        (accept_all fresh_filter deltas).0.pending
        (tag_of (accept_all fresh_filter deltas).0.mode)
      ≡ true)
    × (length (accept_all fresh_filter deltas).0.pending ≤ 7)
pending-IsBounded_example = pending-IsBounded deltas

block_hidden_example :
    seen (accept_all fresh_filter ("a<thin" ∷ "k>b</think>c" ∷ []))
    ≡ prepend (map shown (chars "a")) (prepend (filtered ∷ []) (read (visible, []) (chars "c")))
unfolding chars lower ℕ_discrete
block_hidden_example =
    block_hidden ("a<thin" ∷ "k>b</think>c" ∷ []) (chars "a") (chars "b") (chars "c") refl
      (refl, tt) (refl, tt)
