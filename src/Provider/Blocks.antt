-- ===== src/Provider/Blocks.antt =====
-- What is shown of a text with a block of reasoning (crates/provider/src/reasoning_filter.rs).
use Prim.Native.Char.{Char}
use wiki_coding.Prelude.{
  String, false, ◌≡◌, refl, sym, ap, ◌∙◌, ◌==◌, nat_eq, List, [], ◌∷◌, ◌++◌, map, arith, ℕ_discrete,
}
use wiki_coding.Provider.Filter.{
  FilterMode, visible, reasoning, lower, begins, chars, open_tag, close_tag,
}
use wiki_coding.Provider.Automaton.{
  shown, filtered, tag_start, tag_of, other_mode, mark, show, prepend, read_one, read,
}
use wiki_coding.Provider.Starts.{Apart}
use wiki_coding.Provider.Walks.{prepend-show, prepend-nothing, prepend-empty}
use wiki_coding.Provider.Chunks.{seen}
use wiki_coding.Provider.Cutting.{accept_all, fresh_filter, joined, filter_reads_whole}

read_one-other_char :
    (mode : FilterMode) (c : Char)
    → lower c == lower tag_start ≡ false
    → read_one mode [] c ≡ ((mode, []), show mode (c ∷ []))
unfolding read_one begins
read_one-other_char mode c apart = ground arith

read-Apart :
    (mode : FilterMode) (cs text : List Char)
    → Apart cs
    → read (mode, []) (cs ++ text) ≡ prepend (show mode cs) (read (mode, []) text)
unfolding read
read-Apart mode [] text apart = sym (prepend-nothing mode (read (mode, []) text))
read-Apart mode (c ∷ cs) text (this, others) =
    ap (λ r. prepend r.1 (read r.0 (cs ++ text))) (read_one-other_char mode c this)
    ∙ ap (prepend (show mode (c ∷ []))) (read-Apart mode cs text others)
    ∙ sym (prepend-show mode (c ∷ []) cs (read (mode, []) text))

read-tag :
    (mode : FilterMode) (text : List Char)
    → read (mode, []) (tag_of mode ++ text) ≡ prepend (mark mode) (read (other_mode mode, []) text)
unfolding read read_one begins lower chars ℕ_discrete
read-tag visible text = refl
read-tag reasoning text = refl

-- A text with a block of reasoning in it: what stands before the block is shown, then one mark that
-- reasoning was left out, then what the filter shows of the text behind the block; nothing of the
-- block itself. The text before the block and the block hold no further `<`, and the deltas may cut
-- anywhere, also within a tag.
pub block_hidden :
    (deltas : List String) (before thought behind : List Char)
    → joined deltas ≡ before ++ (open_tag ++ (thought ++ (close_tag ++ behind)))
    → Apart before
    → Apart thought
    → seen (accept_all fresh_filter deltas)
      ≡ prepend (map shown before) (prepend (filtered ∷ []) (read (visible, []) behind))
unfolding chars
block_hidden deltas before thought behind text clear_before clear_thought =
    filter_reads_whole deltas
    ∙ ap (read (visible, [])) text
    ∙ read-Apart visible before (open_tag ++ (thought ++ (close_tag ++ behind))) clear_before
    ∙ ap (prepend (map shown before)) (
        read-tag visible (thought ++ (close_tag ++ behind))
        ∙ ap (prepend (filtered ∷ [])) (
            read-Apart reasoning thought (close_tag ++ behind) clear_thought
            ∙ prepend-empty (read (reasoning, []) (close_tag ++ behind))
            ∙ read-tag reasoning behind
            ∙ prepend-empty (read (visible, []) behind)))
