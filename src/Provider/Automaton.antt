-- ===== src/Provider/Automaton.antt =====
-- A reference for the filter that reads one character after another and keeps no more than the start
-- of a tag (crates/provider/src/reasoning_filter.rs).
use Prim.Native.Char.{Char}
use wiki_coding.Prelude.{◌==◌, nat_eq, List, [], ◌∷◌, ◌++◌, map, if◌then◌else◌}
use wiki_coding.Provider.Filter.{FilterMode, visible, reasoning, lower, begins, chars}

-- What the reader of the answer is shown: a character, or that reasoning began.
pub data Token : Type 0 where
  shown : Char → Token
  filtered : Token

abbrev pub tag_start : Char
tag_start = "<"

abbrev pub tag_rest : FilterMode → List Char
unfolding chars
tag_rest visible = chars "think>"
tag_rest reasoning = chars "/think>"

abbrev pub tag_of : FilterMode → List Char
tag_of mode = tag_start ∷ tag_rest mode

abbrev pub other_mode : FilterMode → FilterMode
other_mode visible = reasoning
other_mode reasoning = visible

-- What the end of a tag shows, and what other characters do.
abbrev pub mark : FilterMode → List Token
mark visible = filtered ∷ []
mark reasoning = []

abbrev pub show : FilterMode → List Char → List Token
show visible cs = map shown cs
show reasoning cs = []

-- The mode and the characters that may be the start of a tag.
abbrev pub Place : Type 0
Place = FilterMode × List Char

abbrev pub prepend : List Token → Place × List Token → Place × List Token
prepend tokens (place, more) = (place, tokens ++ more)

unfoldable pub read_one : FilterMode → List Char → Char → Place × List Token
read_one mode kept c =
    let next = kept ++ c ∷ [] in
    if begins (tag_of mode) next
    then ((other_mode mode, []), mark mode)
    else if begins next (tag_of mode)
    then ((mode, next), [])
    else if lower c == lower tag_start
    then ((mode, c ∷ []), show mode kept)
    else ((mode, []), show mode next)

unfoldable pub read : Place → List Char → Place × List Token
read place [] = (place, [])
read (mode, kept) (c ∷ text) =
    let (next, tokens) = read_one mode kept c in prepend tokens (read next text)
