-- ===== src/Provider/Starts.antt =====
-- Starts of a tag, and characters that start none (crates/provider/src/reasoning_filter.rs).
use Prim.Native.Char.{Char}
use wiki_coding.Prelude.{
  suc, true, false, ◌≤◌, ◌≡◌, refl, ◌==◌, nat_eq, List, [], ◌∷◌, ◌++◌, length, arith, ℕ_discrete,
}
use wiki_coding.Provider.Filter.{FilterMode, visible, reasoning, lower, begins, chars}
use wiki_coding.Provider.Automaton.{tag_start, tag_rest}

-- None of the characters is the first of a tag.
abbrev pub Apart : List Char → Type 0
Apart [] = Unit
Apart (c ∷ cs) = (lower c == lower tag_start ≡ false) × Apart cs

pub tag_rest-Apart : (mode : FilterMode) → Apart (tag_rest mode)
unfolding lower chars ℕ_discrete
tag_rest-Apart visible = (refl, (refl, (refl, (refl, (refl, (refl, tt))))))
tag_rest-Apart reasoning = (refl, (refl, (refl, (refl, (refl, (refl, (refl, tt)))))))

pub begins-Apart : (part text : List Char) → begins part text ≡ true → Apart text → Apart part
unfolding begins
begins-Apart [] text h apart = tt
begins-Apart (a ∷ part) [] h apart = cc
begins-Apart (a ∷ part) (b ∷ text) h (this, others) =
    (ground arith, begins-Apart part text (ground arith) others)

-- More text behind a start.
pub begins-append :
    (part text more : List Char) → begins part text ≡ true → begins part (text ++ more) ≡ true
unfolding begins
begins-append [] text more h = refl
begins-append (a ∷ part) [] more h = cc
begins-append (a ∷ part) (b ∷ text) more h = ground (arith, begins-append part text more)

pub begins-shorter :
    (kept : List Char) (c : Char) (text tag : List Char)
    → begins (kept ++ c ∷ text) tag ≡ true
    → begins (kept ++ c ∷ []) tag ≡ true
unfolding begins
begins-shorter [] c text [] h = cc
begins-shorter [] c text (b ∷ tag) h = ground arith
begins-shorter (a ∷ kept) c text [] h = cc
begins-shorter (a ∷ kept) c text (b ∷ tag) h = ground (arith, begins-shorter kept c text tag)

pub begins-within :
    (kept : List Char) (c : Char) (text tag : List Char)
    → begins tag (kept ++ c ∷ text) ≡ true
    → suc (length kept) ≤ length tag
    → begins (kept ++ c ∷ []) tag ≡ true
unfolding begins
begins-within [] c text [] h fits = ground arith
begins-within [] c text (b ∷ tag) h fits = ground arith
begins-within (a ∷ kept) c text [] h fits = ground arith
begins-within (a ∷ kept) c text (b ∷ tag) h fits = ground (arith, begins-within kept c text tag)
