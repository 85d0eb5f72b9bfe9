-- ===== src/Provider/Scanning.antt =====
-- The search for a tag, and for the start of one at the end of a text, as one walk over the text
-- (crates/provider/src/reasoning_filter.rs).
use Prim.Native.Char.{Char}
use wiki_coding.Prelude.{
  ℕ, zero, suc, true, false, ◌&&◌, ◌-◌, ◌≤◌, ◌≡◌, refl, ap, min, leb, ◌==◌, nat_eq, Option, none,
  some, List, [], ◌∷◌, length, take, if◌then◌else◌, arith, Bool-cases, le-or-lt, inl, inr,
}
use wiki_coding.Provider.Filter.{
  lower, eq_ignore_ascii_case, begins, find_ascii_case_insensitive, longest_from,
  longest_suffix_matching_tag_prefix,
}

-- A tag is found behind some characters, or the text ends without one: behind some characters there
-- is only the start of a tag.
pub data Scan : Type 0 where
  found held : ℕ → Scan

abbrev pub shift : Scan → Scan
shift (found n) = found (suc n)
shift (held n) = held (suc n)

module _ (tag : List Char) where
  unfoldable pub scan : List Char → Scan
  scan [] = held 0
  scan (c ∷ text) =
      let later = scan text in
      if begins tag (c ∷ text)
      then found 0
      else if begins (c ∷ text) tag
      then held 0
      else shift later

  -- What the code finds.
  abbrev pub outcome : List Char → Option ℕ → Scan
  outcome text (some n) = found n
  outcome text none = held (length text - longest_suffix_matching_tag_prefix text tag)

  pub begins-length : (part text : List Char) → begins part text ≡ true → length part ≤ length text
  unfolding begins
  begins-length [] text h = omega arith
  begins-length (a ∷ part) [] h = cc
  begins-length (a ∷ part) (b ∷ text) h = ground (arith, begins-length part text)

  begins-whole :
      (part text : List Char)
      → length part ≤ length text
      → eq_ignore_ascii_case part (take (length part) text) ≡ begins part text
  unfolding begins eq_ignore_ascii_case
  begins-whole [] text fits = refl
  begins-whole (a ∷ part) [] fits = ground arith
  begins-whole (a ∷ part) (b ∷ text) fits =
      ap (λ more. lower a == lower b && more) (begins-whole part text (omega arith))

  longest_from-cons :
      (c : Char) (text : List Char) (n : ℕ)
      → n ≤ length text
      → longest_from (c ∷ text) tag n ≡ longest_from text tag n
  unfolding longest_from
  longest_from-cons c text zero fits = refl
  longest_from-cons c text (suc n) fits =
      let further : suc (length text) - suc n ≡ suc (length text - suc n) = omega arith in
      rw (further, longest_from-cons c text n (omega arith))

  longest_from-bound : (text : List Char) (n : ℕ) → longest_from text tag n ≤ n
  unfolding longest_from
  longest_from-bound text zero = omega arith
  longest_from-bound text (suc n) = ground (arith, longest_from-bound text n)

  pub begins-back :
      (part text : List Char)
      → length part ≡ length text
      → begins part text ≡ true
      → begins text part ≡ true
  unfolding begins
  begins-back [] [] same h = refl
  begins-back [] (b ∷ text) same h = ground arith
  begins-back (a ∷ part) [] same h = ground arith
  begins-back (a ∷ part) (b ∷ text) same h = ground (arith, begins-back part text)

  find-short :
      (text : List Char)
      → suc (length text) ≤ length tag
      → find_ascii_case_insensitive text tag ≡ none
  unfolding find_ascii_case_insensitive
  find-short [] short = refl
  find-short (c ∷ text) short =
      ground (arith, begins-length tag (c ∷ text), find-short text (omega arith))

  -- A text that is the start of a tag is kept whole.
  longest-whole :
      (c : Char) (text : List Char)
      → begins (c ∷ text) tag ≡ true
      → suc (suc (length text)) ≤ length tag
      → longest_suffix_matching_tag_prefix (c ∷ text) tag ≡ suc (length text)
  unfolding longest_suffix_matching_tag_prefix longest_from
  longest-whole c text starts short =
      let limit : min (suc (length text)) (length tag - 1) ≡ suc (length text) = omega arith in
      let all : suc (length text) - suc (length text) ≡ 0 = omega arith in
      rw (limit, all, begins-whole (c ∷ text) tag (omega arith), starts)

  -- A character that starts nothing changes nothing.
  longest-cons :
      (c : Char) (text : List Char)
      → begins (c ∷ text) tag ≡ false
      → longest_suffix_matching_tag_prefix (c ∷ text) tag
        ≡ longest_suffix_matching_tag_prefix text tag
  unfolding longest_suffix_matching_tag_prefix longest_from
  longest-cons c text apart = elim (Bool-cases (leb (suc (length text)) (length tag - 1))) [
    | inl fits ↦
        let limit : min (suc (length text)) (length tag - 1) ≡ suc (length text) = ground arith in
        let shorter : min (length text) (length tag - 1) ≡ length text = ground arith in
        let all : suc (length text) - suc (length text) ≡ 0 = omega arith in
        rw (
          limit,
          shorter,
          all,
          begins-whole (c ∷ text) tag (ground arith),
          apart,
          longest_from-cons c text (length text) (omega arith),
        )
    | inr over ↦
        let limit : min (suc (length text)) (length tag - 1) ≡ length tag - 1 = ground arith in
        let shorter : min (length text) (length tag - 1) ≡ length tag - 1 = ground arith in
        rw (limit, shorter, longest_from-cons c text (length tag - 1) (ground arith))
  ]

  longest-bound : (text : List Char) → longest_suffix_matching_tag_prefix text tag ≤ length text
  unfolding longest_suffix_matching_tag_prefix
  longest-bound text = omega (arith, longest_from-bound text (min (length text) (length tag - 1)))

  start-IsShort :
      (c : Char) (text : List Char)
      → begins tag (c ∷ text) ≡ false
      → begins (c ∷ text) tag ≡ true
      → suc (suc (length text)) ≤ length tag
  start-IsShort c text apart starts = elim (le-or-lt (length tag) (suc (length text))) [
    | inl long ↦
        let whole : suc (length text) ≡ length tag =
          omega (arith, begins-length (c ∷ text) tag starts) in
        cc (begins-back (c ∷ text) tag whole starts)
    | inr short ↦ omega arith
  ]

  outcome-cons :
      (c : Char) (text : List Char) (result : Option ℕ)
      → begins (c ∷ text) tag ≡ false
      → outcome (c ∷ text) (elim result [ none ↦ none | some n ↦ some (suc n) ])
        ≡ shift (outcome text result)
  outcome-cons c text (some n) apart = refl
  outcome-cons c text none apart =
      ap held (omega (arith, longest-cons c text apart, longest-bound text))

  -- The code's search is the walk.
  pub scan_lem :
      (text : List Char) → outcome text (find_ascii_case_insensitive text tag) ≡ scan text
  unfolding scan find_ascii_case_insensitive
  scan_lem [] = ap held (omega arith)
  scan_lem (c ∷ text) = elim (Bool-cases (begins tag (c ∷ text))) [
    | inl here ↦ rw here
    | inr apart ↦ elim (Bool-cases (begins (c ∷ text) tag)) [
      | inl starts ↦
          let short = start-IsShort c text apart starts in
          let none_later = find-short text (omega arith) in
          let all_kept : suc (length text) - longest_suffix_matching_tag_prefix (c ∷ text) tag ≡ 0 =
            omega (arith, longest-whole c text starts short) in
          rw (apart, starts, none_later, all_kept)
      | inr other ↦ rw (
        apart,
        other,
        outcome-cons c text (find_ascii_case_insensitive text tag) other,
        scan_lem text,
      )
    ]
  ]
