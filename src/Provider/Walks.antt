-- ===== src/Provider/Walks.antt =====
-- The walk for a tag finds what the reference reads (crates/provider/src/reasoning_filter.rs).
use Prim.Native.Char.{Char}
use wiki_coding.Prelude.{
  drop-append, suc, true, false, ◌+◌, ◌≤◌, ◌≡◌, refl, sym, ap, ◌∙◌, ◌==◌, nat_eq, List, [], ◌∷◌,
  ◌++◌, length, take, drop, length-append, arith, Bool-cases, le-or-lt, inl, inr,
}
use mathlib.Core.List.{append_assoc, append-nil}
use wiki_coding.Provider.Filter.{FilterMode, visible, reasoning, lower, begins, chars}
use wiki_coding.Provider.Scanning.{Scan, found, held, shift, scan, begins-length, begins-back}
use wiki_coding.Provider.Automaton.{
  Token, shown, tag_start, tag_rest, tag_of, other_mode, mark, show, Place, prepend, read_one, read,
}
use wiki_coding.Provider.Starts.{
  Apart, begins-Apart, begins-append, begins-shorter, begins-within, tag_rest-Apart,
}

show-append :
    (mode : FilterMode) (a b : List Char) → show mode (a ++ b) ≡ show mode a ++ show mode b
show-append visible [] b = refl
show-append visible (c ∷ a) b = ap (λ more. shown c ∷ more) (show-append visible a b)
show-append reasoning a b = refl

pub prepend-append :
    (a b : List Token) (r : Place × List Token) → prepend (a ++ b) r ≡ prepend a (prepend b r)
prepend-append a b (place, more) = ap (λ tokens. (place, tokens)) (append_assoc a b more)

show-nothing : (mode : FilterMode) → show mode [] ≡ []
show-nothing visible = refl
show-nothing reasoning = refl

pub prepend-nothing : (mode : FilterMode) (r : Place × List Token) → prepend (show mode []) r ≡ r
prepend-nothing visible (place, more) = refl
prepend-nothing reasoning (place, more) = refl

pub prepend-show :
    (mode : FilterMode) (a b : List Char) (r : Place × List Token)
    → prepend (show mode (a ++ b)) r ≡ prepend (show mode a) (prepend (show mode b) r)
prepend-show mode a b r =
    ap (λ tokens. prepend tokens r) (show-append mode a b)
    ∙ prepend-append (show mode a) (show mode b) r

pub tag-IsLong : (mode : FilterMode) → 2 ≤ length (tag_of mode)
unfolding chars
tag-IsLong visible = omega arith
tag-IsLong reasoning = omega arith

pub prepend-empty : (r : Place × List Token) → prepend [] r ≡ r
prepend-empty (place, more) = refl

module _ (mode : FilterMode) where
  -- What is read of a text, by the result of the walk over it.
  abbrev pub after : List Char → Scan → Place × List Token
  after text (held n) = ((mode, drop n text), show mode (take n text))
  after text (found n) =
      prepend (show mode (take n text) ++ mark mode)
        (read (other_mode mode, []) (drop (n + length (tag_of mode)) text))

  -- A character that starts no tag is passed over.
  after-shift :
      (c : Char) (text : List Char) (s : Scan)
      → after (c ∷ text) (shift s) ≡ prepend (show mode (c ∷ [])) (after text s)
  after-shift c text (held n) =
      ap (λ tokens. ((mode, drop n text), tokens)) (show-append mode (c ∷ []) (take n text))
  after-shift c text (found n) =
      let count : suc n + length (tag_of mode) ≡ suc (n + length (tag_of mode)) = omega arith in
      let rest = read (other_mode mode, []) (drop (n + length (tag_of mode)) text) in
      let front : show mode (c ∷ take n text) ≡ show mode (c ∷ []) ++ show mode (take n text) =
        show-append mode (c ∷ []) (take n text) in
      rw (
        count,
        front,
        append_assoc (show mode (c ∷ [])) (show mode (take n text)) (mark mode),
        prepend-append (show mode (c ∷ [])) (show mode (take n text) ++ mark mode) rest,
      )

  scan-other_char :
      (c : Char) (text : List Char)
      → lower c == lower tag_start ≡ false
      → scan (tag_of mode) (c ∷ text) ≡ shift (scan (tag_of mode) text)
  unfolding scan begins
  scan-other_char c text apart = ground arith

  after-other_char :
      (c : Char) (text : List Char)
      → lower c == lower tag_start ≡ false
      → after (c ∷ text) (scan (tag_of mode) (c ∷ text))
        ≡ prepend (show mode (c ∷ [])) (after text (scan (tag_of mode) text))
  after-other_char c text apart =
      ap (after (c ∷ text)) (scan-other_char c text apart)
      ∙ after-shift c text (scan (tag_of mode) text)

  after-Apart :
      (kept text : List Char)
      → Apart kept
      → after (kept ++ text) (scan (tag_of mode) (kept ++ text))
        ≡ prepend (show mode kept) (after text (scan (tag_of mode) text))
  after-Apart [] text apart = sym (prepend-nothing mode (after text (scan (tag_of mode) text)))
  after-Apart (c ∷ kept) text (this, others) =
      after-other_char c (kept ++ text) this
      ∙ ap (prepend (show mode (c ∷ []))) (after-Apart kept text others)
      ∙ sym (prepend-show mode (c ∷ []) kept (after text (scan (tag_of mode) text)))

  start-Apart : (a : Char) (kept : List Char) → begins (a ∷ kept) (tag_of mode) ≡ true → Apart kept
  unfolding begins
  start-Apart a kept start = begins-Apart kept (tag_rest mode) (ground arith) (tag_rest-Apart mode)

  not_begun :
      (a : Char) (kept : List Char) (c : Char) (text : List Char)
      → suc (length (a ∷ kept)) ≤ length (tag_of mode)
      → begins (a ∷ (kept ++ c ∷ [])) (tag_of mode) ≡ false
      → (begins (tag_of mode) (a ∷ (kept ++ c ∷ text)) ≡ false)
        × (begins (a ∷ (kept ++ c ∷ text)) (tag_of mode) ≡ false)
  not_begun a kept c text short broken = (
    elim (Bool-cases (begins (tag_of mode) (a ∷ (kept ++ c ∷ text)))) [
      | inl e ↦ cc (begins-within (a ∷ kept) c text (tag_of mode) e short)
      | inr e ↦ e
    ],
    elim (Bool-cases (begins (a ∷ (kept ++ c ∷ text)) (tag_of mode))) [
      | inl e ↦ cc (begins-shorter (a ∷ kept) c text (tag_of mode) e)
      | inr e ↦ e
    ],
  )

  scan-broken :
      (a : Char) (kept : List Char) (c : Char) (text : List Char)
      → suc (length (a ∷ kept)) ≤ length (tag_of mode)
      → begins (a ∷ (kept ++ c ∷ [])) (tag_of mode) ≡ false
      → scan (tag_of mode) (a ∷ (kept ++ c ∷ text)) ≡ shift (scan (tag_of mode) (kept ++ c ∷ text))
  unfolding scan
  scan-broken a kept c text short broken =
      let (no_tag, no_start) = not_begun a kept c text short broken in rw (no_tag, no_start)

  -- The start of a tag that does not go on.
  after-broken :
      (kept : List Char) (c : Char) (text : List Char)
      → begins kept (tag_of mode) ≡ true
      → suc (length kept) ≤ length (tag_of mode)
      → begins (kept ++ c ∷ []) (tag_of mode) ≡ false
      → after (kept ++ c ∷ text) (scan (tag_of mode) (kept ++ c ∷ text))
        ≡ prepend (show mode kept) (after (c ∷ text) (scan (tag_of mode) (c ∷ text)))
  after-broken [] c text start short broken =
      sym (prepend-nothing mode (after (c ∷ text) (scan (tag_of mode) (c ∷ text))))
  after-broken (a ∷ kept) c text start short broken =
      ap (after (a ∷ (kept ++ c ∷ text))) (scan-broken a kept c text short broken)
      ∙ after-shift a (kept ++ c ∷ text) (scan (tag_of mode) (kept ++ c ∷ text))
      ∙ ap (prepend (show mode (a ∷ []))) (after-Apart kept (c ∷ text) (start-Apart a kept start))
      ∙ sym (prepend-show mode (a ∷ []) kept (after (c ∷ text) (scan (tag_of mode) (c ∷ text))))

  -- A whole tag.
  after-whole :
      (whole text : List Char)
      → begins (tag_of mode) whole ≡ true
      → length whole ≡ length (tag_of mode)
      → after (whole ++ text) (scan (tag_of mode) (whole ++ text))
        ≡ prepend (mark mode) (read (other_mode mode, []) text)
  unfolding scan begins
  after-whole [] text is_tag same = cc
  after-whole (a ∷ kept) text is_tag same =
      let here = begins-append (tag_of mode) (a ∷ kept) text is_tag in
      let count : 0 + length (tag_of mode) ≡ length (a ∷ kept) = omega (arith, same) in
      let behind : drop (0 + length (tag_of mode)) ((a ∷ kept) ++ text) ≡ text =
        ap (λ n. drop n ((a ∷ kept) ++ text)) count ∙ drop-append (a ∷ kept) text in
      rw (here, behind, show-nothing mode)

  -- A start of the tag at the end of the text.
  after-start :
      (kept : List Char)
      → begins kept (tag_of mode) ≡ true
      → suc (length kept) ≤ length (tag_of mode)
      → after kept (scan (tag_of mode) kept) ≡ ((mode, kept), [])
  unfolding scan
  after-start [] start short = ap (λ tokens. ((mode, []), tokens)) (show-nothing mode)
  after-start (a ∷ kept) start short = elim (Bool-cases (begins (tag_of mode) (a ∷ kept))) [
    | inl e ↦ absurd (omega (arith, begins-length (tag_of mode) (tag_of mode) (a ∷ kept) e))
    | inr e ↦ rw (e, start, show-nothing mode)
  ]

  -- The three ways to go on behind the start of a tag, each by what is read of the rest.
  goes_on :
      (kept : List Char) (c : Char) (text : List Char)
      → after ((kept ++ c ∷ []) ++ text) (scan (tag_of mode) ((kept ++ c ∷ []) ++ text))
        ≡ after (kept ++ c ∷ text) (scan (tag_of mode) (kept ++ c ∷ text))
  goes_on kept c text = ap (λ u. after u (scan (tag_of mode) u)) (append_assoc kept (c ∷ []) text)

  pub next-IsShort :
      (kept : List Char) (c : Char)
      → suc (length kept) ≤ length (tag_of mode)
      → begins (tag_of mode) (kept ++ c ∷ []) ≡ false
      → begins (kept ++ c ∷ []) (tag_of mode) ≡ true
      → suc (length (kept ++ c ∷ [])) ≤ length (tag_of mode)
  next-IsShort kept c short other start =
      elim (le-or-lt (length (tag_of mode)) (length (kept ++ c ∷ []))) [
        | inl long ↦ cc (
            begins-back (tag_of mode) (kept ++ c ∷ []) (tag_of mode)
              (omega (arith, length-append kept (c ∷ []))) start)
        | inr fits ↦ omega arith
      ]

  pub start_alone :
      (c : Char) → lower c == lower tag_start ≡ true → begins (c ∷ []) (tag_of mode) ≡ true
  unfolding begins
  start_alone c same = ground arith

  pub read-after :
      (kept text : List Char)
      → begins kept (tag_of mode) ≡ true
      → suc (length kept) ≤ length (tag_of mode)
      → read (mode, kept) text ≡ after (kept ++ text) (scan (tag_of mode) (kept ++ text))
  unfolding read read_one begins
  read-after kept [] start short =
      sym (after-start kept start short)
      ∙ sym (ap (λ u. after u (scan (tag_of mode) u)) (append-nil kept))
  read-after kept (c ∷ text) start short =
      let next = kept ++ c ∷ [] in
      elim (Bool-cases (begins (tag_of mode) next)) [
        | inl whole ↦
            let result : read (mode, kept) (c ∷ text)
                ≡ prepend (mark mode) (read (other_mode mode, []) text) =
              rw whole in
            let same : length next ≡ length (tag_of mode) = omega (
              arith,
              length-append kept (c ∷ []),
              begins-length (tag_of mode) (tag_of mode) next whole,
            ) in
            result ∙ sym (after-whole next text whole same) ∙ goes_on kept c text
        | inr other ↦ elim (Bool-cases (begins next (tag_of mode))) [
          | inl more ↦
              let result : read (mode, kept) (c ∷ text) ≡ prepend [] (read (mode, next) text) =
                rw (other, more) in
              result
              ∙ prepend-empty (read (mode, next) text)
              ∙ read-after next text more (next-IsShort kept c short other more)
              ∙ goes_on kept c text
          | inr broken ↦ elim (Bool-cases (lower c == lower tag_start)) [
            | inl again ↦
                let result : read (mode, kept) (c ∷ text)
                    ≡ prepend (show mode kept) (read (mode, c ∷ []) text) =
                  rw (other, broken, again) in
                result
                ∙ ap (prepend (show mode kept))
                    (read-after (c ∷ []) text (start_alone c again) (tag-IsLong mode))
                ∙ sym (after-broken kept c text start short broken)
            | inr apart ↦
                let result : read (mode, kept) (c ∷ text)
                    ≡ prepend (show mode next) (read (mode, []) text) =
                  rw (other, broken, apart) in
                result
                ∙ prepend-show mode kept (c ∷ []) (read (mode, []) text)
                ∙ ap (λ r. prepend (show mode kept) (prepend (show mode (c ∷ [])) r))
                    (read-after [] text refl (omega (arith, tag-IsLong mode)))
                ∙ ap (prepend (show mode kept)) (sym (after-other_char c text apart))
                ∙ sym (after-broken kept c text start short broken)
          ]
        ]
      ]
