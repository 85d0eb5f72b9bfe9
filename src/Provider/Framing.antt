-- ===== src/Provider/Framing.antt =====
-- Events as a server writes them, and where the decoder ends them (crates/provider/src/sse.rs).
use wiki_coding.Prelude.{
  ℕ, suc, Bool, true, false, ◌+◌, ◌≡◌, refl, sym, ap, ◌∙◌, nat_eq, some, List, [], ◌∷◌, ◌++◌,
  length, length-append, arith, ℕ_discrete,
}
use mathlib.Core.List.{append_assoc}
use wiki_coding.Provider.Sse.{
  Bytes, is_newline, blank_line_from, blank_line_end, data_field, is_utf8,
}

-- A line without an end of line in it.
abbrev pub Plain : Bytes → Type 0
Plain [] = Unit
Plain (byte ∷ bytes) = (is_newline byte ≡ false) × Plain bytes

-- Lines that can be sent: valid texts of one line each.
abbrev pub Sendable : List Bytes → Type 0
Sendable [] = Unit
Sendable (line ∷ rest) = Plain line × (is_utf8 line ≡ true) × Sendable rest

abbrev pub field : Bytes
field = data_field ++ 32 ∷ []

-- An event: each line of its data as a field, and a blank line.
unfoldable pub encode : List Bytes → Bytes
encode [] = 10 ∷ []
encode (line ∷ rest) = field ++ (line ++ 10 ∷ encode rest)

pub field-Plain : Plain field
unfolding ℕ_discrete
field-Plain = (refl, (refl, (refl, (refl, (refl, (refl, tt))))))

blank-byte :
    (index : ℕ) (previous : Bool) (byte : ℕ) (more : Bytes)
    → is_newline byte ≡ false
    → blank_line_from index previous (byte ∷ more) ≡ blank_line_from (suc index) false more
unfolding blank_line_from
blank-byte index previous byte [] plain = ground arith
blank-byte index previous byte (next ∷ more) plain = ground arith

blank-first :
    (index : ℕ) (more : Bytes)
    → blank_line_from index false (10 ∷ more) ≡ blank_line_from (suc index) true more
unfolding blank_line_from ℕ_discrete
blank-first index [] = refl
blank-first index (next ∷ more) = refl

blank-second :
    (index : ℕ) (more : Bytes) → blank_line_from index true (10 ∷ more) ≡ some (suc index)
unfolding blank_line_from ℕ_discrete
blank-second index [] = refl
blank-second index (next ∷ more) = refl

blank-Plain :
    (index : ℕ) (line more : Bytes)
    → Plain line
    → blank_line_from index false (line ++ more) ≡ blank_line_from (index + length line) false more
blank-Plain index [] more plain = ap (λ i. blank_line_from i false more) (omega arith)
blank-Plain index (byte ∷ line) more (this, others) =
    blank-byte index false byte (line ++ more) this
    ∙ blank-Plain (suc index) line more others
    ∙ ap (λ i. blank_line_from i false more) (omega arith)

blank-field :
    (index : ℕ) (previous : Bool) (more : Bytes)
    → blank_line_from index previous (field ++ more)
      ≡ blank_line_from (index + length field) false more
blank-field index previous more =
    blank-byte index previous 100 (97 ∷ 116 ∷ 97 ∷ 58 ∷ 32 ∷ more) (field-Plain.0)
    ∙ blank-Plain (suc index) (97 ∷ 116 ∷ 97 ∷ 58 ∷ 32 ∷ []) more (field-Plain.1)
    ∙ ap (λ i. blank_line_from i false more) (omega arith)

blank-encode :
    (index : ℕ) (ls : List Bytes) (more : Bytes)
    → Sendable ls
    → blank_line_from index true (encode ls ++ more) ≡ some (index + length (encode ls))
unfolding encode
blank-encode index [] more fine =
    let count : suc index ≡ index + 1 = omega arith in blank-second index more ∙ ap some count
blank-encode index (line ∷ rest) more (plain, valid, others) =
    let behind = 10 ∷ (encode rest ++ more) in
    let at = index + length field in
    let count : suc (at + length line) + length (encode rest)
        ≡ index + length (encode (line ∷ rest)) =
      omega (arith, length-append line (10 ∷ encode rest)) in
    ap (λ u. blank_line_from index true (field ++ u)) (append_assoc line (10 ∷ encode rest) more)
    ∙ blank-field index true (line ++ behind)
    ∙ blank-Plain at line behind plain
    ∙ blank-first (at + length line) (encode rest ++ more)
    ∙ blank-encode (suc (at + length line)) rest more others
    ∙ ap some count

pub blank_line_end-encode :
    (line : Bytes) (rest : List Bytes) (more : Bytes)
    → Sendable (line ∷ rest)
    → blank_line_end (encode (line ∷ rest) ++ more) ≡ some (length (encode (line ∷ rest)))
unfolding blank_line_end encode
blank_line_end-encode line rest more fine =
    let behind = (line ++ 10 ∷ encode rest) ++ more in
    let count : 0 + length (encode (line ∷ rest)) ≡ length (encode (line ∷ rest)) = omega arith in
    blank-field 0 false behind
    ∙ sym (blank-field 0 true behind)
    ∙ blank-encode 0 (line ∷ rest) more fine
    ∙ ap some count
