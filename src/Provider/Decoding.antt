-- ===== src/Provider/Decoding.antt =====
-- What the decoder makes of an event (crates/provider/src/sse.rs).
use wiki_coding.Prelude.{
  ℕ, zero, suc, Bool, true, false, ◌&&◌, ◌≡◌, refl, sym, ap, ◌∙◌, ◌==◌, nat_eq, Option, none, some,
  List, [], ◌∷◌, ◌++◌, leb, ok, arith, ℕ_discrete,
}
use wiki_coding.Provider.Sse.{
  Bytes, is_utf8, utf8_from, lead, replace_crlf, replace_cr, lines, strip_prefix, data_line,
  data_lines, join, decode_event,
}
use wiki_coding.Provider.Framing.{Plain, Sendable, field, field-Plain, encode}

and-keeps : (x y z : Bool) → (y ≡ true → z ≡ true) → (x && y) ≡ true → (x && z) ≡ true
and-keeps true y z keeps h = keeps h
and-keeps false y z keeps h = h

-- The bytes behind a first byte.
abbrev behind : Option (ℕ × ℕ × ℕ) → Bytes → Bool
behind none bytes = false
behind (some (more, low, high)) bytes = utf8_from more low high bytes

utf8-first :
    (low high byte : ℕ) (bytes : Bytes)
    → utf8_from zero low high (byte ∷ bytes) ≡ behind (lead byte) bytes
unfolding utf8_from
utf8-first low high byte bytes = first_of (lead byte)
  where
    first_of :
        (o : Option (ℕ × ℕ × ℕ))
        → (elim o [
          | none ↦ false
          | some (more, next_low, next_high) ↦ utf8_from more next_low next_high bytes
        ])
          ≡ behind o bytes
    first_of none = refl
    first_of (some range) = refl

behind-append :
    (o : Option (ℕ × ℕ × ℕ)) (a b : Bytes)
    → ((more low high : ℕ)
        → utf8_from more low high a ≡ true
        → utf8_from more low high (a ++ b) ≡ true)
    → behind o a ≡ true
    → behind o (a ++ b) ≡ true
behind-append none a b goes_on first = cc
behind-append (some (more, low, high)) a b goes_on first = goes_on more low high first

utf8-append :
    (more low high : ℕ) (a b : Bytes)
    → utf8_from more low high a ≡ true
    → is_utf8 b ≡ true
    → utf8_from more low high (a ++ b) ≡ true
unfolding utf8_from is_utf8
utf8-append zero low high [] [] first second = refl
utf8-append zero low high [] (byte ∷ b) first second = second
utf8-append (suc more) low high [] b first second = cc
utf8-append zero low high (byte ∷ a) b first second =
    utf8-first low high byte (a ++ b)
    ∙ behind-append (lead byte) a b (λ more low' high' h. utf8-append more low' high' a b h second)
        (sym (utf8-first low high byte a) ∙ first)
utf8-append (suc more) low high (byte ∷ a) b first second =
    and-keeps (leb low byte && leb byte high) (utf8_from more 0x80 0xbf a)
      (utf8_from more 0x80 0xbf (a ++ b)) (λ h. utf8-append more 0x80 0xbf a b h second) first

encode-Utf8 : (ls : List Bytes) → Sendable ls → is_utf8 (encode ls) ≡ true
unfolding is_utf8 utf8_from lead encode ℕ_discrete
encode-Utf8 [] fine = refl
encode-Utf8 (line ∷ rest) (plain, valid, others) =
    utf8-append zero 0x80 0xbf line (10 ∷ encode rest) valid (encode-Utf8 rest others)

-- Without a carriage return, nothing is replaced.
abbrev NoReturn : Bytes → Type 0
NoReturn [] = Unit
NoReturn (byte ∷ bytes) = (byte == 13 ≡ false) × NoReturn bytes

replace_crlf-NoReturn : (bytes : Bytes) → NoReturn bytes → replace_crlf bytes ≡ bytes
unfolding replace_crlf
replace_crlf-NoReturn [] clear = refl
replace_crlf-NoReturn (byte ∷ []) clear = refl
replace_crlf-NoReturn (byte ∷ (next ∷ bytes)) (this, others) =
    ground (arith, replace_crlf-NoReturn (next ∷ bytes) others)

replace_cr-NoReturn : (bytes : Bytes) → NoReturn bytes → replace_cr bytes ≡ bytes
unfolding replace_cr
replace_cr-NoReturn [] clear = refl
replace_cr-NoReturn (byte ∷ bytes) (this, others) = ground (arith, replace_cr-NoReturn bytes others)

Plain-NoReturn : (line more : Bytes) → Plain line → NoReturn more → NoReturn (line ++ more)
Plain-NoReturn [] more plain clear = clear
Plain-NoReturn (byte ∷ line) more (this, others) clear =
    (ground arith, Plain-NoReturn line more others clear)

encode-NoReturn : (ls : List Bytes) → Sendable ls → NoReturn (encode ls)
unfolding encode ℕ_discrete
encode-NoReturn [] fine = (refl, tt)
encode-NoReturn (line ∷ rest) (plain, valid, others) =
    Plain-NoReturn field (line ++ 10 ∷ encode rest) field-Plain
      (Plain-NoReturn line (10 ∷ encode rest) plain (refl, encode-NoReturn rest others))

lines-Plain : (line more : Bytes) → Plain line → lines (line ++ 10 ∷ more) ≡ line ∷ lines more
unfolding lines ℕ_discrete
lines-Plain [] more plain = refl
lines-Plain (byte ∷ line) more (this, others) = ground (arith, lines-Plain line more others)

data_line-field : (line : Bytes) → data_line (field ++ line) ≡ some line
unfolding data_line strip_prefix ℕ_discrete
data_line-field line = refl

field_line-Plain : (line : Bytes) → Plain line → Plain (field ++ line)
unfolding ℕ_discrete
field_line-Plain line plain = (refl, (refl, (refl, (refl, (refl, (refl, plain))))))

data-encode : (ls : List Bytes) → Sendable ls → data_lines (lines (encode ls)) ≡ ls
unfolding encode lines data_lines data_line strip_prefix ℕ_discrete
data-encode [] fine = refl
data-encode (line ∷ rest) (plain, valid, others) =
    ap data_lines (lines-Plain (field ++ line) (encode rest) (field_line-Plain line plain))
    ∙ ap (λ more. line ∷ more) (data-encode rest others)

-- An event that was encoded is decoded to its data.
pub decode-encode :
    (line : Bytes) (rest : List Bytes)
    → Sendable (line ∷ rest)
    → decode_event (encode (line ∷ rest)) ≡ ok (some (join (line ∷ rest)))
unfolding decode_event
decode-encode line rest fine =
    let bytes = encode (line ∷ rest) in
    let clear = encode-NoReturn (line ∷ rest) fine in
    rw (
      encode-Utf8 (line ∷ rest) fine,
      replace_crlf-NoReturn bytes clear,
      replace_cr-NoReturn bytes clear,
      data-encode (line ∷ rest) fine,
    )
