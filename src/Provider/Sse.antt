-- ===== src/Provider/Sse.antt =====
-- `SseDecoder`: crates/provider/src/sse.rs. The buffer is a list of bytes; the data of an event is
-- given as the bytes of the text, which `std::str::from_utf8` has tested.
use wiki_coding.Prelude.{
  ℕ, zero, suc, Bool, true, false, not, ◌&&◌, ◌||◌, ltb, leb, ◌==◌, nat_eq, Option, none, some,
  List, [], ◌∷◌, ◌++◌, length, take, drop, is_empty, Result, ok, err, refuse_if, ◌>>=◌, ◌>>◌,
  if◌then◌else◌,
}
use wiki_coding.Protocol.Runtime.{RuntimeErrorCode, protocol_malformed_json}

abbrev pub Bytes : Type 0
Bytes = List ℕ

abbrev pub max_sse_event_bytes : ℕ
max_sse_event_bytes = 1048576

pub record SseDecoder : Type 0 where
  pub buffer : Bytes

abbrev pub is_newline : ℕ → Bool
is_newline byte = byte == 10 || byte == 13

-- The loop of `blank_line_end`: `\r\n` is one newline.
unfoldable pub blank_line_from : ℕ → Bool → Bytes → Option ℕ
blank_line_from index previous [] = none
blank_line_from index previous (byte ∷ []) =
    if is_newline byte && previous then some (suc index) else none
blank_line_from index previous (byte ∷ (next ∷ bytes)) = elim (byte == 13 && next == 10) [
  | true ↦ elim previous [
    | true ↦ some (suc (suc index))
    | false ↦ blank_line_from (suc (suc index)) true bytes
  ]
  | false ↦ elim (is_newline byte && previous) [
    | true ↦ some (suc index)
    | false ↦ blank_line_from (suc index) (is_newline byte) (next ∷ bytes)
  ]
]

unfoldable pub blank_line_end : Bytes → Option ℕ
blank_line_end bytes = blank_line_from 0 false bytes

-- `std::str::from_utf8`: by its first byte, a character has some more bytes, of which the first is in
-- a range.
unfoldable pub lead : ℕ → Option (ℕ × ℕ × ℕ)
lead byte =
    if ltb byte 0x80
    then some (0, 0x80, 0xbf)
    else if leb 0xc2 byte && leb byte 0xdf
    then some (1, 0x80, 0xbf)
    else if byte == 0xe0
    then some (2, 0xa0, 0xbf)
    else if byte == 0xed
    then some (2, 0x80, 0x9f)
    else if leb 0xe1 byte && leb byte 0xef
    then some (2, 0x80, 0xbf)
    else if byte == 0xf0
    then some (3, 0x90, 0xbf)
    else if leb 0xf1 byte && leb byte 0xf3
    then some (3, 0x80, 0xbf)
    else if byte == 0xf4
    then some (3, 0x80, 0x8f)
    else none

unfoldable pub utf8_from : ℕ → ℕ → ℕ → Bytes → Bool
utf8_from zero low high [] = true
utf8_from (suc more) low high [] = false
utf8_from zero low high (byte ∷ bytes) = elim (lead byte) [
  | none ↦ false
  | some (more, next_low, next_high) ↦ utf8_from more next_low next_high bytes
]
utf8_from (suc more) low high (byte ∷ bytes) =
    leb low byte && leb byte high && utf8_from more 0x80 0xbf bytes

unfoldable pub is_utf8 : Bytes → Bool
is_utf8 bytes = utf8_from 0 0x80 0xbf bytes

-- `replace("\r\n", "\n")` and `replace('\r', "\n")`.
unfoldable pub replace_crlf : Bytes → Bytes
replace_crlf [] = []
replace_crlf (byte ∷ []) = byte ∷ []
replace_crlf (byte ∷ (next ∷ bytes)) = elim (byte == 13 && next == 10) [
  | true ↦ 10 ∷ replace_crlf bytes
  | false ↦ byte ∷ replace_crlf (next ∷ bytes)
]

unfoldable pub replace_cr : Bytes → Bytes
replace_cr [] = []
replace_cr (byte ∷ bytes) = (if byte == 13 then 10 else byte) ∷ replace_cr bytes

-- `lines`: what ends in a newline, and a rest that is not empty.
abbrev pub in_front : ℕ → List Bytes → List Bytes
in_front byte [] = (byte ∷ []) ∷ []
in_front byte (line ∷ lines) = (byte ∷ line) ∷ lines

unfoldable pub lines : Bytes → List Bytes
lines [] = []
lines (byte ∷ bytes) =
    let rest = lines bytes in if byte == 10 then [] ∷ rest else in_front byte rest

unfoldable pub strip_prefix : Bytes → Bytes → Option Bytes
strip_prefix [] text = some text
strip_prefix (byte ∷ prefix) [] = none
strip_prefix (byte ∷ prefix) (c ∷ text) =
    let rest = strip_prefix prefix text in if byte == c then rest else none

-- `data:`.
abbrev pub data_field : Bytes
data_field = 100 ∷ 97 ∷ 116 ∷ 97 ∷ 58 ∷ []

abbrev pub or_whole : Option Bytes → Bytes → Bytes
or_whole none text = text
or_whole (some rest) text = rest

-- The value of a line of data: the test for a comment (`:`) is before the test for the field.
unfoldable pub data_line : Bytes → Option Bytes
data_line [] = none
data_line (byte ∷ line) =
    if byte == 58 then none else (elim (strip_prefix data_field (byte ∷ line)) [
      | none ↦ none
      | some value ↦ some (or_whole (strip_prefix (32 ∷ []) value) value)
    ])

unfoldable pub data_lines : List Bytes → List Bytes
data_lines [] = []
data_lines (line ∷ rest) =
    let more = data_lines rest in elim (data_line line) [ none ↦ more | some value ↦ value ∷ more ]

-- `join("\n")`.
unfoldable pub join : List Bytes → Bytes
join [] = []
join (line ∷ []) = line
join (line ∷ (next ∷ rest)) = line ++ 10 ∷ join (next ∷ rest)

abbrev pub joined_data : List Bytes → Option Bytes
joined_data [] = none
joined_data (line ∷ rest) = some (join (line ∷ rest))

unfoldable pub decode_event : Bytes → Result RuntimeErrorCode (Option Bytes)
decode_event raw = do
  refuse_if (not (is_utf8 raw)) protocol_malformed_json
  ok (joined_data (data_lines (lines (replace_cr (replace_crlf raw)))))

abbrev pub push_data : Option Bytes → List Bytes → List Bytes
push_data none events = events
push_data (some text) events = text ∷ events

abbrev pub Drained : Type 0
Drained = Bytes × Result RuntimeErrorCode (List Bytes)

-- The loop of `drain`, on fuel.
unfoldable pub drain_loop : ℕ → Bytes → Drained
drain_loop zero buffer = (buffer, ok [])
drain_loop (suc fuel) buffer = elim (blank_line_end buffer) [
  | none ↦ (buffer, ok [])
  | some end ↦ elim (ltb max_sse_event_bytes end) [
    | true ↦ (buffer, err protocol_malformed_json)
    | false ↦ elim (decode_event (take end buffer)) [
      | err e ↦ (drop end buffer, err e)
      | ok decoded ↦
          let (left, more) = drain_loop fuel (drop end buffer) in
          (left, more >>= λ events. ok (push_data decoded events))
    ]
  ]
]

-- The part of `drain` behind the loop.
unfoldable pub drain_rest : Bool → Bytes → List Bytes → Drained
drain_rest final_chunk buffer events =
    if ltb max_sse_event_bytes (length buffer)
    then (buffer, err protocol_malformed_json)
    else if final_chunk && not (is_empty buffer)
    then ([], decode_event buffer >>= λ decoded. ok (events ++ push_data decoded []))
    else (buffer, ok events)

-- Each round takes a byte away, so one round for each byte and one more are enough.
unfoldable pub drain : Bool → Bytes → Drained
drain final_chunk buffer =
    let (left, outcome) = drain_loop (suc (length buffer)) buffer in
    elim outcome [ err e ↦ (left, err e) | ok events ↦ drain_rest final_chunk left events ]

abbrev pub new : SseDecoder
new = record { buffer = [] }

abbrev pub decoder : Drained → SseDecoder × Result RuntimeErrorCode (List Bytes)
decoder (left, outcome) = (record { buffer = left }, outcome)

unfoldable pub push : SseDecoder → Bytes → SseDecoder × Result RuntimeErrorCode (List Bytes)
push sse chunk = decoder (drain false (sse.buffer ++ chunk))

unfoldable pub finish : SseDecoder → SseDecoder × Result RuntimeErrorCode (List Bytes)
finish sse = decoder (drain true (sse.buffer))
