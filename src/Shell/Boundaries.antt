-- ===== src/Shell/Boundaries.antt =====
-- Where the boundaries of utf-8 texts fall (crates/tools/src/shell/buffer.rs).
use wiki_coding.Prelude.{
  ℕ, zero, suc, ◌-◌, ◌≤◌, min, List, [], ◌∷◌, length, drop, length-drop, arith,
}
use wiki_coding.Shell.Buffer.{
  leading_continuations, utf8_ceil_boundary, utf8_suffix_start, floor_from, utf8_floor_boundary,
}

leading_continuations-le : (bytes : List ℕ) → leading_continuations bytes ≤ length bytes
unfolding leading_continuations
leading_continuations-le [] = omega arith
leading_continuations-le (byte ∷ bytes) = ground (arith, leading_continuations-le bytes)

-- The upper boundary stays inside and is no less than what was asked for, up to the end.
pub utf8_ceil_boundary-le :
    (bytes : List ℕ) (requested : ℕ)
    → (utf8_ceil_boundary bytes requested ≤ length bytes)
      × (min requested (length bytes) ≤ utf8_ceil_boundary bytes requested)
unfolding utf8_ceil_boundary
utf8_ceil_boundary-le bytes requested =
    let boundary = min requested (length bytes) in
    let inside = leading_continuations-le (drop boundary bytes) in
    let left = length-drop boundary bytes in (omega arith, omega arith)

pub utf8_suffix_start-le :
    (bytes : List ℕ) (max_bytes : ℕ)
    → (utf8_suffix_start bytes max_bytes ≤ length bytes)
      × (length bytes - utf8_suffix_start bytes max_bytes ≤ max_bytes)
unfolding utf8_suffix_start
utf8_suffix_start-le bytes max_bytes =
    let start = length bytes - max_bytes in
    let inside = leading_continuations-le (drop start bytes) in
    let left = length-drop start bytes in (omega arith, omega arith)

floor_from-le : (bytes : List ℕ) (boundary : ℕ) → floor_from bytes boundary ≤ boundary
unfolding floor_from
floor_from-le bytes zero = omega arith
floor_from-le bytes (suc boundary) = ground (arith, floor_from-le bytes boundary)

pub utf8_floor_boundary-le :
    (bytes : List ℕ) (requested : ℕ)
    → utf8_floor_boundary bytes requested ≤ min requested (length bytes)
unfolding utf8_floor_boundary
utf8_floor_boundary-le bytes requested = floor_from-le bytes (min requested (length bytes))
