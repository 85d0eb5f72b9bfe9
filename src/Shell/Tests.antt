-- ===== src/Shell/Tests.antt =====
-- A small budget, and the theorems at it (crates/tools/src/shell/buffer.rs).
use wiki_coding.Prelude.{
  ℕ, ◌≡◌, ◌≤◌, refl, true, false, [], ◌∷◌, ◌++◌, ◌⊎◌, length, arith, ℕ_discrete,
}
use wiki_coding.Shell.Buffer.{
  ShellOutputBudget, ShellOutputBuffer, append_normalized, take_output, append_kept, extend,
  shortened, drop_excess, reserve_with_oldest_eviction, reserve_loop, utf8_ceil_boundary,
  utf8_suffix_start, leading_continuations,
}
use wiki_coding.Shell.Account.{Sound, SoundPair, append_sound, take_output_sound}
use wiki_coding.Shell.Loss.{append_loses_nothing_unmarked}
use wiki_coding.Shell.Eviction.{eviction_stops}

abbrev buffer : ShellOutputBuffer
buffer = record { unread = 111 ∷ 108 ∷ 100 ∷ []; truncated = false }

abbrev budget : ℕ → ShellOutputBudget
budget limit = record { used = 4; limit = limit }

-- Another buffer holds one byte.
abbrev sound : (limit : ℕ) → 4 ≤ limit → limit ≤ 100 → Sound 1 buffer (budget limit)
sound limit enough small = record {
  counted = refl;
  limited = enough;
  small = omega arith;
  held = omega arith;
}

-- With room for two bytes, four new ones push two old ones out.
pushed_test : append_normalized (110 ∷ 101 ∷ 119 ∷ 33 ∷ []) buffer (budget 6) ≡ (
  record { unread = 100 ∷ 110 ∷ 101 ∷ 119 ∷ 33 ∷ []; truncated = true },
  record { used = 6; limit = 6 },
)
unfolding append_normalized append_kept extend shortened drop_excess reserve_with_oldest_eviction
    reserve_loop utf8_ceil_boundary utf8_suffix_start leading_continuations ℕ_discrete
pushed_test = refl

append_sound_example : SoundPair 1 (append_normalized (110 ∷ 101 ∷ 119 ∷ 33 ∷ []) buffer (budget 6))
append_sound_example =
    append_sound 1 (110 ∷ 101 ∷ 119 ∷ 33 ∷ []) buffer (budget 6)
      (sound 6 (omega arith) (omega arith))

take_output_sound_example :
    ((take_output 2 buffer (budget 6)).0.output ++ (take_output 2 buffer (budget 6)).1.0.unread
      ≡ buffer.unread)
    × (length (take_output 2 buffer (budget 6)).0.output ≤ 2)
    × SoundPair 1 (take_output 2 buffer (budget 6)).1
take_output_sound_example =
    take_output_sound 1 2 buffer (budget 6) (sound 6 (omega arith) (omega arith))

unmarked_test : (append_normalized (33 ∷ []) buffer (budget 6)).0.truncated ≡ false
unfolding append_normalized append_kept extend shortened drop_excess reserve_with_oldest_eviction
    reserve_loop utf8_ceil_boundary utf8_suffix_start leading_continuations ℕ_discrete
unmarked_test = refl

append_loses_nothing_unmarked_example :
    (append_normalized (33 ∷ []) buffer (budget 6)).0.unread ≡ 111 ∷ 108 ∷ 100 ∷ 33 ∷ []
append_loses_nothing_unmarked_example =
    append_loses_nothing_unmarked (33 ∷ []) buffer (budget 6) unmarked_test

eviction_stops_example :
    ((reserve_with_oldest_eviction 4 buffer (budget 6)).reserved ≡ 4)
    ⊎ ((reserve_with_oldest_eviction 4 buffer (budget 6)).unread ≡ [])
eviction_stops_example = eviction_stops 4 buffer (budget 6)
