-- ===== src/Shell/Account.antt =====
-- The account of the shared budget, and what is lost (crates/tools/src/shell/buffer.rs).
use wiki_coding.Prelude.{
  ℕ, suc, ◌+◌, ◌-◌, ◌≤◌, ◌<◌, ◌≡◌, refl, min, Bool, true, false, ◌||◌, List, [], length, drop,
  is_empty, nat_eq, ltb, length-drop, length-append, length-take, arith, if-keeps, ap, ◌++◌,
  take-drop,
}
use wiki_coding.Shell.Buffer.{
  Eviction, ShellOutputBudget, ShellOutputBuffer, reserve_with_oldest_eviction, usize_mod, release,
  utf8_ceil_boundary, utf8_suffix_start, utf8_floor_boundary, max_shell_unread_bytes, drop_excess,
  shortened, extend, append_kept, append_normalized, dispose, take_output,
}
use wiki_coding.Shell.Boundaries.{
  utf8_ceil_boundary-le, utf8_suffix_start-le, utf8_floor_boundary-le,
}
use wiki_coding.Shell.Eviction.{
  Counted, release-used, reserve_loop-Counted, reserve_loop-Ending, Ending,
}

-- The budget counts the unread bytes of this buffer and of the others, no more than its limit and no
-- more than one buffer may hold.
pub record Sound (others : ℕ) (buffer : ShellOutputBuffer) (budget : ShellOutputBudget)
    : Type 0 where
  pub counted : budget.used ≡ others + length buffer.unread
  pub limited : budget.used ≤ budget.limit
  pub small : budget.limit < usize_mod
  pub held : length buffer.unread ≤ max_shell_unread_bytes

abbrev pub SoundPair : ℕ → ShellOutputBuffer × ShellOutputBudget → Type 0
SoundPair others (buffer, budget) = Sound others buffer budget

-- The first bytes of the unread ones go, and are released.
release_front :
    (others : ℕ) (buffer : ShellOutputBuffer) (budget : ShellOutputBudget) (n : ℕ) (flag : Bool)
    → n ≤ length buffer.unread
    → Sound others buffer budget
    → Sound others (record { unread = drop n buffer.unread; truncated = flag }) (release budget n)
release_front others buffer budget n flag inside sound =
    let counted = sound.counted in
    let limited = sound.limited in
    let small = sound.small in
    let held = sound.held in
    let left = length-drop n buffer.unread in
    let (used, kept) = release-used budget n (omega arith) (omega arith) in
    record { counted = omega arith; limited = omega arith; small = omega arith; held = omega arith }

-- Where the budget counts the unread bytes of all the buffers: what is read is the front of what was
-- unread, no longer than asked for; the rest stays unread, and the budget counts what is left.
pub take_output_sound :
    (others max_bytes : ℕ) (buffer : ShellOutputBuffer) (budget : ShellOutputBudget)
    → Sound others buffer budget
    → ((take_output max_bytes buffer budget).0.output
          ++ (take_output max_bytes buffer budget).1.0.unread
        ≡ buffer.unread)
      × (length (take_output max_bytes buffer budget).0.output ≤ max_bytes)
      × SoundPair others (take_output max_bytes buffer budget).1
unfolding take_output
take_output_sound others max_bytes buffer budget sound =
    let asked = min max_bytes (length buffer.unread) in
    let boundary = utf8_floor_boundary buffer.unread asked in
    let inside = utf8_floor_boundary-le buffer.unread asked in
    let read = length-take boundary buffer.unread (omega arith) in
    (
      take-drop boundary buffer.unread,
      omega arith,
      release_front others buffer budget boundary false (omega arith) sound,
    )

drop_excess-Sound :
    (others excess : ℕ) (buffer : ShellOutputBuffer) (budget : ShellOutputBudget)
    → Sound others buffer budget
    → SoundPair others (drop_excess excess buffer budget)
      × ((length buffer.unread - excess) ≤ length buffer.unread)
      × (length (drop_excess excess buffer budget).0.unread ≤ length buffer.unread - excess)
unfolding drop_excess
drop_excess-Sound others excess buffer budget sound =
    let P : ShellOutputBuffer × ShellOutputBudget → Type 0 = λ p.
      SoundPair others p
      × ((length buffer.unread - excess) ≤ length buffer.unread)
      × (length p.0.unread ≤ length buffer.unread - excess) in
    let boundary = utf8_ceil_boundary buffer.unread excess in
    let (inside, enough) = utf8_ceil_boundary-le buffer.unread excess in
    let left = length-drop boundary buffer.unread in
    if-keeps P (ltb 0 excess)
      (λ _.
        (release_front others buffer budget boundary true inside sound, omega arith, omega arith))
      (λ none_over. (sound, omega arith, ground arith))

shortened-le : (bytes : List ℕ) → length (shortened bytes) ≤ max_shell_unread_bytes
unfolding shortened
shortened-le bytes =
    let start = utf8_suffix_start bytes max_shell_unread_bytes in
    let (inside, fits) = utf8_suffix_start-le bytes max_shell_unread_bytes in
    let left = length-drop start bytes in
    if-keeps (λ kept. length kept ≤ max_shell_unread_bytes)
      (ltb max_shell_unread_bytes (length bytes)) {x = drop start bytes} {y = bytes}
      (λ _. omega arith) (λ few. ground arith)

evicted-Counted :
    (others wanted : ℕ) (buffer : ShellOutputBuffer) (budget : ShellOutputBudget)
    → Sound others buffer budget
    → Counted others wanted (reserve_with_oldest_eviction wanted buffer budget)
unfolding reserve_with_oldest_eviction
evicted-Counted others wanted buffer budget sound =
    let counted = sound.counted in
    reserve_loop-Counted (suc (length buffer.unread)) others wanted _ (record {
      counted = omega arith;
      limited = sound.limited;
      small = sound.small;
      needed = omega arith;
    })

pub evicted-Ending :
    (wanted : ℕ) (buffer : ShellOutputBuffer) (budget : ShellOutputBudget)
    → Ending buffer.unread
        (reserve_with_oldest_eviction wanted buffer budget).truncated
        (reserve_with_oldest_eviction wanted buffer budget).unread
unfolding reserve_with_oldest_eviction
evicted-Ending wanted buffer budget =
    reserve_loop-Ending (suc (length buffer.unread)) wanted buffer.unread _ ([], refl, λ _. refl)

extend-Sound :
    (others : ℕ) (bytes : List ℕ) (e : Eviction)
    → length e.unread + length bytes ≤ max_shell_unread_bytes
    → Counted others (length bytes) e
    → SoundPair others (extend bytes e)
unfolding extend
extend-Sound others bytes e room h =
    let start = utf8_suffix_start bytes e.reserved in
    let (inside, fits) = utf8_suffix_start-le bytes e.reserved in
    let left = length-drop start bytes in
    let both = length-append e.unread (drop start bytes) in
    let counted = h.counted in
    let limited = h.limited in
    let small = h.small in
    let (used, kept) =
      release-used e.budget (e.reserved - (length bytes - start)) (omega arith) (omega arith) in
    record { counted = omega arith; limited = omega arith; small = omega arith; held = omega arith }

Ending-length :
    (original unread : List ℕ) (truncated : Bool)
    → Ending original truncated unread
    → length unread ≤ length original
Ending-length original unread truncated (dropped, whole, _) =
    let parts = length-append dropped unread in let same = ap length whole in omega arith

append_kept-Sound :
    (others : ℕ) (bytes : List ℕ) (pair : ShellOutputBuffer × ShellOutputBudget)
    → length pair.0.unread + length bytes ≤ max_shell_unread_bytes
    → SoundPair others pair
    → SoundPair others (append_kept bytes pair)
unfolding append_kept
append_kept-Sound others bytes (buffer, budget) room sound =
    let counted = sound.counted in
    let limited = sound.limited in
    let evicted = reserve_with_oldest_eviction (length bytes) buffer budget in
    let shorter =
      Ending-length buffer.unread evicted.unread evicted.truncated
        (evicted-Ending (length bytes) buffer budget) in
    extend-Sound others bytes evicted (omega arith)
      (evicted-Counted others (length bytes) buffer budget sound)

-- Where the budget counts the unread bytes of all the buffers, within a limit below 2 ^ 64, and a
-- buffer holds no more than it may: that is still so after any bytes are appended to the buffer.
pub append_sound :
    (others : ℕ) (bytes : List ℕ) (buffer : ShellOutputBuffer) (budget : ShellOutputBudget)
    → Sound others buffer budget
    → SoundPair others (append_normalized bytes buffer budget)
unfolding append_normalized
append_sound others bytes buffer budget sound =
    let flagged : ShellOutputBuffer = record buffer {
      truncated = buffer.truncated || ltb max_shell_unread_bytes (length bytes);
    } in
    let excess =
      min (usize_mod - 1) (length buffer.unread + length (shortened bytes))
      - max_shell_unread_bytes in
    let counted = sound.counted in
    let held = sound.held in
    let few = shortened-le bytes in
    let (kept, _, fewer) = drop_excess-Sound others excess flagged budget (record {
      counted = sound.counted;
      limited = sound.limited;
      small = sound.small;
      held = held;
    }) in
    if-keeps (SoundPair others) (is_empty bytes) (λ _. sound)
      λ _.
        append_kept-Sound others (shortened bytes) (drop_excess excess flagged budget) (omega arith)
          kept

-- A buffer that is dropped gives back all that it held: where the budget counted the unread bytes of
-- all the buffers, it counts those of the others.
pub dispose_returns_all :
    (others : ℕ) (buffer : ShellOutputBuffer) (budget : ShellOutputBudget)
    → Sound others buffer budget
    → (dispose buffer budget).used ≡ others
unfolding dispose
dispose_returns_all others buffer budget sound =
    let counted = sound.counted in
    let limited = sound.limited in
    let small = sound.small in
    let (used, kept) = release-used budget (length buffer.unread) (omega arith) (omega arith) in
    omega arith
