-- ===== src/Shell/Loss.antt =====
-- Lost output is marked (crates/tools/src/shell/buffer.rs).
use mathlib.Core.List.{append-nil}
use wiki_coding.Prelude.{
  ℕ, ◌+◌, ◌-◌, ◌≡◌, sym, min, Bool, false, ◌||◌, List, [], ◌∷◌, length, drop, nat_eq, ltb, arith,
  ap, ◌∙◌, ◌++◌,
}
use wiki_coding.Shell.Buffer.{
  Eviction, ShellOutputBudget, ShellOutputBuffer, reserve_with_oldest_eviction, usize_mod,
  utf8_suffix_start, max_shell_unread_bytes, drop_excess, shortened, extend, append_kept,
  append_normalized,
}
use wiki_coding.Shell.Eviction.{Ending, evicted-marked}
use wiki_coding.Shell.Account.{evicted-Ending}

abbrev Whole : List ℕ → Bool → ShellOutputBuffer → Type 0
Whole all_bytes marked buffer =
    buffer.truncated ≡ false → (buffer.unread ≡ all_bytes) × (marked ≡ false)

extend-Whole :
    (bytes before : List ℕ) (marked : Bool) (e : Eviction)
    → (e.truncated ≡ false → marked ≡ false)
    → Ending before e.truncated e.unread
    → Whole (before ++ bytes) marked (extend bytes e).0
unfolding extend
extend-Whole bytes before marked e mark (dropped, whole, none_dropped) unmarked =
    let start = utf8_suffix_start bytes e.reserved in
    let kept : e.truncated ≡ false = ground arith in
    let at_front : start ≡ 0 = ground arith in
    let nothing = none_dropped kept in
    (
      ap (λ n. e.unread ++ drop n bytes) at_front
          ∙ ap (λ xs. xs ++ bytes) (ap (λ xs. xs ++ e.unread) (sym nothing) ∙ whole),
      mark kept,
    )

append_kept-Whole :
    (bytes : List ℕ) (pair : ShellOutputBuffer × ShellOutputBudget)
    → Whole (pair.0.unread ++ bytes) pair.0.truncated (append_kept bytes pair).0
unfolding append_kept
append_kept-Whole bytes (buffer, budget) =
    extend-Whole bytes buffer.unread buffer.truncated
      (reserve_with_oldest_eviction (length bytes) buffer budget)
      (evicted-marked (length bytes) buffer budget) (evicted-Ending (length bytes) buffer budget)

drop_excess-Whole :
    (excess : ℕ) (buffer : ShellOutputBuffer) (budget : ShellOutputBudget)
    → Whole buffer.unread buffer.truncated (drop_excess excess buffer budget).0
unfolding drop_excess
drop_excess-Whole excess buffer budget unmarked = ground arith

shortened-all :
    (bytes : List ℕ) → ltb max_shell_unread_bytes (length bytes) ≡ false → shortened bytes ≡ bytes
unfolding shortened
shortened-all bytes few = ground arith

-- Bytes that are appended: a buffer that is not marked as truncated afterwards has all that was
-- unread, followed by all the new bytes. So whatever is lost, of old or of new output, is marked.
pub append_loses_nothing_unmarked :
    (bytes : List ℕ) (buffer : ShellOutputBuffer) (budget : ShellOutputBudget)
    → (append_normalized bytes buffer budget).0.truncated ≡ false
    → (append_normalized bytes buffer budget).0.unread ≡ buffer.unread ++ bytes
unfolding append_normalized
append_loses_nothing_unmarked [] buffer budget unmarked = sym (append-nil buffer.unread)
append_loses_nothing_unmarked (byte ∷ more) buffer budget unmarked =
    let bytes = byte ∷ more in
    let flagged : ShellOutputBuffer = record buffer {
      truncated = buffer.truncated || ltb max_shell_unread_bytes (length bytes);
    } in
    let excess =
      min (usize_mod - 1) (length buffer.unread + length (shortened bytes))
      - max_shell_unread_bytes in
    let (all_kept, not_dropped) =
      append_kept-Whole (shortened bytes) (drop_excess excess flagged budget) unmarked in
    let (same, not_flagged) = drop_excess-Whole excess flagged budget not_dropped in
    let whole = shortened-all bytes (ground arith) in
    all_kept ∙ (ap (λ xs. xs ++ shortened bytes) same ∙ ap (λ xs. buffer.unread ++ xs) whole)
