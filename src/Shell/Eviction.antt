-- ===== src/Shell/Eviction.antt =====
-- The loop that makes room for new output by dropping the oldest
-- (crates/tools/src/shell/buffer.rs).
use mathlib.Core.List.{append_assoc}
use wiki_coding.Prelude.{
  ℕ, zero, suc, ◌+◌, ◌-◌, ◌≤◌, ◌<◌, ◌≡◌, min, Bool, true, false, not, List, [], length, drop, ◌==◌,
  nat_eq, ltb, length-drop, arith, Bool-cases, if-keeps, ap, ◌∙◌, inl, inr, ◌⊎◌, ◌++◌, take,
  take-drop, ℕ_discrete,
}
use wiki_coding.Shell.Buffer.{
  Eviction, ShellOutputBudget, ShellOutputBuffer, reserve_more, evict_oldest, is_done, reserve_loop,
  reserve_with_oldest_eviction, usize_mod, release, utf8_ceil_boundary,
}
use wiki_coding.Shell.Boundaries.{utf8_ceil_boundary-le}

-- The budget counts the bytes that other buffers hold, those that are unread here, and those that
-- are reserved; it stays under its limit.
pub record Counted (others wanted : ℕ) (e : Eviction) : Type 0 where
  pub counted : e.budget.used ≡ others + length e.unread + e.reserved
  pub limited : e.budget.used ≤ e.budget.limit
  pub small : e.budget.limit < usize_mod
  pub needed : e.reserved ≤ wanted

pub release-used :
    (budget : ShellOutputBudget) (released : ℕ)
    → released ≤ budget.used
    → budget.used < usize_mod
    → ((release budget released).used ≡ budget.used - released)
      × ((release budget released).limit ≡ budget.limit)
unfolding ℕ_discrete
release-used budget released enough small = elim (Bool-cases (released == 0)) [
  | inl none_released ↦ ground arith
  | inr some_released ↦ ground arith
]

reserve_more-Counted :
    (others wanted : ℕ) (e : Eviction)
    → Counted others wanted e
    → Counted others wanted (reserve_more wanted e)
reserve_more-Counted others wanted e h =
    let counted = h.counted in
    let limited = h.limited in
    let small = h.small in
    let needed = h.needed in
    record { counted = omega arith; limited = omega arith; small = small; needed = omega arith }

evict_oldest-Counted :
    (others wanted : ℕ) (e : Eviction)
    → Counted others wanted e
    → Counted others wanted (evict_oldest wanted e)
evict_oldest-Counted others wanted e h =
    let counted = h.counted in
    let limited = h.limited in
    let small = h.small in
    let needed = h.needed in
    let boundary = utf8_ceil_boundary e.unread (min (wanted - e.reserved) (length e.unread)) in
    let (inside, _) =
      utf8_ceil_boundary-le e.unread (min (wanted - e.reserved) (length e.unread)) in
    let left = length-drop boundary e.unread in
    let (used, kept) = release-used e.budget boundary (omega arith) (omega arith) in
    record { counted = omega arith; limited = omega arith; small = omega arith; needed = needed }

-- A property that both parts of a round keep is kept by the loop.
reserve_loop-keeps {κ} :
    (P : Eviction → Type κ) (wanted : ℕ)
    → ((e : Eviction) → P e → P (reserve_more wanted e))
    → ((e : Eviction) → P e → P (evict_oldest wanted e))
    → (fuel : ℕ) (e : Eviction) → P e
    → P (reserve_loop fuel wanted e)
unfolding reserve_loop
reserve_loop-keeps P wanted more_keeps evict_keeps zero e h = h
reserve_loop-keeps P wanted more_keeps evict_keeps (suc fuel) e h =
    let tried = more_keeps e h in
    if-keeps P (not (ltb e.reserved wanted)) (λ _. h)
      λ _.
        if-keeps P (is_done wanted (reserve_more wanted e)) (λ _. tried)
          λ _.
            reserve_loop-keeps P wanted more_keeps evict_keeps fuel
              (evict_oldest wanted (reserve_more wanted e))
              (evict_keeps (reserve_more wanted e) tried)

pub reserve_loop-Counted :
    (fuel others wanted : ℕ) (e : Eviction)
    → Counted others wanted e
    → Counted others wanted (reserve_loop fuel wanted e)
reserve_loop-Counted fuel others wanted e h =
    reserve_loop-keeps (Counted others wanted) wanted (reserve_more-Counted others wanted)
      (evict_oldest-Counted others wanted) fuel e h

-- What is unread is the end of what was, and all of it where nothing is marked as truncated.
abbrev pub Ending : List ℕ → Bool → List ℕ → Type 0
Ending original truncated unread =
    (dropped : List ℕ) × (dropped ++ unread ≡ original) × (truncated ≡ false → dropped ≡ [])

pub drop-Ending :
    (n : ℕ) (original unread : List ℕ) (truncated : Bool)
    → Ending original truncated unread
    → Ending original true (drop n unread)
drop-Ending n original unread truncated (dropped, whole, _) = (
  dropped ++ take n unread,
  append_assoc dropped (take n unread) (drop n unread)
      ∙ (ap (λ xs. dropped ++ xs) (take-drop n unread) ∙ whole),
  λ marked. cc,
)

pub reserve_loop-Ending :
    (fuel wanted : ℕ) (original : List ℕ) (e : Eviction)
    → Ending original e.truncated e.unread
    → Ending original (reserve_loop fuel wanted e).truncated (reserve_loop fuel wanted e).unread
reserve_loop-Ending fuel wanted original e h =
    reserve_loop-keeps (λ x. Ending original x.truncated x.unread) wanted (λ x hx. hx)
      (λ x hx.
        drop-Ending (utf8_ceil_boundary x.unread (min (wanted - x.reserved) (length x.unread)))
          original x.unread x.truncated hx)
      fuel e h

-- The loop stops by its own test: with fuel for each unread byte, all that is wanted is reserved or
-- nothing is left to drop.
reserve_loop-stops :
    (fuel wanted : ℕ) (e : Eviction)
    → e.reserved ≤ wanted
    → length e.unread < fuel
    → ((reserve_loop fuel wanted e).reserved ≡ wanted) ⊎ ((reserve_loop fuel wanted e).unread ≡ [])
unfolding reserve_loop ℕ_discrete
reserve_loop-stops zero wanted e needed enough = omega arith
reserve_loop-stops (suc fuel) wanted e needed enough =
    let P : Eviction → Type 0 = λ x. (x.reserved ≡ wanted) ⊎ (x.unread ≡ []) in
    let tried = reserve_more wanted e in
    if-keeps P (not (ltb e.reserved wanted)) (λ full. inl (ground arith))
      λ _.
        if-keeps P (is_done wanted tried) (λ done. ground arith)
          λ going.
            let boundary =
              utf8_ceil_boundary e.unread (min (wanted - tried.reserved) (length e.unread)) in
            let (_, some_go) =
              utf8_ceil_boundary-le e.unread (min (wanted - tried.reserved) (length e.unread)) in
            let left = length-drop boundary e.unread in
            reserve_loop-stops fuel wanted (evict_oldest wanted tried) (omega arith) (ground arith)

-- A mark is never taken back by the loop.
pub evicted-marked :
    (wanted : ℕ) (buffer : ShellOutputBuffer) (budget : ShellOutputBudget)
    → (reserve_with_oldest_eviction wanted buffer budget).truncated ≡ false
    → buffer.truncated ≡ false
unfolding reserve_with_oldest_eviction
evicted-marked wanted buffer budget =
    reserve_loop-keeps (λ e. e.truncated ≡ false → buffer.truncated ≡ false) wanted (λ e h. h)
      (λ e h marked. cc) (suc (length buffer.unread)) _ (λ h. h)

-- The loop that makes room ends by its own test, with the fuel that it is given: all that is wanted
-- is reserved, or no unread byte is left to drop.
pub eviction_stops :
    (wanted : ℕ) (buffer : ShellOutputBuffer) (budget : ShellOutputBudget)
    → ((reserve_with_oldest_eviction wanted buffer budget).reserved ≡ wanted)
      ⊎ ((reserve_with_oldest_eviction wanted buffer budget).unread ≡ [])
unfolding reserve_with_oldest_eviction
eviction_stops wanted buffer budget =
    reserve_loop-stops (suc (length buffer.unread)) wanted _ (omega arith) (omega arith)
