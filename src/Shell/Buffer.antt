-- ===== src/Shell/Buffer.antt =====
-- `ShellOutputBudget` and `ShellOutputBuffer`: crates/tools/src/shell/buffer.rs. The budget is
-- shared by the buffers; each operation takes it and returns it. A loop of `compare_exchange`
-- ends as one step on the counter.
use wiki_coding.Prelude.{
  ℕ, zero, suc, ◌+◌, ◌-◌, ◌/◌, ◌%◌, min, Bool, true, false, not, List, [], ◌∷◌, ◌++◌, ◌||◌, length,
  is_empty, take, drop, ltb, ◌==◌, nat_eq, if◌then◌else◌,
}

-- `usize` has 64 bits.
abbrev pub usize_mod : ℕ
usize_mod = 18446744073709551616

abbrev pub max_shell_unread_bytes : ℕ
max_shell_unread_bytes = 1048576

pub record ShellOutputBudget : Type 0 where
  pub used : ℕ
  pub limit : ℕ

pub record ShellOutputBuffer : Type 0 where
  pub unread : List ℕ
  pub truncated : Bool

pub record ShellOutputChunk : Type 0 where
  pub output : List ℕ
  pub truncated : Bool

abbrev pub new_budget : ℕ → ShellOutputBudget
new_budget limit = record { used = 0; limit = limit }

abbrev pub new_buffer : ShellOutputBuffer
new_buffer = record { unread = []; truncated = false }

-- What `reserve_up_to` grants.
abbrev pub granted : ShellOutputBudget → ℕ → ℕ
granted budget requested = min requested (budget.limit - budget.used)

abbrev pub reserve_up_to : ShellOutputBudget → ℕ → ShellOutputBudget
reserve_up_to budget requested = record budget { used = budget.used + granted budget requested }

-- `fetch_sub`, which wraps around.
abbrev pub release : ShellOutputBudget → ℕ → ShellOutputBudget
release budget released =
    if released == 0
    then budget
    else record budget { used = (budget.used + (usize_mod - released)) % usize_mod }

abbrev pub is_utf8_continuation : ℕ → Bool
is_utf8_continuation byte = byte / 64 == 2

-- The continuation bytes at the front, which a loop steps over.
unfoldable pub leading_continuations : List ℕ → ℕ
leading_continuations [] = 0
leading_continuations (byte ∷ bytes) =
    let rest = leading_continuations bytes in if is_utf8_continuation byte then suc rest else 0

unfoldable pub utf8_ceil_boundary : List ℕ → ℕ → ℕ
utf8_ceil_boundary bytes requested =
    let boundary = min requested (length bytes) in
    boundary + leading_continuations (drop boundary bytes)

unfoldable pub utf8_suffix_start : List ℕ → ℕ → ℕ
utf8_suffix_start bytes max_bytes =
    let start = length bytes - max_bytes in start + leading_continuations (drop start bytes)

abbrev starts_inside : List ℕ → Bool
starts_inside [] = false
starts_inside (byte ∷ bytes) = is_utf8_continuation byte

-- The loop of `utf8_floor_boundary`, from a boundary down.
unfoldable pub floor_from : List ℕ → ℕ → ℕ
floor_from bytes zero = 0
floor_from bytes (suc boundary) =
    let lower = floor_from bytes boundary in
    if starts_inside (drop (suc boundary) bytes) then lower else suc boundary

unfoldable pub utf8_floor_boundary : List ℕ → ℕ → ℕ
utf8_floor_boundary bytes requested = floor_from bytes (min requested (length bytes))

-- What the loop of `reserve_with_oldest_eviction` changes.
pub record Eviction : Type 0 where
  pub unread : List ℕ
  pub truncated : Bool
  pub reserved : ℕ
  pub budget : ShellOutputBudget

-- The call of `reserve` at the top of the loop's body.
abbrev pub reserve_more : ℕ → Eviction → Eviction
reserve_more wanted e = record e {
  reserved = e.reserved + min (granted e.budget (wanted - e.reserved)) (wanted - e.reserved);
  budget = reserve_up_to e.budget (wanted - e.reserved);
}

-- The rest of the body: the oldest bytes go, at least one.
abbrev pub evict_oldest : ℕ → Eviction → Eviction
evict_oldest wanted e =
    let boundary = utf8_ceil_boundary e.unread (min (wanted - e.reserved) (length e.unread)) in
    record e {
      unread = drop boundary e.unread;
      truncated = true;
      budget = release e.budget boundary;
    }

abbrev pub is_done : ℕ → Eviction → Bool
is_done wanted e = e.reserved == wanted || is_empty e.unread

-- The loop, on fuel: each round but the last takes a byte away at least.
unfoldable pub reserve_loop : ℕ → ℕ → Eviction → Eviction
unfolding utf8_ceil_boundary
reserve_loop zero wanted e = e
reserve_loop (suc fuel) wanted e =
    let tried = reserve_more wanted e in
    let rest = reserve_loop fuel wanted (evict_oldest wanted tried) in
    if not (ltb e.reserved wanted) then e else if is_done wanted tried then tried else rest

unfoldable pub reserve_with_oldest_eviction : ℕ → ShellOutputBuffer → ShellOutputBudget → Eviction
unfolding reserve_loop
reserve_with_oldest_eviction wanted buffer budget =
    reserve_loop (suc (length buffer.unread)) wanted (record {
      unread = buffer.unread;
      truncated = buffer.truncated;
      reserved = 0;
      budget = budget;
    })

-- `drop_oldest`, where more would be unread than may be.
unfoldable pub drop_excess :
    ℕ → ShellOutputBuffer → ShellOutputBudget → ShellOutputBuffer × ShellOutputBudget
unfolding utf8_ceil_boundary
drop_excess excess buffer budget =
    let boundary = utf8_ceil_boundary buffer.unread excess in
    if ltb 0 excess
    then (
      record { unread = drop boundary buffer.unread; truncated = true },
      release budget boundary,
    )
    else (buffer, budget)

-- The bytes that are kept of those that are appended, where they are too many.
unfoldable pub shortened : List ℕ → List ℕ
unfolding utf8_suffix_start
shortened bytes =
    if ltb max_shell_unread_bytes (length bytes)
    then drop (utf8_suffix_start bytes max_shell_unread_bytes) bytes
    else bytes

-- The last part of `append_normalized`: what was reserved and is not needed is given back.
unfoldable pub extend : List ℕ → Eviction → ShellOutputBuffer × ShellOutputBudget
unfolding utf8_suffix_start
extend bytes e =
    let start = utf8_suffix_start bytes e.reserved in
    (
      record { unread = e.unread ++ drop start bytes; truncated = e.truncated || ltb 0 start },
      release e.budget (e.reserved - (length bytes - start)),
    )

unfoldable pub append_kept :
    List ℕ → ShellOutputBuffer × ShellOutputBudget → ShellOutputBuffer × ShellOutputBudget
unfolding reserve_with_oldest_eviction extend
append_kept bytes (buffer, budget) =
    extend bytes (reserve_with_oldest_eviction (length bytes) buffer budget)

unfoldable pub append_normalized :
    List ℕ → ShellOutputBuffer → ShellOutputBudget → ShellOutputBuffer × ShellOutputBudget
unfolding shortened drop_excess append_kept
append_normalized bytes buffer budget =
    let kept = shortened bytes in
    let excess =
      min (usize_mod - 1) (length buffer.unread + length kept) - max_shell_unread_bytes in
    let flagged = record buffer {
      truncated = buffer.truncated || ltb max_shell_unread_bytes (length bytes);
    } in
    if is_empty bytes
    then (buffer, budget)
    else append_kept kept (drop_excess excess flagged budget)

-- The bytes that `take` returns are those that `peek` shows.
unfoldable pub peek : ℕ → ShellOutputBuffer → ShellOutputChunk
unfolding utf8_floor_boundary
peek max_bytes buffer =
    let boundary = utf8_floor_boundary buffer.unread (min max_bytes (length buffer.unread)) in
    record { output = take boundary buffer.unread; truncated = buffer.truncated }

unfoldable pub take_output :
    ℕ
    → ShellOutputBuffer
    → ShellOutputBudget
    → ShellOutputChunk × (ShellOutputBuffer × ShellOutputBudget)
unfolding utf8_floor_boundary
take_output max_bytes buffer budget =
    let boundary = utf8_floor_boundary buffer.unread (min max_bytes (length buffer.unread)) in
    (
      record { output = take boundary buffer.unread; truncated = buffer.truncated },
      (record { unread = drop boundary buffer.unread; truncated = false }, release budget boundary),
    )

-- `Drop` of the buffer.
unfoldable pub dispose : ShellOutputBuffer → ShellOutputBudget → ShellOutputBudget
dispose buffer budget = release budget (length buffer.unread)
