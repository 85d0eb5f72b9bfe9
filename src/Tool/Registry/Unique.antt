-- ===== src/Tool/Registry/Unique.antt =====
-- What a registry knows, and when the ids of a batch are unique
-- (crates/core/src/tool.rs, crates/protocol/src/tool.rs).
use wiki_coding.Prelude.{
  ◌≡◌, refl, Bool, true, false, not, ◌&&◌, ◌||◌, List, [], ◌∷◌, any, Result, ok, err, ◌>>=◌,
  StringSet, get, insert, contains_key, contains_key-insert, ◌==◌, string_eq, arith, if◌then◌else◌,
}
use wiki_coding.Protocol.Event.{ToolCallId}
use wiki_coding.Protocol.Tool.{ToolInvocation, ToolCall}
use wiki_coding.Tool.Invocation.{duplicate_call_id}
use wiki_coding.Tool.Registry.{
  InvocationRegistry, register, contains, check_unique, validate_unique_call_ids,
}

-- A call is registered exactly when its id is new; then the registry knows that id beside those
-- that it knew, and otherwise the error is "duplicate call id".
pub register_lem :
    (registry : InvocationRegistry) (invocation : ToolInvocation) (other : ToolCallId)
    → (register registry invocation >>= λ r. ok (contains r other)) ≡ (
        if contains registry invocation.call.call_id
        then err duplicate_call_id
        else ok ((other == invocation.call.call_id) || contains registry other))
unfolding register contains
register_lem registry invocation other =
    ground (arith, contains_key-insert invocation.call.call_id other registry.call_ids)

-- No id of the calls occurs twice.
abbrev pub has_id : ToolCallId → List ToolCall → Bool
has_id id calls = any (λ call. call.call_id == id) calls

abbrev pub all_distinct : List ToolCall → Bool
all_distinct [] = true
all_distinct (call ∷ calls) = not (has_id call.call_id calls) && all_distinct calls

abbrev pub none_seen : StringSet → List ToolCall → Bool
none_seen seen [] = true
none_seen seen (call ∷ calls) = not (contains_key call.call_id seen) && none_seen seen calls

abbrev pub is_ok : Result ToolCallId (Unit {0}) → Bool
is_ok (ok u) = true
is_ok (err e) = false

none_seen-insert :
    (id : ToolCallId) (seen : StringSet) (calls : List ToolCall)
    → none_seen (insert id tt seen) calls ≡ (not (has_id id calls) && none_seen seen calls)
none_seen-insert id seen [] = refl
none_seen-insert id seen (call ∷ calls) =
    ground (arith, contains_key-insert id call.call_id seen, none_seen-insert id seen calls)

check_unique_lem :
    (seen : StringSet) (calls : List ToolCall)
    → is_ok (check_unique seen calls) ≡ (none_seen seen calls && all_distinct calls)
unfolding check_unique
check_unique_lem seen [] = refl
check_unique_lem seen (call ∷ calls) = ground (
  arith,
  check_unique_lem (insert call.call_id tt seen) calls,
  none_seen-insert call.call_id seen calls,
)

none_seen-nil : (calls : List ToolCall) → none_seen [] calls ≡ true
unfolding contains_key get
none_seen-nil [] = refl
none_seen-nil (call ∷ calls) = none_seen-nil calls

-- A batch of calls passes exactly when no id occurs in it twice.
pub validate_unique_call_ids_lem :
    (calls : List ToolCall) → is_ok (validate_unique_call_ids calls) ≡ all_distinct calls
unfolding validate_unique_call_ids
validate_unique_call_ids_lem calls = ground (arith, check_unique_lem [] calls, none_seen-nil calls)
