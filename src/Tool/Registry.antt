-- ===== src/Tool/Registry.antt =====
-- The registry of call ids, `InvocationRegistry` of crates/core/src/tool.rs, and
-- `validate_unique_call_ids` of crates/protocol/src/tool.rs.
pub mod Unique
use wiki_coding.Prelude.{
  String, Bool, List, [], ◌∷◌, Result, ok, err, refuse_if, ◌>>=◌, ◌>>◌, StringSet, insert,
  contains_key, if◌then◌else◌,
}
use wiki_coding.Protocol.Event.{ToolCallId}
use wiki_coding.Protocol.Tool.{ToolInvocation, ToolCall}
use wiki_coding.Tool.Invocation.{InvocationError, duplicate_call_id}

pub record InvocationRegistry : Type 0 where
  pub call_ids : StringSet

unfoldable pub empty : InvocationRegistry
empty = record { call_ids = [] }

unfoldable pub register :
    InvocationRegistry → ToolInvocation → Result InvocationError InvocationRegistry
unfolding contains_key
register registry invocation = do
  refuse_if (contains_key invocation.call.call_id registry.call_ids) duplicate_call_id
  ok (record { call_ids = insert invocation.call.call_id tt registry.call_ids })

unfoldable pub contains : InvocationRegistry → ToolCallId → Bool
contains registry call_id = contains_key call_id registry.call_ids

-- The loop of `validate_unique_call_ids`: the error is the first id that was seen before.
unfoldable pub check_unique : StringSet → List ToolCall → Result ToolCallId (Unit {0})
check_unique seen [] = ok tt
check_unique seen (call ∷ calls) =
    let rest = check_unique (insert call.call_id tt seen) calls in
    if contains_key call.call_id seen then err call.call_id else rest

unfoldable pub validate_unique_call_ids : List ToolCall → Result ToolCallId (Unit {0})
validate_unique_call_ids calls = check_unique [] calls
