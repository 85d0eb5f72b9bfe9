-- ===== src/Samples.antt =====
-- Concrete values for the tests: a small JSON library, a tool with its call, a request and a life.
use wiki_coding.Prelude.{
  ℕ, String, Bool, true, false, Option, none, some, List, [], ◌∷◌, ◌==◌, string_eq, if◌then◌else◌,
  Map,
}
use wiki_coding.Protocol.Json.{Json}
use wiki_coding.Protocol.Event.{v1, responses, Usage, ToolCallFragment}
use wiki_coding.Protocol.Tool.{
  ToolCall, ToolDefinition, ToolInvocation, ToolResult, ToolDecision, read, approved, succeeded,
}
use wiki_coding.Protocol.Runtime.{default_limits, message, user}
use wiki_coding.Protocol.Request.{TurnRequest}

pub data Toy : Type 0 where
  schema object_text no empty_object : Toy

abbrev toy_object : Toy → Option (Map Toy)
toy_object schema =
    some (("additionalProperties", no) ∷ ("properties", empty_object) ∷ ("type", object_text) ∷ [])
toy_object empty_object = some []
toy_object _ = none

abbrev toy_text : Toy → Option String
toy_text object_text = some "object"
toy_text _ = none

abbrev toy_bool : Toy → Option Bool
toy_bool no = some false
toy_bool _ = none

abbrev pub toy_json : Json
toy_json = record {
  Value = Toy;
  from_str = λ text. if text == "{}" then some empty_object else none;
  as_object = toy_object;
  as_array = λ value. none;
  as_str = toy_text;
  as_bool = toy_bool;
}

abbrev pub git_call : String → ToolCall
git_call id = record {
  schema_version = v1;
  call_id = id;
  name = "git_status";
  arguments_json = "{}";
}

abbrev pub git_tool : ToolDefinition toy_json
git_tool = record {
  schema_version = v1;
  name = "git_status";
  description = "status";
  parameters = schema;
  strict = true;
}

abbrev pub invocation : ToolInvocation
invocation = record { schema_version = v1; call = git_call "call-1"; effect = read }

abbrev pub success : ToolResult
success = record {
  schema_version = v1;
  call_id = "call-1";
  tool_name = "git_status";
  status = succeeded;
  code = "ok";
  output = none;
}

abbrev pub approval : ToolDecision
approval = record { schema_version = v1; call_id = "call-1"; decision = approved; code = "user" }

abbrev pub turn_request : List (ToolDefinition toy_json) → TurnRequest toy_json
turn_request tools = record {
  session_id = "session";
  turn_id = "turn";
  request_id = "request";
  provider_id = "provider";
  model_id = "model";
  protocol = responses;
  messages = message (record { role = user; content = "hello" }) ∷ [];
  tools = tools;
  agent_limits = some default_limits;
  output = record { max_output_tokens = 100 };
}

abbrev pub tokens : ℕ → Usage
tokens n = record { input_tokens = some n; output_tokens = some n; total_tokens = some n }

abbrev pub fragment : String → ToolCallFragment
fragment id = record {
  call_id = id;
  stream_id = none;
  name = some "git_status";
  arguments_delta = some "{}";
  arguments_complete = true;
  index = none;
}
