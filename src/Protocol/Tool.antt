-- ===== src/Protocol/Tool.antt =====
-- Tools, calls, decisions and results, with their validation: crates/protocol/src/tool.rs.
use Prim.Native.String.{len}
use wiki_coding.Prelude.{
  ℕ, String, Bool, true, false, not, Option, none, some, List, ◌||◌, ◌*◌, ltb, any, is_code_text,
  Result, refuse_if, ok, ok_or, ◌>>=◌, ◌>>◌, Map, get, contains_key, is_some, ◌==◌, Eq, string_eq,
}
use wiki_coding.Protocol.Json.{Json}
use wiki_coding.Protocol.Event.{SchemaVersion, v1, ToolCallId}

abbrev pub max_tool_name_bytes : ℕ
max_tool_name_bytes = 64

abbrev pub max_tool_description_bytes : ℕ
max_tool_description_bytes = 1024

abbrev pub max_tool_argument_bytes : ℕ
max_tool_argument_bytes = 64 * 1024

abbrev pub max_tool_result_bytes : ℕ
max_tool_result_bytes = 64 * 1024

abbrev pub max_tool_code_bytes : ℕ
max_tool_code_bytes = 64

pub data ToolValidationError : Type 0 where
  empty_name invalid_name description_too_large invalid_parameters_schema arguments_too_large
        arguments_not_object unknown_argument missing_argument invalid_code result_too_large
        invalid_shell_receipt :
      ToolValidationError

unfoldable pub validate_tool_name : String → Result ToolValidationError (Unit {0})
validate_tool_name name = do
  refuse_if (name == "") empty_name
  refuse_if (ltb max_tool_name_bytes (len name) || not (is_code_text name)) invalid_name

unfoldable pub validate_code : String → Result ToolValidationError (Unit {0})
validate_code code =
    refuse_if (code == "" || ltb max_tool_code_bytes (len code) || not (is_code_text code))
      invalid_code

pub record ToolCall : Type 0 where
  pub schema_version : SchemaVersion
  pub call_id : ToolCallId
  pub name : String
  pub arguments_json : String

pub data ToolEffect : Type 0 where
  read write process : ToolEffect

pub record ToolInvocation : Type 0 where
  pub schema_version : SchemaVersion
  pub call : ToolCall
  pub effect : ToolEffect

pub data ToolDecisionKind : Type 0 where
  approved rejected : ToolDecisionKind

pub record ToolDecision : Type 0 where
  pub schema_version : SchemaVersion
  pub call_id : ToolCallId
  pub decision : ToolDecisionKind
  pub code : String

pub data ToolTerminalStatus : Type 0 where
  succeeded failed rejected cancelled indeterminate : ToolTerminalStatus

pub record ToolResult : Type 0 where
  pub schema_version : SchemaVersion
  pub call_id : ToolCallId
  pub tool_name : String
  pub status : ToolTerminalStatus
  pub code : String
  pub output : Option String

-- `ToolDecision::validate` gives back the decision as it was.
unfoldable pub validate_decision : ToolDecision → Result ToolValidationError ToolDecision
unfolding validate_code
validate_decision decision = do validate_code decision.code; ok decision

abbrev output_too_large : Option String → Bool
output_too_large none = false
output_too_large (some output) = ltb max_tool_result_bytes (len output)

unfoldable pub validate_result : ToolResult → Result ToolValidationError ToolResult
unfolding validate_tool_name validate_code
validate_result result = do
  validate_tool_name result.tool_name
  validate_code result.code
  refuse_if (output_too_large result.output) result_too_large
  ok result

unfoldable pub ToolDecisionKind-discrete : Discrete ToolDecisionKind
ToolDecisionKind-discrete = hlevel

instance abbrev pub decision_kind_eq : Eq ToolDecisionKind
decision_kind_eq = record { eq? = ToolDecisionKind-discrete }

unfoldable pub ToolTerminalStatus-discrete : Discrete ToolTerminalStatus
ToolTerminalStatus-discrete = hlevel

instance abbrev pub terminal_status_eq : Eq ToolTerminalStatus
terminal_status_eq = record { eq? = ToolTerminalStatus-discrete }

-- What looks into JSON texts.
module _ (json : Json) where
  open json use {Value, from_str, as_object, as_array, as_str, as_bool}

  pub record ToolDefinition : Type 0 where
    pub schema_version : SchemaVersion
    pub name : String
    pub description : String
    pub parameters : Value
    pub strict : Bool

  unfoldable pub arguments_value : ToolCall → Result ToolValidationError (Map Value)
  arguments_value call = do
    refuse_if (ltb max_tool_argument_bytes (len call.arguments_json)) arguments_too_large
    value ← ok_or (from_str call.arguments_json) arguments_not_object
    ok_or (as_object value) arguments_not_object

  -- `schema.get(key).and_then(Value::as_str) != Some(text)` and its like.
  abbrev member : {A : Type 0} → Map Value → String → (Value → Option A) → Option A
  member entries key view = elim (get key entries) [ none ↦ none | some value ↦ view value ]

  abbrev is_text : Option String → String → Bool
  is_text none expected = false
  is_text (some text) expected = text == expected

  abbrev is_false : Option Bool → Bool
  is_false (some false) = true
  is_false _ = false

  -- `required`, if it is there, is an array of texts.
  abbrev required_malformed : Option Value → Bool
  required_malformed none = false
  required_malformed (some required) = elim (as_array required) [
    | none ↦ true
    | some items ↦ any (λ item. not (is_some (as_str item))) items
  ]

  unfoldable pub validate_definition : ToolDefinition → Result ToolValidationError ToolDefinition
  unfolding validate_tool_name get
  validate_definition definition = do
    validate_tool_name definition.name
    refuse_if (ltb max_tool_description_bytes (len definition.description)) description_too_large
    schema ← ok_or (as_object definition.parameters) invalid_parameters_schema
    refuse_if
        (not definition.strict
          || not (is_text (member schema "type" as_str) "object")
          || not (is_false (member schema "additionalProperties" as_bool))
          || not (is_some (member schema "properties" as_object)))
        invalid_parameters_schema
    refuse_if (required_malformed (get "required" schema)) invalid_parameters_schema
    ok definition

  -- The texts among the required keys, of which one is missing.
  abbrev missing : Map Value → Value → Bool
  missing arguments key = elim (as_str key) [
    | none ↦ false
    | some name ↦ not (contains_key name arguments)
  ]

  abbrev missing_required : Map Value → Option (List Value) → Bool
  missing_required arguments none = false
  missing_required arguments (some required) = any (missing arguments) required

  -- `value.get(key)` of a value that is no object is nothing.
  abbrev value_member : {A : Type 0} → Value → String → (Value → Option A) → Option A
  value_member value key view = elim (as_object value) [
    | none ↦ none
    | some entries ↦ member entries key view
  ]

  unfoldable pub validate_call : ToolDefinition → ToolCall → Result ToolValidationError (Unit {0})
  unfolding arguments_value get contains_key
  validate_call definition call = do
    refuse_if (not (call.name == definition.name)) invalid_name
    arguments ← arguments_value call
    properties ←
        ok_or (value_member definition.parameters "properties" as_object) invalid_parameters_schema
    refuse_if (any (λ entry. not (contains_key entry.0 properties)) arguments) unknown_argument
    refuse_if (missing_required arguments (value_member definition.parameters "required" as_array))
        missing_argument

  unfoldable pub validate_call_shape : ToolCall → Result ToolValidationError ToolCall
  unfolding validate_tool_name arguments_value
  validate_call_shape call = do validate_tool_name call.name; arguments_value call; ok call

  unfoldable pub tool_call : ToolCallId → String → String → Result ToolValidationError ToolCall
  unfolding validate_call_shape
  tool_call call_id name arguments_json = validate_call_shape (record {
    schema_version = v1;
    call_id = call_id;
    name = name;
    arguments_json = arguments_json;
  })

  unfoldable pub tool_invocation : ToolCall → ToolEffect → Result ToolValidationError ToolInvocation
  unfolding arguments_value
  tool_invocation call effect = do
    arguments_value call
    ok (record { schema_version = v1; call = call; effect = effect })
