-- ===== src/Protocol/Json.antt =====
-- The JSON library `serde_json` is not part of the repository. What the program uses of it is a
-- parameter: a type of values, the parser, and the views of a value. The entries of an object come
-- in a list, the value of a key by `get`.
use wiki_coding.Prelude.{String, Bool, Option, List, Map}

pub record Json : Type 1 where
  pub Value : Type 0
  pub from_str : String → Option Value
  pub as_object : Value → Option (Map Value)
  pub as_array : Value → Option (List Value)
  pub as_str : Value → Option String
  pub as_bool : Value → Option Bool
