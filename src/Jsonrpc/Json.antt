-- ===== src/Jsonrpc/Json.antt =====
-- What the messages use of serde_json, on texts of JSON as bytes. A text is valid JSON if `check`
-- has no complaint about it.
use Prim.Native.String.{String}
use truenas_ros_utils.Prelude.{ℕ, Option, List}

-- `serde_json::Value`, as far as an id needs it. A number is kept as it arrived.
pub data Value : Type 0 where
  null : Value
  string number : List ℕ → Value
  other : Value

pub record Json : Type 0 where
  -- `from_str::<&RawValue>`: the message of its error
  pub check : List ℕ → Option (List ℕ)
  -- `from_str::<Vec<&RawValue>>`
  pub elements : List ℕ → Option (List (List ℕ))
  -- `from_str::<BTreeMap<String, &RawValue>>`, by member name
  pub members : List ℕ → Option (String → Option (List ℕ))
  -- `from_str::<String>`
  pub as_str : List ℕ → Option (List ℕ)
  -- `from_str::<Value>`
  pub value : List ℕ → Option Value
