-- ===== src/Jsonrpc/Request.antt =====
-- truenas_jsonrpc/src/request.rs, and the id of truenas_jsonrpc/src/id.rs.
use Prim.Native.String.{String}
use truenas_ros_utils.Prelude.{
  ℕ, Bool, true, false, ◌&&◌, Option, none, some, List, [], ◌∷◌, map, ◌==◌, if◌then◌else◌,
}
use truenas_ros_utils.Xdr.Utf8.{is_utf8}
use truenas_ros_utils.Jsonrpc.Frame.{is_ws}
use truenas_ros_utils.Jsonrpc.Json
use truenas_ros_utils.Jsonrpc.Json.{Json, Value}
use truenas_ros_utils.Jsonrpc.ErrorObject.{ErrorObject, parse_error, invalid_request}
pub mod Spec
pub mod Tokens
pub mod Members
pub mod Calls
pub mod Whole

pub data RequestId : Type 0 where
  number string : List ℕ → RequestId
  null : RequestId

pub data Params : Type 0 where
  positional named : List ℕ → Params

pub record Request : Type 0 where
  pub id : Option RequestId
  pub method : List ℕ
  pub params : Option Params

-- A reason is what the source borrows, or the message of an error.
pub data Reason : Type 0 where
  borrowed : String → Reason
  owned : List ℕ → Reason

pub data Call : Type 0 where
  valid : Request → Call
  invalid : RequestId → ErrorObject → Reason → Call

pub data Incoming : Type 0 where
  single : Call → Incoming
  batch : List Call → Incoming
  refused : ErrorObject → Reason → Incoming

unfoldable pub first_token : List ℕ → Option ℕ
first_token [] = none
first_token (b ∷ bs) = let rest = first_token bs in if is_ws b then rest else some b

-- `VERSION`, "2.0"
abbrev pub is_version : Option (List ℕ) → Bool
is_version (some (a ∷ b ∷ c ∷ [])) = a == 0x32 && (b == 0x2e && c == 0x30)
is_version _ = false

abbrev pub id_of : Option Value → Option RequestId
id_of (some Json.null) = some null
id_of (some (Json.string s)) = some (string s)
id_of (some (Json.number n)) = some (number n)
id_of (some Json.other) = none
id_of none = none

module _ (json : Json) where
  unfoldable pub from_raw : List ℕ → Option RequestId
  from_raw raw = id_of (json.value raw)

  -- A member, read as a string.
  abbrev pub string_member : Option (List ℕ) → Option (List ℕ)
  string_member none = none
  string_member (some raw) = json.as_str raw

  -- The id of the request, if it has one: `none` is the early return.
  abbrev pub request_id : Option (List ℕ) → Option (Option RequestId)
  request_id none = some none
  request_id (some raw) = elim (from_raw raw) [ none ↦ none | some i ↦ some (some i) ]

  -- The parameters, if there are any: `none` is the early return.
  abbrev pub request_params : Option (List ℕ) → Option (Option Params)
  request_params none = some none
  request_params (some raw) = elim (first_token raw) [
    | none ↦ none
    | some b ↦
        if b == 0x5b
        then some (some (positional raw))
        else if b == 0x7b
        then some (some (named raw))
        else none
  ]

  abbrev pub answer_to : Option RequestId → RequestId
  answer_to none = null
  answer_to (some i) = i

  abbrev pub with_params : Option RequestId → List ℕ → Option (Option Params) → Call
  with_params id method none =
      invalid (answer_to id) invalid_request (borrowed "'params' must be an Array or an Object")
  with_params id method (some params) = valid (record { id = id; method = method; params = params })

  abbrev pub with_method : Option RequestId → Option (List ℕ) → Option (List ℕ) → Call
  with_method id none params =
      invalid (answer_to id) invalid_request (borrowed "'method' must be a String")
  with_method id (some method) params = with_params id method (request_params params)

  abbrev pub with_id : (String → Option (List ℕ)) → Option (Option RequestId) → Call
  with_id members none =
      invalid null invalid_request (borrowed "'id' must be a String, a Number, or Null")
  with_id members (some id) =
      if is_version (string_member (members "jsonrpc"))
      then with_method id (string_member (members "method")) (members "params")
      else invalid (answer_to id) invalid_request (borrowed "'jsonrpc' must be exactly \"2.0\"")

  abbrev pub with_members : Option (String → Option (List ℕ)) → Call
  with_members none = invalid null invalid_request (borrowed "unreadable Object")
  with_members (some members) = with_id members (request_id (members "id"))

  unfoldable pub one : List ℕ → Call
  one text = with_members (json.members text)

  -- One element of a batch.
  abbrev pub element : List ℕ → Call
  element raw = elim (first_token raw) [
    | none ↦ invalid null invalid_request (borrowed "a batch element must be an Object")
    | some b ↦
        if b == 0x7b
        then one raw
        else invalid null invalid_request (borrowed "a batch element must be an Object")
  ]

  abbrev pub of_elements : Option (List (List ℕ)) → Incoming
  of_elements none =
      refused invalid_request (borrowed "a batch must be an Array of Request objects")
  of_elements (some []) = refused invalid_request (borrowed "an empty batch")
  of_elements (some (raw ∷ rest)) = batch (map element (raw ∷ rest))

  unfoldable pub read_batch : List ℕ → Incoming
  read_batch text = of_elements (json.elements text)

  -- The `match` on the first token of a text that is JSON.
  abbrev pub of_token : List ℕ → Option ℕ → Incoming
  of_token text none =
      refused invalid_request (borrowed "a request must be an Object and a batch a non-empty Array")
  of_token text (some b) =
      if b == 0x7b
      then single (one text)
      else if b == 0x5b
      then read_batch text
      else refused invalid_request
          (borrowed "a request must be an Object and a batch a non-empty Array")

  abbrev pub checked : List ℕ → Option (List ℕ) → Incoming
  checked text (some message) = refused parse_error (owned message)
  checked text none = of_token text (first_token text)

  unfoldable pub parse : List ℕ → Incoming
  parse frame =
      if is_utf8 frame
      then checked frame (json.check frame)
      else refused parse_error (borrowed "not UTF-8")
