-- ===== src/Tests/Jsonrpc.antt =====
-- truenas_jsonrpc: a JSON library of one object, and the frames that hold it.
use Prim.Native.Nat.{Ordering}
use Prim.Native.String
use Prim.Native.String.{String}
use truenas_ros_utils.Prelude.{
  ℕ, ◌-◌, ◌≡◌, ◌⊎◌, ◌↔◌, refl, Bool, true, false, Option, none, some, List, [], ◌∷◌, length, take,
  ◌==◌, if◌then◌else◌,
}
use truenas_ros_utils.Xdr.Utf8.{is_utf8}
use truenas_ros_utils.Jsonrpc.Json.{Json, Value}
use truenas_ros_utils.Jsonrpc.Json
use truenas_ros_utils.Jsonrpc.ErrorObject.{parse_error, invalid_request}
use truenas_ros_utils.Jsonrpc.Request.{
  Request, valid, borrowed, number, batch, refused, one, parse, first_token, from_raw, read_batch,
}
use truenas_ros_utils.Jsonrpc.Frame.{is_ws}
use truenas_ros_utils.Jsonrpc.Request.Spec.{IsRequest, IsBatch}
use truenas_ros_utils.Jsonrpc.Request.Calls.{one_valid}
use truenas_ros_utils.Jsonrpc.Request.Whole.{parse_batch, parse_refused}

abbrev named : String → String → Bool
named a b = elim (String.compare a b) [ Ordering.eq ↦ true | _ ↦ false ]

-- `{"jsonrpc": "2.0", "id": 1}`
abbrev member_of_rest : String → Option (List ℕ)
member_of_rest name =
    if named name "jsonrpc"
    then some (0x22 ∷ 0x32 ∷ 0x2e ∷ 0x30 ∷ 0x22 ∷ [])
    else if named name "id"
    then some (0x31 ∷ [])
    else none

-- The same with a method, `"m"`.
abbrev member : String → Option (List ℕ)
member name = if named name "method" then some (0x22 ∷ 0x6d ∷ 0x22 ∷ []) else member_of_rest name

abbrev unquoted : List ℕ → Option (List ℕ)
unquoted [] = none
unquoted (b ∷ rest) = if b == 0x22 then some (take (length rest - 1) rest) else none

abbrev value_of : List ℕ → Option Value
value_of [] = none
value_of (b ∷ rest) = if b == 0x31 then some (Json.number (b ∷ rest)) else some Json.other

-- Every array is of two objects.
abbrev library : (String → Option (List ℕ)) → Json
library members = record {
  check = λ text. none;
  elements = λ text. some ((0x7b ∷ 0x7d ∷ []) ∷ (0x7b ∷ 0x7d ∷ []) ∷ []);
  members = λ text. some members;
  as_str = unquoted;
  value = value_of;
}

abbrev object : List ℕ
object = 0x7b ∷ 0x7d ∷ []

abbrev request : Request
request = record { id = some (number (0x31 ∷ [])); method = 0x6d ∷ []; params = none }

one_of_object : one (library member) object ≡ valid request
unfolding one from_raw
one_of_object = refl

one_valid_example :
    (one (library member) object ≡ valid request) ↔ IsRequest (library member) object request
one_valid_example = one_valid (library member) object request

abbrev array : List ℕ
array = 0x20 ∷ 0x5b ∷ 0x5d ∷ []

parse_of_array : parse (library member) array ≡ batch (valid request ∷ valid request ∷ [])
unfolding parse one from_raw first_token is_utf8 is_ws read_batch
parse_of_array = refl

parse_batch_example :
    (parse (library member) array ≡ batch (valid request ∷ valid request ∷ [])) ↔ (
      (is_utf8 array ≡ true)
      × ((library member).check array ≡ none)
      × IsBatch (library member) array (valid request ∷ valid request ∷ []))
parse_batch_example = parse_batch (library member) array (valid request ∷ valid request ∷ [])

-- A lone byte 0xff is not UTF-8.
parse_of_bytes : parse (library member) (0xff ∷ []) ≡ refused parse_error (borrowed "not UTF-8")
unfolding parse is_utf8
parse_of_bytes = refl

parse_refused_example :
    ((is_utf8 (0xff ∷ []) ≡ false) × (parse_error ≡ parse_error))
    ⊎ ((message : List ℕ) × ((library member).check (0xff ∷ []) ≡ some message)
        × (parse_error ≡ parse_error))
    ⊎ ((is_utf8 (0xff ∷ []) ≡ true)
        × ((library member).check (0xff ∷ []) ≡ none)
        × (parse_error ≡ invalid_request))
parse_refused_example =
    parse_refused (library member) (0xff ∷ []) parse_error (borrowed "not UTF-8") parse_of_bytes
