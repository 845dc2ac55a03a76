-- ===== src/Jsonrpc/Reply.antt =====
-- truenas_jsonrpc/src/reply.rs: an inbound frame read as a response, or as the answer to a batch.
use Prim.Native.String.{String}
use truenas_ros_utils.Prelude.{
  ℕ, Bool, true, false, List, [], ◌∷◌, Option, some, none, Result, ok, err, ◌==◌, if◌then◌else◌,
}
use truenas_ros_utils.Xdr.Signed.{ℤ}
use truenas_ros_utils.Xdr.Utf8.{is_utf8}
use truenas_ros_utils.Jsonrpc.Json.{Json, Value}
use truenas_ros_utils.Jsonrpc.ErrorObject.{ErrorObject, new, with_data}
use truenas_ros_utils.Jsonrpc.Request.{
  RequestId, Reason, borrowed, owned, first_token, is_version, from_raw, string_member,
}
pub mod Outcome

pub record Reply : Type 0 where
  pub id : RequestId
  pub result : Option (List ℕ)
  pub error : Option ErrorObject

-- `none` of `outcome` is `unreachable!`.
pub data Said : Type 0 where
  result_said : List ℕ → Said
  failure_said : ErrorObject → Said

abbrev said_of : Option (List ℕ) → Option ErrorObject → Option Said
said_of (some raw) none = some (result_said raw)
said_of none (some e) = some (failure_said e)
said_of _ _ = none

unfoldable pub outcome : Reply → Option Said
outcome r = said_of r.result r.error

pub data Answer : Type 0 where
  single : Reply → Answer
  batch : List Reply → Answer
  invalid : Reason → Answer

-- What the error object takes from `serde_json::Value`: the members of an Object, and a member as
-- an `i64` and as a String.
pub record Values : Type 0 where
  pub object : List ℕ → Option (String → Option Value)
  pub as_i64 : Value → Option ℤ
  pub as_string : Value → Option String

module _ {A B : Type 0} where
  abbrev pub or_reason : Option A → String → (A → Result Reason B) → Result Reason B
  or_reason none reason f = err (borrowed reason)
  or_reason (some a) reason f = f a

abbrev with_detail : Option Value → ErrorObject → ErrorObject
with_detail none e = e
with_detail (some v) e = with_data v e

module _ {A B : Type 0} where
  -- `.and_then(…)` on an option
  abbrev pub and_then : Option A → (A → Option B) → Option B
  and_then none f = none
  and_then (some a) f = f a

module _ (json : Json) (values : Values) where
  unfoldable pub error_object : List ℕ → Result Reason ErrorObject
  unfolding new with_data
  error_object raw = or_reason (values.object raw) "'error' must be an Object" (λ members.
      or_reason (and_then (members "code") values.as_i64) "'code' must be an integer Number"
        (λ code.
          or_reason (and_then (members "message") values.as_string) "'message' must be a String"
            (λ message. ok (with_detail (members "data") (new code message)))))

  abbrev pub failing : RequestId → Result Reason ErrorObject → Result Reason Reply
  failing id (err reason) = err reason
  failing id (ok e) = ok (record { id = id; result = none; error = some e })

  abbrev pub chosen : RequestId → Option (List ℕ) → Option (List ℕ) → Result Reason Reply
  chosen id (some raw) none = ok (record { id = id; result = some raw; error = none })
  chosen id none (some raw) = failing id (error_object raw)
  chosen id (some r) (some e) = err (borrowed "'result' and 'error' must not both appear")
  chosen id none none = err (borrowed "one of 'result' and 'error' is required")

  abbrev pub with_members : (String → Option (List ℕ)) → Result Reason Reply
  with_members members =
      if is_version (string_member json (members "jsonrpc"))
      then or_reason (members "id") "'id' is required in a response" (λ raw.
        or_reason (from_raw json raw) "'id' must be a String, a Number, or Null"
          (λ id. chosen id (members "result") (members "error")))
      else err (borrowed "'jsonrpc' must be exactly \"2.0\"")

  unfoldable pub one : List ℕ → Result Reason Reply
  unfolding error_object from_raw
  one text = or_reason (json.members text) "not an Object" with_members

  abbrev pub prepend : Result Reason Reply → Result Reason (List Reply) → Result Reason (List Reply)
  prepend (err reason) rest = err reason
  prepend (ok r) (err reason) = err reason
  prepend (ok r) (ok replies) = ok (r ∷ replies)

  -- The loop over the elements: the first that is no Response ends it.
  unfoldable pub each : List (List ℕ) → Result Reason (List Reply)
  unfolding one
  each [] = ok []
  each (raw ∷ raws) = prepend (one raw) (each raws)

  abbrev pub batched : Result Reason (List Reply) → Answer
  batched (ok replies) = batch replies
  batched (err reason) = invalid reason

  abbrev pub of_elements : Option (List (List ℕ)) → Answer
  of_elements none = invalid (borrowed "a batch answer must be an Array of Response objects")
  of_elements (some []) = invalid (borrowed "a batch answer must not be an empty Array")
  of_elements (some (raw ∷ raws)) = batched (each (raw ∷ raws))

  abbrev pub lone : Result Reason Reply → Answer
  lone (ok r) = single r
  lone (err reason) = invalid reason

  abbrev pub of_token : List ℕ → Option ℕ → Answer
  of_token text none = invalid (borrowed "a response must be an Object and a batch answer an Array")
  of_token text (some b) =
      if b == 0x7b
      then lone (one text)
      else if b == 0x5b
      then of_elements (json.elements text)
      else invalid (borrowed "a response must be an Object and a batch answer an Array")

  abbrev pub checked : List ℕ → Option (List ℕ) → Answer
  checked text (some message) = invalid (owned message)
  checked text none = of_token text (first_token text)

  unfoldable pub parse_answer : List ℕ → Answer
  unfolding each
  parse_answer frame =
      if is_utf8 frame then checked frame (json.check frame) else invalid (borrowed "not UTF-8")
