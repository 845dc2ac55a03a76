-- ===== src/Jsonrpc/Response.antt =====
-- truenas_jsonrpc/src/response.rs: the answers of a server, on the wire.
use Prim.Native.String.{String}
use truenas_ros_utils.Prelude.{
  ℕ, Bool, true, false, List, [], ◌∷◌, ◌++◌, Option, some, none, Result, ok, err,
}
use truenas_ros_utils.Xdr.Signed.{ℤ}
use truenas_ros_utils.Jsonrpc.Json.{Value}
use truenas_ros_utils.Jsonrpc.ErrorObject.{ErrorObject}
use truenas_ros_utils.Jsonrpc.Request.{RequestId}
pub mod Batch

pub data Payload : Type 0 where
  result_payload : List ℕ → Payload
  error_payload : ErrorObject → Payload

pub record Response : Type 0 where
  pub payload : Payload
  pub id : RequestId

-- What serde_json writes of each type, and an `i64` in decimal.
pub record Writer : Type 0 where
  pub write_str : String → List ℕ
  pub write_value : Value → List ℕ
  pub write_id : RequestId → List ℕ
  pub decimal : ℤ → List ℕ

abbrev with_result : RequestId → List ℕ → Response
with_result id raw = record { payload = result_payload raw; id = id }

-- `to_raw_value` of the result is an argument.
unfoldable pub success : {E : Type 0} → RequestId → Result E (List ℕ) → Result E Response
success id (ok raw) = ok (with_result id raw)
success id (err e) = err e

unfoldable pub success_raw : RequestId → List ℕ → Response
success_raw id raw = with_result id raw

unfoldable pub error : RequestId → ErrorObject → Response
error id e = record { payload = error_payload e; id = id }

abbrev has_result : Payload → Bool
has_result (result_payload raw) = true
has_result (error_payload e) = false

unfoldable pub is_success : Response → Bool
is_success r = has_result r.payload

-- `{"jsonrpc":"2.0",`
abbrev pub version_member : List ℕ
version_member =
    0x7b ∷ 0x22 ∷ 0x6a ∷ 0x73 ∷ 0x6f ∷ 0x6e ∷ 0x72 ∷ 0x70 ∷ 0x63 ∷ 0x22 ∷ 0x3a ∷ 0x22 ∷ 0x32 ∷ 0x2e
    ∷ 0x30 ∷ 0x22 ∷ 0x2c ∷ []

-- `"result":`
abbrev pub result_key : List ℕ
result_key = 0x22 ∷ 0x72 ∷ 0x65 ∷ 0x73 ∷ 0x75 ∷ 0x6c ∷ 0x74 ∷ 0x22 ∷ 0x3a ∷ []

-- `"error":{"code":`
abbrev pub error_key : List ℕ
error_key =
    0x22 ∷ 0x65 ∷ 0x72 ∷ 0x72 ∷ 0x6f ∷ 0x72 ∷ 0x22 ∷ 0x3a ∷ 0x7b ∷ 0x22 ∷ 0x63 ∷ 0x6f ∷ 0x64 ∷ 0x65
    ∷ 0x22 ∷ 0x3a ∷ []

-- `,"message":`
abbrev pub message_key : List ℕ
message_key = 0x2c ∷ 0x22 ∷ 0x6d ∷ 0x65 ∷ 0x73 ∷ 0x73 ∷ 0x61 ∷ 0x67 ∷ 0x65 ∷ 0x22 ∷ 0x3a ∷ []

-- `,"data":`
abbrev pub data_key : List ℕ
data_key = 0x2c ∷ 0x22 ∷ 0x64 ∷ 0x61 ∷ 0x74 ∷ 0x61 ∷ 0x22 ∷ 0x3a ∷ []

-- `,"id":`
abbrev pub id_key : List ℕ
id_key = 0x2c ∷ 0x22 ∷ 0x69 ∷ 0x64 ∷ 0x22 ∷ 0x3a ∷ []

module _ (writer : Writer) where
  abbrev pub data_member : Option Value → List ℕ
  data_member none = []
  data_member (some v) = data_key ++ writer.write_value v

  abbrev pub payload_member : Payload → List ℕ
  payload_member (result_payload raw) = result_key ++ raw
  payload_member (error_payload e) =
      error_key
      ++ (writer.decimal e.code
          ++ (message_key
              ++ (writer.write_str e.message ++ (data_member e.attached ++ (0x7d ∷ [])))))

  -- What `write_into` appends.
  unfoldable pub to_bytes : Response → List ℕ
  to_bytes r =
      version_member
      ++ (payload_member r.payload ++ (id_key ++ (writer.write_id r.id ++ (0x7d ∷ []))))

  unfoldable pub write_into : Response → List ℕ → List ℕ
  unfolding to_bytes
  write_into r out = out ++ to_bytes r

  -- The responses behind the first, appended to the buffer.
  unfoldable pub write_more : List Response → List ℕ → List ℕ
  unfolding write_into
  write_more [] out = out
  write_more (r ∷ rs) out = write_more rs (write_into r (out ++ (0x2c ∷ [])))

  unfoldable pub batch_frame : List Response → Option (List ℕ)
  unfolding write_more
  batch_frame [] = none
  batch_frame (r ∷ rs) = some (write_more rs (write_into r (0x5b ∷ [])) ++ (0x5d ∷ []))
