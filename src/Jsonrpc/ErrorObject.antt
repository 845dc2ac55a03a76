-- ===== src/Jsonrpc/ErrorObject.antt =====
-- `ErrorObject` of truenas_jsonrpc/src/error.rs..
use Prim.Native.String.{String}
use truenas_ros_utils.Prelude.{ℕ, Bool, false, not, ◌&&◌, ◌||◌, Option, none, some, leb, ◌==◌}
use truenas_ros_utils.Xdr.Signed.{ℤ, pos, negsuc}
use truenas_ros_utils.Jsonrpc.Json.{Value}
pub mod Codes

pub record ErrorObject : Type 0 where
  pub code : ℤ
  pub message : String
  pub attached : Option Value

unfoldable pub new : ℤ → String → ErrorObject
new code message = record { code = code; message = message; attached = none }

-- -32700
unfoldable pub parse_error : ErrorObject
unfolding new
parse_error = new (negsuc 32699) "Parse error"

-- -32600
unfoldable pub invalid_request : ErrorObject
unfolding new
invalid_request = new (negsuc 32599) "Invalid Request"

-- -32601
unfoldable pub method_not_found : ErrorObject
unfolding new
method_not_found = new (negsuc 32600) "Method not found"

-- -32602
unfoldable pub invalid_params : ErrorObject
unfolding new
invalid_params = new (negsuc 32601) "Invalid params"

-- -32603
unfoldable pub internal_error : ErrorObject
unfolding new
internal_error = new (negsuc 32602) "Internal error"

unfoldable pub with_data : Value → ErrorObject → ErrorObject
with_data v e = record e { attached = some v }

-- `(low..=high).contains(&code)`, for the negative codes -(n + 1) with n from `least` to `most`.
abbrev in_range : ℕ → ℕ → ℤ → Bool
in_range least most (pos n) = false
in_range least most (negsuc n) = leb least n && leb n most

-- `RESERVED_MIN..=RESERVED_MAX`, -32768 to -32000
unfoldable pub is_reserved : ErrorObject → Bool
is_reserved e = in_range 31999 32767 e.code

-- `SERVER_ERROR_MIN..=SERVER_ERROR_MAX`, -32099 to -32000
unfoldable pub is_server_error : ErrorObject → Bool
is_server_error e = in_range 31999 32098 e.code

abbrev is_assigned : ℤ → Bool
is_assigned (pos n) = false
is_assigned (negsuc n) = n == 32699 || (n == 32599 || (n == 32600 || (n == 32601 || n == 32602)))

unfoldable pub is_predefined : ErrorObject → Bool
is_predefined e = is_assigned e.code

unfoldable pub is_reserved_unassigned : ErrorObject → Bool
unfolding is_reserved is_server_error is_predefined
is_reserved_unassigned e = is_reserved e && (not (is_server_error e) && not (is_predefined e))
