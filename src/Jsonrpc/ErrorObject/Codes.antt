-- ===== src/Jsonrpc/ErrorObject/Codes.antt =====
-- The classes of the codes of an error.
use Prim.Native.String.{String}
use truenas_ros_utils.Prelude.{◌≡◌, refl, arith, Option, false, ◌&&◌, ◌||◌}
use truenas_ros_utils.Xdr.Signed.{ℤ, pos, negsuc}
use truenas_ros_utils.Jsonrpc.Json.{Value}
use truenas_ros_utils.Jsonrpc.ErrorObject.{
  ErrorObject, is_reserved, is_server_error, is_predefined, is_reserved_unassigned,
}

abbrev Classes : ErrorObject → Type 0
Classes e =
    (is_reserved e ≡ (is_server_error e || (is_predefined e || is_reserved_unassigned e)))
    × ((is_server_error e && is_predefined e) ≡ false)
    × ((is_server_error e && is_reserved_unassigned e) ≡ false)
    × ((is_predefined e && is_reserved_unassigned e) ≡ false)

code_classified :
    (code : ℤ) (message : String) (attached : Option Value)
    → Classes (record { code = code; message = message; attached = attached })
unfolding is_reserved is_server_error is_predefined is_reserved_unassigned
code_classified (pos n) message attached = (refl, refl, refl, refl)
code_classified (negsuc n) message attached =
    (ground arith, ground arith, ground arith, ground arith)

-- A code is reserved exactly when it is a server error, one with an assigned meaning, or one that
-- is reserved and unassigned, and no code is two of these.
pub codes_classified : (e : ErrorObject) → Classes e
codes_classified e = code_classified e.code e.message e.attached
