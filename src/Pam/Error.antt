-- ===== src/Pam/Error.antt =====
-- `Error` of truenas_pam/src/error.rs, `check`, and how an error becomes an `io::Error`.
use truenas_ros_utils.Prelude.{
  Option, some, none, Result, ok, err, if◌then◌else◌, Bool, false, ◌==◌,
}
use truenas_ros_utils.Xdr.Signed.{ℤ, pos, negsuc}
use truenas_ros_utils.Pam.Code
use truenas_ros_utils.Pam.Code.{
  PamCode, perm_denied, auth_err, cred_insufficient, user_unknown, buf_err,
}
pub mod Raw

pub data Error : Type 0 where
  pam : PamCode → Error
  unknown os unknown_msg_style : ℤ → Error
  timeout nul_byte invalid_name not_utf8 out_of_sequence : Error

unfoldable pub classify : ℤ → Option PamCode → Error
classify rc (some code) = pam code
classify rc none = unknown rc

unfoldable pub from_raw : ℤ → Error
from_raw rc = classify rc (Code.from_raw rc)

unfoldable pub raw : Error → Option ℤ
raw (pam code) = some (Code.raw code)
raw (unknown rc) = some rc
raw _ = none

unfoldable pub as_pam : Error → Option PamCode
as_pam (pam code) = some code
as_pam _ = none

-- `rc == PAM_SUCCESS`
abbrev pub is_success : ℤ → Bool
is_success (pos rc) = rc == 0
is_success (negsuc rc) = false

unfoldable pub check : ℤ → Result Error (Unit {0})
check rc = if is_success rc then ok tt else err (from_raw rc)

-- The kinds of `std::io::Error` that the conversion picks from.

pub data ErrorKind : Type 0 where
  timed_out invalid_input invalid_data permission_denied not_found out_of_memory other : ErrorKind

-- `errno` is `from_raw_os_error`, which keeps the number and not the error of this crate.
pub data IoError : Type 0 where
  errno : ℤ → IoError
  kind : ErrorKind → Error → IoError

unfoldable pub kind_of_code : PamCode → ErrorKind
kind_of_code perm_denied = permission_denied
kind_of_code auth_err = permission_denied
kind_of_code cred_insufficient = permission_denied
kind_of_code user_unknown = not_found
kind_of_code buf_err = out_of_memory
kind_of_code _ = other

unfoldable pub to_io : Error → IoError
to_io (os e) = errno e
to_io timeout = kind timed_out timeout
to_io nul_byte = kind invalid_input nul_byte
to_io invalid_name = kind invalid_input invalid_name
to_io not_utf8 = kind invalid_data not_utf8
to_io (unknown_msg_style s) = kind invalid_data (unknown_msg_style s)
to_io out_of_sequence = kind invalid_input out_of_sequence
to_io (pam c) = kind (kind_of_code c) (pam c)
to_io (unknown rc) = kind other (unknown rc)
