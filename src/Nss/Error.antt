-- ===== src/Nss/Error.antt =====
-- truenas_nss/src/error.rs, the status codes and the failures of a service call.
use Prim.Native.String.{String}
use truenas_ros_utils.Prelude.{zero, suc, Bool, true, false, Option, some, none}
use truenas_ros_utils.Xdr.Signed.{ℤ, pos, negsuc}

pub data NssStatus : Type 0 where
  try_again unavail not_found success return : NssStatus

-- `NssStatus::from_raw`
unfoldable pub from_raw : ℤ → Option NssStatus
from_raw (negsuc (suc zero)) = some try_again
from_raw (negsuc zero) = some unavail
from_raw (pos zero) = some not_found
from_raw (pos (suc zero)) = some success
from_raw (pos (suc (suc zero))) = some return
from_raw _ = none

pub data Error : Type 0 where
  call : String → String → ℤ → ℤ → Error
  load : String → String → Error
  symbol : String → String → Error
  busy : String → Error
  nul_byte not_utf8 null_name : Error
  lookup : String → ℤ → ℤ → Error

unfoldable pub status : Error → Option NssStatus
unfolding from_raw
status (call module_name op code errno) = from_raw code
status _ = none

abbrev pub is_unavail_status : Option NssStatus → Bool
is_unavail_status (some unavail) = true
is_unavail_status _ = false

unfoldable pub is_unavail : Error → Bool
unfolding status
is_unavail e = is_unavail_status (status e)
