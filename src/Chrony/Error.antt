-- ===== src/Chrony/Error.antt =====
-- `Error` of truenas_chrony/src/error.rs
use Prim.Native.String.{String}
use truenas_ros_utils.Prelude.{ℕ, Bool, true, false}
use truenas_ros_utils.Chrony.Code.Status.{Status, invalid, bad_packet_length, bad_packet_version}

pub data Error : Type 0 where
  io : String → Error
  timeout : Error
  status : Status → Error
  version : ℕ → Error
  changed : Error
  unexpected_reply : ℕ → Error
  malformed : String → Error

unfoldable pub is_unsupported : Error → Bool
is_unsupported (version v) = true
is_unsupported (unexpected_reply code) = true
is_unsupported (status invalid) = true
is_unsupported (status bad_packet_length) = true
is_unsupported (status bad_packet_version) = true
is_unsupported _ = false
