-- ===== src/Xdr/Error.antt =====
-- truenas_xdr/src/error.rs
use Prim.Native.String.{String}
use truenas_ros_utils.Prelude.{ℕ}

pub data Error : Type 0 where
  eof : ℕ → Error
  range : Error
  non_zero_padding : Error
  embedded_nul : Error
  invalid_bool : ℕ → Error
  utf8 : Error
  trailing_bytes : ℕ → Error
  recursion_limit : ℕ → Error
  too_long : ℕ → ℕ → Error
  unsupported : String → Error
  io : String → Error
  message : String → Error
