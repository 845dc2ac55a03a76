-- ===== src/Xdr/Unit4.antt =====
-- The names and constants of truenas_xdr/src/lib.rs that both directions of the codec use.
use Prim.Native.String.{String}
use truenas_ros_utils.Prelude.{ℕ, ◌-◌, ◌%◌}

abbrev pub bytes_per_xdr_unit : ℕ
bytes_per_xdr_unit = 4

-- The largest `usize`, on a 64-bit target.
abbrev pub usize_max : ℕ
usize_max = 18446744073709551615

-- The names under which types reach the codec. The three sentinels begin with a NUL, so that no
-- type of a program has one of them.
pub data Name : Type 0 where
  sentinel_fixed sentinel_bounded sentinel_array_ref : Name
  plain : String → Name

unfoldable pub pad4 : ℕ → ℕ
pad4 len = (bytes_per_xdr_unit - len % bytes_per_xdr_unit) % bytes_per_xdr_unit
