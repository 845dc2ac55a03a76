-- ===== src/Xdr/Codec/Wire/Padding.antt =====
-- The padding of the code is the one of RFC 4506.
use truenas_ros_utils.Prelude.{ℕ, ◌≡◌, arith}
use truenas_ros_utils.Xdr.Unit4.{pad4}
use truenas_ros_utils.Xdr.Codec.Wire.{filler}

pub pad4-filler : (len : ℕ) → pad4 len ≡ filler len
unfolding pad4
pad4-filler len = omega arith
