-- ===== src/Xdr/Strict.antt =====
-- truenas_xdr/src/strict.rs
use truenas_ros_utils.Prelude.{Bool, true, false}

pub data Strictness : Type 0 where
  lenient strict : Strictness

-- `mode == Strictness::Strict`
abbrev pub is_strict : Strictness → Bool
is_strict lenient = false
is_strict strict = true
