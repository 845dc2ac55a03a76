-- ===== src/Chrony/Code/AuthMode.antt =====
-- `AuthMode` of truenas_chrony/src/auth.rs.
use truenas_ros_utils.Prelude.{ℕ, ◌==◌, if◌then◌else◌}

pub data AuthMode : Type 0 where
  none symmetric_key nts : AuthMode
  unknown : ℕ → AuthMode

unfoldable pub from_code : ℕ → AuthMode
from_code code =
    if code == 0
    then none
    else if code == 1
    then symmetric_key
    else if code == 2
    then nts
    else unknown code
