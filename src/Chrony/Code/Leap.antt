-- ===== src/Chrony/Code/Leap.antt =====
-- `Leap` of truenas_chrony/src/types.rs.
use truenas_ros_utils.Prelude.{ℕ, ◌==◌, if◌then◌else◌}

pub data Leap : Type 0 where
  normal insert_second delete_second unsynchronized : Leap
  unknown : ℕ → Leap

unfoldable pub from_code : ℕ → Leap
from_code code =
    if code == 0
    then normal
    else if code == 1
    then insert_second
    else if code == 2
    then delete_second
    else if code == 3
    then unsynchronized
    else unknown code
