-- ===== src/Chrony/Code/SourceMode.antt =====
-- `SourceMode` of truenas_chrony/src/source.rs.
use truenas_ros_utils.Prelude.{ℕ, ◌==◌, if◌then◌else◌}

pub data SourceMode : Type 0 where
  server peer ref_clock : SourceMode
  unknown : ℕ → SourceMode

unfoldable pub from_code : ℕ → SourceMode
from_code code =
    if code == 0
    then server
    else if code == 1
    then peer
    else if code == 2
    then ref_clock
    else unknown code
