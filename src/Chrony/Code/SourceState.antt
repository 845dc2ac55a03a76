-- ===== src/Chrony/Code/SourceState.antt =====
-- `SourceState` of truenas_chrony/src/source.rs.
use truenas_ros_utils.Prelude.{ℕ, ◌==◌, if◌then◌else◌}

pub data SourceState : Type 0 where
  selected unusable falseticker jittery combined selectable : SourceState
  unknown : ℕ → SourceState

unfoldable pub from_code : ℕ → SourceState
from_code code =
    if code == 0
    then selected
    else if code == 1
    then unusable
    else if code == 2
    then falseticker
    else if code == 3
    then jittery
    else if code == 4
    then combined
    else if code == 5
    then selectable
    else unknown code
