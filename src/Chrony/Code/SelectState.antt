-- ===== src/Chrony/Code/SelectState.antt =====
-- `SelectState` of truenas_chrony/src/source.rs.
use truenas_ros_utils.Prelude.{ℕ, ◌≡◌, ◌==◌, if◌then◌else◌, arith}

pub data SelectState : Type 0 where
  no_select missing_samples unsynchronized bad_stratum bad_distance jittery waits_samples :
      SelectState
  stale orphan untrusted falseticker waits_sources non_preferred waits_update distant : SelectState
  outlier combined selected : SelectState
  unknown : ℕ → SelectState

unfoldable pub from_code : ℕ → SelectState
from_code code =
    if code == 0x4e
    then no_select
    else if code == 0x4d
    then missing_samples
    else if code == 0x73
    then unsynchronized
    else if code == 0x72
    then bad_stratum
    else if code == 0x64
    then bad_distance
    else if code == 0x7e
    then jittery
    else if code == 0x77
    then waits_samples
    else if code == 0x53
    then stale
    else if code == 0x4f
    then orphan
    else if code == 0x54
    then untrusted
    else if code == 0x78
    then falseticker
    else if code == 0x57
    then waits_sources
    else if code == 0x50
    then non_preferred
    else if code == 0x55
    then waits_update
    else if code == 0x44
    then distant
    else if code == 0x4c
    then outlier
    else if code == 0x2b
    then combined
    else if code == 0x2a
    then selected
    else unknown code

unfoldable pub code : SelectState → ℕ
code no_select = 0x4e
code missing_samples = 0x4d
code unsynchronized = 0x73
code bad_stratum = 0x72
code bad_distance = 0x64
code jittery = 0x7e
code waits_samples = 0x77
code stale = 0x53
code orphan = 0x4f
code untrusted = 0x54
code falseticker = 0x78
code waits_sources = 0x57
code non_preferred = 0x50
code waits_update = 0x55
code distant = 0x44
code outlier = 0x4c
code combined = 0x2b
code selected = 0x2a
code (unknown c) = c

pub code-from_code : (c : ℕ) → code (from_code c) ≡ c
unfolding from_code code
code-from_code c = ground arith
