-- ===== src/Chrony/Code/RoundTrip.antt =====
-- The enumerations that keep their code.
use truenas_ros_utils.Prelude.{ℕ, ◌≡◌}
use truenas_ros_utils.Chrony.Code.Status
use truenas_ros_utils.Chrony.Code.SelectState
use truenas_ros_utils.Chrony.Code.Algorithm

-- A status, a selection state and an algorithm each give back the code that they were read from,
-- whichever it is: no two codes are read as one value.
codes_kept :
    (c : ℕ)
    → (Status.code (Status.from_code c) ≡ c)
      × (SelectState.code (SelectState.from_code c) ≡ c)
      × (Algorithm.code (Algorithm.from_code c) ≡ c)
codes_kept c = (Status.code-from_code c, SelectState.code-from_code c, Algorithm.code-from_code c)
