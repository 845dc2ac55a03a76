-- ===== src/Chrony/Selection.antt =====
-- The selection report, truenas_chrony/src/source.rs.
use truenas_ros_utils.Prelude.{ℕ, Bool, not, Option, ◌==◌}
use truenas_ros_utils.Prelude.Exec.{pure, ◌>>=◌, ◌>>◌}
use truenas_ros_utils.Chrony.Code.Leap
use truenas_ros_utils.Chrony.Code.Leap.{Leap}
use truenas_ros_utils.Chrony.Code.SelectState
use truenas_ros_utils.Chrony.Code.SelectState.{SelectState}
use truenas_ros_utils.Chrony.Types.{Address, RefId}
use truenas_ros_utils.Chrony.Wire.{Layout, Read, Float, u8, u16, u32, ago, skip, float, address}

-- The options are their bits: unassigned ones are kept.
pub record Selection : Type 0 where
  pub reference_id : RefId
  pub address : Address
  pub state : SelectState
  pub authenticated : Bool
  pub leap : Leap
  pub configured_options : ℕ
  pub effective_options : ℕ
  pub last_sample_ago : Option ℕ
  pub score : Float
  pub lower_limit : Float
  pub upper_limit : Float

unfoldable pub read : Read Selection
read = do
  reference_id ← u32
  at ← address
  state ← u8
  authenticated ← u8
  leap ← u8
  skip 1
  configured_options ← u16
  effective_options ← u16
  last_sample_ago ← ago
  score ← float
  lower_limit ← float
  upper_limit ← float
  pure (record {
    reference_id = record { value = reference_id };
    address = at;
    state = SelectState.from_code state;
    authenticated = not (authenticated == 0);
    leap = Leap.from_code leap;
    configured_options = configured_options;
    effective_options = effective_options;
    last_sample_ago = last_sample_ago;
    score = score;
    lower_limit = lower_limit;
    upper_limit = upper_limit;
  })

abbrev pub layout : Layout Selection
layout = record { command = 69; reply = 23; len = 48; read = read }
