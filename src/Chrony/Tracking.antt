-- ===== src/Chrony/Tracking.antt =====
-- The tracking report, truenas_chrony/src/tracking.rs.
use truenas_ros_utils.Prelude.{ℕ, Bool, true, false, not, ◌&&◌, ◌||◌, ◌==◌}
use truenas_ros_utils.Prelude.Exec.{pure, ◌>>=◌}
use truenas_ros_utils.Chrony.Code.Leap
use truenas_ros_utils.Chrony.Code.Leap.{Leap}
use truenas_ros_utils.Chrony.Types.{Address, unspecified, v4, v6, id, RefId, local}
use truenas_ros_utils.Chrony.Wire.{
  Layout, Read, Float, SystemTime, Clock, u16, u32, float, timestamp, address,
}

pub record Tracking : Type 0 where
  pub reference_id : RefId
  pub address : Address
  pub stratum : ℕ
  pub leap : Leap
  pub reference_time : SystemTime
  pub correction : Float
  pub last_offset : Float
  pub rms_offset : Float
  pub frequency_ppm : Float
  pub residual_frequency_ppm : Float
  pub skew_ppm : Float
  pub root_delay : Float
  pub root_dispersion : Float
  pub update_interval : Float

is_unspecified : Address → Bool
is_unspecified unspecified = true
is_unspecified (v4 octets) = false
is_unspecified (v6 octets) = false
is_unspecified (id n) = false

unfoldable pub is_synchronized : Tracking → Bool
unfolding is_unspecified
is_synchronized t =
    not (is_unspecified t.address)
    || (not (t.reference_id.value == 0) && not (t.reference_id.value == local.value))

unfoldable pub read : Clock → Read Tracking
read clock = do
  reference_id ← u32
  at ← address
  stratum ← u16
  leap ← u16
  reference_time ← timestamp clock
  correction ← float
  last_offset ← float
  rms_offset ← float
  frequency_ppm ← float
  residual_frequency_ppm ← float
  skew_ppm ← float
  root_delay ← float
  root_dispersion ← float
  update_interval ← float
  pure (record {
    reference_id = record { value = reference_id };
    address = at;
    stratum = stratum;
    leap = Leap.from_code leap;
    reference_time = reference_time;
    correction = correction;
    last_offset = last_offset;
    rms_offset = rms_offset;
    frequency_ppm = frequency_ppm;
    residual_frequency_ppm = residual_frequency_ppm;
    skew_ppm = skew_ppm;
    root_delay = root_delay;
    root_dispersion = root_dispersion;
    update_interval = update_interval;
  })

abbrev pub layout : Clock → Layout Tracking
layout clock = record { command = 33; reply = 5; len = 76; read = read clock }
