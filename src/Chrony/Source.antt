-- ===== src/Chrony/Source.antt =====
-- The source count and the source list, truenas_chrony/src/source.rs.
use truenas_ros_utils.Prelude.{ℕ, Option, none, some}
use truenas_ros_utils.Prelude.Bytes.{be_value}
use truenas_ros_utils.Prelude.Exec.{pure, ◌>>=◌, ◌>>◌}
use truenas_ros_utils.Xdr.Signed.{ℤ}
use truenas_ros_utils.Chrony.Code.SourceMode
use truenas_ros_utils.Chrony.Code.SourceMode.{SourceMode}
use truenas_ros_utils.Chrony.Code.SourceState
use truenas_ros_utils.Chrony.Code.SourceState.{SourceState}
use truenas_ros_utils.Chrony.Types.{Address, unspecified, v4, v6, id, RefId}
use truenas_ros_utils.Chrony.Wire.{Layout, Read, Float, u16, i16, u32, ago, skip, float, address}

-- `impl Layout for u32`
abbrev pub count_layout : Layout ℕ
count_layout = record { command = 14; reply = 2; len = 4; read = u32 }

pub record Source : Type 0 where
  pub address : Address
  pub poll : ℤ
  pub stratum : ℕ
  pub state : SourceState
  pub mode : SourceMode
  pub reachability : ℕ
  pub last_sample_ago : Option ℕ
  pub adjusted_offset : Float
  pub measured_offset : Float
  pub offset_error : Float

-- An IPv4 address as a number.
id_of : Address → Option RefId
id_of (v4 octets) = some (record { value = be_value 0 octets })
id_of (v6 octets) = none
id_of (id n) = none
id_of unspecified = none

unfoldable pub refclock_id : Source → Option RefId
unfolding id_of
refclock_id s = elim s.mode [
  | SourceMode.ref_clock ↦ id_of s.address
  | SourceMode.server ↦ none
  | SourceMode.peer ↦ none
  | SourceMode.unknown c ↦ none
]

unfoldable pub read : Read Source
read = do
  at ← address
  poll ← i16
  stratum ← u16
  state ← u16
  mode ← u16
  skip 2
  reachability ← u16
  last_sample_ago ← ago
  measured_offset ← float
  adjusted_offset ← float
  offset_error ← float
  pure (record {
    address = at;
    poll = poll;
    stratum = stratum;
    state = SourceState.from_code state;
    mode = SourceMode.from_code mode;
    reachability = reachability;
    last_sample_ago = last_sample_ago;
    adjusted_offset = adjusted_offset;
    measured_offset = measured_offset;
    offset_error = offset_error;
  })

abbrev pub layout : Layout Source
layout = record { command = 15; reply = 3; len = 48; read = read }
