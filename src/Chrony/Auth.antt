-- ===== src/Chrony/Auth.antt =====
-- The authentication report, truenas_chrony/src/auth.rs.
use truenas_ros_utils.Prelude.{ℕ, Bool, not, Option, ◌==◌}
use truenas_ros_utils.Prelude.Exec.{pure, ◌>>=◌, ◌>>◌}
use truenas_ros_utils.Chrony.Code.AuthMode
use truenas_ros_utils.Chrony.Code.AuthMode.{AuthMode}
use truenas_ros_utils.Chrony.Code.Algorithm
use truenas_ros_utils.Chrony.Code.Algorithm.{Algorithm}
use truenas_ros_utils.Chrony.Wire.{Layout, Read, u16, u32, ago, skip}

pub record Authentication : Type 0 where
  pub mode : AuthMode
  pub algorithm : Algorithm
  pub key_id : ℕ
  pub key_bits : ℕ
  pub ke_attempts : ℕ
  pub last_ke_ago : Option ℕ
  pub cookies : ℕ
  pub cookie_length : ℕ
  pub nak : Bool

unfoldable pub read : Read Authentication
read = do
  mode ← u16
  algorithm ← u16
  key_id ← u32
  key_bits ← u16
  ke_attempts ← u16
  last_ke_ago ← ago
  cookies ← u16
  cookie_length ← u16
  nak ← u16
  skip 2
  pure (record {
    mode = AuthMode.from_code mode;
    algorithm = Algorithm.from_code algorithm;
    key_id = key_id;
    key_bits = key_bits;
    ke_attempts = ke_attempts;
    last_ke_ago = last_ke_ago;
    cookies = cookies;
    cookie_length = cookie_length;
    nak = not (nak == 0);
  })

abbrev pub layout : Layout Authentication
layout = record { command = 67; reply = 20; len = 24; read = read }
