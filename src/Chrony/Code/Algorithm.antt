-- ===== src/Chrony/Code/Algorithm.antt =====
-- `Algorithm` of truenas_chrony/src/auth.rs.
use truenas_ros_utils.Prelude.{ℕ, ◌≡◌, ◌==◌, if◌then◌else◌, arith}

pub data Algorithm : Type 0 where
  none md5 sha1 sha256 sha384 sha512 sha3_224 sha3_256 sha3_384 sha3_512 tiger whirlpool : Algorithm
  aes128 aes256 aes_siv_cmac256 aes_siv_cmac384 aes_siv_cmac512 aes128_gcm_siv : Algorithm
  aes256_gcm_siv : Algorithm
  unknown : ℕ → Algorithm

unfoldable pub from_code : ℕ → Algorithm
from_code code =
    if code == 0
    then none
    else if code == 1
    then md5
    else if code == 2
    then sha1
    else if code == 3
    then sha256
    else if code == 4
    then sha384
    else if code == 5
    then sha512
    else if code == 6
    then sha3_224
    else if code == 7
    then sha3_256
    else if code == 8
    then sha3_384
    else if code == 9
    then sha3_512
    else if code == 10
    then tiger
    else if code == 11
    then whirlpool
    else if code == 13
    then aes128
    else if code == 14
    then aes256
    else if code == 15
    then aes_siv_cmac256
    else if code == 16
    then aes_siv_cmac384
    else if code == 17
    then aes_siv_cmac512
    else if code == 30
    then aes128_gcm_siv
    else if code == 31
    then aes256_gcm_siv
    else unknown code

unfoldable pub code : Algorithm → ℕ
code none = 0
code md5 = 1
code sha1 = 2
code sha256 = 3
code sha384 = 4
code sha512 = 5
code sha3_224 = 6
code sha3_256 = 7
code sha3_384 = 8
code sha3_512 = 9
code tiger = 10
code whirlpool = 11
code aes128 = 13
code aes256 = 14
code aes_siv_cmac256 = 15
code aes_siv_cmac384 = 16
code aes_siv_cmac512 = 17
code aes128_gcm_siv = 30
code aes256_gcm_siv = 31
code (unknown c) = c

pub code-from_code : (c : ℕ) → code (from_code c) ≡ c
unfolding from_code code
code-from_code c = ground arith
