-- ===== src/Chrony/Code/Status.antt =====
-- `Status` of truenas_chrony/src/error.rs.
use truenas_ros_utils.Prelude.{ℕ, ◌≡◌, ◌==◌, if◌then◌else◌, arith}

pub data Status : Type 0 where
  failed unauthorized invalid no_such_source invalid_timestamp not_enabled bad_subnet : Status
  access_allowed access_denied no_host_access source_already_known too_many_sources no_rtc : Status
  bad_rtc_file inactive bad_sample invalid_address_family bad_packet_version : Status
  bad_packet_length invalid_name : Status
  unknown : ℕ → Status

unfoldable pub from_code : ℕ → Status
from_code code =
    if code == 1
    then failed
    else if code == 2
    then unauthorized
    else if code == 3
    then invalid
    else if code == 4
    then no_such_source
    else if code == 5
    then invalid_timestamp
    else if code == 6
    then not_enabled
    else if code == 7
    then bad_subnet
    else if code == 8
    then access_allowed
    else if code == 9
    then access_denied
    else if code == 10
    then no_host_access
    else if code == 11
    then source_already_known
    else if code == 12
    then too_many_sources
    else if code == 13
    then no_rtc
    else if code == 14
    then bad_rtc_file
    else if code == 15
    then inactive
    else if code == 16
    then bad_sample
    else if code == 17
    then invalid_address_family
    else if code == 18
    then bad_packet_version
    else if code == 19
    then bad_packet_length
    else if code == 21
    then invalid_name
    else unknown code

unfoldable pub code : Status → ℕ
code failed = 1
code unauthorized = 2
code invalid = 3
code no_such_source = 4
code invalid_timestamp = 5
code not_enabled = 6
code bad_subnet = 7
code access_allowed = 8
code access_denied = 9
code no_host_access = 10
code source_already_known = 11
code too_many_sources = 12
code no_rtc = 13
code bad_rtc_file = 14
code inactive = 15
code bad_sample = 16
code invalid_address_family = 17
code bad_packet_version = 18
code bad_packet_length = 19
code invalid_name = 21
code (unknown c) = c

pub code-from_code : (c : ℕ) → code (from_code c) ≡ c
unfolding from_code code
code-from_code c = ground arith
