-- ===== src/Chrony/Types.antt =====
-- The values that several reports share, truenas_chrony/src/types.rs.
use truenas_ros_utils.Prelude.{ℕ, Option, none, some, List, [], ◌∷◌, leb, ◌&&◌, if◌then◌else◌}
use truenas_ros_utils.Prelude.Bytes.{u32_to_be_bytes}

-- `Ipv4Addr` and `Ipv6Addr` are their octets.
pub data Address : Type 0 where
  unspecified : Address
  v4 : List ℕ → Address
  v6 : List ℕ → Address
  id : ℕ → Address

pub data IpAddr : Type 0 where
  ipv4 ipv6 : List ℕ → IpAddr

unfoldable pub ip : Address → Option IpAddr
ip (v4 octets) = some (ipv4 octets)
ip (v6 octets) = some (ipv6 octets)
ip unspecified = none
ip (id n) = none

-- `impl From<IpAddr> for Address`
unfoldable pub from_ip : IpAddr → Address
from_ip (ipv4 octets) = v4 octets
from_ip (ipv6 octets) = v6 octets

pub record RefId : Type 0 where
  pub value : ℕ

-- `RefId::LOCAL`
abbrev pub local : RefId
local = record { value = 0x7f7f0101 }

-- `filter` on the bytes, for the printable characters.
printable : List ℕ → List ℕ
printable [] = []
printable (b ∷ bs) = let rest = printable bs in if leb 0x20 b && leb b 0x7e then b ∷ rest else rest

-- `RefId::name`, as the codes of its characters.
unfoldable pub name : RefId → List ℕ
unfolding printable
name r = printable (u32_to_be_bytes r.value)
