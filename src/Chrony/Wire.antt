-- ===== src/Chrony/Wire.antt =====
-- truenas_chrony/src/wire.rs
use truenas_ros_utils.Prelude.{
  ℕ, ◌+◌, ◌*◌, ◌-◌, ◌/◌, ◌%◌, min, Bool, Option, none, some, List, [], ◌∷◌, ◌++◌, length, take,
  drop, replicate, Result, ok, err, ltb, ◌==◌, if◌then◌else◌, map_ok,
}
use truenas_ros_utils.Prelude.Bytes.{be_value, u16_to_be_bytes, u32_to_be_bytes}
use truenas_ros_utils.Prelude.Exec.{Exec, pure, raise, ◌>>=◌, ◌>>◌}
use truenas_ros_utils.Xdr.Signed.{ℤ, pos, negsuc, to_signed, i16_limit, i32_limit, i64_limit}
use truenas_ros_utils.Chrony.Error.{Error, malformed, unexpected_reply}
use truenas_ros_utils.Chrony.Types.{Address, unspecified, v4, v6, id}
pub mod Addresses
pub mod Consumes

abbrev pub version : ℕ
version = 6

abbrev pub oldest_mismatch_version : ℕ
oldest_mismatch_version = 4

abbrev pub type_request : ℕ
type_request = 1

abbrev pub type_reply : ℕ
type_reply = 2

abbrev pub request_header : ℕ
request_header = 20

abbrev pub reply_header : ℕ
reply_header = 28

abbrev pub status_ok : ℕ
status_ok = 0

abbrev pub status_bad_version : ℕ
status_bad_version = 18

abbrev pub family_none : ℕ
family_none = 0

abbrev pub family_ipv4 : ℕ
family_ipv4 = 1

abbrev pub family_ipv6 : ℕ
family_ipv6 = 2

abbrev pub family_id : ℕ
family_id = 3

abbrev pub no_high_word : ℕ
no_high_word = 0x7fffffff

abbrev pub max_nsec : ℕ
max_nsec = 999999999

-- The bytes that are left.
pub record Reader : Type 0 where
  pub rest : List ℕ

-- A method on `&mut Reader`.
abbrev pub Read : Type 0 → Type 0
Read A = Exec Error Reader A

-- `trait Layout`, of the report `T`.
pub record Layout (T : Type 0) : Type 0 where
  pub command : ℕ
  pub reply : ℕ
  pub len : ℕ
  pub read : Read T

-- `Reader::new`, on `data.get(..len)`.
unfoldable pub new : List ℕ → ℕ → Result Error Reader
new bytes len =
    if ltb (length bytes) len
    then err (malformed "reply shorter than its layout")
    else ok (record { rest = take len bytes })

-- `Reader::take`
unfoldable pub take_chunk : ℕ → Read (List ℕ)
take_chunk n r =
    if ltb (length r.rest) n
    then (err (malformed "reply shorter than its layout"), r)
    else (ok (take n r.rest), record { rest = drop n r.rest })

unfoldable pub skip : ℕ → Read Unit
skip n = do _ ← take_chunk n; pure tt

unfoldable pub u8 : Read ℕ
u8 = do b ← take_chunk 1; pure (be_value 0 b)

unfoldable pub u16 : Read ℕ
u16 = do b ← take_chunk 2; pure (be_value 0 b)

unfoldable pub i16 : Read ℤ
i16 = do b ← take_chunk 2; pure (to_signed i16_limit (be_value 0 b))

unfoldable pub u32 : Read ℕ
u32 = do b ← take_chunk 4; pure (be_value 0 b)

unfoldable pub ago : Read (Option ℕ)
unfolding u32
ago = do s ← u32; pure (if s == 0xffffffff then none else some s)

-- A float that the protocol carries is `coef * 2^exponent`, which an `f64` holds exactly.
pub record Float : Type 0 where
  pub coef : ℤ
  pub exponent : ℤ

-- `exp - 25`, of a seven-bit `exp`.
less25 : ℤ → ℤ
less25 (pos n) = if ltb n 25 then negsuc (24 - n) else pos (n - 25)
less25 (negsuc n) = negsuc (n + 25)

-- The seven high bits and the 25 low ones, each sign-extended by an arithmetic shift.
unfoldable pub float_of : ℕ → Float
unfolding less25
float_of raw = record {
  coef = to_signed 16777216 (raw % 33554432);
  exponent = less25 (to_signed 64 (raw / 33554432));
}

unfoldable pub float : Read Float
unfolding u32 float_of
float = do raw ← u32; pure (float_of raw)

-- A `SystemTime` as its seconds from the epoch, rounded down, and its nanoseconds.
pub record SystemTime : Type 0 where
  pub secs : ℤ
  pub nsec : ℕ

-- `UNIX_EPOCH`
abbrev pub unix_epoch : SystemTime
unix_epoch = record { secs = pos 0; nsec = 0 }

pub record Duration : Type 0 where
  pub secs : ℕ
  pub nanos : ℕ

-- The arithmetic of std on a `SystemTime`, whose range is the platform's.
pub record Clock : Type 0 where
  pub checked_add : SystemTime → Duration → Option SystemTime
  pub checked_sub : SystemTime → Duration → Option SystemTime

abbrev pub later : Clock → ℕ → Option SystemTime → Option SystemTime
later clock nsec none = none
later clock nsec (some t) = clock.checked_add t (record { secs = 0; nanos = nsec })

-- The time of signed seconds from the epoch, and nanoseconds below a second.
unfoldable pub time_of : Clock → ℤ → ℕ → Option SystemTime
time_of clock (pos s) nsec = clock.checked_add unix_epoch (record { secs = s; nanos = nsec })
time_of clock (negsuc s) nsec =
    later clock nsec (clock.checked_sub unix_epoch (record { secs = s + 1; nanos = 0 }))

-- `time.ok_or(…)`
abbrev pub in_range : Option SystemTime → Read SystemTime
in_range none = raise (malformed "timestamp out of range")
in_range (some t) = pure t

unfoldable pub timestamp : Clock → Read SystemTime
unfolding u32 time_of
timestamp clock = do
  high ← u32
  low ← u32
  raw ← u32
  let nsec = min raw max_nsec
  let high = if high == no_high_word then 0 else high
  in_range (time_of clock (to_signed i64_limit (high * 4294967296 + low)) nsec)

-- The `match` on the family code.
unfoldable pub address_of : List ℕ → ℕ → Address
address_of addr family =
    if family == family_ipv4
    then v4 (take 4 addr)
    else if family == family_ipv6
    then v6 addr
    else if family == family_id
    then id (be_value 0 (take 4 addr))
    else unspecified

unfoldable pub address : Read Address
unfolding u16 skip address_of
address = do addr ← take_chunk 16; family ← u16; skip 2; pure (address_of addr family)

-- The 16 bytes that hold an address, and its family.
addr_bytes : Address → List ℕ
addr_bytes unspecified = replicate 16 0
addr_bytes (v4 octets) = octets ++ replicate 12 0
addr_bytes (v6 octets) = octets
addr_bytes (id n) = u32_to_be_bytes n ++ replicate 12 0

family_of : Address → ℕ
family_of unspecified = family_none
family_of (v4 octets) = family_ipv4
family_of (v6 octets) = family_ipv6
family_of (id n) = family_id

unfoldable pub put_address : List ℕ → Address → List ℕ
unfolding addr_bytes family_of
put_address buf a = buf ++ (addr_bytes a ++ (u16_to_be_bytes (family_of a) ++ (0 ∷ 0 ∷ [])))

unfoldable pub decode : {T : Type 0} → Layout T → ℕ → List ℕ → Result Error T
unfolding new
decode layout reply bytes =
    if reply == layout.reply
    then elim (new bytes layout.len) [ ok r ↦ (layout.read r).0 | err e ↦ err e ]
    else err (unexpected_reply reply)
