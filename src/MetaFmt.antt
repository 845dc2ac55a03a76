-- ===== src/MetaFmt.antt =====
-- truenas_metafmt/src/lib.rs: the settings, their XDR layout, and the operations.
pub mod Equality
pub mod RoundTrip
pub mod Outcome
pub mod Versions
use truenas_ros_utils.Prelude.{
  ℕ, zero, suc, Bool, true, false, ◌&&◌, ◌||◌, Option, none, some, List, [], ◌∷◌, ◌++◌, ◌==◌,
  if◌then◌else◌, any, ◌≡◌, refl, arith, Result, ok, err, map_ok,
}
use truenas_ros_utils.Xdr.Error
use truenas_ros_utils.Xdr.Error.{embedded_nul}
use truenas_ros_utils.Xdr.Strict.{strict}
use truenas_ros_utils.Xdr.De.{from_prefix_with, from_bytes_with}
use truenas_ros_utils.Xdr.Ser.{vec_write, to_bytes}
use truenas_ros_utils.Xdr.Codec.Shape.{
  Shape, Value, u32, bool, struct, option, bounded, string, field, done,
}
use truenas_ros_utils.Xdr.Codec.Drive.{decode, encode}

abbrev pub magic : ℕ
magic = 0x544e4d46

abbrev pub version : ℕ
version = 1

abbrev pub filename_charset_max : ℕ
filename_charset_max = 64

abbrev pub stream_affix_max : ℕ
stream_affix_max = 255

-- A `String` is its bytes.
pub record StreamFormat : Type 0 where
  pub stream_prefix : List ℕ
  pub stream_suffix : List ℕ
  pub stream_extra_null : Bool

pub record MetaFmt : Type 0 where
  pub filename_charset : List ℕ
  pub smb_sfm_normalized : Bool
  pub streams : Option StreamFormat

pub data PackError : Type 0 where
  not_a_record : PackError
  newer_version : ℕ → PackError
  xdr : Error.Error → PackError

pub data Verdict : Type 0 where
  unstamped same : Verdict
  differs : MetaFmt → Verdict
  newer : ℕ → Verdict
  unreadable : PackError → Verdict

-- `Header`, `StreamsV1`, `BodyV1` and `Packed`, as their derives drive the codec.
abbrev pub header_shape : Shape
header_shape = struct (field u32 (field u32 done))

abbrev pub streams_v1_shape : Shape
streams_v1_shape = struct (
    field (bounded stream_affix_max string)
      (field (bounded stream_affix_max string) (field bool done)))

abbrev pub body_v1_shape : Shape
body_v1_shape = struct (
    field (bounded filename_charset_max string) (field bool (field (option streams_v1_shape) done)))

abbrev pub packed_shape : Shape
packed_shape = struct (field u32 (field u32 (field body_v1_shape done)))

-- `From<&MetaFmt> for BodyV1`
abbrev pub to_streams : Option StreamFormat → Option (Value streams_v1_shape)
to_streams none = none
to_streams (some s) = some (s.stream_prefix, (s.stream_suffix, (s.stream_extra_null, tt)))

abbrev pub to_body : MetaFmt → Value body_v1_shape
to_body m = (m.filename_charset, (m.smb_sfm_normalized, (to_streams m.streams, tt)))

-- `From<BodyV1> for MetaFmt`
abbrev pub of_streams : Option (Value streams_v1_shape) → Option StreamFormat
of_streams none = none
of_streams (some v) =
    some (record { stream_prefix = v.0; stream_suffix = v.1.0; stream_extra_null = v.1.1.0 })

abbrev pub of_body : Value body_v1_shape → MetaFmt
of_body v = record {
  filename_charset = v.0;
  smb_sfm_normalized = v.1.0;
  streams = of_streams v.1.1.0;
}

abbrev pub contains_nul : List ℕ → Bool
contains_nul s = any (λ b. b == 0) s

abbrev pub affixes : Option StreamFormat → List (List ℕ)
affixes none = []
affixes (some s) = s.stream_prefix ∷ s.stream_suffix ∷ []

-- `?` on an XDR error.
abbrev pub from_xdr : {A : Type 0} → Result Error.Error A → Result PackError A
from_xdr (ok a) = ok a
from_xdr (err e) = err (xdr e)

unfoldable pub pack : MetaFmt → Result PackError (List ℕ)
pack m =
    if any contains_nul (m.filename_charset ∷ affixes m.streams)
    then err (xdr embedded_nul)
    else from_xdr (to_bytes (encode vec_write packed_shape (magic, (version, (to_body m, tt)))))

-- The `match` on the version of a header with the right magic.
read_body : ℕ → List ℕ → Result PackError MetaFmt
read_body found body =
    if found == 0
    then err not_a_record
    else if found == version
    then from_xdr (map_ok of_body (from_bytes_with (decode body_v1_shape) body strict))
    else err (newer_version found)

read_header : Result Error.Error (Value header_shape × List ℕ) → Result PackError MetaFmt
unfolding read_body
read_header (err e) = err (xdr e)
read_header (ok (header, body)) =
    if header.0 == magic then read_body header.1.0 body else err not_a_record

unfoldable pub unpack : List ℕ → Result PackError MetaFmt
unfolding read_header
unpack bytes = read_header (from_prefix_with (decode header_shape) bytes strict)

-- The derived `PartialEq`.
eq_bytes : List ℕ → List ℕ → Bool
eq_bytes [] [] = true
eq_bytes (a ∷ x) (b ∷ y) = a == b && eq_bytes x y
eq_bytes _ _ = false

eq_bool : Bool → Bool → Bool
eq_bool true b = b
eq_bool false true = false
eq_bool false false = true

eq_streams : Option StreamFormat → Option StreamFormat → Bool
unfolding eq_bytes eq_bool
eq_streams none none = true
eq_streams (some s) (some t) =
    eq_bytes s.stream_prefix t.stream_prefix
    && (eq_bytes s.stream_suffix t.stream_suffix && eq_bool s.stream_extra_null t.stream_extra_null)
eq_streams _ _ = false

unfoldable pub eq : MetaFmt → MetaFmt → Bool
unfolding eq_streams
eq m n =
    eq_bytes m.filename_charset n.filename_charset
    && (eq_bool m.smb_sfm_normalized n.smb_sfm_normalized && eq_streams m.streams n.streams)

verdict_of : MetaFmt → Result PackError MetaFmt → Verdict
verdict_of wanted (ok found) = if eq found wanted then same else differs found
verdict_of wanted (err (newer_version v)) = newer v
verdict_of wanted (err not_a_record) = unreadable not_a_record
verdict_of wanted (err (xdr e)) = unreadable (xdr e)

unfoldable pub compare_stored : MetaFmt → Option (List ℕ) → Verdict
unfolding verdict_of
compare_stored wanted none = unstamped
compare_stored wanted (some bytes) = verdict_of wanted (unpack bytes)
