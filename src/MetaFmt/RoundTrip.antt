-- ===== src/MetaFmt/RoundTrip.antt =====
-- `pack` and `unpack`: a record that is written reads back, and settings that cannot be read back
-- are not written.
use truenas_ros_utils.Prelude.{
  ℕ, ◌≤◌, true, false, Option, none, some, List, [], ◌++◌, ◌≡◌, refl, ap, ◌∙◌, if◌then◌else◌, any,
  ok, length, arith, append-nil, length-append,
}
use truenas_ros_utils.Prelude.Bytes.{AreBytes, u32_to_be_bytes}
use truenas_ros_utils.Xdr.Strict.{strict}
use truenas_ros_utils.Xdr.Utf8.{is_utf8}
use truenas_ros_utils.Xdr.Codec.Shape.{option}
use truenas_ros_utils.Xdr.Codec.Wire.{wire, nest, IsFit, padded}
use truenas_ros_utils.Xdr.Codec.RoundTrip.{
  to_bytes-encode, from_prefix_with-wire, from_bytes_with-wire, length-padded,
}
use truenas_ros_utils.MetaFmt.{
  MetaFmt, StreamFormat, magic, version, header_shape, streams_v1_shape, body_v1_shape,
  packed_shape, to_streams, to_body, of_streams, contains_nul, affixes, from_xdr, pack, read_body,
  read_header, unpack,
}

-- What a Rust `String` guarantees.
abbrev pub IsText : List ℕ → Type 0
IsText s = AreBytes s × (is_utf8 s ≡ true)

abbrev pub AreTexts : Option StreamFormat → Type 0
AreTexts none = Unit {0}
AreTexts (some s) = IsText s.stream_prefix × IsText s.stream_suffix

-- The strings of the settings are Rust strings.
pub record IsMetaFmt (m : MetaFmt) : Type 0 where
  pub charset : IsText m.filename_charset
  pub affixes : AreTexts m.streams

abbrev pub AffixesFit : Option StreamFormat → Type 0
AffixesFit none = Unit {0}
AffixesFit (some s) =
    (contains_nul s.stream_prefix ≡ false)
    × (length s.stream_prefix ≤ 255)
    × (contains_nul s.stream_suffix ≡ false)
    × (length s.stream_suffix ≤ 255)

-- No string holds a NUL, and none is over its bound.
pub record Fits (m : MetaFmt) : Type 0 where
  pub clean : contains_nul m.filename_charset ≡ false
  pub short : length m.filename_charset ≤ 64
  pub affixes : AffixesFit m.streams

streams-IsFit :
    (o : Option StreamFormat)
    → AreTexts o
    → AffixesFit o
    → IsFit strict (option streams_v1_shape) (to_streams o)
streams-IsFit none t f = tt
streams-IsFit (some s) t f =
    let (prefix, suffix) = t in
    (
      ((prefix.0, omega arith, prefix.1, f.0), f.1),
      (((suffix.0, omega arith, suffix.1, f.2), f.3), (tt, tt)),
    )

body-IsFit : (m : MetaFmt) → IsMetaFmt m → Fits m → IsFit strict body_v1_shape (to_body m)
body-IsFit m t f = (
  ((t.charset.0, omega (arith, f.short), t.charset.1, f.clean), f.short),
  (tt, (streams-IsFit m.streams t.affixes f.affixes, tt)),
)

of_streams-to_streams : (o : Option StreamFormat) → of_streams (to_streams o) ≡ o
of_streams-to_streams none = refl
of_streams-to_streams (some s) = refl

no_affix_nul : (o : Option StreamFormat) → AffixesFit o → any contains_nul (affixes o) ≡ false
no_affix_nul none f = refl
no_affix_nul (some s) f = rw (f.0, f.2)

-- Settings whose strings fit are packed, as the magic, the version and the body.
pub pack-Fits :
    (m : MetaFmt)
    → IsMetaFmt m
    → Fits m
    → pack m ≡ ok (wire packed_shape (magic, (version, (to_body m, tt))))
unfolding pack
pack-Fits m t f =
    rw (f.clean, no_affix_nul m.streams f.affixes)
      (ap from_xdr (
        to_bytes-encode strict packed_shape (magic, (version, (to_body m, tt)))
          (omega arith, (omega arith, (body-IsFit m t f, tt)))))

streams-length :
    (o : Option StreamFormat)
    → AffixesFit o
    → length (wire (option streams_v1_shape) (to_streams o)) ≤ 1000
streams-length none f = omega arith
streams-length (some s) f =
    let last = u32_to_be_bytes (if s.stream_extra_null then 1 else 0) in
    let suffix = u32_to_be_bytes (length s.stream_suffix) ++ (padded s.stream_suffix ++ last) in
    omega (
      arith,
      length-append (padded s.stream_prefix) suffix,
      length-append (padded s.stream_suffix) last,
      length-padded s.stream_prefix,
      length-padded s.stream_suffix,
    )

body-length : (m : MetaFmt) → Fits m → length (wire body_v1_shape (to_body m)) ≤ 2000
body-length m f =
    let last = wire (option streams_v1_shape) (to_streams m.streams) in
    let flag = u32_to_be_bytes (if m.smb_sfm_normalized then 1 else 0) in
    omega (
      arith,
      length-append (padded m.filename_charset) (flag ++ (last ++ [])),
      length-append last [],
      length-padded m.filename_charset,
      streams-length m.streams f.affixes,
      f.short,
    )

streams-nest : (o : Option StreamFormat) → nest (option streams_v1_shape) (to_streams o) ≤ 3
streams-nest none = omega arith
streams-nest (some s) = omega arith

-- The body of a record reads back as the settings.
read_body-Fits :
    (m : MetaFmt) → IsMetaFmt m → Fits m → read_body version (wire body_v1_shape (to_body m)) ≡ ok m
unfolding read_body
read_body-Fits m t f =
    rw
      (from_bytes_with-wire strict body_v1_shape (to_body m) (body-IsFit m t f)
        (omega (arith, streams-nest m.streams)) (omega (arith, body-length m f)))
      (ap (λ o. ok (record m { streams = o })) (of_streams-to_streams m.streams))

-- A record of the current version reads back as the settings that it was packed from.
pub unpack-Fits :
    (m : MetaFmt)
    → IsMetaFmt m
    → Fits m
    → unpack (wire packed_shape (magic, (version, (to_body m, tt)))) ≡ ok m
unfolding unpack
unpack-Fits m t f =
    let body = wire body_v1_shape (to_body m) in
    let whole =
      from_prefix_with-wire strict header_shape (magic, (version, tt)) body (omega arith)
        (omega arith) (omega (arith, body-length m f)) in
    ap (λ b. unpack (wire header_shape (magic, (version, tt)) ++ b)) (append-nil body)
    ∙ ap read_header whole
    ∙ read_body-Fits m t f
