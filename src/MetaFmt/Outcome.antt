-- ===== src/MetaFmt/Outcome.antt =====
-- Every outcome of `pack`, `unpack` after it, and `compare_stored`.
use truenas_ros_utils.Prelude.{
  ℕ, ◌≤◌, ◌<◌, Bool, true, false, Option, none, some, List, [], ◌∷◌, ◌≡◌, ◌≢◌, ap, ◌⊎◌, inl, inr,
  ltb, ltb→lt, ltb→le, Bool-cases, any, ok, err, length, arith,
}
use truenas_ros_utils.Xdr.Error
use truenas_ros_utils.Xdr.Error.{embedded_nul, too_long}
use truenas_ros_utils.Xdr.Strict.{strict}
use truenas_ros_utils.Xdr.Ser.{
  vec_write, to_bytes, serialize_struct, serialize_element, serialize_some,
}
use truenas_ros_utils.Xdr.Ser
use truenas_ros_utils.Xdr.Codec.Shape.{Shape, Value, u32, bool, option, bounded, string, done}
use truenas_ros_utils.Xdr.Codec.Drive.{encode}
use truenas_ros_utils.Xdr.Codec.Reads.{plain}
use truenas_ros_utils.Xdr.Codec.Writes.{vec_write-Appends}
use truenas_ros_utils.Xdr.Codec.Writes.Fails.{
  Fails, Fails-struct, Fails-here, Fails-later, Fails-some, Fails-bounded, to_bytes_fails,
}
use truenas_ros_utils.MetaFmt.{
  MetaFmt, StreamFormat, xdr, same, differs, magic, version, streams_v1_shape, body_v1_shape,
  packed_shape, to_streams, to_body, contains_nul, affixes, from_xdr, pack, unpack, verdict_of,
  compare_stored, eq,
}
use truenas_ros_utils.MetaFmt.Equality.{eq_iff}
use truenas_ros_utils.MetaFmt.RoundTrip.{
  AreTexts, IsMetaFmt, AffixesFit, Fits, pack-Fits, unpack-Fits,
}

abbrev Refuses : Error.Error → (s : Shape) → Value s → Type 0
Refuses e s v = Fails vec_write-Appends e plain (encode vec_write s v)

has_nul : MetaFmt → Bool
has_nul m = any contains_nul (m.filename_charset ∷ affixes m.streams)

-- A body that is refused is refused in its record.
pack-refused :
    (m : MetaFmt) (e : Error.Error)
    → has_nul m ≡ false
    → Refuses e body_v1_shape (to_body m)
    → pack m ≡ err (xdr e)
unfolding pack has_nul Ser.new
pack-refused m e clean f =
    let lawful = vec_write-Appends in
    let body = Fails-here lawful body_v1_shape done (to_body m, tt) f in
    let versioned = Fails-later lawful strict u32 _ (version, (to_body m, tt)) (omega arith) body in
    let marked =
      Fails-later lawful strict u32 _ (magic, (version, (to_body m, tt))) (omega arith) versioned in
    rw clean (
      ap from_xdr (
        to_bytes_fails (encode vec_write packed_shape (magic, (version, (to_body m, tt))))
          ((Fails-struct lawful _ (magic, (version, (to_body m, tt))) marked).run [])))

-- Some affix is over its bound, the first of them named.
abbrev AffixLong : Option StreamFormat → Type 0
AffixLong none = ⊥
AffixLong (some s) =
    (255 < length s.stream_prefix)
    ⊎ ((length s.stream_prefix ≤ 255) × (255 < length s.stream_suffix))

streams-refused :
    (o : Option StreamFormat)
    → AreTexts o
    → any contains_nul (affixes o) ≡ false
    → AffixLong o
    → (e : Error.Error) × Refuses e (option streams_v1_shape) (to_streams o)
streams-refused none t clean long = absurd long
streams-refused (some s) t clean (inl long) =
    let lawful = vec_write-Appends in
    let v : Value streams_v1_shape =
      (s.stream_prefix, (s.stream_suffix, (s.stream_extra_null, tt))) in
    let prefix =
      Fails-here lawful (bounded 255 string) _ v (Fails-bounded lawful 255 s.stream_prefix long) in
    (_, Fails-some lawful streams_v1_shape v (Fails-struct lawful _ v prefix))
streams-refused (some s) t clean (inr long) =
    let lawful = vec_write-Appends in
    let v : Value streams_v1_shape =
      (s.stream_prefix, (s.stream_suffix, (s.stream_extra_null, tt))) in
    let suffix =
      Fails-here lawful (bounded 255 string) _ v.1
        (Fails-bounded lawful 255 s.stream_suffix long.1) in
    let after =
      Fails-later lawful strict (bounded 255 string) _ v
        ((t.0.0, omega arith, t.0.1, ground arith), long.0) suffix in
    (_, Fails-some lawful streams_v1_shape v (Fails-struct lawful _ v after))

-- Over a bound in the settings.
abbrev IsLong : MetaFmt → Type 0
IsLong m =
    (64 < length m.filename_charset) ⊎ ((length m.filename_charset ≤ 64) × AffixLong m.streams)

body-refused :
    (m : MetaFmt)
    → IsMetaFmt m
    → has_nul m ≡ false
    → IsLong m
    → (e : Error.Error) × Refuses e body_v1_shape (to_body m)
unfolding has_nul
body-refused m t clean (inl long) =
    let lawful = vec_write-Appends in
    (
      _,
      Fails-struct lawful _ (to_body m) (
          Fails-here lawful (bounded 64 string) _ (to_body m)
            (Fails-bounded lawful 64 m.filename_charset long)),
    )
body-refused m t clean (inr long) =
    let lawful = vec_write-Appends in
    let (e, refused) = streams-refused m.streams t.affixes (ground arith) long.1 in
    (
      e,
      Fails-struct lawful _ (to_body m) (
          Fails-later lawful strict (bounded 64 string) _ (to_body m)
            ((t.charset.0, omega arith, t.charset.1, ground arith), long.0)
            (Fails-later lawful strict bool _ (to_body m).1 tt
              (Fails-here lawful (option streams_v1_shape) done (to_body m).1.1 refused))),
    )

affixes-cases :
    (o : Option StreamFormat) → any contains_nul (affixes o) ≡ false → AffixesFit o ⊎ AffixLong o
affixes-cases none clean = inl tt
affixes-cases (some s) clean = elim (Bool-cases (ltb 255 (length s.stream_prefix))) [
  | inl long ↦ inr (inl (ltb→lt _ _ long))
  | inr short ↦ elim (Bool-cases (ltb 255 (length s.stream_suffix))) [
    | inl long ↦ inr (inr (ltb→le _ _ short, ltb→lt _ _ long))
    | inr short' ↦ inl (ground arith, ltb→le _ _ short, ground arith, ltb→le _ _ short')
  ]
]

settings-cases : (m : MetaFmt) → has_nul m ≡ false → Fits m ⊎ IsLong m
unfolding has_nul
settings-cases m clean = elim (Bool-cases (ltb 64 (length m.filename_charset))) [
  | inl long ↦ inr (inl (ltb→lt _ _ long))
  | inr short ↦ elim (affixes-cases m.streams (ground arith)) [
    | inl fit ↦ inl (record { clean = ground arith; short = ltb→le _ _ short; affixes = fit })
    | inr long ↦ inr (inr (ltb→le _ _ short, long))
  ]
]

pack-has_nul : (m : MetaFmt) → has_nul m ≡ true → pack m ≡ err (xdr embedded_nul)
unfolding pack has_nul
pack-has_nul m h = rw h

pack-cases : (m : MetaFmt) → IsMetaFmt m → Fits m ⊎ ((e : Error.Error) × (pack m ≡ err (xdr e)))
pack-cases m t = elim (Bool-cases (has_nul m)) [
  | inl nul ↦ inr (embedded_nul, pack-has_nul m nul)
  | inr clean ↦ elim (settings-cases m clean) [
    | inl fit ↦ inl fit
    | inr long ↦
        let (e, refused) = body-refused m t clean long in inr (e, pack-refused m e clean refused)
  ]
]

-- `pack` writes a record exactly when no string of the settings holds a NUL or is over its
-- bound, and what it writes `unpack` reads back as the same settings. Otherwise it answers an XDR
-- error.
pub unpack-pack :
    (m : MetaFmt)
    → IsMetaFmt m
    → (Fits m × ((bytes : List ℕ) × (pack m ≡ ok bytes) × (unpack bytes ≡ ok m)))
      ⊎ ((¬ Fits m) × ((e : Error.Error) × (pack m ≡ err (xdr e))))
unpack-pack m t = elim (pack-cases m t) [
  | inl fit ↦ inl (fit, (_, pack-Fits m t fit, unpack-Fits m t fit))
  | inr (e, refused) ↦ inr ((λ fit. cc (refused, pack-Fits m t fit)), (e, refused))
]

-- The record of other settings reads back, whatever the caller wants.
unpack-packed :
    (m : MetaFmt) (bytes : List ℕ) → IsMetaFmt m → pack m ≡ ok bytes → unpack bytes ≡ ok m
unpack-packed m bytes t packed = elim (unpack-pack m t) [
  | inl (fit, (b, p, u)) ↦ cc (p, u, packed)
  | inr (no_fit, (e, p)) ↦ cc (p, packed)
]

-- Against a stored record that `pack` wrote from the settings `found`, the verdict is `Same` if
-- they are the wanted ones, and otherwise `Differs` with them.
pub compare_stored-pack :
    (wanted found : MetaFmt) (bytes : List ℕ)
    → IsMetaFmt found
    → pack found ≡ ok bytes
    → ((found ≡ wanted) × (compare_stored wanted (some bytes) ≡ same))
      ⊎ ((found ≢ wanted) × (compare_stored wanted (some bytes) ≡ differs found))
unfolding compare_stored
compare_stored-pack wanted found bytes t packed =
    let read = unpack-packed found bytes t packed in
    elim (Bool-cases (eq found wanted)) [
      | inl e ↦ inl ((eq_iff found wanted).0 e, rw (read, verdict_of, e))
      | inr ne ↦ inr (λ p. cc (ne, (eq_iff found wanted).1 p), rw (read, verdict_of, ne))
    ]
