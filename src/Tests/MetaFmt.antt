-- ===== src/Tests/MetaFmt.antt =====
-- truenas_metafmt: the settings of the crate's example.
use truenas_ros_utils.Prelude.{
  ℕ, true, false, some, List, [], ◌∷◌, ◌++◌, ◌≡◌, ◌≢◌, ◌⊎◌, refl, ok, err, arith,
}
use truenas_ros_utils.Prelude.Bytes.{u32_to_be_bytes}
use truenas_ros_utils.Xdr.Error
use truenas_ros_utils.Xdr.Utf8.{is_utf8}
use truenas_ros_utils.Xdr.Codec.Wire.{wire}
use truenas_ros_utils.MetaFmt.{
  MetaFmt, newer_version, xdr, same, differs, newer, magic, version, packed_shape, to_body, pack,
  unpack, compare_stored,
}
use truenas_ros_utils.MetaFmt.RoundTrip.{IsMetaFmt, Fits, pack-Fits}
use truenas_ros_utils.MetaFmt.Outcome.{unpack-pack, compare_stored-pack}
use truenas_ros_utils.MetaFmt.Versions.{unpack_newer}

-- "UTF-8", and the affixes "u." and ":$".
abbrev want : MetaFmt
want = record {
  filename_charset = 0x55 ∷ 0x54 ∷ 0x46 ∷ 0x2d ∷ 0x38 ∷ [];
  smb_sfm_normalized = false;
  streams = some (record {
    stream_prefix = 0x75 ∷ 0x2e ∷ [];
    stream_suffix = 0x3a ∷ 0x24 ∷ [];
    stream_extra_null = true;
  });
}

want-IsMetaFmt : IsMetaFmt want
unfolding is_utf8
want-IsMetaFmt = record {
  charset = (omega arith, refl);
  affixes = ((omega arith, refl), (omega arith, refl));
}

want-Fits : Fits want
want-Fits = record {
  clean = refl;
  short = omega arith;
  affixes = (refl, omega arith, refl, omega arith);
}

unpack-pack_example :
    (Fits want × ((bytes : List ℕ) × (pack want ≡ ok bytes) × (unpack bytes ≡ ok want)))
    ⊎ ((¬ Fits want) × ((e : Error.Error) × (pack want ≡ err (xdr e))))
unpack-pack_example = unpack-pack want want-IsMetaFmt

compare_stored-pack_example :
    ((want ≡ want)
      × (compare_stored want (some (wire packed_shape (magic, (version, (to_body want, tt)))))
          ≡ same))
    ⊎ ((want ≢ want)
        × (compare_stored want (some (wire packed_shape (magic, (version, (to_body want, tt)))))
            ≡ differs want))
compare_stored-pack_example =
    compare_stored-pack want want _ want-IsMetaFmt (pack-Fits want want-IsMetaFmt want-Fits)

unpack_newer_example :
    (unpack ((u32_to_be_bytes magic ++ u32_to_be_bytes 2) ++ 1 ∷ []) ≡ err (newer_version 2))
    × (compare_stored want (some ((u32_to_be_bytes magic ++ u32_to_be_bytes 2) ++ 1 ∷ []))
        ≡ newer 2)
unpack_newer_example = unpack_newer want 2 (1 ∷ []) (omega arith) (omega arith) (omega arith)
