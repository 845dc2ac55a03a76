-- ===== src/Tests/Xdr.antt =====
-- truenas_xdr: a struct with a bounded string, an optional array and a union.
use truenas_ros_utils.Prelude.{
  ℕ, List, ◌%◌, true, some, [], ◌∷◌, ◌++◌, ◌≡◌, refl, inl, inr, ok, err, length, arith,
}
use truenas_ros_utils.Xdr.Strict.{strict}
use truenas_ros_utils.Xdr.Error.{non_zero_padding}
use truenas_ros_utils.Xdr.Utf8.{is_utf8}
use truenas_ros_utils.Xdr.Unit4.{pad4}
use truenas_ros_utils.Xdr.Signed.{ℤ, to_signed}
use truenas_ros_utils.Xdr.De.{from_prefix_with, from_bytes_with}
use truenas_ros_utils.Xdr.De.State.{
  new, remaining, descend, ascend, take_bytes, read_u32, read_pad, check_bound, read_opaque,
  read_bool, read_str,
}
use truenas_ros_utils.Xdr.De.Visit.{
  seq, nested, next_element_seed, deserialize_u16, deserialize_i32, deserialize_string,
  deserialize_option,
}
use truenas_ros_utils.Xdr.De.Compound.{
  deserialize_seq, deserialize_struct, deserialize_enum, deserialize_tuple_struct,
  newtype_variant_seed,
}
use truenas_ros_utils.Xdr.Ser.{vec_write, count_write, to_bytes, serialized_size}
use truenas_ros_utils.Xdr.Codec.Shape.{
  Shape, Value, u16, i32, unit, struct, option, enum, counted, bounded, string, array, field, done,
  variant, void,
}
use truenas_ros_utils.Xdr.Codec.Drive.{decode, encode}
use truenas_ros_utils.Xdr.Codec.Wire.{wire, IsFit, padded}
use truenas_ros_utils.Xdr.Codec.RoundTrip.{
  from_bytes_with-to_bytes, from_prefix_with-wire, serialized_size-encode,
}

abbrev sample_shape : Shape
sample_shape = struct (
    field (bounded 5 string)
      (field (option (counted (array u16))) (field (enum (variant unit (variant i32 void))) done)))

-- ("hi", Some([7, 8]), the second variant with -2)
abbrev sample : Value sample_shape
sample = (0x68 ∷ 0x69 ∷ [], (some (7 ∷ 8 ∷ []), (inr (inl (ℤ.negsuc 1)), tt)))

hi_is_utf8 : is_utf8 (0x68 ∷ 0x69 ∷ []) ≡ true
unfolding is_utf8
hi_is_utf8 = refl

sample-IsFit : IsFit strict sample_shape sample
sample-IsFit = (
  ((omega arith, omega arith, hi_is_utf8, refl), omega arith),
  (
    ((((omega arith, omega arith), ((omega arith, omega arith), tt)), omega arith)),
    ((omega arith, omega arith), tt),
  ),
)

from_prefix_with-wire_example :
    from_prefix_with (decode sample_shape) (wire sample_shape sample ++ 9 ∷ []) strict
    ≡ ok (sample, 9 ∷ [])
from_prefix_with-wire_example =
    from_prefix_with-wire strict sample_shape sample (9 ∷ []) sample-IsFit (omega arith)
      (unfold padded in omega arith)

from_bytes_with-to_bytes_example :
    (bytes : List ℕ) × (to_bytes (encode vec_write sample_shape sample) ≡ ok bytes)
    × (from_bytes_with (decode sample_shape) bytes strict ≡ ok sample)
from_bytes_with-to_bytes_example =
    from_bytes_with-to_bytes strict sample_shape sample sample-IsFit (omega arith)
      (unfold padded in omega arith)

serialized_size-encode_example :
    (serialized_size (encode count_write sample_shape sample)
      ≡ ok (length (wire sample_shape sample)))
    × (to_bytes (encode vec_write sample_shape sample) ≡ ok (wire sample_shape sample))
    × (length (wire sample_shape sample) % 4 ≡ 0)
serialized_size-encode_example = serialized_size-encode strict sample_shape sample sample-IsFit

-- The decoder runs.
sample_runs :
    from_bytes_with
      (decode sample_shape)
      (0 ∷ 0 ∷ 0 ∷ 2 ∷ 0x68 ∷ 0x69 ∷ 0 ∷ 0 ∷ 0 ∷ 0 ∷ 0 ∷ 1 ∷ 0 ∷ 0 ∷ 0 ∷ 2 ∷ 0 ∷ 0 ∷ 0 ∷ 7 ∷ 0 ∷ 0
        ∷ 0 ∷ 8 ∷ 0 ∷ 0 ∷ 0 ∷ 1 ∷ 255 ∷ 255 ∷ 255 ∷ 254 ∷ [])
      strict
    ≡ ok sample
unfolding from_bytes_with decode deserialize_struct deserialize_seq deserialize_enum
    deserialize_tuple_struct deserialize_option deserialize_u16 deserialize_i32 deserialize_string
    newtype_variant_seed next_element_seed seq nested descend ascend take_bytes read_u32 read_pad
    check_bound read_opaque read_bool read_str is_utf8 pad4 new remaining to_signed
sample_runs = refl

padding_is_checked :
    from_bytes_with (decode (counted string)) (0 ∷ 0 ∷ 0 ∷ 1 ∷ 0x68 ∷ 0 ∷ 7 ∷ 0 ∷ []) strict
    ≡ err non_zero_padding
unfolding from_bytes_with decode deserialize_string take_bytes read_u32 read_pad check_bound
    read_opaque read_str is_utf8 pad4 new remaining
padding_is_checked = refl
