-- ===== src/Xdr/Ser.antt =====
-- The encoder, truenas_xdr/src/ser.rs, over any `io::Write`.
use Prim.Native.String.{String}
use truenas_ros_utils.Prelude.{
  ℕ, ◌+◌, Bool, true, false, Option, none, some, List, [], ◌++◌, ltb, if◌then◌else◌, length,
  replicate, Result, ok, err, map_ok,
}
use truenas_ros_utils.Prelude.Bytes.{u32_mod, u32_to_be_bytes, u64_to_be_bytes}
use truenas_ros_utils.Prelude.Exec.{Exec, pure, raise, ◌>>◌}
use truenas_ros_utils.Xdr.Error.{Error, too_long, unsupported, io}
use truenas_ros_utils.Xdr.Signed.{ℤ, to_unsigned, i32_limit, i64_limit}
use truenas_ros_utils.Xdr.Unit4.{
  Name, sentinel_fixed, sentinel_bounded, sentinel_array_ref, plain, pad4,
}

-- `io::Write`: a write that fails has a message, and may have written a part.
abbrev pub Write : Type 0 → Type 0
Write W = List ℕ → W → Result String (Unit {0}) × W

-- `Write for Vec<u8>`
abbrev pub vec_write : Write (List ℕ)
vec_write buf w = (ok tt, w ++ buf)

-- `CountWriter`, whose state is `n`.
abbrev pub count_write : Write ℕ
count_write buf n = (ok tt, n + length buf)

pub record Serializer (W : Type 0) : Type 0 where
  pub w : W
  pub fixed_pending : Bool
  pub bound_pending : Option ℕ

abbrev pub Ser : Type 0 → Type 0
Ser W = Exec Error (Serializer W) Unit

unfoldable pub new : {W : Type 0} → W → Serializer W
new w = record { w = w; fixed_pending = false; bound_pending = none }

module _ {W : Type 0} (write_all : Write W) where
  unfoldable pub put : List ℕ → Ser W
  put bytes s =
      let r = write_all bytes s.w in
      let s' = record s { w = r.1 } in elim r.0 [ ok u ↦ (ok tt, s') | err e ↦ (err (io e), s') ]

  unfoldable pub put_u32 : ℕ → Ser W
  put_u32 v = put (u32_to_be_bytes v)

  unfoldable pub put_u64 : ℕ → Ser W
  put_u64 v = put (u64_to_be_bytes v)

  -- `u32::try_from(len)`, and the prefix.
  put_prefix : ℕ → Ser W
  put_prefix len =
      if ltb len u32_mod then put_u32 len else raise (unsupported "a length beyond u32::MAX")

  -- A pending bound is taken whether or not the length passes.
  unfoldable pub put_len : ℕ → Ser W
  unfolding put_prefix
  put_len len s =
      let s' = record s { bound_pending = none } in
      elim s.bound_pending [
        | none ↦ put_prefix len s'
        | some max ↦ if ltb max len then (err (too_long len max), s') else put_prefix len s'
      ]

  unfoldable pub put_pad : ℕ → Ser W
  put_pad len = let p = pad4 len in if ltb 0 p then put (replicate p 0) else pure tt

  unfoldable pub put_body : List ℕ → Ser W
  put_body v = put v >> put_pad (length v)

  unfoldable pub serialize_bool : Bool → Ser W
  serialize_bool true = put_u32 1
  serialize_bool false = put_u32 0

  unfoldable pub serialize_i32 : ℤ → Ser W
  serialize_i32 v = put_u32 (to_unsigned i32_limit v)

  unfoldable pub serialize_i8 : ℤ → Ser W
  unfolding serialize_i32
  serialize_i8 v = serialize_i32 v

  unfoldable pub serialize_i16 : ℤ → Ser W
  unfolding serialize_i32
  serialize_i16 v = serialize_i32 v

  unfoldable pub serialize_i64 : ℤ → Ser W
  serialize_i64 v = put_u64 (to_unsigned i64_limit v)

  unfoldable pub serialize_u8 : ℕ → Ser W
  serialize_u8 v = put_u32 v

  unfoldable pub serialize_u16 : ℕ → Ser W
  serialize_u16 v = put_u32 v

  unfoldable pub serialize_u32 : ℕ → Ser W
  serialize_u32 v = put_u32 v

  unfoldable pub serialize_u64 : ℕ → Ser W
  serialize_u64 v = put_u64 v

  -- A float is its bit pattern, a `char` its code point.
  unfoldable pub serialize_f32 : ℕ → Ser W
  serialize_f32 v = put_u32 v

  unfoldable pub serialize_f64 : ℕ → Ser W
  serialize_f64 v = put_u64 v

  unfoldable pub serialize_char : ℕ → Ser W
  serialize_char v = put_u32 v

  -- A string is variable-length whatever the sentinel said.
  unfoldable pub serialize_str : List ℕ → Ser W
  serialize_str v s = (put_len (length v) >> put_body v) (record s { fixed_pending = false })

  unfoldable pub serialize_bytes : List ℕ → Ser W
  serialize_bytes v s =
      let s' = record s { fixed_pending = false } in
      if s.fixed_pending then put_body v s' else (put_len (length v) >> put_body v) s'

  unfoldable pub serialize_none : Ser W
  serialize_none = put_u32 0

  -- `value.serialize(self)` is the argument.
  unfoldable pub serialize_some : Ser W → Ser W
  serialize_some value = put_u32 1 >> value

  unfoldable pub serialize_unit : Ser W
  serialize_unit = pure tt

  unfoldable pub serialize_unit_variant : ℕ → Ser W
  serialize_unit_variant variant_index = put_u32 variant_index

  unfoldable pub serialize_newtype_struct : Name → Ser W → Ser W
  serialize_newtype_struct sentinel_fixed value s = value (record s { fixed_pending = true })
  serialize_newtype_struct sentinel_bounded value s = value s
  serialize_newtype_struct sentinel_array_ref value s = value s
  serialize_newtype_struct (plain name) value s = value s

  unfoldable pub serialize_newtype_variant : ℕ → Ser W → Ser W
  serialize_newtype_variant variant_index value = put_u32 variant_index >> value

  unfoldable pub serialize_seq : Option ℕ → Ser W
  serialize_seq none = raise (unsupported "a sequence of unknown length")
  serialize_seq (some len) = put_len len

  unfoldable pub serialize_tuple : Ser W
  serialize_tuple = pure tt

  unfoldable pub serialize_tuple_struct : Name → ℕ → Ser W
  serialize_tuple_struct sentinel_bounded len s = (ok tt, record s { bound_pending = some len })
  serialize_tuple_struct sentinel_fixed len s = (ok tt, s)
  serialize_tuple_struct sentinel_array_ref len s = (ok tt, s)
  serialize_tuple_struct (plain name) len s = (ok tt, s)

  unfoldable pub serialize_tuple_variant : ℕ → Ser W
  serialize_tuple_variant variant_index = put_u32 variant_index

  unfoldable pub serialize_map : Ser W
  serialize_map = raise (unsupported "maps")

  unfoldable pub serialize_struct : Ser W
  serialize_struct = pure tt

  unfoldable pub serialize_struct_variant : ℕ → Ser W
  serialize_struct_variant variant_index = put_u32 variant_index

  -- `serialize_element` and `serialize_field` of `forward_elements!`.
  unfoldable pub serialize_element : Ser W → Ser W
  serialize_element value = value

  -- The writer that `to_writer` leaves, beside its result.
  unfoldable pub to_writer : Ser W → W → Result Error (Unit {0}) × W
  to_writer value writer = let r = value (new writer) in (r.0, r.1.w)

-- `to_writer(…)?; Ok(…)`
abbrev finish : {B : Type 0} → Result Error (Unit {0}) → B → Result Error B
finish r b = map_ok (λ u. b) r

-- `value.serialize` is the argument.
unfoldable pub to_bytes : Ser (List ℕ) → Result Error (List ℕ)
unfolding to_writer
to_bytes value = let r = to_writer vec_write value [] in finish r.0 r.1

unfoldable pub serialized_size : Ser ℕ → Result Error ℕ
unfolding to_writer
serialized_size value = let r = to_writer count_write value 0 in finish r.0 r.1
