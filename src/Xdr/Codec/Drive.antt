-- ===== src/Xdr/Codec/Drive.antt =====
-- The calls that the `Serialize` and `Deserialize` impls of a shape make on the codec: those of
-- truenas_xdr/src/wrappers.rs, and those that serde documents for its derives, `Vec` and `Option`.
use truenas_ros_utils.Prelude.{
  ℕ, zero, suc, ◌+◌, none, some, List, [], ◌∷◌, Result, ok, err, length, inl, inr, ◌==◌,
  if◌then◌else◌,
}
use truenas_ros_utils.Prelude.Exec.{pure, raise, ◌>>=◌, ◌>>◌}
use truenas_ros_utils.Xdr.Error.{Error, message}
use truenas_ros_utils.Xdr.Unit4.{sentinel_fixed, sentinel_bounded, plain}
use truenas_ros_utils.Xdr.De.State.{De}
use truenas_ros_utils.Xdr.De.Visit.{
  Seq, next_element_seed, deserialize_bool, deserialize_i8, deserialize_i16, deserialize_i32,
  deserialize_i64, deserialize_u8, deserialize_u16, deserialize_u32, deserialize_u64,
  deserialize_f32, deserialize_f64, deserialize_char, deserialize_string, deserialize_byte_buf,
  deserialize_option, deserialize_unit,
}
use truenas_ros_utils.Xdr.De.Compound.{
  deserialize_newtype_struct, deserialize_seq, deserialize_tuple, deserialize_tuple_struct,
  deserialize_struct, deserialize_enum, newtype_variant_seed,
}
use truenas_ros_utils.Xdr.Ser.{
  Write, Ser, serialize_bool, serialize_i8, serialize_i16, serialize_i32, serialize_i64,
  serialize_u8, serialize_u16, serialize_u32, serialize_u64, serialize_f32, serialize_f64,
  serialize_char, serialize_str, serialize_bytes, serialize_none, serialize_some, serialize_unit,
  serialize_newtype_struct, serialize_newtype_variant, serialize_seq, serialize_tuple_struct,
  serialize_struct, serialize_element,
}
use truenas_ros_utils.Xdr.Codec.Shape.{
  Shape, Counted, Fields, Variants, Value, Held, Values, Choice, bool, i8, i16, i32, i64, u8, u16,
  u32, u64, f32, f64, char, unit, fixed, newtype, option, struct, enum, counted, bounded, string,
  opaque, array, done, field, void, variant,
}

-- A visitor method that the type does not expect: `invalid_type`.
unexpected : {A B : Type 0} → B → Result Error A
unexpected b = err (message "invalid type")

-- `try_into` of the bytes into `[u8; N]`.
fixed_value : ℕ → List ℕ → Result Error (List ℕ)
fixed_value n v = if length v == n then ok v else err (message "wrong length")

-- The loop of `Vec`'s visitor, `while let Some(value) = seq.next_element()?`.
unfoldable pub collect : {A : Type 0} → De A → ℕ → Seq (List A)
collect seed zero = pure []
collect seed (suc n) = next_element_seed seed >>= λ next. elim next [
  | none ↦ pure []
  | some a ↦ (collect seed n >>= λ rest. pure (a ∷ rest))
]

visit_vec : {A : Type 0} → De A → Seq (List A)
unfolding collect
visit_vec seed r = collect seed r.remaining r

-- One field of a derived struct.
unfoldable pub next_field : {A : Type 0} → De A → Seq A
next_field seed = next_element_seed seed >>= λ next. elim next [
  | none ↦ raise (message "invalid length")
  | some a ↦ pure a
]

unfoldable mutual
  unfolding unexpected fixed_value visit_vec next_field

  pub decode : (s : Shape) → De (Value s)
  decode bool = deserialize_bool ok
  decode i8 = deserialize_i8 ok
  decode i16 = deserialize_i16 ok
  decode i32 = deserialize_i32 ok
  decode i64 = deserialize_i64 ok
  decode u8 = deserialize_u8 ok
  decode u16 = deserialize_u16 ok
  decode u32 = deserialize_u32 ok
  decode u64 = deserialize_u64 ok
  decode f32 = deserialize_f32 ok
  decode f64 = deserialize_f64 ok
  decode char = deserialize_char ok
  decode unit = deserialize_unit (ok tt)
  decode (fixed n) =
      deserialize_newtype_struct sentinel_fixed unexpected
        (deserialize_tuple n (fixed_value n) (λ r. (unexpected r, r)))
  decode (newtype s) = deserialize_newtype_struct (plain "") unexpected (decode s)
  decode (option s) = deserialize_option (ok none) (decode s >>= λ v. pure (some v))
  decode (struct fs) = deserialize_struct (count_fields fs) (decode_fields fs)
  decode (enum vs) = deserialize_enum (decode_variant vs)
  decode (counted c) = decode_held c
  decode (bounded max c) =
      deserialize_tuple_struct sentinel_bounded max (decode_held c) (λ r. (unexpected r, r))

  pub decode_held : (c : Counted) → De (Held c)
  decode_held string = deserialize_string ok
  decode_held opaque = deserialize_byte_buf ok
  decode_held (array s) = deserialize_seq (visit_vec (decode s))

  pub count_fields : Fields → ℕ
  count_fields done = 0
  count_fields (field s fs) = suc (count_fields fs)

  pub decode_fields : (fs : Fields) → Seq (Values fs)
  decode_fields done = pure tt
  decode_fields (field s fs) =
      next_field (decode s) >>= λ v. (decode_fields fs >>= λ vs. pure (v, vs))

  pub decode_variant : (vs : Variants) → ℕ → De (Choice vs)
  decode_variant void n = raise (message "invalid value")
  decode_variant (variant s vs) zero = newtype_variant_seed (decode s) >>= λ v. pure (inl v)
  decode_variant (variant s vs) (suc n) = decode_variant vs n >>= λ v. pure (inr v)

module _ {W : Type 0} (write_all : Write W) where
  unfoldable pub encode_all : {A : Type 0} → (A → Ser W) → List A → Ser W
  encode_all element [] = pure tt
  encode_all element (v ∷ vs) = serialize_element write_all (element v) >> encode_all element vs

  unfoldable mutual
    unfolding encode_all

    pub encode : (s : Shape) → Value s → Ser W
    encode bool v = serialize_bool write_all v
    encode i8 v = serialize_i8 write_all v
    encode i16 v = serialize_i16 write_all v
    encode i32 v = serialize_i32 write_all v
    encode i64 v = serialize_i64 write_all v
    encode u8 v = serialize_u8 write_all v
    encode u16 v = serialize_u16 write_all v
    encode u32 v = serialize_u32 write_all v
    encode u64 v = serialize_u64 write_all v
    encode f32 v = serialize_f32 write_all v
    encode f64 v = serialize_f64 write_all v
    encode char v = serialize_char write_all v
    encode unit v = serialize_unit write_all
    encode (fixed n) v =
        serialize_newtype_struct write_all sentinel_fixed (serialize_bytes write_all v)
    encode (newtype s) v = serialize_newtype_struct write_all (plain "") (encode s v)
    encode (option s) none = serialize_none write_all
    encode (option s) (some v) = serialize_some write_all (encode s v)
    encode (struct fs) v = serialize_struct write_all >> encode_fields fs v
    encode (enum vs) v = encode_variant vs 0 v
    encode (counted c) v = encode_held c v
    encode (bounded max c) v =
        serialize_tuple_struct write_all sentinel_bounded max
        >> serialize_element write_all (encode_held c v)

    pub encode_held : (c : Counted) → Held c → Ser W
    encode_held string v = serialize_str write_all v
    encode_held opaque v = serialize_bytes write_all v
    encode_held (array s) v = serialize_seq write_all (some (length v)) >> encode_all (encode s) v

    pub encode_fields : (fs : Fields) → Values fs → Ser W
    encode_fields done v = pure tt
    encode_fields (field s fs) v =
        serialize_element write_all (encode s v.0) >> encode_fields fs v.1

    pub encode_variant : (vs : Variants) → ℕ → Choice vs → Ser W
    encode_variant void n v = absurd v
    encode_variant (variant s vs) n (inl v) = serialize_newtype_variant write_all n (encode s v)
    encode_variant (variant s vs) n (inr v) = encode_variant vs (n + 1) v
