-- ===== src/Xdr/Codec/RoundTrip/Leaves.antt =====
-- The shapes that hold no other shape.
use truenas_ros_utils.Prelude.{
  ℕ, suc, ◌≤◌, ◌<◌, Bool, true, Option, List, ◌++◌, ◌≡◌, refl, ap, Result, ok, length, arith,
  lt→ltb, eq→==, if◌then◌else◌,
}
use truenas_ros_utils.Prelude.Bytes.{u32_mod, u64_mod, u32_to_be_bytes, u64_to_be_bytes}
use truenas_ros_utils.Prelude.Exec.{lift, ◌>>=◌}
use truenas_ros_utils.Xdr.Error.{Error}
use truenas_ros_utils.Xdr.Utf8.{is_utf8}
use truenas_ros_utils.Xdr.Signed.{
  ℤ, InRange, to_unsigned, to_signed-to_unsigned, to_unsigned-lt, try_from-InRange, i8_limit,
  i16_limit, i32_limit, i64_limit,
}
use truenas_ros_utils.Xdr.De.State.{
  read_u32, read_u64, read_bool, read_str, read_opaque, read_fixed,
}
use truenas_ros_utils.Xdr.De.Visit.{
  Seq, is_char, deserialize_bool, deserialize_i8, deserialize_i16, deserialize_i32, deserialize_i64,
  deserialize_u8, deserialize_u16, deserialize_u32, deserialize_u64, deserialize_f32,
  deserialize_f64, deserialize_char, deserialize_string, deserialize_byte_buf,
}
use truenas_ros_utils.Xdr.De.Compound.{deserialize_tuple, deserialize_newtype_struct}
use truenas_ros_utils.Xdr.Codec.Shape.{Shape}
use truenas_ros_utils.Xdr.Codec.Drive.{decode}
use truenas_ros_utils.Xdr.Codec.Wire.{NoNul, padded}
use truenas_ros_utils.Xdr.Codec.Reads.{Env, plain, pending, raw, InBound, Reads}
use truenas_ros_utils.Xdr.Codec.Readers.{
  Reads-bind-lift, Reads-u32, Reads-u64, Reads-bool, Reads-opaque, Reads-str, Reads-fixed,
  Reads-nested,
}

-- A fixed-size shape that one call of `read_u32` or `read_u64` reads.
module _ {e : Env} {k : ℕ} {A : Type 0} (r : ℕ → Result Error A) (a : A) where
  Reads-word32 :
      (w : ℕ)
      → w < u32_mod
      → r w ≡ ok a
      → Reads e plain plain k (read_u32 >>= λ x. lift (r x)) (u32_to_be_bytes w) a
  Reads-word32 w h p = Reads-bind-lift read_u32 r (u32_to_be_bytes w) w a (Reads-u32 w h) p

  Reads-word64 :
      (w : ℕ)
      → w < u64_mod
      → r w ≡ ok a
      → Reads e plain plain k (read_u64 >>= λ x. lift (r x)) (u64_to_be_bytes w) a
  Reads-word64 w h p = Reads-bind-lift read_u64 r (u64_to_be_bytes w) w a (Reads-u64 w h) p

wider : (a b : ℕ) (z : ℤ) → a ≤ b → InRange a z → InRange b z
wider a b (ℤ.pos n) h r = omega arith
wider a b (ℤ.negsuc n) h r = omega arith

is_char-lt : (w : ℕ) → is_char w ≡ true → w < u32_mod
unfolding is_char
is_char-lt w h = ground arith

module _ {e : Env} {k : ℕ} where
  pub Reads-i32 :
      (v : ℤ)
      → InRange i32_limit v
      → Reads e plain plain k (deserialize_i32 ok) (u32_to_be_bytes (to_unsigned i32_limit v)) v
  unfolding deserialize_i32
  Reads-i32 v h =
      Reads-word32 _ v _ (to_unsigned-lt i32_limit v h)
        (ap ok (to_signed-to_unsigned i32_limit v h))

  pub Reads-i64 :
      (v : ℤ)
      → InRange i64_limit v
      → Reads e plain plain k (deserialize_i64 ok) (u64_to_be_bytes (to_unsigned i64_limit v)) v
  unfolding deserialize_i64
  Reads-i64 v h =
      Reads-word64 _ v _ (to_unsigned-lt i64_limit v h)
        (ap ok (to_signed-to_unsigned i64_limit v h))

  pub Reads-i8 :
      (v : ℤ)
      → InRange i8_limit v
      → Reads e plain plain k (deserialize_i8 ok) (u32_to_be_bytes (to_unsigned i32_limit v)) v
  unfolding deserialize_i8
  Reads-i8 v h =
      let wide : InRange i32_limit v = wider i8_limit i32_limit v (omega arith) h in
      Reads-word32 _ v _ (to_unsigned-lt i32_limit v wide)
        (rw (to_signed-to_unsigned i32_limit v wide, try_from-InRange i8_limit v h))

  pub Reads-i16 :
      (v : ℤ)
      → InRange i16_limit v
      → Reads e plain plain k (deserialize_i16 ok) (u32_to_be_bytes (to_unsigned i32_limit v)) v
  unfolding deserialize_i16
  Reads-i16 v h =
      let wide : InRange i32_limit v = wider i16_limit i32_limit v (omega arith) h in
      Reads-word32 _ v _ (to_unsigned-lt i32_limit v wide)
        (rw (to_signed-to_unsigned i32_limit v wide, try_from-InRange i16_limit v h))

  pub Reads-u8 : (v : ℕ) → v < 256 → Reads e plain plain k (deserialize_u8 ok) (u32_to_be_bytes v) v
  unfolding deserialize_u8
  Reads-u8 v h = Reads-word32 _ v v (omega arith) (rw (lt→ltb v 256 h))

  pub Reads-u16 :
      (v : ℕ) → v < 65536 → Reads e plain plain k (deserialize_u16 ok) (u32_to_be_bytes v) v
  unfolding deserialize_u16
  Reads-u16 v h = Reads-word32 _ v v (omega arith) (rw (lt→ltb v 65536 h))

  pub Reads-char :
      (v : ℕ) → is_char v ≡ true → Reads e plain plain k (deserialize_char ok) (u32_to_be_bytes v) v
  unfolding deserialize_char
  Reads-char v h = Reads-word32 _ v v (is_char-lt v h) (rw h)

  pub Reads-deserialize_bool :
      (v : Bool)
      → Reads e plain plain k (deserialize_bool ok) (u32_to_be_bytes (if v then 1 else 0)) v
  unfolding deserialize_bool
  Reads-deserialize_bool v =
      Reads-bind-lift read_bool ok (u32_to_be_bytes (if v then 1 else 0)) v v (Reads-bool v) refl

  pub Reads-deserialize_u32 :
      (v : ℕ) → v < u32_mod → Reads e plain plain k (deserialize_u32 ok) (u32_to_be_bytes v) v
  unfolding deserialize_u32
  Reads-deserialize_u32 v h = Reads-word32 ok v v h refl

  pub Reads-deserialize_f32 :
      (v : ℕ) → v < u32_mod → Reads e plain plain k (deserialize_f32 ok) (u32_to_be_bytes v) v
  unfolding deserialize_f32
  Reads-deserialize_f32 v h = Reads-word32 ok v v h refl

  pub Reads-deserialize_u64 :
      (v : ℕ) → v < u64_mod → Reads e plain plain k (deserialize_u64 ok) (u64_to_be_bytes v) v
  unfolding deserialize_u64
  Reads-deserialize_u64 v h = Reads-word64 ok v v h refl

  pub Reads-deserialize_f64 :
      (v : ℕ) → v < u64_mod → Reads e plain plain k (deserialize_f64 ok) (u64_to_be_bytes v) v
  unfolding deserialize_f64
  Reads-deserialize_f64 v h = Reads-word64 ok v v h refl

  pub Reads-string :
      (bound : Option ℕ) (v : List ℕ)
      → length v < u32_mod
      → InBound bound (length v)
      → is_utf8 v ≡ true
      → NoNul e.mode v
      → Reads e
          (pending bound)
          plain
          k
          (deserialize_string ok)
          (u32_to_be_bytes (length v) ++ padded v)
          v
  unfolding deserialize_string
  Reads-string bound v h held valid clean =
      Reads-bind-lift read_str ok _ v v (Reads-str bound v h held valid clean) refl

  pub Reads-byte_buf :
      (bound : Option ℕ) (v : List ℕ)
      → length v < u32_mod
      → InBound bound (length v)
      → Reads e
          (pending bound)
          plain
          k
          (deserialize_byte_buf ok)
          (u32_to_be_bytes (length v) ++ padded v)
          v
  unfolding deserialize_byte_buf
  Reads-byte_buf bound v h held =
      Reads-bind-lift read_opaque ok _ v v (Reads-opaque bound v h held) refl

  -- The pending flag is taken, and the bytes are read in place of a tuple.
  Reads-raw_tuple :
      {A : Type 0} (n : ℕ) (visit : List ℕ → Result Error A) (seq : Seq A) (v : List ℕ) (a : A)
      → length v ≡ n
      → visit v ≡ ok a
      → Reads e raw plain k (deserialize_tuple n visit seq) (padded v) a
  unfolding deserialize_tuple
  Reads-raw_tuple n visit seq v a h p = record {
    run = λ pos depth rest here room.
        (Reads-bind-lift (read_fixed n) visit (padded v) v a (Reads-fixed v n h) p).run pos depth
          rest here room;
  }

  -- `FixedOpaque<N>`
  pub Reads-fixed_opaque :
      (n : ℕ) (v : List ℕ)
      → length v ≡ n
      → Reads e plain plain (suc k) (decode (Shape.fixed n)) (padded v) v
  unfolding decode deserialize_newtype_struct
  Reads-fixed_opaque n v h = record {
    run = λ pos depth rest here room.
        (Reads-nested _ (padded v) v (Reads-raw_tuple n _ _ v v h (rw (eq→== (length v) n h)))).run
          pos depth rest here room;
  }
