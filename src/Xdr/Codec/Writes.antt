-- ===== src/Xdr/Codec/Writes.antt =====
-- `Writes`: what it means that an action of the encoder writes given bytes, with a rule for each
-- way to build an action.
pub mod Encode
pub mod Fails
use Prim.Native.Nat.add
use truenas_ros_utils.Prelude.{
  subst, ℕ, zero, suc, ◌+◌, ◌≤◌, ◌<◌, Bool, true, false, Option, none, some, List, [], ◌∷◌, ◌++◌,
  ◌≡◌, refl, sym, ap, ◌∙◌, append_assoc, append-nil, Result, ok, err, inl, inr, length,
  length-append, arith, ltb, le→ltb, lt→ltb, if◌then◌else◌, replicate, All,
}
use native.Mathlib.Nat.{add_assoc, add-zero}
use truenas_ros_utils.Prelude.Bytes.{u32_mod, u32_to_be_bytes, u64_to_be_bytes}
use truenas_ros_utils.Prelude.Exec.{pure, ◌>>=◌, ◌>>◌}
use truenas_ros_utils.Xdr.Strict.{Strictness}
use truenas_ros_utils.Xdr.Unit4.{Name, sentinel_fixed, sentinel_bounded, pad4}
use truenas_ros_utils.Xdr.Ser.{
  Write, vec_write, count_write, Serializer, Ser, put, put_u32, put_u64, put_len, put_pad, put_body,
  serialize_bool, serialize_i8, serialize_i16, serialize_i32, serialize_i64, serialize_u8,
  serialize_u16, serialize_u32, serialize_u64, serialize_f32, serialize_f64, serialize_char,
  serialize_str, serialize_bytes, serialize_none, serialize_some, serialize_unit,
  serialize_newtype_struct, serialize_newtype_variant, serialize_seq, serialize_tuple_struct,
  serialize_struct, serialize_element,
}
use truenas_ros_utils.Xdr.Codec.Shape.{
  Shape, Counted, Fields, Variants, Value, Held, Values, Choice, bool, i8, i16, i32, i64, u8, u16,
  u32, u64, f32, f64, char, unit, fixed, newtype, option, struct, enum, counted, bounded, string,
  opaque, array, done, field, void, variant,
}
use truenas_ros_utils.Xdr.Codec.Drive.{
  encode, encode_held, encode_all, encode_fields, encode_variant,
}
use truenas_ros_utils.Xdr.Codec.Wire.{
  wire, wire_held, wire_fields, wire_variant, wire_all, padded, filler, IsFit, IsFitHeld, AreFit,
  IsFitChoice, length_held,
}
use truenas_ros_utils.Xdr.Codec.Wire.Padding.{pad4-filler}
use truenas_ros_utils.Xdr.Codec.Reads.{Flags, plain, pending, raw, InBound}

-- A writer that never fails, and what it holds after a write.
pub record Appends {W : Type 0} (write_all : Write W) (append : W → List ℕ → W) : Type 0 where
  pub writes : (buf : List ℕ) (w : W) → write_all buf w ≡ (ok tt, append w buf)
  pub append_none : (w : W) → append w [] ≡ w
  pub append_both : (w : W) (a b : List ℕ) → append (append w a) b ≡ append w (a ++ b)

pub vec_write-Appends : Appends vec_write (λ w buf. w ++ buf)
vec_write-Appends = record {
  writes = λ buf w. refl;
  append_none = λ w. append-nil w;
  append_both = λ w a b. append_assoc w a b;
}

pub count_write-Appends : Appends count_write (λ n buf. n + length buf)
count_write-Appends = record {
  writes = λ buf n. refl;
  append_none = λ n. omega arith;
  append_both = λ n a b. omega (arith, length-append a b);
}

module _ {W : Type 0} {write_all : Write W} {append : W → List ℕ → W}
    (lawful : Appends write_all append) where
  abbrev pub with_flags : Flags → W → Serializer W
  with_flags f w = record {
    w = w;
    fixed_pending = f.fixed_pending;
    bound_pending = f.bound_pending;
  }

  -- From the flags `f`, `m` writes `bytes` and leaves the flags `g`.
  pub record Writes (f g : Flags) (m : Ser W) (bytes : List ℕ) : Type 0 where
    pub run : (w : W) → m (with_flags f w) ≡ (ok tt, with_flags g (append w bytes))

  Writes-nothing : (f : Flags) → Writes f f (pure tt) []
  Writes-nothing f = record { run = λ w. cc (lawful.append_none w) }

  Writes-then :
      {f g h : Flags} {m n : Ser W} {a b : List ℕ}
      → Writes f g m a
      → Writes g h n b
      → Writes f h (m >> n) (a ++ b)
  Writes-then {f} {g} {h} {m} {n} {a} {b} wm wn = record {
    run = λ w. rw (wm.run w, wn.run (append w a), lawful.append_both w a b);
  }

  Writes-put : (f : Flags) (bytes : List ℕ) → Writes f f (put write_all bytes) bytes
  unfolding put
  Writes-put f bytes = record { run = λ w. ground (arith, lawful.writes bytes w) }

  Writes-u32 : (f : Flags) (v : ℕ) → Writes f f (put_u32 write_all v) (u32_to_be_bytes v)
  unfolding put_u32
  Writes-u32 f v = Writes-put f (u32_to_be_bytes v)

  Writes-u64 : (f : Flags) (v : ℕ) → Writes f f (put_u64 write_all v) (u64_to_be_bytes v)
  unfolding put_u64
  Writes-u64 f v = Writes-put f (u64_to_be_bytes v)

  Writes-len :
      (bound : Option ℕ) (n : ℕ)
      → n < u32_mod
      → InBound bound n
      → Writes (pending bound) plain (put_len write_all n) (u32_to_be_bytes n)
  unfolding put_len
  Writes-len none n h held = record {
    run = λ w. rw (lt→ltb n u32_mod h) ((Writes-u32 plain n).run w);
  }
  Writes-len (some limit) n h held = record {
    run = λ w. rw (le→ltb limit n held, lt→ltb n u32_mod h) ((Writes-u32 plain n).run w);
  }

  Writes-pad : (f : Flags) (n : ℕ) → Writes f f (put_pad write_all n) (replicate (filler n) 0)
  unfolding put_pad
  Writes-pad f n =
      subst (λ p. Writes f f (put_pad write_all n) (replicate p 0)) (pad4-filler n) (zeros (pad4 n))
    where
      zeros :
          (p : ℕ)
          → Writes f f (if ltb 0 p then put write_all (replicate p 0) else pure tt) (replicate p 0)
      zeros zero = Writes-nothing f
      zeros (suc p) = rw (lt→ltb 0 (suc p) (omega arith)) (Writes-put f (replicate (suc p) 0))

  Writes-body : (f : Flags) (v : List ℕ) → Writes f f (put_body write_all v) (padded v)
  unfolding put_body padded
  Writes-body f v = Writes-then (Writes-put f v) (Writes-pad f (length v))

  Writes-counted :
      (bound : Option ℕ) (v : List ℕ)
      → length v < u32_mod
      → InBound bound (length v)
      → Writes
          (pending bound)
          plain
          (put_len write_all (length v) >> put_body write_all v)
          (u32_to_be_bytes (length v) ++ padded v)
  Writes-counted bound v h held =
      Writes-then (Writes-len bound (length v) h held) (Writes-body plain v)
