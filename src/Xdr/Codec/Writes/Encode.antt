-- ===== src/Xdr/Codec/Writes/Encode.antt =====
-- Every shape writes what RFC 4506 says of its value.
use truenas_ros_utils.Prelude.{
  ℕ, suc, ◌≤◌, true, false, Option, none, some, List, [], ◌∷◌, ◌≡◌, sym, subst, ok, inl, inr,
  length, All,
}
use native.Mathlib.Numerals.{add-one}
use truenas_ros_utils.Xdr.Strict.{Strictness}
use truenas_ros_utils.Xdr.Ser.{
  Write, Ser, serialize_bool, serialize_i8, serialize_i16, serialize_i64, serialize_u8,
  serialize_u16, serialize_u32, serialize_u64, serialize_f32, serialize_f64, serialize_char,
  serialize_str, serialize_bytes, serialize_none, serialize_some, serialize_unit,
  serialize_newtype_struct, serialize_newtype_variant, serialize_seq, serialize_tuple_struct,
  serialize_struct, serialize_element,
}
use truenas_ros_utils.Xdr.Codec.Shape.{
  Shape, Counted, Fields, Variants, Value, Held, Values, Choice, bool, i64, u64, f64, unit, fixed,
  newtype, option, struct, enum, counted, bounded, string, opaque, array, done, field, void,
  variant,
}
use truenas_ros_utils.Xdr.Codec.Drive.{
  encode, encode_held, encode_all, encode_fields, encode_variant,
}
use truenas_ros_utils.Xdr.Codec.Wire.{
  wire, wire_held, wire_fields, wire_variant, wire_all, IsFit, IsFitHeld, AreFit, IsFitChoice,
  length_held,
}
use truenas_ros_utils.Xdr.Codec.Reads.{plain, pending, InBound}
use truenas_ros_utils.Xdr.Codec.Writes.{
  Appends, Writes, with_flags, Writes-nothing, Writes-then, Writes-u32, Writes-u64, Writes-len,
  Writes-body, Writes-counted,
}

module _ {W : Type 0} {write_all : Write W} {append : W → List ℕ → W}
    (lawful : Appends write_all append) where
  All-written :
      {A : Type 0} (element : A → Ser W) (bytes : A → List ℕ) (P : A → Type 0) (xs : List A)
      → ((x : A) → P x → Writes lawful plain plain (element x) (bytes x))
      → All P xs
      → Writes lawful plain plain (encode_all write_all element xs) (wire_all bytes xs)
  unfolding encode_all serialize_element
  All-written element bytes P [] each h = Writes-nothing lawful plain
  All-written element bytes P (x ∷ xs) each h =
      Writes-then lawful (each x h.0) (All-written element bytes P xs each h.1)

  module _ (mode : Strictness) where
    mutual
      unfolding encode serialize_bool serialize_i8 serialize_i64 serialize_u8 serialize_u16
          serialize_u32 serialize_u64 serialize_f32 serialize_f64 serialize_char serialize_none
          serialize_some serialize_unit serialize_newtype_struct serialize_newtype_variant
          serialize_seq serialize_tuple_struct serialize_struct serialize_element serialize_str
          serialize_bytes serialize_i16

      encode-Writes :
          (s : Shape) (v : Value s)
          → IsFit mode s v
          → Writes lawful plain plain (encode write_all s v) (wire s v)
      encode-Writes bool true h = Writes-u32 lawful plain 1
      encode-Writes bool false h = Writes-u32 lawful plain 0
      encode-Writes i64 v h = Writes-u64 lawful plain _
      encode-Writes u64 v h = Writes-u64 lawful plain v
      encode-Writes f64 v h = Writes-u64 lawful plain v
      encode-Writes unit v h = Writes-nothing lawful plain
      encode-Writes (fixed n) v h = record { run = λ w. (Writes-body lawful plain v).run w }
      encode-Writes (newtype s) v h = record { run = λ w. (encode-Writes s v h).run w }
      encode-Writes (option s) none h = Writes-u32 lawful plain 0
      encode-Writes (option s) (some v) h =
          Writes-then lawful (Writes-u32 lawful plain 1) (encode-Writes s v h)
      encode-Writes (struct fs) v h = record { run = λ w. (fields-written fs v h).run w }
      encode-Writes (enum vs) v h = variant-written vs 0 v h
      encode-Writes (counted c) v h = held-written c none v h tt
      encode-Writes (bounded limit c) v h = record {
        run = λ w. (held-written c (some limit) v h.0 h.1).run w;
      }
      encode-Writes _ v h = Writes-u32 lawful plain _

      held-written :
          (c : Counted) (bound : Option ℕ) (v : Held c)
          → IsFitHeld mode c v
          → InBound bound (length_held c v)
          → Writes lawful (pending bound) plain (encode_held write_all c v) (wire_held c v)
      held-written string bound v h held = record {
        run = λ w. (Writes-counted lawful bound v h.1 held).run w;
      }
      held-written opaque bound v h held = record {
        run = λ w. (Writes-counted lawful bound v h.1 held).run w;
      }
      held-written (array s) bound v h held =
          Writes-then lawful (Writes-len lawful bound (length v) h.1 held) (
            All-written (encode write_all s) (wire s)
              (λ x. IsFit mode s x × (4 ≤ length (wire s x))) v (λ x hx. encode-Writes s x hx.0)
              h.0)

      fields-written :
          (fs : Fields) (v : Values fs)
          → AreFit mode fs v
          → Writes lawful plain plain (encode_fields write_all fs v) (wire_fields fs v)
      fields-written done v h = Writes-nothing lawful plain
      fields-written (field s fs) v h =
          Writes-then lawful (encode-Writes s v.0 h.0) (fields-written fs v.1 h.1)

      variant-written :
          (vs : Variants) (n : ℕ) (v : Choice vs)
          → IsFitChoice mode vs n v
          → Writes lawful plain plain (encode_variant write_all vs n v) (wire_variant vs n v)
      variant-written void n v h = absurd v
      variant-written (variant s vs) n (inl v) h =
          Writes-then lawful (Writes-u32 lawful plain n) (encode-Writes s v h.0)
      variant-written (variant s vs) n (inr v) h =
          subst
            (λ t.
              Writes lawful plain plain (encode_variant write_all vs t v)
                (wire_variant vs (suc n) v))
            (sym (add-one n)) (variant-written vs (suc n) v h)

  pub Writes-encode :
      (mode : Strictness) (s : Shape) (v : Value s)
      → IsFit mode s v
      → Writes lawful plain plain (encode write_all s v) (wire s v)
  Writes-encode mode s v h = encode-Writes mode s v h

  pub encode-eq :
      (mode : Strictness) (s : Shape) (v : Value s) (w : W)
      → IsFit mode s v
      → encode write_all s v (with_flags lawful plain w)
        ≡ (ok tt, with_flags lawful plain (append w (wire s v)))
  encode-eq mode s v w h = (encode-Writes mode s v h).run w
