-- ===== src/Xdr/Codec/Writes/Fails.antt =====
-- `Fails`: an action of the encoder that refuses, with the error.
use truenas_ros_utils.Prelude.{ℕ, ◌<◌, some, List, [], ◌≡◌, err, length, lt→ltb}
use truenas_ros_utils.Prelude.Exec.{◌>>◌}
use truenas_ros_utils.Xdr.Error.{Error, too_long}
use truenas_ros_utils.Xdr.Ser
use truenas_ros_utils.Xdr.Ser.{
  Write, vec_write, Serializer, Ser, put_len, put_body, serialize_str, serialize_tuple_struct,
  serialize_element, serialize_struct, serialize_some, to_bytes,
}
use truenas_ros_utils.Xdr.Codec.Shape.{
  Shape, Fields, Value, Values, bounded, string, struct, field, option,
}
use truenas_ros_utils.Xdr.Codec.Drive.{encode, encode_fields}
use truenas_ros_utils.Xdr.Codec.Wire.{IsFit}
use truenas_ros_utils.Xdr.Strict.{Strictness}
use truenas_ros_utils.Xdr.Codec.Writes.Encode.{Writes-encode}
use truenas_ros_utils.Xdr.Codec.Reads.{Flags, plain}
use truenas_ros_utils.Xdr.Codec.Writes.{Appends, Writes, with_flags, Writes-u32}

module _ {W : Type 0} {write_all : Write W} {append : W → List ℕ → W}
    (lawful : Appends write_all append) where
  pub record Fails (e : Error) (f : Flags) (m : Ser W) : Type 0 where
    pub run : (w : W) → (m (with_flags lawful f w)).0 ≡ err e

  pub Fails-first :
      {e : Error} {f : Flags} {m : Ser W} (n : Ser W) → Fails e f m → Fails e f (m >> n)
  Fails-first n fm = record { run = λ w. rw (fm.run w) }

  pub Fails-then :
      {e : Error} {f g : Flags} {m n : Ser W} {a : List ℕ}
      → Writes lawful f g m a
      → Fails e g n
      → Fails e f (m >> n)
  Fails-then {e} {f} {g} {m} {n} {a} wm fn = record {
    run = λ w. rw (wm.run w) (fn.run (append w a));
  }

  -- A bounded string over its bound.
  pub Fails-bounded :
      (limit : ℕ) (v : List ℕ)
      → limit < length v
      → Fails (too_long (length v) limit) plain (encode write_all (bounded limit string) v)
  unfolding encode serialize_tuple_struct serialize_element serialize_str put_len
  Fails-bounded limit v h = record { run = λ w. rw (lt→ltb limit (length v) h) }

  -- A struct is refused with its first field that is.
  pub Fails-struct :
      {e : Error} (fs : Fields) (v : Values fs)
      → Fails e plain (encode_fields write_all fs v)
      → Fails e plain (encode write_all (struct fs) v)
  unfolding encode serialize_struct
  Fails-struct fs v r = record { run = λ w. r.run w }

  pub Fails-here :
      {e : Error} (s : Shape) (fs : Fields) (v : Values (field s fs))
      → Fails e plain (encode write_all s v.0)
      → Fails e plain (encode_fields write_all (field s fs) v)
  unfolding encode serialize_element
  Fails-here s fs v r = Fails-first (encode_fields write_all fs v.1) r

  pub Fails-later :
      {e : Error} (mode : Strictness) (s : Shape) (fs : Fields) (v : Values (field s fs))
      → IsFit mode s v.0
      → Fails e plain (encode_fields write_all fs v.1)
      → Fails e plain (encode_fields write_all (field s fs) v)
  unfolding encode serialize_element
  Fails-later mode s fs v fit r = Fails-then (Writes-encode lawful mode s v.0 fit) r

  pub Fails-some :
      {e : Error} (s : Shape) (v : Value s)
      → Fails e plain (encode write_all s v)
      → Fails e plain (encode write_all (option s) (some v))
  unfolding encode serialize_some
  Fails-some s v r = Fails-then (Writes-u32 lawful plain 1) r

pub to_bytes_fails :
    (m : Ser (List ℕ)) {e : Error} → (m (Ser.new [])).0 ≡ err e → to_bytes m ≡ err e
unfolding to_bytes
to_bytes_fails m p = rw p
