-- ===== src/Xdr/Codec/RoundTrip.antt =====
-- Encoding, counting and decoding whole values: `to_bytes`, `serialized_size`,
-- `from_prefix_with` and `from_bytes_with`.
mod Leaves
mod Compounds
mod Aligned
use truenas_ros_utils.Prelude.{
  ℕ, ◌+◌, ◌%◌, ◌≤◌, List, [], ◌++◌, ◌≡◌, refl, sym, ap, ◌∙◌, append-nil, Result, ok, err, map_ok,
  length, drop, drop-append, arith, subst,
}
use truenas_ros_utils.Xdr.Strict.{Strictness}
use truenas_ros_utils.Xdr.Unit4.{usize_max}
use truenas_ros_utils.Xdr.De.{from_prefix_with, from_bytes_with}
use truenas_ros_utils.Xdr.De.State.{new, default_max_depth, remaining}
use truenas_ros_utils.Xdr.Ser
use truenas_ros_utils.Xdr.Error.{Error}
use truenas_ros_utils.Xdr.Ser.{
  Serializer, Ser, vec_write, count_write, to_bytes, to_writer, serialized_size,
}
use truenas_ros_utils.Xdr.Codec.Shape.{Shape, Value}
use truenas_ros_utils.Xdr.Codec.Drive.{decode, encode}
use truenas_ros_utils.Xdr.Codec.Wire.{wire, nest, IsFit}
use truenas_ros_utils.Xdr.Codec.Reads.{Env, Holds, Holds-end, at, plain}
use truenas_ros_utils.Xdr.Codec.Writes.{vec_write-Appends, count_write-Appends}
use truenas_ros_utils.Xdr.Codec.Writes.Encode.{encode-eq}
pub use Aligned.{length-padded}
use Compounds.{Reads-decode}
use Aligned.{wire_aligned}
use Prim.Native.Nat.add

abbrev start : List ℕ → Strictness → Env
start input mode = record { input = input; mode = mode; max_depth = default_max_depth }

abbrev finished : {W : Type 0} → Result Error (Unit {0}) × Serializer W → Result Error W
finished r = map_ok (λ u. r.1.w) r.0

to_bytes_of :
    (m : Ser (List ℕ)) {s : Serializer (List ℕ)} → m (Ser.new []) ≡ (ok tt, s) → to_bytes m ≡ ok s.w
unfolding to_bytes
to_bytes_of m p = ap finished p

serialized_size_of :
    (m : Ser ℕ) {s : Serializer ℕ} → m (Ser.new 0) ≡ (ok tt, s) → serialized_size m ≡ ok s.w
unfolding serialized_size
serialized_size_of m p = ap finished p

-- `to_bytes` succeeds on every value that fits, with exactly the bytes that RFC 4506 gives it.
pub to_bytes-encode :
    (mode : Strictness) (s : Shape) (v : Value s)
    → IsFit mode s v
    → to_bytes (encode vec_write s v) ≡ ok (wire s v)
unfolding to_bytes Ser.new
to_bytes-encode mode s v h =
    to_bytes_of (encode vec_write s v) (encode-eq vec_write-Appends mode s v [] h)

-- `serialized_size` is the length of what `to_bytes` writes, and a whole number of units.
pub serialized_size-encode :
    (mode : Strictness) (s : Shape) (v : Value s)
    → IsFit mode s v
    → (serialized_size (encode count_write s v) ≡ ok (length (wire s v)))
      × (to_bytes (encode vec_write s v) ≡ ok (wire s v))
      × (length (wire s v) % 4 ≡ 0)
unfolding serialized_size Ser.new
serialized_size-encode mode s v h = (
  serialized_size_of (encode count_write s v) (encode-eq count_write-Appends mode s v 0 h)
      ∙ ap ok (add.zero (length (wire s v))),
  to_bytes-encode mode s v h,
  wire_aligned s v,
)

-- Decoding the bytes of a value with anything behind them gives the value and leaves the rest, in
-- the mode for which it fits, if it nests no deeper than the default limit and the input is no
-- longer than a `usize` can say.
pub from_prefix_with-wire :
    (mode : Strictness) (s : Shape) (v : Value s) (rest : List ℕ)
    → IsFit mode s v
    → nest s v ≤ default_max_depth
    → length (wire s v ++ rest) ≤ usize_max
    → from_prefix_with (decode s) (wire s v ++ rest) mode ≡ ok (v, rest)
unfolding from_prefix_with new remaining
from_prefix_with-wire mode s v rest h shallow short =
    let e = start (wire s v ++ rest) mode in
    rw ((Reads-decode e s v h).run 0 0 rest (here e refl) (omega arith))
      (rw add.zero (ap (λ r. ok (v, r)) (drop-append (wire s v) rest)))
  where
    here : (e : Env) → e ≡ start (wire s v ++ rest) mode → Holds e 0 (wire s v) rest
    here e p = rw p (record { within = omega arith; bounded = short; holds = refl })

pub from_bytes_with-wire :
    (mode : Strictness) (s : Shape) (v : Value s)
    → IsFit mode s v
    → nest s v ≤ default_max_depth
    → length (wire s v) ≤ usize_max
    → from_bytes_with (decode s) (wire s v) mode ≡ ok v
unfolding from_bytes_with
from_bytes_with-wire mode s v h shallow short = rw (
  ap (λ b. from_prefix_with (decode s) b mode) (sym (append-nil (wire s v))),
  from_prefix_with-wire mode s v [] h shallow (rw append-nil short),
)

-- `to_bytes` writes every value that fits, and `from_bytes_with` reads what it wrote back as that
-- value, in the mode for which the value fits, if it nests no deeper than the default limit and its
-- encoding is no longer than a `usize` can say.
pub from_bytes_with-to_bytes :
    (mode : Strictness) (s : Shape) (v : Value s)
    → IsFit mode s v
    → nest s v ≤ default_max_depth
    → length (wire s v) ≤ usize_max
    → (bytes : List ℕ) × (to_bytes (encode vec_write s v) ≡ ok bytes)
      × (from_bytes_with (decode s) bytes mode ≡ ok v)
from_bytes_with-to_bytes mode s v h shallow short =
    (wire s v, to_bytes-encode mode s v h, from_bytes_with-wire mode s v h shallow short)
