-- ===== src/Xdr/Codec/Wire.antt =====
-- RFC 4506 for the shapes, independent of the code: the bytes of a value, and which values have an
-- encoding that reads back.
use truenas_ros_utils.Prelude.{
  ℕ, suc, ◌+◌, ◌-◌, ◌*◌, ◌/◌, ◌≤◌, ◌<◌, max, ◌≡◌, true, false, ◌&&◌, none, some, List, [], ◌∷◌,
  ◌++◌, inl, inr, length, replicate, any, All, ◌==◌, if◌then◌else◌,
}
use truenas_ros_utils.Prelude.Bytes.{AreBytes, u32_mod, u64_mod, u32_to_be_bytes, u64_to_be_bytes}
use truenas_ros_utils.Xdr.Signed.{InRange, to_unsigned, i8_limit, i16_limit, i32_limit, i64_limit}
use truenas_ros_utils.Xdr.Strict.{Strictness, is_strict}
use truenas_ros_utils.Xdr.Utf8.{is_utf8}
use truenas_ros_utils.Xdr.De.Visit.{is_char}
use truenas_ros_utils.Xdr.Codec.Shape.{
  Shape, Counted, Fields, Variants, Value, Held, Values, Choice, bool, i8, i16, i32, i64, u8, u16,
  u32, u64, f32, f64, char, unit, fixed, newtype, option, struct, enum, counted, bounded, string,
  opaque, array, done, field, void, variant,
}
pub mod Padding

-- The zeros that take a length up to the next multiple of four, and none if it is one.
abbrev pub filler : ℕ → ℕ
filler len = (len + 3) / 4 * 4 - len

unfoldable pub padded : List ℕ → List ℕ
padded v = v ++ replicate (filler (length v)) 0

abbrev pub wire_all : {A : Type 0} → (A → List ℕ) → List A → List ℕ
wire_all f [] = []
wire_all f (v ∷ vs) = f v ++ wire_all f vs

abbrev pub deepest : {A : Type 0} → (A → ℕ) → List A → ℕ
deepest f [] = 0
deepest f (v ∷ vs) = max (f v) (deepest f vs)

abbrev mutual
  pub wire : (s : Shape) → Value s → List ℕ
  wire bool v = u32_to_be_bytes (if v then 1 else 0)
  wire i8 v = u32_to_be_bytes (to_unsigned i32_limit v)
  wire i16 v = u32_to_be_bytes (to_unsigned i32_limit v)
  wire i32 v = u32_to_be_bytes (to_unsigned i32_limit v)
  wire i64 v = u64_to_be_bytes (to_unsigned i64_limit v)
  wire u64 v = u64_to_be_bytes v
  wire f64 v = u64_to_be_bytes v
  wire unit v = []
  wire (fixed n) v = padded v
  wire (newtype s) v = wire s v
  wire (option s) none = u32_to_be_bytes 0
  wire (option s) (some v) = u32_to_be_bytes 1 ++ wire s v
  wire (struct fs) v = wire_fields fs v
  wire (enum vs) v = wire_variant vs 0 v
  wire (counted c) v = wire_held c v
  wire (bounded limit c) v = wire_held c v
  wire _ v = u32_to_be_bytes v

  pub wire_held : (c : Counted) → Held c → List ℕ
  wire_held (array s) v = u32_to_be_bytes (length v) ++ wire_all (wire s) v
  wire_held _ v = u32_to_be_bytes (length v) ++ padded v

  pub wire_fields : (fs : Fields) → Values fs → List ℕ
  wire_fields done v = []
  wire_fields (field s fs) v = wire s v.0 ++ wire_fields fs v.1

  pub wire_variant : (vs : Variants) → ℕ → Choice vs → List ℕ
  wire_variant void n v = []
  wire_variant (variant s vs) n (inl v) = u32_to_be_bytes n ++ wire s v
  wire_variant (variant s vs) n (inr v) = wire_variant vs (suc n) v

-- How deep a value nests, as the decoder counts.
abbrev mutual
  pub nest : (s : Shape) → Value s → ℕ
  nest (fixed n) v = 1
  nest (newtype s) v = suc (nest s v)
  nest (option s) (some v) = suc (nest s v)
  nest (struct fs) v = suc (nest_fields fs v)
  nest (enum vs) v = suc (nest_variant vs v)
  nest (counted c) v = nest_held c v
  nest (bounded limit c) v = suc (nest_held c v)
  nest _ v = 0

  pub nest_held : (c : Counted) → Held c → ℕ
  nest_held (array s) v = suc (deepest (nest s) v)
  nest_held _ v = 0

  pub nest_fields : (fs : Fields) → Values fs → ℕ
  nest_fields done v = 0
  nest_fields (field s fs) v = max (nest s v.0) (nest_fields fs v.1)

  pub nest_variant : (vs : Variants) → Choice vs → ℕ
  nest_variant void v = 0
  nest_variant (variant s vs) (inl v) = nest s v
  nest_variant (variant s vs) (inr v) = nest_variant vs v

abbrev pub NoNul : Strictness → List ℕ → Type 0
NoNul mode v = (is_strict mode && any (λ b. b == 0) v) ≡ false

abbrev pub length_held : (c : Counted) → Held c → ℕ
length_held string v = length v
length_held opaque v = length v
length_held (array s) v = length v

-- The values that the Rust types hold and that the codec can carry: lengths of 32 bits and within
-- their bounds, no NUL in a string where the reader is strict, and array elements of a unit at
-- least, without which the decoder refuses the count.
abbrev mutual
  pub IsFit : Strictness → (s : Shape) → Value s → Type 0
  IsFit mode i8 v = InRange i8_limit v
  IsFit mode i16 v = InRange i16_limit v
  IsFit mode i32 v = InRange i32_limit v
  IsFit mode i64 v = InRange i64_limit v
  IsFit mode u8 v = v < 256
  IsFit mode u16 v = v < 65536
  IsFit mode u32 v = v < u32_mod
  IsFit mode u64 v = v < u64_mod
  IsFit mode f32 v = v < u32_mod
  IsFit mode f64 v = v < u64_mod
  IsFit mode char v = is_char v ≡ true
  IsFit mode (fixed n) v = AreBytes v × (length v ≡ n)
  IsFit mode (newtype s) v = IsFit mode s v
  IsFit mode (option s) (some v) = IsFit mode s v
  IsFit mode (struct fs) v = AreFit mode fs v
  IsFit mode (enum vs) v = IsFitChoice mode vs 0 v
  IsFit mode (counted c) v = IsFitHeld mode c v
  IsFit mode (bounded limit c) v = IsFitHeld mode c v × (length_held c v ≤ limit)
  IsFit mode _ v = Unit {0}

  pub IsFitHeld : Strictness → (c : Counted) → Held c → Type 0
  IsFitHeld mode string v = AreBytes v × (length v < u32_mod) × (is_utf8 v ≡ true) × NoNul mode v
  IsFitHeld mode opaque v = AreBytes v × (length v < u32_mod)
  IsFitHeld mode (array s) v =
      All (λ x. IsFit mode s x × (4 ≤ length (wire s x))) v × (length v < u32_mod)

  pub AreFit : Strictness → (fs : Fields) → Values fs → Type 0
  AreFit mode done v = Unit {0}
  AreFit mode (field s fs) v = IsFit mode s v.0 × AreFit mode fs v.1

  pub IsFitChoice : Strictness → (vs : Variants) → ℕ → Choice vs → Type 0
  IsFitChoice mode void n v = ⊥
  IsFitChoice mode (variant s vs) n (inl v) = IsFit mode s v × (n < u32_mod)
  IsFitChoice mode (variant s vs) n (inr v) = IsFitChoice mode vs (suc n) v
