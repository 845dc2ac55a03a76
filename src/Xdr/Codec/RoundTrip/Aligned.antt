-- ===== src/Xdr/Codec/RoundTrip/Aligned.antt =====
-- Every encoding is a whole number of units.
use truenas_ros_utils.Prelude.{
  ℕ, suc, ◌+◌, ◌%◌, ◌≤◌, List, [], ◌∷◌, ◌++◌, ◌≡◌, refl, none, some, inl, inr, length,
  length-append, length-replicate, arith,
}
use truenas_ros_utils.Xdr.Codec.Shape.{
  Shape, Counted, Fields, Variants, Value, Held, Values, Choice, bool, i64, u64, f64, unit, fixed,
  newtype, option, struct, enum, counted, bounded, string, opaque, array, done, field, void,
  variant,
}
use truenas_ros_utils.Xdr.Codec.Wire.{
  wire, wire_held, wire_fields, wire_variant, wire_all, padded, filler,
}
use truenas_ros_utils.Prelude.{replicate}

abbrev IsAligned : List ℕ → Type 0
IsAligned bs = length bs % 4 ≡ 0

append-IsAligned : (a b : List ℕ) → IsAligned a → IsAligned b → IsAligned (a ++ b)
append-IsAligned a b h k = omega (arith, length-append a b)

padded-IsAligned : (v : List ℕ) → IsAligned (padded v)
unfolding padded
padded-IsAligned v = omega (
  arith,
  length-append v (replicate (filler (length v)) 0),
  length-replicate {A = ℕ} (filler (length v)) 0,
)

pub length-padded : (v : List ℕ) → length (padded v) ≤ length v + 3
unfolding padded
length-padded v = omega (
  arith,
  length-append v (replicate (filler (length v)) 0),
  length-replicate {A = ℕ} (filler (length v)) 0,
)

all-IsAligned :
    {A : Type 0} (bytes : A → List ℕ) (xs : List A)
    → ((x : A) → IsAligned (bytes x))
    → IsAligned (wire_all bytes xs)
all-IsAligned bytes [] h = refl
all-IsAligned bytes (x ∷ xs) h =
    append-IsAligned (bytes x) (wire_all bytes xs) (h x) (all-IsAligned bytes xs h)

mutual
  aligned : (s : Shape) (v : Value s) → IsAligned (wire s v)
  aligned bool v = refl
  aligned i64 v = refl
  aligned u64 v = refl
  aligned f64 v = refl
  aligned unit v = refl
  aligned (fixed n) v = padded-IsAligned v
  aligned (newtype s) v = aligned s v
  aligned (option s) none = refl
  aligned (option s) (some v) = omega (arith, aligned s v)
  aligned (struct fs) v = fields-IsAligned fs v
  aligned (enum vs) v = variant-IsAligned vs 0 v
  aligned (counted c) v = held-IsAligned c v
  aligned (bounded limit c) v = held-IsAligned c v
  aligned _ v = refl

  held-IsAligned : (c : Counted) (v : Held c) → IsAligned (wire_held c v)
  held-IsAligned (array s) v = omega (arith, all-IsAligned (wire s) v (λ x. aligned s x))
  held-IsAligned string v = omega (arith, padded-IsAligned v)
  held-IsAligned opaque v = omega (arith, padded-IsAligned v)

  fields-IsAligned : (fs : Fields) (v : Values fs) → IsAligned (wire_fields fs v)
  fields-IsAligned done v = refl
  fields-IsAligned (field s fs) v =
      append-IsAligned (wire s v.0) (wire_fields fs v.1) (aligned s v.0) (fields-IsAligned fs v.1)

  variant-IsAligned : (vs : Variants) (n : ℕ) (v : Choice vs) → IsAligned (wire_variant vs n v)
  variant-IsAligned void n v = refl
  variant-IsAligned (variant s vs) n (inl v) = omega (arith, aligned s v)
  variant-IsAligned (variant s vs) n (inr v) = variant-IsAligned vs (suc n) v

pub wire_aligned : (s : Shape) (v : Value s) → length (wire s v) % 4 ≡ 0
wire_aligned s v = aligned s v
