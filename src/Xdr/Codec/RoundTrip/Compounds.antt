-- ===== src/Xdr/Codec/RoundTrip/Compounds.antt =====
-- The induction on the shape: every value that fits reads back.
use truenas_ros_utils.Prelude.{
  ℕ, suc, ◌+◌, ◌*◌, ◌≤◌, ◌<◌, true, false, Option, none, some, List, [], ◌∷◌, ◌++◌, ◌≡◌, refl, sym,
  ap, ◌∙◌, ok, inl, inr, length, arith, All, length-append,
}
use Prim.Native.Nat.add
use native.Mathlib.Nat.{add-zero}
use truenas_ros_utils.Xdr.Strict.{Strictness}
use truenas_ros_utils.Xdr.Unit4.{sentinel_bounded}
use truenas_ros_utils.Prelude.Bytes.{u32_mod, u32_to_be_bytes}
use truenas_ros_utils.Prelude.Exec.{pure, ◌>>=◌}
use truenas_ros_utils.Xdr.De.State.{De, read_u32, read_bool}
use truenas_ros_utils.Xdr.De.Visit.{Seq, seq, deserialize_option, deserialize_unit}
use truenas_ros_utils.Xdr.De.Compound.{
  deserialize_newtype_struct, deserialize_tuple_struct, deserialize_struct, deserialize_enum,
  newtype_variant_seed,
}
use truenas_ros_utils.Xdr.Codec.Shape.{
  Shape, Counted, Fields, Variants, Value, Held, Values, Choice, bool, i8, i16, i32, i64, u8, u16,
  u32, u64, f32, f64, char, unit, fixed, newtype, option, struct, enum, counted, bounded, string,
  opaque, array, done, field, void, variant,
}
use truenas_ros_utils.Xdr.Codec.Drive.{
  decode, decode_held, decode_fields, count_fields, decode_variant, next_field,
}
use truenas_ros_utils.Xdr.Codec.Wire.{
  wire, wire_held, wire_fields, wire_variant, wire_all, deepest, nest, nest_held, nest_fields,
  nest_variant, IsFit, IsFitHeld, AreFit, IsFitChoice, length_held,
}
use truenas_ros_utils.Xdr.Codec.Reads.{Env, plain, pending, InBound, Reads, Reads-bind, Reads-pure}
use truenas_ros_utils.Xdr.Codec.Readers.{
  Reads-bind-lift, Reads-cast, Reads-u32, Reads-bool, Reads-nested,
}
use truenas_ros_utils.Xdr.Codec.ReadsSeq.{
  ReadsSeq, ReadsSeq-pure, ReadsSeq-room, ReadsSeq-next_field, ReadsSeq-bind, ReadsSeq-bind-pure,
  ReadsSeq-collect, Reads-seq, Reads-room, Reads-deserialize_seq,
}
use truenas_ros_utils.Xdr.Codec.RoundTrip.Leaves.{
  Reads-i8, Reads-i16, Reads-i32, Reads-i64, Reads-u8, Reads-u16, Reads-char,
  Reads-deserialize_bool, Reads-deserialize_u32, Reads-deserialize_u64, Reads-deserialize_f32,
  Reads-deserialize_f64, Reads-string, Reads-byte_buf, Reads-fixed_opaque,
}

module _ {A : Type 0} (bytes : A → List ℕ) (P : A → Type 0) where
  -- Elements of a unit each fill four bytes for each one counted.
  units_of_All :
      (xs : List A)
      → All (λ x. P x × (4 ≤ length (bytes x))) xs
      → length xs * 4 ≤ length (wire_all bytes xs)
  units_of_All [] h = omega arith
  units_of_All (x ∷ xs) h =
      omega (arith, length-append (bytes x) (wire_all bytes xs), units_of_All xs h.1)

module _ {A : Type 0} (P Q : A → Type 0) where
  All-map : (xs : List A) → ((x : A) → P x → Q x) → All P xs → All Q xs
  All-map [] f h = tt
  All-map (x ∷ xs) f h = (f x h.0, All-map xs f h.1)

-- The number of the chosen variant, and the bytes of its payload.
abbrev index : (vs : Variants) → Choice vs → ℕ
index void v = 0
index (variant s vs) (inl v) = 0
index (variant s vs) (inr v) = suc (index vs v)

abbrev payload : (vs : Variants) → Choice vs → List ℕ
payload void v = []
payload (variant s vs) (inl v) = wire s v
payload (variant s vs) (inr v) = payload vs v

wire_variant_lem :
    (vs : Variants) (n : ℕ) (v : Choice vs)
    → wire_variant vs n v ≡ u32_to_be_bytes (n + index vs v) ++ payload vs v
wire_variant_lem void n v = absurd v
wire_variant_lem (variant s vs) n (inl v) =
    ap (λ i. u32_to_be_bytes i ++ wire s v) (sym (add-zero n))
wire_variant_lem (variant s vs) n (inr v) =
    wire_variant_lem vs (suc n) v ∙ ap (λ i. u32_to_be_bytes i ++ payload vs v) (omega arith)

index-lt :
    (mode : Strictness) (vs : Variants) (n : ℕ) (v : Choice vs)
    → IsFitChoice mode vs n v
    → n + index vs v < u32_mod
index-lt mode void n v h = absurd v
index-lt mode (variant s vs) n (inl v) h = omega arith
index-lt mode (variant s vs) n (inr v) h = omega (arith, index-lt mode vs (suc n) v h)

module _ {e : Env} {k : ℕ} {A : Type 0} where
  Reads-none :
      (m : De A)
      → Reads e plain plain k
          (deserialize_option (ok none) (m >>= λ v. pure (some v)))
          (u32_to_be_bytes 0)
          none
  unfolding deserialize_option
  Reads-none m =
      Reads-bind read_bool _ (u32_to_be_bytes 0) [] false none (Reads-bool false) (Reads-pure none)

  Reads-some :
      (m : De A) (bs : List ℕ) (a : A)
      → Reads e plain plain k m bs a
      → Reads e plain plain
          (suc k)
          (deserialize_option (ok none) (m >>= λ v. pure (some v)))
          (u32_to_be_bytes 1 ++ bs)
          (some a)
  unfolding deserialize_option
  Reads-some m bs a r =
      Reads-bind read_bool _ (u32_to_be_bytes 1) bs true (some a) (Reads-bool true)
        (Reads-nested _ bs (some a) (Reads-bind-lift m (λ v. ok (some v)) bs a (some a) r refl))

  -- The tag, and then a level deeper.
  Reads-enum :
      (visit : ℕ → De A) (tag : ℕ) (bs : List ℕ) (a : A)
      → tag < u32_mod
      → Reads e plain plain k (visit tag) bs a
      → Reads e plain plain (suc k) (deserialize_enum visit) (u32_to_be_bytes tag ++ bs) a
  unfolding deserialize_enum
  Reads-enum visit tag bs a small r =
      Reads-bind read_u32 _ (u32_to_be_bytes tag) bs tag a (Reads-u32 tag small)
        (Reads-nested (visit tag) bs a r)

  -- A bound is pending when the value is read.
  Reads-bounded :
      (limit : ℕ) (m : De A) (seq : Seq A) (bs : List ℕ) (a : A)
      → Reads e (pending (some limit)) plain k m bs a
      → Reads e plain plain (suc k) (deserialize_tuple_struct sentinel_bounded limit m seq) bs a
  unfolding deserialize_tuple_struct
  Reads-bounded limit m seq bs a r =
      Reads-nested _ bs a
        (record { run = λ pos depth rest here room. r.run pos depth rest here room })

module _ {e : Env} where
  mutual
    unfolding decode deserialize_newtype_struct deserialize_struct deserialize_unit
        newtype_variant_seed

    decode-Reads :
        (s : Shape) (v : Value s)
        → IsFit e.mode s v
        → Reads e plain plain (nest s v) (decode s) (wire s v) v
    decode-Reads bool v h = Reads-deserialize_bool v
    decode-Reads i8 v h = Reads-i8 v h
    decode-Reads i16 v h = Reads-i16 v h
    decode-Reads i32 v h = Reads-i32 v h
    decode-Reads i64 v h = Reads-i64 v h
    decode-Reads u8 v h = Reads-u8 v h
    decode-Reads u16 v h = Reads-u16 v h
    decode-Reads u32 v h = Reads-deserialize_u32 v h
    decode-Reads u64 v h = Reads-deserialize_u64 v h
    decode-Reads f32 v h = Reads-deserialize_f32 v h
    decode-Reads f64 v h = Reads-deserialize_f64 v h
    decode-Reads char v h = Reads-char v h
    decode-Reads unit v h = Reads-pure tt
    decode-Reads (fixed n) v h = Reads-fixed_opaque n v h.1
    decode-Reads (newtype s) v h = Reads-nested (decode s) (wire s v) v (decode-Reads s v h)
    decode-Reads (option s) none h = Reads-none (decode s)
    decode-Reads (option s) (some v) h = Reads-some (decode s) (wire s v) v (decode-Reads s v h)
    decode-Reads (struct fs) v h =
        Reads-nested _ (wire_fields fs v) v
          (Reads-seq (decode_fields fs) (wire_fields fs v) v (fields-read fs v h))
    decode-Reads (enum vs) v h = Reads-cast (sym (wire_variant_lem vs 0 v)) (
        Reads-enum (decode_variant vs) (0 + index vs v) (payload vs v) v (index-lt e.mode vs 0 v h)
          (rw add.zero (variant-Reads vs 0 v h)))
    decode-Reads (counted c) v h = held-Reads c none v h tt
    decode-Reads (bounded limit c) v h =
        Reads-bounded limit (decode_held c) _ (wire_held c v) v
          (held-Reads c (some limit) v h.0 h.1)

    held-Reads :
        (c : Counted) (bound : Option ℕ) (v : Held c)
        → IsFitHeld e.mode c v
        → InBound bound (length_held c v)
        → Reads e (pending bound) plain (nest_held c v) (decode_held c) (wire_held c v) v
    held-Reads string bound v h held = Reads-string bound v h.1 held h.2 h.3
    held-Reads opaque bound v h held = Reads-byte_buf bound v h.1 held
    held-Reads (array s) bound v h held =
        Reads-deserialize_seq (deepest (nest s) v) bound (length v) _ (wire_all (wire s) v) v h.1
          held (units_of_All (wire s) (IsFit e.mode s) v h.0)
          (record {
            run = λ pos depth rest here room.
                (ReadsSeq-collect (decode s) (wire s) (nest s) e (deepest (nest s) v) v
                    (omega arith)
                    (All-map (λ x. IsFit e.mode s x × (4 ≤ length (wire s x))) _ v
                      (λ x hx. decode-Reads s x hx.0) h.0)).run
                  pos depth rest here room;
          })

    fields-read :
        (fs : Fields) (v : Values fs)
        → AreFit e.mode fs v
        → ReadsSeq e (nest_fields fs v) (count_fields fs) 0 (decode_fields fs) (wire_fields fs v) v
    fields-read done v h = ReadsSeq-pure tt
    fields-read (field s fs) v h =
        ReadsSeq-bind (next_field (decode s)) _ (wire s v.0) (wire_fields fs v.1) v.0 v
          (ReadsSeq-next_field (decode s) (wire s v.0) v.0
            (Reads-room (omega arith) (decode-Reads s v.0 h.0)))
          (ReadsSeq-bind-pure (decode_fields fs) (λ vs. (v.0, vs)) (wire_fields fs v.1) v.1
            (ReadsSeq-room (omega arith) (fields-read fs v.1 h.1)))

    variant-Reads :
        (vs : Variants) (n : ℕ) (v : Choice vs)
        → IsFitChoice e.mode vs n v
        → Reads e plain plain (nest_variant vs v) (decode_variant vs (index vs v)) (payload vs v) v
    variant-Reads void n v h = absurd v
    variant-Reads (variant s vs) n (inl v) h =
        Reads-bind-lift (decode s) (λ x. ok (inl x)) (wire s v) v (inl v) (decode-Reads s v h.0)
          refl
    variant-Reads (variant s vs) n (inr v) h =
        Reads-bind-lift (decode_variant vs (index vs v)) (λ x. ok (inr x)) (payload vs v) v (inr v)
          (variant-Reads vs (suc n) v h) refl

-- Every value that fits reads back from its bytes, whatever follows them.
pub Reads-decode :
    (e : Env) (s : Shape) (v : Value s)
    → IsFit e.mode s v
    → Reads e plain plain (nest s v) (decode s) (wire s v) v
Reads-decode e s v h = decode-Reads s v h
