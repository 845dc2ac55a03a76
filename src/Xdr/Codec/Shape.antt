-- ===== src/Xdr/Codec/Shape.antt =====
-- The types that a client of the codec declares, and their values. A string is its bytes, a
-- float its bit pattern, a `char` its code point.
use truenas_ros_utils.Prelude.{ℕ, Bool, Option, List, ◌⊎◌}
use truenas_ros_utils.Xdr.Signed.{ℤ}

mutual
  pub data Shape : Type 0 where
    bool i8 i16 i32 i64 u8 u16 u32 u64 f32 f64 char unit : Shape
    fixed : ℕ → Shape
    newtype : Shape → Shape
    option : Shape → Shape
    struct : Fields → Shape
    enum : Variants → Shape
    counted : Counted → Shape
    -- `Bounded<T, MAX>`
    bounded : ℕ → Counted → Shape

  -- The types of `impl Counted`: `String`, `VarOpaque` and `Vec<T>`.
  pub data Counted : Type 0 where
    string opaque : Counted
    array : Shape → Counted

  pub data Fields : Type 0 where
    done : Fields
    field : Shape → Fields → Fields

  -- Each variant has one payload; that of a unit variant is `unit`.
  pub data Variants : Type 0 where
    void : Variants
    variant : Shape → Variants → Variants

abbrev mutual
  pub Value : Shape → Type 0
  Value bool = Bool
  Value i8 = ℤ
  Value i16 = ℤ
  Value i32 = ℤ
  Value i64 = ℤ
  Value unit = Unit {0}
  Value (fixed n) = List ℕ
  Value (newtype s) = Value s
  Value (option s) = Option (Value s)
  Value (struct fs) = Values fs
  Value (enum vs) = Choice vs
  Value (counted c) = Held c
  Value (bounded max c) = Held c
  Value _ = ℕ

  pub Held : Counted → Type 0
  Held (array s) = List (Value s)
  Held _ = List ℕ

  pub Values : Fields → Type 0
  Values done = Unit {0}
  Values (field s fs) = Value s × Values fs

  pub Choice : Variants → Type 0
  Choice void = ⊥
  Choice (variant s vs) = Value s ⊎ Choice vs
