-- ===== src/Prelude/Bytes.antt =====
-- Byte strings and the big-endian and little-endian words that they hold.
use Prim.Native.Nat.{ℕ, ◌+◌, ◌*◌, ◌/◌, ◌%◌, ◌<◌}
use mathlib.Core.Path.{◌≡◌}
use mathlib.Core.List.{List, [], ◌∷◌, ◌++◌}
use native.Mathlib.Omega.{arith}
use truenas_ros_utils.Prelude.Lists.{All}

abbrev pub IsByte : ℕ → Type 0
IsByte b = b < 256

abbrev pub AreBytes : List ℕ → Type 0
AreBytes bs = All IsByte bs

abbrev pub u16_mod : ℕ
u16_mod = 65536

abbrev pub u32_mod : ℕ
u32_mod = 4294967296

abbrev pub u64_mod : ℕ
u64_mod = 18446744073709551616

-- `from_be_bytes`, for an array of any length.
abbrev pub be_value : ℕ → List ℕ → ℕ
be_value acc [] = acc
be_value acc (b ∷ bs) = be_value (acc * 256 + b) bs

-- `u16::to_be_bytes`, `u32::to_be_bytes` and `u64::to_be_bytes`.
abbrev pub u16_to_be_bytes : ℕ → List ℕ
u16_to_be_bytes v = v / 256 % 256 ∷ v % 256 ∷ []

abbrev pub u32_to_be_bytes : ℕ → List ℕ
u32_to_be_bytes v = v / 16777216 % 256 ∷ v / 65536 % 256 ∷ v / 256 % 256 ∷ v % 256 ∷ []

abbrev pub u64_to_be_bytes : ℕ → List ℕ
u64_to_be_bytes v = u32_to_be_bytes (v / 4294967296) ++ u32_to_be_bytes v

pub u16-be_value : (v : ℕ) → v < u16_mod → be_value 0 (u16_to_be_bytes v) ≡ v
u16-be_value v h = omega arith

pub u32-be_value : (v : ℕ) → v < u32_mod → be_value 0 (u32_to_be_bytes v) ≡ v
u32-be_value v h = omega arith

pub u64-be_value : (v : ℕ) → v < u64_mod → be_value 0 (u64_to_be_bytes v) ≡ v
u64-be_value v h = omega arith

-- Four bytes are the bytes of the word that they hold, which fits 32 bits.
pub be_value-u32 :
    (a b c d : ℕ)
    → AreBytes (a ∷ b ∷ c ∷ d ∷ [])
    → u32_to_be_bytes (be_value 0 (a ∷ b ∷ c ∷ d ∷ [])) ≡ a ∷ b ∷ c ∷ d ∷ []
be_value-u32 a b c d h = ground arith

pub be_value-lt_u32 :
    (a b c d : ℕ) → AreBytes (a ∷ b ∷ c ∷ d ∷ []) → be_value 0 (a ∷ b ∷ c ∷ d ∷ []) < u32_mod
be_value-lt_u32 a b c d h = omega arith
