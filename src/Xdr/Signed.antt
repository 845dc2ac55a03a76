-- ===== src/Xdr/Signed.antt =====
-- The signed integers of the codec: `as` between `i32` and `u32`, and `i8::try_from`.
use truenas_ros_utils.Prelude.{ℕ, ◌+◌, ◌-◌, ◌<◌, ◌≡◌, arith, ltb, if◌then◌else◌, Option, some, none}

-- `negsuc n` is -(n + 1).
pub data ℤ : Type 0 where
  pos : ℕ → ℤ
  negsuc : ℕ → ℤ

-- The integers from `- limit` up to `limit - 1`.
abbrev pub InRange : ℕ → ℤ → Type 0
InRange limit (pos n) = n < limit
InRange limit (negsuc n) = n < limit

-- `w as iN`, for `w` below the modulus `2 * limit`.
unfoldable pub to_signed : ℕ → ℕ → ℤ
to_signed limit w = if ltb w limit then pos w else negsuc (limit + limit - 1 - w)

-- `z as uN`, for `z` in the range of `iN`.
unfoldable pub to_unsigned : ℕ → ℤ → ℕ
to_unsigned limit (pos n) = n
to_unsigned limit (negsuc n) = limit + limit - 1 - n

-- `iN::try_from(z)`, of a wider integer.
unfoldable pub try_from : ℕ → ℤ → Option ℤ
try_from limit (pos n) = if ltb n limit then some (pos n) else none
try_from limit (negsuc n) = if ltb n limit then some (negsuc n) else none

abbrev pub i8_limit : ℕ
i8_limit = 128

abbrev pub i16_limit : ℕ
i16_limit = 32768

abbrev pub i32_limit : ℕ
i32_limit = 2147483648

abbrev pub i64_limit : ℕ
i64_limit = 9223372036854775808

pub to_signed-to_unsigned :
    (limit : ℕ) (z : ℤ) → InRange limit z → to_signed limit (to_unsigned limit z) ≡ z
unfolding to_signed to_unsigned
to_signed-to_unsigned limit (pos n) h = ground arith
to_signed-to_unsigned limit (negsuc n) h = ground arith

pub to_unsigned-to_signed :
    (limit w : ℕ) → w < limit + limit → to_unsigned limit (to_signed limit w) ≡ w
unfolding to_signed to_unsigned
to_unsigned-to_signed limit w h = ground arith

pub to_signed-InRange : (limit w : ℕ) → w < limit + limit → InRange limit (to_signed limit w)
unfolding to_signed
to_signed-InRange limit w h = ground arith

pub to_unsigned-lt : (limit : ℕ) (z : ℤ) → InRange limit z → to_unsigned limit z < limit + limit
unfolding to_unsigned
to_unsigned-lt limit (pos n) h = omega arith
to_unsigned-lt limit (negsuc n) h = omega arith

pub try_from-InRange : (limit : ℕ) (z : ℤ) → InRange limit z → try_from limit z ≡ some z
unfolding try_from
try_from-InRange limit (pos n) h = ground arith
try_from-InRange limit (negsuc n) h = ground arith

pub try_from-some : (limit : ℕ) (z y : ℤ) → try_from limit z ≡ some y → InRange limit y × (z ≡ y)
unfolding try_from
try_from-some limit (pos n) (pos m) h = ground arith
try_from-some limit (pos n) (negsuc m) h = ground arith
try_from-some limit (negsuc n) (pos m) h = ground arith
try_from-some limit (negsuc n) (negsuc m) h = ground arith
