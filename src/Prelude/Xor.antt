-- ===== src/Prelude/Xor.antt =====
-- Exclusive or at variables: it undoes itself and stays within the bits of its arguments.
use Prim.Native.Nat.{
  ℕ, zero, suc, ◌+◌, ◌*◌, ◌/◌, ◌%◌, ◌^◌, ◌≤◌, ◌<◌, bit_xor, digits, differ, bit_xor-bitwise,
}
use mathlib.Core.Path.{◌≡◌, refl, ap, ◌∙◌, sym}
use native.Mathlib.Omega.{arith}

abbrev low : ℕ → ℕ → ℕ
low a b = differ (a % 2) (b % 2)

differ-lt : (p q : ℕ) → p < 2 → q < 2 → differ p q < 2
differ-lt zero q h k = omega arith
differ-lt (suc p) zero h k = omega arith
differ-lt (suc zero) (suc zero) h k = omega arith
differ-lt (suc zero) (suc (suc q)) h k = absurd (omega arith)
differ-lt (suc (suc p)) (suc q) h k = absurd (omega arith)

differ_twice : (p q : ℕ) → p < 2 → q < 2 → differ (differ p q) q ≡ p
differ_twice zero zero h k = refl
differ_twice zero (suc zero) h k = refl
differ_twice zero (suc (suc q)) h k = absurd (omega arith)
differ_twice (suc zero) zero h k = refl
differ_twice (suc zero) (suc zero) h k = refl
differ_twice (suc zero) (suc (suc q)) h k = absurd (omega arith)
differ_twice (suc (suc p)) q h k = absurd (omega arith)

abbrev xor_digits : ℕ → ℕ → ℕ → ℕ
xor_digits n a b = digits (λ b. b) differ n a b

-- Any count of digits that the first number allows gives the same.
xor_digits_enough : (n m a b : ℕ) → a ≤ n → a ≤ m → xor_digits n a b ≡ xor_digits m a b
xor_digits_enough zero zero a b p q = refl
xor_digits_enough zero (suc m) zero b p q = refl
xor_digits_enough zero (suc m) (suc a) b p q = absurd (omega arith)
xor_digits_enough (suc n) zero zero b p q = refl
xor_digits_enough (suc n) zero (suc a) b p q = absurd (omega arith)
xor_digits_enough (suc n) (suc m) zero b p q = refl
xor_digits_enough (suc n) (suc m) (suc a) b p q =
    ap (λ r. r * 2 + low (suc a) b)
      (xor_digits_enough n m (suc a / 2) (b / 2) (omega arith) (omega arith))

low_zero : (b : ℕ) → low 0 b ≡ b % 2
low_zero b = refl

-- The lowest digit apart.
bit_xor_halves : (a b : ℕ) → bit_xor a b ≡ bit_xor (a / 2) (b / 2) * 2 + low a b
bit_xor_halves zero b = omega (arith, bit_xor-bitwise 0 b, bit_xor-bitwise 0 (b / 2), low_zero b)
bit_xor_halves (suc a) b =
    bit_xor-bitwise (suc a) b
    ∙ ap (λ r. r * 2 + low (suc a) b)
        (xor_digits_enough a (suc a / 2) (suc a / 2) (b / 2) (omega arith) (omega arith)
          ∙ sym (bit_xor-bitwise (suc a / 2) (b / 2)))

bit_xor_half : (a b : ℕ) → bit_xor a b / 2 ≡ bit_xor (a / 2) (b / 2)
bit_xor_half a b =
    omega (arith, bit_xor_halves a b, differ-lt (a % 2) (b % 2) (omega arith) (omega arith))

bit_xor_parity : (a b : ℕ) → bit_xor a b % 2 ≡ low a b
bit_xor_parity a b =
    omega (arith, bit_xor_halves a b, differ-lt (a % 2) (b % 2) (omega arith) (omega arith))

twice_step :
    (a b : ℕ) → bit_xor (bit_xor (a / 2) (b / 2)) (b / 2) ≡ a / 2 → bit_xor (bit_xor a b) b ≡ a
twice_step a b h = omega (
  arith,
  bit_xor_halves (bit_xor a b) b,
  ap (λ x. bit_xor x (b / 2)) (bit_xor_half a b),
  ap (λ x. differ x (b % 2)) (bit_xor_parity a b),
  differ_twice (a % 2) (b % 2) (omega arith) (omega arith),
  h,
)

twice_within : (n a b : ℕ) → a + b ≤ n → bit_xor (bit_xor a b) b ≡ a
twice_within n zero zero h = refl
twice_within zero zero (suc b) h = absurd (omega arith)
twice_within zero (suc a) b h = absurd (omega arith)
twice_within (suc n) (suc a) b h =
    twice_step (suc a) b (twice_within n (suc a / 2) (b / 2) (omega arith))
twice_within (suc n) zero (suc b) h =
    twice_step 0 (suc b) (twice_within n 0 (suc b / 2) (omega arith))

pub bit_xor_twice : (a b : ℕ) → bit_xor (bit_xor a b) b ≡ a
bit_xor_twice a b = twice_within (a + b) a b (omega arith)

-- Exclusive or with the same word can be taken off.
pub bit_xor_cancel : (a b c : ℕ) → bit_xor a c ≡ bit_xor b c → a ≡ b
bit_xor_cancel a b c h = sym (bit_xor_twice a c) ∙ (ap (λ x. bit_xor x c) h ∙ bit_xor_twice b c)

pub bit_xor-lt : (w a b : ℕ) → a < 2 ^ w → b < 2 ^ w → bit_xor a b < 2 ^ w
bit_xor-lt zero zero zero h k = omega arith
bit_xor-lt zero zero (suc b) h k = absurd (omega arith)
bit_xor-lt zero (suc a) b h k = absurd (omega arith)
bit_xor-lt (suc w) a b h k = omega (
  arith,
  bit_xor_halves a b,
  differ-lt (a % 2) (b % 2) (omega arith) (omega arith),
  bit_xor-lt w (a / 2) (b / 2) (omega arith) (omega arith),
)
