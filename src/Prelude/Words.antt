-- ===== src/Prelude/Words.antt =====
-- Machine words: `uint64_t` sums and differences, and `&` with a mask of low ones.
use Prim.Native.Nat.{
  ℕ, zero, suc, ◌+◌, ◌-◌, ◌*◌, ◌/◌, ◌%◌, ◌^◌, ◌≤◌, ◌<◌, min, bit_and, digits, bit_and-bitwise,
}
use mathlib.Core.Path.{◌≡◌, ◌∙◌}
use native.Mathlib.Nat.{pow-suc, one-le-pow, pow-le-pow_right}
use native.Mathlib.Omega.{arith}

abbrev pub u64_mod : ℕ
u64_mod = 2 ^ 64

abbrev pub u64 : ℕ → ℕ
u64 n = n % 2 ^ 64

abbrev pub u32 : ℕ → ℕ
u32 n = n % 2 ^ 32

abbrev pub add64 : ℕ → ℕ → ℕ
add64 a b = (a + b) % 2 ^ 64

abbrev pub sub64 : ℕ → ℕ → ℕ
sub64 a b = (a + 2 ^ 64 - b) % 2 ^ 64

pub two_pow-pos : (k : ℕ) → 0 < 2 ^ k
two_pow-pos k = one-le-pow k 2 (omega arith)

pub two_pow-suc : (k : ℕ) → 2 ^ suc k ≡ 2 * 2 ^ k
two_pow-suc k = omega (arith, pow-suc 2 k)

double_mod : (x p : ℕ) → 0 < p → x / 2 % p * 2 + x % 2 ≡ x % (2 * p)
double_mod x p h = grind arith

half : (p : ℕ) → 1 ≤ p → (2 * p - 1) / 2 ≡ p - 1
half p h = omega arith

mask_digits : (n a k : ℕ) → a ≤ n → digits (λ b. zero) min n a (2 ^ k - 1) ≡ a % 2 ^ k
mask_digits zero zero k h = omega arith
mask_digits zero (suc a) k h = absurd (omega arith)
mask_digits (suc n) zero k h = omega arith
mask_digits (suc n) (suc a) zero h = omega (arith, mask_digits n (suc a / 2) 0 (omega arith))
mask_digits (suc n) (suc a) (suc k) h =
    rw (two_pow-suc k, half (2 ^ k) (two_pow-pos k), mask_digits n (suc a / 2) k (omega arith))
      (omega (arith, two_pow-pos k, double_mod (suc a) (2 ^ k) (two_pow-pos k)))

-- `&` with a mask of `k` ones is the remainder by `2 ^ k`.
pub bit_and_mask : (a k : ℕ) → bit_and a (2 ^ k - 1) ≡ a % 2 ^ k
bit_and_mask a k = bit_and-bitwise a (2 ^ k - 1) ∙ mask_digits a a k (omega arith)

pub two_pow_mono : (j k : ℕ) → j ≤ k → 2 ^ j ≤ 2 ^ k
two_pow_mono j k h = pow-le-pow_right (omega arith) h
