-- ===== src/Base/Bits.antt =====
-- The bit operations on a key-size word, as arithmetic.
use Prim.Native.Nat.{
  ℕ, zero, suc, ◌+◌, ◌-◌, ◌*◌, ◌/◌, ◌%◌, ◌^◌, ◌≤◌, ◌<◌, min, max, bit_and, bit_or, digits,
  bit_and-bitwise, bit_or-bitwise,
}
use mathlib.Core.Path.{◌≡◌, refl, sym, ap, ◌∙◌}
use native.Mathlib.Omega.{arith}
use native.Mathlib.Nat.{
  mod-eq_of_lt, mul-add-mod_self_left, div-add-mod, div-div-eq-div-mul, two-pow-succ, one-le-pow,
  mod-lt, div-one, mod-one,
}

-- More rounds than the first number has digits change nothing.
digits_rounds :
    (z : ℕ → ℕ) (f : ℕ → ℕ → ℕ) (n m a b : ℕ) → a ≤ n → a ≤ m → digits z f n a b ≡ digits z f m a b
digits_rounds z f zero zero a b p q = refl
digits_rounds z f zero (suc m) zero b p q = refl
digits_rounds z f zero (suc m) (suc a) b p q = absurd (omega arith)
digits_rounds z f (suc n) zero zero b p q = refl
digits_rounds z f (suc n) zero (suc a) b p q = absurd (omega arith)
digits_rounds z f (suc n) (suc m) zero b p q = refl
digits_rounds z f (suc n) (suc m) (suc a) b p q =
    ap (λ (d : ℕ). d * 2 + f (suc a % 2) (b % 2))
      (digits_rounds z f n m (suc a / 2) (b / 2) (omega arith) (omega arith))

-- The lowest digit, and the rest.
bit_or-halves : (a b : ℕ) → bit_or a b ≡ bit_or (a / 2) (b / 2) * 2 + max (a % 2) (b % 2)
bit_or-halves zero b = omega (arith, bit_or-bitwise 0 b, bit_or-bitwise 0 (b / 2))
bit_or-halves (suc a) b = omega (
  arith,
  bit_or-bitwise (suc a) b,
  bit_or-bitwise (suc a / 2) (b / 2),
  digits_rounds (λ d. d) max a (suc a / 2) (suc a / 2) (b / 2) (omega arith) (omega arith),
)

bit_and-halves : (a b : ℕ) → bit_and a b ≡ bit_and (a / 2) (b / 2) * 2 + min (a % 2) (b % 2)
bit_and-halves zero b = omega (arith, bit_and-bitwise 0 b, bit_and-bitwise 0 (b / 2))
bit_and-halves (suc a) b = omega (
  arith,
  bit_and-bitwise (suc a) b,
  bit_and-bitwise (suc a / 2) (b / 2),
  digits_rounds (λ d. zero) min a (suc a / 2) (suc a / 2) (b / 2) (omega arith) (omega arith),
)

bit_and-zero_below : (n a : ℕ) → a ≤ n → bit_and a 0 ≡ 0
bit_and-zero_below n zero h = refl
bit_and-zero_below zero (suc a) h = absurd (omega arith)
bit_and-zero_below (suc n) (suc a) h =
    omega (arith, bit_and-halves (suc a) 0, bit_and-zero_below n (suc a / 2) (omega arith))

pub bit_and-zero : (a : ℕ) → bit_and a 0 ≡ 0
bit_and-zero a = bit_and-zero_below a a (omega arith)

pow_pos : (k : ℕ) → 1 ≤ 2 ^ k
pow_pos k = one-le-pow k 2 (omega arith)

-- The remainder by twice a number, from that of the half.
mod_double : (a p : ℕ) → 1 ≤ p → a % (p + p) ≡ a / 2 % p * 2 + a % 2
mod_double a p h =
    ap (λ (x : ℕ). x % (p + p)) split
    ∙ mul-add-mod_self_left (p + p) (a / 2 / p) (a / 2 % p * 2 + a % 2)
    ∙ mod-eq_of_lt (omega (arith, mod-lt (a / 2) h))
  where
    split : a ≡ (p + p) * (a / 2 / p) + (a / 2 % p * 2 + a % 2)
    split = omega (arith, div-add-mod (a / 2) p)

-- A mask of ones keeps the remainder.
pub bit_and-mask : (k a : ℕ) → bit_and a (2 ^ k - 1) ≡ a % 2 ^ k
bit_and-mask zero a = bit_and-zero a ∙ sym (mod-one a)
bit_and-mask (suc k) a = rw two-pow-succ (
    omega (
      arith,
      pow_pos k,
      bit_and-halves a (2 ^ k + 2 ^ k - 1),
      ap (λ (x : ℕ). bit_and (a / 2) x) half_mask,
      bit_and-mask k (a / 2),
      mod_double a (2 ^ k) (pow_pos k),
    ))
  where
    half_mask : (2 ^ k + 2 ^ k - 1) / 2 ≡ 2 ^ k - 1
    half_mask = omega (arith, pow_pos k)

-- A single one keeps its own digit.
pub bit_and-top : (k a : ℕ) → bit_and a (2 ^ k) ≡ a / 2 ^ k % 2 * 2 ^ k
bit_and-top zero a = omega (arith, bit_and-halves a 1, bit_and-zero (a / 2), div-one a)
bit_and-top (suc k) a = rw two-pow-succ (
    omega (
      arith,
      bit_and-halves a (2 ^ k + 2 ^ k),
      ap (λ (y : ℕ). bit_and (a / 2) y) half,
      bit_and-top k (a / 2),
      quotient,
    ))
  where
    half : (2 ^ k + 2 ^ k) / 2 ≡ 2 ^ k
    half = omega arith

    doubled : 2 * 2 ^ k ≡ 2 ^ k + 2 ^ k
    doubled = omega arith

    quotient : a / (2 ^ k + 2 ^ k) % 2 * (2 ^ k + 2 ^ k) ≡ a / 2 / 2 ^ k % 2 * 2 ^ k * 2
    quotient = rw (div-div-eq-div-mul a 2 (2 ^ k), doubled) (omega arith)

-- Setting a digit above all others adds it.
pub bit_or-top : (k x : ℕ) → x < 2 ^ k → bit_or x (2 ^ k) ≡ x + 2 ^ k
bit_or-top zero zero h = bit_or-bitwise 0 1
bit_or-top zero (suc x) h = absurd (omega arith)
bit_or-top (suc k) x h = rw two-pow-succ (
    omega (
      arith,
      two-pow-succ k,
      bit_or-halves x (2 ^ k + 2 ^ k),
      ap (λ (y : ℕ). bit_or (x / 2) y) half,
      bit_or-top k (x / 2) (omega (arith, two-pow-succ k)),
    ))
  where
    half : (2 ^ k + 2 ^ k) / 2 ≡ 2 ^ k
    half = omega arith

bit_or-zero_below : (n a : ℕ) → a ≤ n → bit_or a 0 ≡ a
bit_or-zero_below n zero h = refl
bit_or-zero_below zero (suc a) h = absurd (omega arith)
bit_or-zero_below (suc n) (suc a) h =
    omega (arith, bit_or-halves (suc a) 0, bit_or-zero_below n (suc a / 2) (omega arith))

pub bit_or-zero : (a : ℕ) → bit_or a 0 ≡ a
bit_or-zero a = bit_or-zero_below a a (omega arith)
