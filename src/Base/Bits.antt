-- ===== src/Base/Bits.antt =====
-- Laws of the native bit operations, for every width, from the recursion on binary digits.
use Prim.Native.Nat.{ℕ, zero, suc, ◌+◌, ◌-◌, ◌*◌, ◌/◌, ◌%◌, ◌^◌, ◌≤◌, ◌<◌, min, max}
use Prim.Native.Nat.{bit_and, bit_or, bit_xor}
use Prim.Native.Nat.{digits, bitwise, bit_and-bitwise, bit_or-bitwise, bit_xor-bitwise}
use mathlib.Core.Path.{◌≡◌, refl, ap}
use native.Mathlib.Omega.{arith}
use Prim.Native.Nat.{differ}
use native.Mathlib.Nat.{pow-suc, one-le-pow}

-- Any two amounts of fuel that cover the first argument give the same digits.
module _ (z : ℕ → ℕ) (f : ℕ → ℕ → ℕ) where
  digits_enough : (j k a b : ℕ) → a ≤ j → a ≤ k → digits z f j a b ≡ digits z f k a b
  digits_enough zero zero zero b p q = refl
  digits_enough zero (suc k) zero b p q = refl
  digits_enough (suc j) zero zero b p q = refl
  digits_enough (suc j) (suc k) zero b p q = refl
  digits_enough zero k (suc a) b p q = absurd (omega arith)
  digits_enough (suc j) zero (suc a) b p q = absurd (omega arith)
  digits_enough (suc j) (suc k) (suc a) b p q =
      omega (arith, digits_enough j k (suc a / 2) (b / 2) (omega arith) (omega arith))

  -- So a bitwise operation is its lowest digit and the operation on the halves.
  bitwise_step :
      (u w : ℕ)
      → let rest = bitwise z f (suc u / 2) (w / 2) in
        bitwise z f (suc u) w ≡ rest * 2 + f (suc u % 2) (w % 2)
  bitwise_step u w =
      let half = suc u / 2 in
      omega (arith, digits_enough u half half (w / 2) (omega arith) (omega arith))

-- One binary digit of each operation.
pub bit_xor_step : (u w : ℕ) → bit_xor u w ≡ bit_xor (u / 2) (w / 2) * 2 + differ (u % 2) (w % 2)
bit_xor_step zero w = simp bit_xor-bitwise (omega arith)
bit_xor_step (suc u) w = simp bit_xor-bitwise (bitwise_step (λ y. y) differ u w)

pub bit_and_step : (x k : ℕ) → bit_and x k ≡ bit_and (x / 2) (k / 2) * 2 + min (x % 2) (k % 2)
bit_and_step (suc x) k = simp bit_and-bitwise (bitwise_step (λ y. 0) min x k)
bit_and_step zero k = simp bit_and-bitwise (omega arith)

pub bit_or_step : (p q : ℕ) → bit_or p q ≡ bit_or (p / 2) (q / 2) * 2 + max (p % 2) (q % 2)
bit_or_step (suc p) q = simp bit_or-bitwise (bitwise_step (λ r. r) max p q)
bit_or_step zero q = simp bit_or-bitwise (omega arith)

differ_digits : (x y : ℕ) → x < 2 → y < 2 → differ x y ≡ (x + y) % 2
differ_digits zero y p q = omega arith
differ_digits (suc zero) zero p q = omega arith
differ_digits (suc zero) (suc zero) p q = omega arith
differ_digits (suc zero) (suc (suc y)) p q = absurd (omega arith)
differ_digits (suc (suc x)) y p q = absurd (omega arith)

-- The lowest digit of an exclusive or, as arithmetic.
pub bit_xor_digit : (a b : ℕ) → bit_xor a b ≡ bit_xor (a / 2) (b / 2) * 2 + (a % 2 + b % 2) % 2
bit_xor_digit a b =
    omega (arith, bit_xor_step a b, differ_digits (a % 2) (b % 2) (omega arith) (omega arith))

-- The inductions below go from `a / 2` to `a`, by the bits left.
bit_xor-eq-zero_below : (n a b : ℕ) → a ≤ n → bit_xor a b ≡ 0 → a ≡ b
bit_xor-eq-zero_below n zero b h e = omega (arith, simp bit_xor-bitwise at e)
bit_xor-eq-zero_below zero (suc a) b h e = absurd (omega arith)
bit_xor-eq-zero_below (suc n) (suc a) b h e = omega (
  arith,
  bit_xor_digit (suc a) b,
  bit_xor-eq-zero_below n (suc a / 2) (b / 2) (omega arith)
      (omega (arith, bit_xor_digit (suc a) b)),
)

bit_xor-self_below : (n a : ℕ) → a ≤ n → bit_xor a a ≡ 0
bit_xor-self_below n zero h = refl
bit_xor-self_below zero (suc a) h = absurd (omega arith)
bit_xor-self_below (suc n) (suc a) h =
    omega (arith, bit_xor_digit (suc a) (suc a), bit_xor-self_below n (suc a / 2) (omega arith))

-- The exclusive or is zero exactly at equal numbers.
pub bit_xor-eq-zero : (a b : ℕ) → bit_xor a b ≡ 0 → a ≡ b
bit_xor-eq-zero a b = bit_xor-eq-zero_below a a b (omega arith)

pub bit_xor_self : (a : ℕ) → bit_xor a a ≡ 0
bit_xor_self a = bit_xor-self_below a a (omega arith)

pub bit_and-zero : (k x : ℕ) → x ≤ k → bit_and x 0 ≡ 0
bit_and-zero zero (suc x) le = absurd (omega arith)
bit_and-zero (suc k) (suc x) le =
    let half = bit_and-zero k (suc x / 2) (omega arith) in
    omega (arith, bit_and_step (suc x) 0, half)
bit_and-zero k zero le = refl

pub bit_or-zero : (k a : ℕ) → a ≤ k → bit_or a 0 ≡ a
bit_or-zero k zero h = refl
bit_or-zero zero (suc a) h = absurd (omega arith)
bit_or-zero (suc k) (suc a) h =
    omega (arith, bit_or_step (suc a) 0, bit_or-zero k (suc a / 2) (omega arith))

-- An exclusive or of numbers that fit `k` bits fits `k` bits.
pub bit_xor-lt : (k a b : ℕ) → a < 2 ^ k → b < 2 ^ k → bit_xor a b < 2 ^ k
bit_xor-lt zero zero zero p q = omega arith
bit_xor-lt zero zero (suc b) p q = absurd (omega arith)
bit_xor-lt zero (suc a) b p q = absurd (omega arith)
bit_xor-lt (suc k) a b p q = omega (
  arith,
  pow-suc 2 k,
  bit_xor_digit a b,
  bit_xor-lt k (a / 2) (b / 2) (omega (arith, pow-suc 2 k)) (omega (arith, pow-suc 2 k)),
)

pub bit_or-lt : (k a b : ℕ) → a < 2 ^ k → b < 2 ^ k → bit_or a b < 2 ^ k
bit_or-lt zero zero zero p q = omega arith
bit_or-lt zero zero (suc b) p q = absurd (omega arith)
bit_or-lt zero (suc a) b p q = absurd (omega arith)
bit_or-lt (suc k) a b p q = omega (
  arith,
  pow-suc 2 k,
  bit_or_step a b,
  bit_or-lt k (a / 2) (b / 2) (omega (arith, pow-suc 2 k)) (omega (arith, pow-suc 2 k)),
)

-- Numbers in the form `q * 2 ^ k + r`: a mask keeps `r`, and `|` fills the free low bits.
low_field : (k q r : ℕ) → r < 2 ^ k → bit_and (q * 2 ^ k + r) (2 ^ k - 1) ≡ r
low_field zero q r h = omega (arith, bit_and-zero (q * 2 ^ 0 + r) (q * 2 ^ 0 + r) (omega arith))
low_field (suc k) q r h = ground (
  arith,
  pow-suc 2 k,
  one-le-pow k 2,
  ap (λ (t : ℕ). q * t) (pow-suc 2 k),
  bit_and_step (q * 2 ^ suc k + r) (2 ^ suc k - 1),
  low_field k q (r / 2),
)

pub bit_or-add : (k q r : ℕ) → r < 2 ^ k → bit_or (q * 2 ^ k) r ≡ q * 2 ^ k + r
bit_or-add zero q r h = ground (arith, bit_or-zero q q)
bit_or-add (suc k) q r h = ground (
  arith,
  pow-suc 2 k,
  ap (λ (t : ℕ). q * t) (pow-suc 2 k),
  bit_or_step (q * 2 ^ suc k) r,
  bit_or-add k q (r / 2),
)

-- A mask of `k` ones keeps the remainder by `2 ^ k`.
pub bit_and-mask : (k a : ℕ) → bit_and a (2 ^ k - 1) ≡ a % 2 ^ k
bit_and-mask k a = ground (arith, one-le-pow k 2, low_field k (a / 2 ^ k) (a % 2 ^ k))
