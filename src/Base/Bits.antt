-- ===== src/Base/Bits.antt =====
-- `&` with a mask of low bits or of high bits, and `|` of disjoint fields, as arithmetic.
use Prim.Native.Nat.{
  ℕ, zero, suc, ◌+◌, ◌-◌, ◌*◌, ◌/◌, ◌%◌, ◌^◌, ◌≤◌, ◌<◌, min, max, digits, bit_and, bit_or,
  bit_and-bitwise, bit_or-bitwise,
}
use mathlib.Core.Path.{◌≡◌, refl, ap}
use native.Mathlib.Nat.{pow-zero, pow-suc, add-zero, add-suc, mul-one, mul_assoc}
use native.Mathlib.Omega.{arith}

-- More fuel than digits changes nothing.
digits-enough :
    (rest : ℕ → ℕ) (op : ℕ → ℕ → ℕ) (fuel a b : ℕ)
    → a ≤ fuel
    → digits rest op fuel a b ≡ digits rest op a a b
digits-enough rest op fuel a b h = digits_same fuel a a b h (omega arith)
  where
    digits_same : (m n x y : ℕ) → x ≤ m → x ≤ n → digits rest op m x y ≡ digits rest op n x y
    digits_same zero zero x y p q = refl
    digits_same zero (suc n) zero y p q = refl
    digits_same zero (suc n) (suc x) y p q = absurd (omega arith)
    digits_same (suc m) zero zero y p q = refl
    digits_same (suc m) zero (suc x) y p q = absurd (omega arith)
    digits_same (suc m) (suc n) zero y p q = refl
    digits_same (suc m) (suc n) (suc x) y p q =
        omega (arith, digits_same m n (suc x / 2) (y / 2) (omega arith) (omega arith))

-- The lowest digit, and the others.
pub bit_and-half : (a b : ℕ) → bit_and a b ≡ bit_and (a / 2) (b / 2) * 2 + min (a % 2) (b % 2)
bit_and-half zero b = omega (arith, bit_and-bitwise 0 b, bit_and-bitwise 0 (b / 2))
bit_and-half (suc a) b = omega (
  arith,
  bit_and-bitwise (suc a) b,
  bit_and-bitwise (suc a / 2) (b / 2),
  digits-enough (λ y. 0) min a (suc a / 2) (b / 2) (omega arith),
)

pub bit_or-half : (a b : ℕ) → bit_or a b ≡ bit_or (a / 2) (b / 2) * 2 + max (a % 2) (b % 2)
bit_or-half zero b = omega (arith, bit_or-bitwise 0 b, bit_or-bitwise 0 (b / 2))
bit_or-half (suc a) b = omega (
  arith,
  bit_or-bitwise (suc a) b,
  bit_or-bitwise (suc a / 2) (b / 2),
  digits-enough (λ y. y) max a (suc a / 2) (b / 2) (omega arith),
)

bit_and-zero : (a bound : ℕ) → a ≤ bound → bit_and a 0 ≡ 0
bit_and-zero zero bound h = refl
bit_and-zero (suc a) zero h = absurd (omega arith)
bit_and-zero (suc a) (suc bound) h =
    omega (arith, bit_and-half (suc a) 0, bit_and-zero (suc a / 2) bound (omega arith))

bit_or-zero : (a bound : ℕ) → a ≤ bound → bit_or a 0 ≡ a
bit_or-zero zero bound h = refl
bit_or-zero (suc a) zero h = absurd (omega arith)
bit_or-zero (suc a) (suc bound) h =
    omega (arith, bit_or-half (suc a) 0, bit_or-zero (suc a / 2) bound (omega arith))

-- A number whose digits from `k` on are `q`, and those below are `r`: the digit at the bottom.
doubled : (q k : ℕ) → q * 2 ^ suc k ≡ 2 * (q * 2 ^ k)
doubled q k = omega (arith, ap (λ (t : ℕ). q * t) (pow-suc 2 k))

-- `& (2 ^ k - 1)` keeps the low field.
pub bit_and-low : (k q r : ℕ) → r < 2 ^ k → bit_and (q * 2 ^ k + r) (2 ^ k - 1) ≡ r
bit_and-low zero q r h =
    omega (arith, h, bit_and-zero (q * 2 ^ 0 + r) (q * 2 ^ 0 + r) (omega arith))
bit_and-low (suc k) q r h = ground (
  arith,
  doubled q k,
  pow-suc 2 k,
  bit_and-half (q * 2 ^ suc k + r) (2 ^ suc k - 1),
  bit_and-low k q (r / 2),
)

-- `& ((2 ^ m - 1) << k)` keeps the high field, if that has `m` digits.
pub bit_and-high :
    (k m q r : ℕ)
    → r < 2 ^ k
    → q < 2 ^ m
    → bit_and (q * 2 ^ k + r) ((2 ^ m - 1) * 2 ^ k) ≡ q * 2 ^ k
bit_and-high zero m q r h fits = ground (arith, bit_and-low m 0 q)
bit_and-high (suc k) m q r h fits = ground (
  arith,
  doubled q k,
  doubled (2 ^ m - 1) k,
  pow-suc 2 k,
  bit_and-half (q * 2 ^ suc k + r) ((2 ^ m - 1) * 2 ^ suc k),
  bit_and-high k m q (r / 2),
)

-- `|` of two fields that do not overlap is their sum.
pub bit_or-fields : (k q r : ℕ) → r < 2 ^ k → bit_or (q * 2 ^ k) r ≡ q * 2 ^ k + r
bit_or-fields zero q r h = ground (arith, bit_or-zero q q)
bit_or-fields (suc k) q r h =
    ground
      (arith, doubled q k, pow-suc 2 k, bit_or-half (q * 2 ^ suc k) r, bit_or-fields k q (r / 2))

pub pow-add : (b m n : ℕ) → b ^ (m + n) ≡ b ^ m * b ^ n
pow-add b m zero = simp (add-zero, pow-zero, mul-one)
pow-add b m (suc n) = simp (add-suc, pow-suc, pow-add b m n, mul_assoc)
