-- ===== src/Base/Bits.antt =====
-- C's `&` and `|` as arithmetic, at variables: with masks of low or of high bits, and of fields that
-- do not overlap.
use Prim.Native.Nat.{
  ℕ, zero, suc, ◌+◌, ◌-◌, ◌*◌, ◌/◌, ◌%◌, ◌^◌, ◌≤◌, ◌<◌, min, max, bit_and, bit_or, digits,
  bit_and-bitwise, bit_or-bitwise,
}
use mathlib.Core.Path.{◌≡◌, refl, ap, ◌∙◌}
use native.Mathlib.Nat.{pow-suc, one-le-pow, div-add-mod}
use native.Mathlib.Omega.{arith}

-- The recursion on digits stops by itself once its fuel covers the first number.
settled :
    (rest : ℕ → ℕ) (digit : ℕ → ℕ → ℕ) (a fuel enough b : ℕ)
    → a ≤ enough
    → a ≤ fuel
    → digits rest digit enough a b ≡ digits rest digit fuel a b
settled rest digit zero zero zero b _ _ = refl
settled rest digit zero (suc fuel) zero b _ _ = refl
settled rest digit zero zero (suc enough) b _ _ = refl
settled rest digit zero (suc fuel) (suc enough) b _ _ = refl
settled rest digit (suc a) zero enough b _ none_left = elim none_left [ ]
settled rest digit (suc a) (suc fuel) zero b none_left _ = elim none_left [ ]
settled rest digit (suc a) (suc fuel) (suc enough) b le_enough le_fuel =
    let halves = settled rest digit (suc a / 2) fuel enough (b / 2) (omega arith) (omega arith) in
    rw halves refl

-- The last binary digit of a conjunction, and the digits before it.
and_digit : (a b : ℕ) → bit_and a b ≡ 2 * bit_and (a / 2) (b / 2) + min (a % 2) (b % 2)
and_digit zero b = omega (arith, bit_and-bitwise 0 b, bit_and-bitwise 0 (b / 2))
and_digit (suc a) b =
    let halves =
      settled (λ _. 0) min (suc a / 2) (suc a / 2) a (b / 2) (omega arith) (omega arith) in
    omega (arith, bit_and-bitwise (suc a) b, bit_and-bitwise (suc a / 2) (b / 2), halves)

or_digit : (a b : ℕ) → bit_or a b ≡ 2 * bit_or (a / 2) (b / 2) + max (a % 2) (b % 2)
or_digit zero b = omega (arith, bit_or-bitwise 0 b, bit_or-bitwise 0 (b / 2))
or_digit (suc a) b =
    let halves =
      settled (λ y. y) max (suc a / 2) (suc a / 2) a (b / 2) (omega arith) (omega arith) in
    omega (arith, bit_or-bitwise (suc a) b, bit_or-bitwise (suc a / 2) (b / 2), halves)

pub zero-bit_or : (b : ℕ) → bit_or 0 b ≡ b
zero-bit_or b = bit_or-bitwise 0 b

zero-bit_and : (b : ℕ) → bit_and 0 b ≡ 0
zero-bit_and b = bit_and-bitwise 0 b

and-zero_below : (bound a : ℕ) → a ≤ bound → bit_and a 0 ≡ 0
and-zero_below zero a h = let none : 0 ≡ a = omega arith in rw (← none) (zero-bit_and 0)
and-zero_below (suc bound) zero h = zero-bit_and 0
and-zero_below (suc bound) (suc a) h =
    omega (arith, and_digit (suc a) 0, and-zero_below bound (suc a / 2) (omega arith))

or-zero_below : (bound a : ℕ) → a ≤ bound → bit_or a 0 ≡ a
or-zero_below zero a h = let none : 0 ≡ a = omega arith in rw (← none) (zero-bit_or 0)
or-zero_below (suc bound) zero h = zero-bit_or 0
or-zero_below (suc bound) (suc a) h =
    omega (arith, or_digit (suc a) 0, or-zero_below bound (suc a / 2) (omega arith))

double : (q k : ℕ) → q * 2 ^ suc k ≡ 2 * (q * 2 ^ k)
double q k = omega (arith, ap (λ (p : ℕ). q * p) (pow-suc 2 k))

half_double : (q k : ℕ) → q * 2 ^ suc k / 2 ≡ q * 2 ^ k
half_double q k = omega (arith, double q k)

pub split : (k a : ℕ) → a ≡ a % 2 ^ k + a / 2 ^ k * 2 ^ k
split k a = omega (arith, div-add-mod a (2 ^ k))

-- A mask of the `k` low bits cuts off what stands above them.
low_field : (k q r : ℕ) → r < 2 ^ k → bit_and (r + q * 2 ^ k) (2 ^ k - 1) ≡ r
low_field zero q r h = and-zero_below (r + q * 1) (r + q * 1) (omega arith) ∙ omega arith
low_field (suc k) q r h =
    let mask : (2 ^ suc k - 1) / 2 ≡ 2 ^ k - 1 = omega (arith, pow-suc 2 k, one-le-pow k 2) in
    let half : (r + q * 2 ^ suc k) / 2 ≡ r / 2 + q * 2 ^ k = omega (arith, double q k) in
    let digit = and_digit (r + q * 2 ^ suc k) (2 ^ suc k - 1) in
    let digit' = rw (mask, half) at digit in
    omega (
      arith,
      digit',
      low_field k q (r / 2) (omega (arith, pow-suc 2 k)),
      double q k,
      pow-suc 2 k,
      one-le-pow k 2,
    )

pub bit_and-low : (k a : ℕ) → bit_and a (2 ^ k - 1) ≡ a % 2 ^ k
bit_and-low k a =
    ap (λ x. bit_and x (2 ^ k - 1)) (split k a)
    ∙ low_field k (a / 2 ^ k) (a % 2 ^ k) (grind (arith, one-le-pow k 2))

-- A mask that leaves out the `k` low bits keeps a multiple of `2 ^ k`.
pub bit_and-high :
    (k q r m : ℕ) → r < 2 ^ k → bit_and (r + q * 2 ^ k) (m * 2 ^ k) ≡ bit_and q m * 2 ^ k
bit_and-high zero q r m h =
    let q' : r + q * 1 ≡ q = omega arith in
    let m' : m * 1 ≡ m = omega arith in rw (q', m') (omega arith)
bit_and-high (suc k) q r m h =
    let half : (r + q * 2 ^ suc k) / 2 ≡ r / 2 + q * 2 ^ k = omega (arith, double q k) in
    let digit = rw (half_double m k, half) at (and_digit (r + q * 2 ^ suc k) (m * 2 ^ suc k)) in
    omega (
      arith,
      digit,
      bit_and-high k q (r / 2) m (omega (arith, pow-suc 2 k)),
      double q k,
      double m k,
      double (bit_and q m) k,
    )

-- A field above `k` low bits, put together with these.
pub bit_or-low : (k q r : ℕ) → r < 2 ^ k → bit_or r (q * 2 ^ k) ≡ r + q * 2 ^ k
bit_or-low zero q r h =
    let none : r ≡ 0 = omega arith in rw none (omega (arith, zero-bit_or (q * 1)))
bit_or-low (suc k) q r h =
    let digit = rw (half_double q k) at (or_digit r (q * 2 ^ suc k)) in
    omega (arith, digit, double q k, bit_or-low k q (r / 2) (omega (arith, pow-suc 2 k)))
