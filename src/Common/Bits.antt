-- ===== src/Common/Bits.antt =====
-- `&`, `|` and `^` of C at the masks that the program uses, as arithmetic.
use Prim.Native.Nat.{
  ℕ, zero, suc, ◌+◌, ◌-◌, ◌*◌, ◌/◌, ◌%◌, ◌^◌, ◌≤◌, ◌<◌, min, max, digits, differ, bit_and, bit_or,
  bit_xor, bit_and-bitwise, bit_or-bitwise, bit_xor-bitwise,
}
use mathlib.Core.Path.{◌≡◌, refl, ap}
use native.Mathlib.Nat.{pow-suc, one-le-pow, mod-eq_of_lt, div-add-mod}
use native.Mathlib.Omega.{arith}

-- An operation by binary digits: `rest` is its value where the first word has no digit left.
module _ (rest : ℕ → ℕ) (op : ℕ → ℕ → ℕ) where
  enough_fuel : (m n a b : ℕ) → a ≤ m → a ≤ n → digits rest op m a b ≡ digits rest op n a b
  enough_fuel zero zero a b hm hn = refl
  enough_fuel zero (suc n) zero b hm hn = refl
  enough_fuel (suc m) zero zero b hm hn = refl
  enough_fuel (suc m) (suc n) zero b hm hn = refl
  enough_fuel zero n (suc a) b hm hn = absurd (omega arith)
  enough_fuel (suc m) zero (suc a) b hm hn = absurd (omega arith)
  enough_fuel (suc m) (suc n) (suc a) b hm hn =
      rw (enough_fuel m n (suc a / 2) (b / 2) (omega arith) (omega arith))

  low_digit :
      (a b : ℕ)
      → digits rest op (suc a) (suc a) b
        ≡ digits rest op (suc a / 2) (suc a / 2) (b / 2) * 2 + op (suc a % 2) (b % 2)
  low_digit a b =
      omega (arith, enough_fuel a (suc a / 2) (suc a / 2) (b / 2) (omega arith) (omega arith))

pub bit_and-digit : (a b : ℕ) → bit_and a b ≡ bit_and (a / 2) (b / 2) * 2 + min (a % 2) (b % 2)
bit_and-digit zero b = simp bit_and-bitwise (omega arith)
bit_and-digit (suc a) b = simp bit_and-bitwise (low_digit (λ y. 0) min a b)

pub bit_or-digit : (a b : ℕ) → bit_or a b ≡ bit_or (a / 2) (b / 2) * 2 + max (a % 2) (b % 2)
bit_or-digit zero b = simp bit_or-bitwise (omega arith)
bit_or-digit (suc a) b = simp bit_or-bitwise (low_digit (λ y. y) max a b)

differ-zero : (d : ℕ) → d < 2 → differ 0 d ≡ d
differ-zero zero h = refl
differ-zero (suc zero) h = refl
differ-zero (suc (suc d)) h = absurd (omega arith)

pub bit_xor-digit : (a b : ℕ) → bit_xor a b ≡ bit_xor (a / 2) (b / 2) * 2 + differ (a % 2) (b % 2)
bit_xor-digit zero b = simp bit_xor-bitwise (omega (arith, differ-zero (b % 2) (omega arith)))
bit_xor-digit (suc a) b = simp bit_xor-bitwise (low_digit (λ y. y) differ a b)

-- `x & 0`, by recursion on a bound of `x`.
and_zero_below : (n a : ℕ) → a ≤ n → bit_and a 0 ≡ 0
and_zero_below n zero h = refl
and_zero_below zero (suc a) h = absurd (omega arith)
and_zero_below (suc n) (suc a) h =
    omega (arith, bit_and-digit (suc a) 0, and_zero_below n (suc a / 2) (omega arith))

double : (q k : ℕ) → q * 2 ^ suc k ≡ 2 * (q * 2 ^ k)
double q k = omega (arith, ap (λ (t : ℕ). q * t) (pow-suc 2 k))

mod-double : (m a : ℕ) → 0 < m → a % (2 * m) ≡ 2 * (a / 2 % m) + a % 2
mod-double m a h = grind (arith, parts, mod-eq_of_lt {n = 2 * (a / 2 % m) + a % 2} {m = 2 * m})
  where
    parts : a ≡ a / 2 / m * (2 * m) + (2 * (a / 2 % m) + a % 2)
    parts = omega (arith, div-add-mod (a / 2) m, div-add-mod a 2)

-- `x & (2^k - 1)` keeps the `k` low bits.
pub bit_and-ones : (k a : ℕ) → bit_and a (2 ^ k - 1) ≡ a % 2 ^ k
bit_and-ones zero a = omega (arith, and_zero_below a a (omega arith))
bit_and-ones (suc k) a = rw pow_double (
    omega (
      arith,
      bit_and-digit a (2 * 2 ^ k - 1),
      mod-double (2 ^ k) a (one-le-pow k 2 (omega arith)),
      one-le-pow k 2 (omega arith),
      ap (λ (t : ℕ). bit_and (a / 2) t) half,
      bit_and-ones k (a / 2),
    ))
  where
    pow_double : 2 ^ suc k ≡ 2 * 2 ^ k
    pow_double = omega (arith, pow-suc 2 k)

    half : (2 * 2 ^ k - 1) / 2 ≡ 2 ^ k - 1
    half = omega (arith, one-le-pow k 2 (omega arith))

-- `r | (q << k)` is a sum when `r` has `k` bits.
pub bit_or-shift : (k r q : ℕ) → r < 2 ^ k → bit_or r (q * 2 ^ k) ≡ r + q * 2 ^ k
bit_or-shift zero zero q h = simp bit_or-bitwise (omega arith)
bit_or-shift zero (suc r) q h = absurd (omega arith)
bit_or-shift (suc k) r q h = omega (
  arith,
  bit_or-digit r (q * 2 ^ suc k),
  double q k,
  pow-suc 2 k,
  ap (λ (t : ℕ). bit_or (r / 2) t) (half (q * 2 ^ suc k) (q * 2 ^ k) (double q k)),
  bit_or-shift k (r / 2) q (omega (arith, pow-suc 2 k)),
)
  where
    half : (x y : ℕ) → x ≡ 2 * y → x / 2 ≡ y
    half x y e = omega arith

xor_zero_below : (n a : ℕ) → a ≤ n → bit_xor a 0 ≡ a
xor_zero_below n zero h = refl
xor_zero_below zero (suc a) h = absurd (omega arith)
xor_zero_below (suc n) (suc a) h = ground (
  arith,
  bit_xor-digit (suc a) 0,
  xor_zero_below n (suc a / 2) (omega arith),
  digit_self (suc a % 2) (omega arith),
)
  where
    digit_self : (d : ℕ) → d < 2 → differ d 0 ≡ d
    digit_self zero h = refl
    digit_self (suc zero) h = refl
    digit_self (suc (suc d)) h = absurd (omega arith)

-- `x ^ 0`.
pub bit_xor-zero : (a : ℕ) → bit_xor a 0 ≡ a
bit_xor-zero a = xor_zero_below a a (omega arith)

differ-one : (d : ℕ) → d < 2 → differ d 1 ≡ 1 - d
differ-one zero h = refl
differ-one (suc zero) h = refl
differ-one (suc (suc d)) h = absurd (omega arith)

-- `x ^ (2^k - 1)` flips the `k` low bits.
pub bit_xor-ones : (k a : ℕ) → a < 2 ^ k → bit_xor a (2 ^ k - 1) ≡ 2 ^ k - 1 - a
bit_xor-ones zero zero h = refl
bit_xor-ones zero (suc a) h = absurd (omega arith)
bit_xor-ones (suc k) a h = ground (
  arith,
  bit_xor-digit a (2 ^ suc k - 1),
  differ-one (a % 2),
  bit_xor-ones k (a / 2),
  pow-suc 2 k,
  one-le-pow k 2 (omega arith),
)
