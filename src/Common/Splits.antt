-- ===== src/Common/Splits.antt =====
-- Bitwise operations by parts: of the low and the high digits apart.
use Prim.Native.Nat.{
  ℕ, zero, suc, ◌+◌, ◌*◌, ◌/◌, ◌%◌, ◌^◌, ◌<◌, min, max, differ, bit_and, bit_or, bit_xor,
}
use mathlib.Core.Path.{◌≡◌, refl, ap, ap₂, ◌∙◌, sym}
use native.Mathlib.Nat.{pow-suc, one-le-pow}
use native.Mathlib.Omega.{arith}
use ota_new.Common.Bits.{bit_and-digit, bit_or-digit, bit_xor-digit}

-- An operation that works digit by digit, `g` on each.
pub record IsBitwise (f g : ℕ → ℕ → ℕ) : Type 0 where
  pub step : (a b : ℕ) → f a b ≡ f (a / 2) (b / 2) * 2 + g (a % 2) (b % 2)
  pub digit : (a b : ℕ) → a < 2 → b < 2 → g a b < 2
  pub nothing : f 0 0 ≡ 0

pub div-double : (m a : ℕ) → 0 < m → a / (m * 2) ≡ a / 2 / m
div-double m a h = grind arith

mod-twice : (m a : ℕ) → 0 < m → a % (2 * m) ≡ 2 * (a / 2 % m) + a % 2
mod-twice m a h = grind arith

module _ {f g : ℕ → ℕ → ℕ} (bw : IsBitwise f g) where
  halves : (a b : ℕ) → (f a b / 2 ≡ f (a / 2) (b / 2)) × (f a b % 2 ≡ g (a % 2) (b % 2))
  halves a b = (
    omega (arith, bw.step a b, bw.digit (a % 2) (b % 2) (omega arith) (omega arith)),
    omega (arith, bw.step a b, bw.digit (a % 2) (b % 2) (omega arith) (omega arith)),
  )

  -- The digits from the `k`-th on.
  pub high_part : (k a b : ℕ) → f a b / 2 ^ k ≡ f (a / 2 ^ k) (b / 2 ^ k)
  high_part zero a b = whole (f a b) ∙ ap₂ f (sym (whole a)) (sym (whole b))
    where
      whole : (c : ℕ) → c / 2 ^ 0 ≡ c
      whole c = omega arith
  high_part (suc k) a b =
      rw
        (
          pow-suc 2 k,
          div-double (2 ^ k) (f a b) (one-le-pow k 2 (omega arith)),
          div-double (2 ^ k) a (one-le-pow k 2 (omega arith)),
          div-double (2 ^ k) b (one-le-pow k 2 (omega arith)),
          (halves a b).0,
        )
        (high_part k (a / 2) (b / 2))

  -- The `k` lowest digits.
  pub low_part : (k a b : ℕ) → f a b % 2 ^ k ≡ f (a % 2 ^ k) (b % 2 ^ k)
  low_part zero a b = omega (arith, ap₂ f (zeros a) (zeros b) ∙ bw.nothing)
    where
      zeros : (a : ℕ) → a % 1 ≡ 0
      zeros a = omega arith
  low_part (suc k) a b =
      ap (λ (m : ℕ). f a b % m) double
      ∙ mod-twice (2 ^ k) (f a b) pos
      ∙ ap₂ (λ (x y : ℕ). 2 * x + y)
          (ap (λ (t : ℕ). t % 2 ^ k) (halves a b).0 ∙ low_part k (a / 2) (b / 2)) ((halves a b).1)
      ∙ sym (parts a b)
    where
      pos : 0 < 2 ^ k
      pos = one-le-pow k 2 (omega arith)

      double : 2 ^ suc k ≡ 2 * 2 ^ k
      double = omega (arith, pow-suc 2 k)

      half : (c : ℕ) → (c % 2 ^ suc k) / 2 ≡ c / 2 % 2 ^ k
      half c = omega (arith, ap (λ (m : ℕ). c % m) double, mod-twice (2 ^ k) c pos)

      low : (c : ℕ) → (c % 2 ^ suc k) % 2 ≡ c % 2
      low c = omega (arith, ap (λ (m : ℕ). c % m) double, mod-twice (2 ^ k) c pos)

      parts :
          (a b : ℕ)
          → f (a % 2 ^ suc k) (b % 2 ^ suc k)
            ≡ 2 * f (a / 2 % 2 ^ k) (b / 2 % 2 ^ k) + g (a % 2) (b % 2)
      parts a b = omega (
        arith,
        bw.step (a % 2 ^ suc k) (b % 2 ^ suc k),
        ap₂ f (half a) (half b),
        ap₂ g (low a) (low b),
      )

  -- Two operands of a byte below and anything above it.
  pub join : (l m h k : ℕ) → l < 256 → m < 256 → f (l + 256 * h) (m + 256 * k) ≡ f l m + 256 * f h k
  join l m h k p q = omega (
    arith,
    high_part 8 (l + 256 * h) (m + 256 * k),
    low_part 8 (l + 256 * h) (m + 256 * k),
    ap₂ f (high l h p) (high m k q),
    ap₂ f (low l h p) (low m k q),
  )
    where
      high : (l h : ℕ) → l < 256 → (l + 256 * h) / 256 ≡ h
      high l h p = omega arith

      low : (l h : ℕ) → l < 256 → (l + 256 * h) % 256 ≡ l
      low l h p = omega arith

pub and-IsBitwise : IsBitwise bit_and min
and-IsBitwise = record { step = bit_and-digit; digit = λ a b h k. omega arith; nothing = refl }

pub or-IsBitwise : IsBitwise bit_or max
or-IsBitwise = record { step = bit_or-digit; digit = λ a b h k. omega arith; nothing = refl }

differ-lt : (a b : ℕ) → a < 2 → b < 2 → differ a b < 2
differ-lt zero zero h k = omega arith
differ-lt zero (suc b) h k = omega arith
differ-lt (suc zero) zero h k = omega arith
differ-lt (suc zero) (suc zero) h k = omega arith
differ-lt (suc zero) (suc (suc b)) h k = absurd (omega arith)
differ-lt (suc (suc a)) b h k = absurd (omega arith)

pub xor-IsBitwise : IsBitwise bit_xor differ
xor-IsBitwise = record { step = bit_xor-digit; digit = differ-lt; nothing = refl }
