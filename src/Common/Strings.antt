-- ===== src/Common/Strings.antt =====
-- Texts as lists of bytes: literals, comparison, decimal numbers, and dictionaries keyed by texts.
use Prim.Native.Nat.{ℕ, zero, suc, ◌+◌, ◌-◌, ◌*◌, ◌/◌, ◌%◌, ◌<◌}
use Prim.Native.Char.{code}
use Prim.Native.String.{String}
use mathlib.Core.Path.{◌≡◌, refl, sym, ap, ◌∙◌}
use mathlib.Core.Logic.{◌⊎◌, ◌≢◌}
use mathlib.Core.Bool.{Bool, true, false, ◌&&◌}
use mathlib.Core.List.{List, [], ◌∷◌, ◌++◌}
use native.Mathlib.Omega.{arith}
use native.Mathlib.Decide.{dec_lt}
use ota_new.Common.Tests.{◌==◌, ltb, if◌then◌else◌, lt→ltb, le→ltb}
use ota_new.Common.Lists.{All}

abbrev pub Text : Type 0
Text = List ℕ

abbrev pub codes : String → Text
codes String.[] = []
codes (String.◌∷◌ c s) = code c ∷ codes s

abbrev pub str_eq : Text → Text → Bool
str_eq [] [] = true
str_eq [] (y ∷ ys) = false
str_eq (x ∷ xs) [] = false
str_eq (x ∷ xs) (y ∷ ys) = (x == y) && str_eq xs ys

pub str_eq_refl : (a : Text) → str_eq a a ≡ true
str_eq_refl [] = refl
str_eq_refl (x ∷ xs) = ground (arith, str_eq_refl xs)

pub str_eq→≡ : (a b : Text) → str_eq a b ≡ true → a ≡ b
str_eq→≡ [] [] h = refl
str_eq→≡ [] (y ∷ ys) h = cc
str_eq→≡ (x ∷ xs) [] h = cc
str_eq→≡ (x ∷ xs) (y ∷ ys) h = ground (arith, str_eq→≡ xs ys)

-- The decimal digits that a stream prints for an unsigned number.
unfoldable pub decimal_of : ℕ → ℕ → Text
decimal_of zero n = []
decimal_of (suc fuel) n =
    let high = decimal_of fuel (n / 10) in
    if ltb n 10 then (48 + n) ∷ [] else high ++ ((48 + n % 10) ∷ [])

unfoldable pub decimal : ℕ → Text
unfolding decimal_of
decimal n = decimal_of (suc n) n

value_from : ℕ → Text → ℕ
value_from acc [] = acc
value_from acc (d ∷ ds) = value_from (10 * acc + (d - 48)) ds

value-snoc :
    (acc d : ℕ) (ds : Text) → value_from acc (ds ++ (d ∷ [])) ≡ 10 * value_from acc ds + (d - 48)
unfolding value_from
value-snoc acc d [] = refl
value-snoc acc d (e ∷ ds) = value-snoc (10 * acc + (e - 48)) d ds

value-decimal_of : (fuel n : ℕ) → n < fuel → value_from 0 (decimal_of fuel n) ≡ n
unfolding value_from decimal_of
value-decimal_of zero n h = absurd (omega arith)
value-decimal_of (suc fuel) n h = elim (dec_lt n 10) [
  | yes small ↦ ground arith
  | no large ↦ ground (
    arith,
    value-snoc 0 (48 + n % 10) (decimal_of fuel (n / 10)),
    value-decimal_of fuel (n / 10) (omega arith),
  )
]

pub decimal-inj : (m n : ℕ) → decimal m ≡ decimal n → m ≡ n
unfolding decimal
decimal-inj m n e =
    sym (value-decimal_of (suc m) m (omega arith))
    ∙ ap (value_from 0) e
    ∙ value-decimal_of (suc n) n (omega arith)

-- No separator in a text.
abbrev pub Without : ℕ → Text → Type 0
Without c t = All (λ (d : ℕ). d ≢ c) t

Without-append : (c : ℕ) (a b : Text) → Without c a → Without c b → Without c (a ++ b)
Without-append c [] b h k = k
Without-append c (x ∷ xs) b (h, hs) k = (h, Without-append c xs b hs k)

decimal_of-Without : (fuel c n : ℕ) → (57 < c) ⊎ (c < 48) → Without c (decimal_of fuel n)
unfolding decimal_of
decimal_of-Without zero c n h = tt
decimal_of-Without (suc fuel) c n h = elim (dec_lt n 10) [
  | yes small ↦ rw (lt→ltb n 10 small) (ground arith, tt)
  | no large ↦ rw (le→ltb n 10 (omega arith)) (
      Without-append c (decimal_of fuel (n / 10)) ((48 + n % 10) ∷ [])
        (decimal_of-Without fuel c (n / 10) h) (digit, tt))
]
  where
    digit : 48 + n % 10 ≢ c
    digit = ground arith

pub decimal-Without : (c n : ℕ) → (57 < c) ⊎ (c < 48) → Without c (decimal n)
unfolding decimal
decimal-Without c n h = decimal_of-Without (suc n) c n h

-- Two texts cut at the first separator.
pub append-inj_at :
    (c : ℕ) (a b r s : Text)
    → Without c a
    → Without c b
    → a ++ (c ∷ r) ≡ b ++ (c ∷ s)
    → (a ≡ b) × (r ≡ s)
append-inj_at c [] [] r s ha hb e = ground arith
append-inj_at c [] (y ∷ ys) r s ha (ne, hb) e = absurd (ne (ground arith))
append-inj_at c (x ∷ xs) [] r s (ne, ha) hb e = absurd (ne (ground arith))
append-inj_at c (x ∷ xs) (y ∷ ys) r s (nx, ha) (ny, hb) e =
    ground (arith, append-inj_at c xs ys r s ha hb)
