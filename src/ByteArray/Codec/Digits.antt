-- ===== src/ByteArray/Codec/Digits.antt =====
-- The pure parts of the codecs: bytes of an integer, groups of seven bits, zigzag.
use mathlib.Core.List.{reverse-reverse, reverse-cons}
use native.Mathlib.Nat.{
  pow-suc, mod-lt, sub-zero, mod_self, add-mod_right, mul_comm, mod-eq_of_lt, one-le-pow,
}
use native.Mathlib.Decide.{ℕ_discrete, dec_lt}
use ota_new.Common.{
  ℕ, zero, suc, ◌+◌, ◌-◌, ◌*◌, ◌/◌, ◌%◌, ◌^◌, ◌≤◌, ◌<◌, ◌≡◌, refl, sym, ap, ◌⊎◌, inl, inr, ◌∙◌,
  List, [], ◌∷◌, ◌++◌, bit_and, bit_or, le→leb, lt→leb, length, reverse, length-reverse, All, arith,
}
use ota_new.Common.Bits.{bit_and-ones, bit_or-shift, bit_xor-ones, bit_xor-zero}
use ota_new.ByteArray.Codec.{le_bytes, of_le, byteswap, encode_zigzag, decode_zigzag}

abbrev pub IsByte : ℕ → Type 0
IsByte b = b < 256

pub length-le_bytes : (w v : ℕ) → length (le_bytes w v) ≡ w
unfolding le_bytes
length-le_bytes zero v = refl
length-le_bytes (suc w) v = ap suc (length-le_bytes w (v / 256))

pub le_bytes-IsByte : (w v : ℕ) → All IsByte (le_bytes w v)
unfolding le_bytes
le_bytes-IsByte zero v = tt
le_bytes-IsByte (suc w) v = (omega arith, le_bytes-IsByte w (v / 256))

pub of_le-le_bytes : (w v : ℕ) → v < 256 ^ w → of_le (le_bytes w v) ≡ v
unfolding of_le le_bytes
of_le-le_bytes zero v h = omega arith
of_le-le_bytes (suc w) v h =
    omega (arith, of_le-le_bytes w (v / 256) (omega (arith, pow-suc 256 w)))

pub le_bytes-of_le : (bs : List ℕ) → All IsByte bs → le_bytes (length bs) (of_le bs) ≡ bs
unfolding of_le le_bytes
le_bytes-of_le [] h = refl
le_bytes-of_le (b ∷ bs) (hb, hs) = ground (arith, le_bytes-of_le bs hs)

All-append {ℓ} :
    {A : Type ℓ} (P : A → Type 0) (xs ys : List A) → All P xs → All P ys → All P (xs ++ ys)
All-append P [] ys h k = k
All-append P (x ∷ xs) ys (h, hs) k = (h, All-append P xs ys hs k)

reverse-IsByte : (bs : List ℕ) → All IsByte bs → All IsByte (reverse bs)
reverse-IsByte [] h = tt
reverse-IsByte (b ∷ bs) (hb, hs) =
    rw (reverse-cons b bs) (All-append IsByte (reverse bs) (b ∷ []) (reverse-IsByte bs hs) (hb, tt))

-- The bytes of a swapped integer are its bytes in the opposite order.
pub le_bytes-byteswap : (w v : ℕ) → le_bytes w (byteswap w v) ≡ reverse (le_bytes w v)
unfolding byteswap
le_bytes-byteswap w v =
    ap (λ (k : ℕ). le_bytes k (of_le (reverse (le_bytes w v)))) (sym len)
    ∙ le_bytes-of_le (reverse (le_bytes w v)) (reverse-IsByte _ (le_bytes-IsByte w v))
  where
    len : length (reverse (le_bytes w v)) ≡ w
    len = omega (arith, length-reverse (le_bytes w v), length-le_bytes w v)

-- Swapping twice gives the integer back.
pub byteswap-byteswap : (w v : ℕ) → v < 256 ^ w → byteswap w (byteswap w v) ≡ v
byteswap-byteswap w v h =
    unfold byteswap in
    (ap (λ (bs : List ℕ). of_le (reverse bs)) (le_bytes-byteswap w v)
      ∙ ap of_le (reverse-reverse (le_bytes w v))
      ∙ of_le-le_bytes w v h)

-- One group of seven bits, as `writeUint32` stores it and `readUint32` masks it.
pub group-low : (v : ℕ) → bit_and v 0x7f ≡ v % 128
group-low v = bit_and-ones 7 v

pub group-more : (v : ℕ) → bit_or (bit_and v 0x7f) 0x80 ≡ v % 128 + 128
group-more v =
    bit_or-shift 7 (bit_and v 0x7f) 1 (omega (arith, group-low v)) ∙ omega (arith, group-low v)

-- What zigzag gives for a negative number: at the smallest one the product wraps to 0.
double-wrapped :
    (half d : ℕ)
    → 0 < d
    → d ≤ half
    → (d % (2 * half) * 2 % (2 * half) + 2 * half - 1) % (2 * half) ≡ 2 * d - 1
double-wrapped half d lo hi = elim (ℕ_discrete d half) [
  | yes e ↦
      let twice : half * 2 % (2 * half) ≡ 0 = rw (mul_comm half 2) (mod_self (2 * half)) in
      rw (e, mod-eq_of_lt {n = half} {m = 2 * half} (omega arith), twice)
        (mod-eq_of_lt {n = 0 + 2 * half - 1} {m = 2 * half} (omega arith) ∙ omega arith)
  | no ne ↦
      let wraps : (d * 2 + 2 * half - 1) % (2 * half) ≡ (d * 2 - 1) % (2 * half) =
        ap (λ (k : ℕ). k % (2 * half)) shifted ∙ add-mod_right (d * 2 - 1) (2 * half) in
      rw
        (
          mod-eq_of_lt {n = d} {m = 2 * half} (omega arith),
          mod-eq_of_lt {n = d * 2} {m = 2 * half} (omega arith),
          wraps,
        )
        (mod-eq_of_lt {n = d * 2 - 1} {m = 2 * half} (omega arith) ∙ omega arith)
]
  where
    shifted : d * 2 + 2 * half - 1 ≡ d * 2 - 1 + 2 * half
    shifted = omega arith

bit_and-one : (v : ℕ) → bit_and v 1 ≡ v % 2
bit_and-one v = bit_and-ones 1 v

decode-even : (k p : ℕ) → p < 2 ^ k → decode_zigzag (suc k) (2 * p) ≡ p
unfolding decode_zigzag
decode-even k p h =
    let low : bit_and (2 * p) 1 ≡ 0 = omega (arith, bit_and-one (2 * p)) in
    let whole : 2 * p / 2 ≡ p = omega arith in rw (low, whole, sub-zero, mod_self) (bit_xor-zero p)

decode-odd : (k q : ℕ) → q < 2 ^ k → decode_zigzag (suc k) (2 * q + 1) ≡ 2 ^ suc k - 1 - q
unfolding decode_zigzag
decode-odd k q h =
    let low : bit_and (2 * q + 1) 1 ≡ 1 = omega (arith, bit_and-one (2 * q + 1)) in
    let whole : (2 * q + 1) / 2 ≡ q = omega arith in
    let more : q < 2 ^ suc k = omega (arith, pow-suc 2 k) in
    rw (low, whole, mod-eq_of_lt {n = 2 ^ suc k - 1} {m = 2 ^ suc k} (omega arith))
      (bit_xor-ones (suc k) q more)

encode-cases :
    (k p : ℕ)
    → p < 2 ^ suc k
    → ((p < 2 ^ k) × (encode_zigzag (suc k) p ≡ 2 * p))
      ⊎ ((2 ^ k ≤ p) × (encode_zigzag (suc k) p ≡ 2 * (2 ^ suc k - 1 - p) + 1))
unfolding encode_zigzag
encode-cases k p h =
    let pred : suc k - 1 ≡ k = omega arith in
    let whole : 2 ^ suc k ≡ 2 * 2 ^ k = omega (arith, pow-suc 2 k) in
    elim (dec_lt p (2 ^ k)) [
      | yes small ↦ inl (
        small,
        rw (pred, lt→leb (2 ^ k) p small, mod-eq_of_lt {n = p * 2} {m = 2 ^ suc k} (omega arith))
            (mul_comm p 2),
      )
      | no neg ↦ inr (
        omega arith,
        rw
            (
              pred,
              le→leb (2 ^ k) p (omega arith),
              whole,
              double-wrapped (2 ^ k) (2 * 2 ^ k - p) (omega arith) (omega arith),
            )
            (omega arith),
      )
    ]

-- `DecodeZigzag` undoes `EncodeZigzag` on every pattern of `k + 1` bits, that of the smallest integer
-- included.
pub decode-encode_zigzag :
    (k p : ℕ) → p < 2 ^ suc k → decode_zigzag (suc k) (encode_zigzag (suc k) p) ≡ p
decode-encode_zigzag k p h = elim (encode-cases k p h) [
  | inl (small, e) ↦ rw e (decode-even k p small)
  | inr (neg, e) ↦
      rw (e, decode-odd k (2 ^ suc k - 1 - p) (omega (arith, pow-suc 2 k))) (omega arith)
]

pub encode_zigzag-lt : (k p : ℕ) → encode_zigzag (suc k) p < 2 ^ suc k
unfolding encode_zigzag
encode_zigzag-lt k p = ground (
  arith,
  one-le-pow (suc k) 2,
  mod-lt (p * 2) {m = 2 ^ suc k},
  mod-lt ((2 ^ suc k - p) % 2 ^ suc k * 2 % 2 ^ suc k + 2 ^ suc k - 1) {m = 2 ^ suc k},
)
