-- ===== src/Address/Prefix.antt =====
-- The addresses that a prefix makes of an IPv4 address, as numbers in the order of the host.
use ota_new.Common.{
  ℕ, zero, suc, ◌+◌, ◌-◌, ◌*◌, ◌/◌, ◌%◌, ◌^◌, ◌≤◌, ◌<◌, ◌≡◌, refl, sym, ap, ap₂, ◌∙◌, some, bit_and,
  bit_or, bit_xor, le→ltb, arith,
}
use native.Mathlib.Nat.{pow-suc, one-le-pow, mod-eq_of_lt, add-mod_right, pow-le-pow_right, mod-lt}
use ota_new.Common.Bits.{bit_and-ones, bit_or-digit, bit_xor-ones}
use ota_new.Common.Splits.{
  IsBitwise, high_part, low_part, join, and-IsBitwise, or-IsBitwise, xor-IsBitwise, div-double,
}
use ota_new.ByteArray.Codec.{byteswap, le_bytes, of_le}
use ota_new.ByteArray.Codec.Digits.{byteswap-byteswap}
use ota_new.Address.{Ipv4Address, create_mask, broadcast_address, network_address, subnet_mask}

-- The four bytes of a swapped word.
swap-bytes :
    (v : ℕ)
    → byteswap 4 v
      ≡ v / 256 / 256 / 256 % 256
        + 256 * (v / 256 / 256 % 256 + 256 * (v / 256 % 256 + 256 * (v % 256)))
unfolding byteswap le_bytes of_le
swap-bytes v = omega arith

-- The number that an address stands for.
abbrev pub host : Ipv4Address → ℕ
host a = byteswap 4 a.s_addr

module _ {f g : ℕ → ℕ → ℕ} (bw : IsBitwise f g) where
  -- A bitwise operation on swapped words is that operation on the words, swapped.
  byteswap-bitwise : (a b : ℕ) → byteswap 4 (f a b) ≡ f (byteswap 4 a) (byteswap 4 b)
  byteswap-bitwise a b =
      swap-bytes (f a b)
      ∙ ap₂ (λ (x y : ℕ). x + 256 * y) d3
          (ap₂ (λ (x y : ℕ). x + 256 * y) d2
              (ap₂ (λ (x y : ℕ). x + 256 * y) d1 d0
                ∙ sym (
                    join bw (a / 256 % 256) (b / 256 % 256) (a % 256) (b % 256) (omega arith)
                      (omega arith)))
            ∙ sym (
                join bw (a / 256 / 256 % 256) (b / 256 / 256 % 256)
                  (a / 256 % 256 + 256 * (a % 256)) (b / 256 % 256 + 256 * (b % 256)) (omega arith)
                  (omega arith)))
      ∙ sym (
          join bw (a / 256 / 256 / 256 % 256) (b / 256 / 256 / 256 % 256)
            (a / 256 / 256 % 256 + 256 * (a / 256 % 256 + 256 * (a % 256)))
            (b / 256 / 256 % 256 + 256 * (b / 256 % 256 + 256 * (b % 256))) (omega arith)
            (omega arith))
      ∙ ap₂ f (sym (swap-bytes a)) (sym (swap-bytes b))
    where
      h1 : f a b / 256 ≡ f (a / 256) (b / 256)
      h1 = high_part bw 8 a b

      h2 : f a b / 256 / 256 ≡ f (a / 256 / 256) (b / 256 / 256)
      h2 = ap (λ (t : ℕ). t / 256) h1 ∙ high_part bw 8 (a / 256) (b / 256)

      h3 : f a b / 256 / 256 / 256 ≡ f (a / 256 / 256 / 256) (b / 256 / 256 / 256)
      h3 = ap (λ (t : ℕ). t / 256) h2 ∙ high_part bw 8 (a / 256 / 256) (b / 256 / 256)

      d0 : f a b % 256 ≡ f (a % 256) (b % 256)
      d0 = low_part bw 8 a b

      d1 : f a b / 256 % 256 ≡ f (a / 256 % 256) (b / 256 % 256)
      d1 = ap (λ (t : ℕ). t % 256) h1 ∙ low_part bw 8 (a / 256) (b / 256)

      d2 : f a b / 256 / 256 % 256 ≡ f (a / 256 / 256 % 256) (b / 256 / 256 % 256)
      d2 = ap (λ (t : ℕ). t % 256) h2 ∙ low_part bw 8 (a / 256 / 256) (b / 256 / 256)

      d3 : f a b / 256 / 256 / 256 % 256 ≡ f (a / 256 / 256 / 256 % 256) (b / 256 / 256 / 256 % 256)
      d3 = ap (λ (t : ℕ). t % 256) h3 ∙ low_part bw 8 (a / 256 / 256 / 256) (b / 256 / 256 / 256)

or_zero : (n a : ℕ) → a ≤ n → bit_or a 0 ≡ a
or_zero n zero h = refl
or_zero zero (suc a) h = absurd (omega arith)
or_zero (suc n) (suc a) h =
    omega (arith, bit_or-digit (suc a) 0, or_zero n (suc a / 2) (omega arith))

-- `x | (2^k - 1)` sets the `k` low bits.
or_ones : (k a : ℕ) → bit_or a (2 ^ k - 1) ≡ a / 2 ^ k * 2 ^ k + (2 ^ k - 1)
or_ones zero a = or_zero a a (omega arith) ∙ omega arith
or_ones (suc k) a = omega (
  arith,
  bit_or-digit a (2 ^ suc k - 1),
  ap (λ (t : ℕ). bit_or (a / 2) t) half,
  or_ones k (a / 2),
  pow-suc 2 k,
  one-le-pow k 2 (omega arith),
  top,
)
  where
    half : (2 ^ suc k - 1) / 2 ≡ 2 ^ k - 1
    half = omega (arith, pow-suc 2 k, one-le-pow k 2 (omega arith))

    top : a / 2 ^ suc k * 2 ^ suc k ≡ 2 * (a / 2 / 2 ^ k * 2 ^ k)
    top = rw (pow-suc 2 k, div-double (2 ^ k) a (one-le-pow k 2 (omega arith))) (grind arith)

mask-eq : (p : ℕ) → p ≤ 32 → create_mask 32 p ≡ 2 ^ (32 - p) - 1
unfolding create_mask
mask-eq p h =
    ap (λ (t : ℕ). t % 2 ^ 32) regroup
    ∙ add-mod_right (2 ^ (32 - p) - 1) (2 ^ 32)
    ∙ mod-eq_of_lt {n = 2 ^ (32 - p) - 1} {m = 2 ^ 32} (omega (arith, upper, lower))
  where
    upper : 2 ^ (32 - p) ≤ 2 ^ 32
    upper = pow-le-pow_right {n = 2} (omega arith) {i = 32 - p} {j = 32} (omega arith)

    lower : 1 ≤ 2 ^ (32 - p)
    lower = one-le-pow (32 - p) 2 (omega arith)

    regroup : 2 ^ (32 - p) + 2 ^ 32 - 1 ≡ 2 ^ (32 - p) - 1 + 2 ^ 32
    regroup = omega (arith, lower)

mask_swap : (p : ℕ) → p ≤ 32 → byteswap 4 (byteswap 4 (create_mask 32 p)) ≡ 2 ^ (32 - p) - 1
mask_swap p h =
    byteswap-byteswap 4 (create_mask 32 p) (omega (arith, mask-eq p h, upper)) ∙ mask-eq p h
  where
    upper : 2 ^ (32 - p) ≤ 2 ^ 32
    upper = pow-le-pow_right {n = 2} (omega arith) {i = 32 - p} {j = 32} (omega arith)

-- For a prefix of 2 to 32 bits, in the order of the host: the broadcast address has the bits of the
-- prefix from the address and ones behind them, and keeps the port; the subnet mask has ones in the prefix
-- and zeros behind it.
pub broadcast_address-range :
    (p : ℕ) (a : Ipv4Address)
    → 2 ≤ p
    → p ≤ 32
    → ((b : Ipv4Address) × (broadcast_address p a ≡ some b)
        × (host b ≡ host a / 2 ^ (32 - p) * 2 ^ (32 - p) + (2 ^ (32 - p) - 1))
        × (b.sin_port ≡ a.sin_port))
      × (host (subnet_mask p) ≡ 2 ^ 32 - 2 ^ (32 - p))
unfolding broadcast_address subnet_mask
broadcast_address-range p a lo hi = (
  (
    record a { s_addr = bit_or a.s_addr (byteswap 4 (create_mask 32 p)) },
    rw (le→ltb 32 p hi) refl,
    byteswap-bitwise or-IsBitwise a.s_addr (byteswap 4 (create_mask 32 p))
        ∙ ap (bit_or (host a)) (mask_swap p hi)
        ∙ or_ones (32 - p) (host a),
    refl,
  ),
  byteswap-bitwise xor-IsBitwise (byteswap 4 (create_mask 32 p)) (2 ^ 32 - 1)
      ∙ ap₂ bit_xor (mask_swap p hi) ones
      ∙ bit_xor-ones 32 (2 ^ (32 - p) - 1) (omega (arith, upper))
      ∙ omega (arith, upper, lower),
)
  where
    upper : 2 ^ (32 - p) ≤ 2 ^ 32
    upper = pow-le-pow_right {n = 2} (omega arith) {i = 32 - p} {j = 32} (omega arith)

    lower : 1 ≤ 2 ^ (32 - p)
    lower = one-le-pow (32 - p) 2 (omega arith)

    ones : byteswap 4 (2 ^ 32 - 1) ≡ 2 ^ 32 - 1
    ones = unfold byteswap le_bytes of_le in refl

-- For a prefix of 2 to 32 bits `networkAddress` keeps the bits behind the prefix and clears those of the
-- prefix: what it answers is the host's part of the address, below every network of that prefix but the
-- one at 0.
pub network_address-host :
    (p : ℕ) (a : Ipv4Address)
    → 2 ≤ p
    → p ≤ 32
    → (b : Ipv4Address) × (network_address p a ≡ some b)
      × (host b ≡ host a % 2 ^ (32 - p))
      × (host b < 2 ^ (32 - p))
unfolding network_address
network_address-host p a lo hi = (
  record a { s_addr = bit_and a.s_addr (byteswap 4 (create_mask 32 p)) },
  rw (le→ltb 32 p hi) refl,
  part,
  omega (arith, part, mod-lt (host a) (one-le-pow (32 - p) 2 (omega arith))),
)
  where
    part : byteswap 4 (bit_and a.s_addr (byteswap 4 (create_mask 32 p))) ≡ host a % 2 ^ (32 - p)
    part =
        byteswap-bitwise and-IsBitwise a.s_addr (byteswap 4 (create_mask 32 p))
        ∙ ap (bit_and (host a)) (mask_swap p hi)
        ∙ bit_and-ones (32 - p) (host a)
