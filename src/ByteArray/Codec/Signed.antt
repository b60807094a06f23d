-- ===== src/ByteArray/Codec/Signed.antt =====
-- What was written as a signed integer of variable length is read back with its sign.
use ota_new.Common.{ℕ, ◌+◌, ◌^◌, ◌≤◌, ◌<◌, ◌≡◌, ap, ◌∙◌, List, drop}
use ota_new.ByteArray
use ota_new.ByteArray.{
  ByteArray, Allocator, Endian, little, big, Outcome, ok, M, and_then, ◌>>=◌, ◌>>◌, return,
}
use ota_new.ByteArray.Inv.{IsValid}
use ota_new.ByteArray.Stream.{contents}
use ota_new.ByteArray.Codec.{
  write_uint32, write_uint64, read_uint32, read_uint64, write_int32, write_int64, read_int32,
  read_int64, encode_zigzag, decode_zigzag,
}
use ota_new.ByteArray.Codec.Yields.{and_then_last}
use ota_new.ByteArray.Codec.Digits.{decode-encode_zigzag, encode_zigzag-lt}
use ota_new.ByteArray.Codec.RoundTrip.{Returns, uint32_round_trip, uint64_round_trip}

module _ (alloc : Allocator) where
  -- A value that is read in another form by a last step.
  converted :
      (w : Outcome (Unit {0})) (s : M (Unit {0})) (r : M ℕ) (f : ℕ → ℕ) (v p : ℕ) (rest : List ℕ)
      → f v ≡ p
      → Returns (and_then w (λ _. s >> r)) v rest
      → Returns (and_then w (λ _. s >> (r >>= λ (x : ℕ). return (f x)))) p rest
  converted w s r f v p rest e (after, same, ok_after, left) = (
    after,
    and_then_last w s r (λ (x : ℕ). return (f x))
        ∙ ap (λ o. and_then o (λ (x : ℕ). return (f x))) same
        ∙ ap (λ (x : ℕ). ok x after) e,
    ok_after,
    left,
  )

  -- On a valid array `writeInt32` of any 32-bit pattern takes one to five bytes, and `readInt32` from
  -- where it was written gives it back, with what was stored behind those bytes left to read.
  pub int32_round_trip :
      (p : ℕ) {b : ByteArray}
      → IsValid b
      → p < 2 ^ 32
      → (n : ℕ) × (1 ≤ n)
        × (n ≤ 5)
        × Returns
            ((write_int32 alloc p >> (ByteArray.set_position b.position >> read_int32)) b)
            p
            (drop (b.position + n) (contents b))
  unfolding write_int32 read_int32
  int32_round_trip p {b} valid h =
      let (n, lo, hi, r) =
        uint32_round_trip alloc (encode_zigzag 32 p) valid (encode_zigzag-lt 31 p) in
      (
        n,
        lo,
        hi,
        converted (write_uint32 alloc (encode_zigzag 32 p) b) (ByteArray.set_position b.position)
            read_uint32 (decode_zigzag 32) (encode_zigzag 32 p) p _ (decode-encode_zigzag 31 p h) r,
      )

  -- On a valid array `writeInt64` of any 64-bit pattern takes one to ten bytes, and `readInt64` from
  -- where it was written gives it back, with what was stored behind those bytes left to read.
  pub int64_round_trip :
      (p : ℕ) {b : ByteArray}
      → IsValid b
      → p < 2 ^ 64
      → (n : ℕ) × (1 ≤ n)
        × (n ≤ 10)
        × Returns
            ((write_int64 alloc p >> (ByteArray.set_position b.position >> read_int64)) b)
            p
            (drop (b.position + n) (contents b))
  unfolding write_int64 read_int64
  int64_round_trip p {b} valid h =
      let (n, lo, hi, r) =
        uint64_round_trip alloc (encode_zigzag 64 p) valid (encode_zigzag-lt 63 p) in
      (
        n,
        lo,
        hi,
        converted (write_uint64 alloc (encode_zigzag 64 p) b) (ByteArray.set_position b.position)
            read_uint64 (decode_zigzag 64) (encode_zigzag 64 p) p _ (decode-encode_zigzag 63 p h) r,
      )
