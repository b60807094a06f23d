-- ===== src/ByteArray/Codec/RoundTrip.antt =====
-- What was written with a codec is read back with it, whatever follows.
use native.Mathlib.Nat.{pow-suc}
use native.Mathlib.Decide.{dec_lt}
use ota_new.Common.{
  ℕ, zero, suc, ◌+◌, ◌/◌, ◌%◌, ◌^◌, ◌≤◌, ◌<◌, ◌≡◌, refl, sym, ap, subst, ◌∙◌, List, [], ◌∷◌, ◌++◌,
  some, bit_and, bit_or, length, drop, arith,
}
use ota_new.ByteArray
use ota_new.ByteArray.{
  ByteArray, Allocator, Endian, little, big, Outcome, ok, M, and_then, ◌>>=◌, ◌>>◌, return,
}
use ota_new.ByteArray.Inv.{IsValid}
use ota_new.ByteArray.Stream
use ota_new.ByteArray.Stream.{contents, view, length-contents, drop-overwrite}
use ota_new.ByteArray.Refine.{write-Done}
use ota_new.ByteArray.Reading.{set_position-Done}
use ota_new.ByteArray.Codec.{
  varint_bytes, write_fixed, read_fixed, read_varint, write_uint32, write_uint64, read_uint32,
  read_uint64, write_varint,
}
use ota_new.ByteArray.Codec.Yields.{ahead, Yields, and_then_assoc}
use ota_new.ByteArray.Codec.Readers.{fixed_bytes, read_fixed-Yields, read_varint-Yields}
use ota_new.ByteArray.Codec.Digits.{length-le_bytes}

-- What a call on a valid array ends in: a value, a valid array, and what is left to read there.
abbrev pub Returns {ℓ} : {A : Type ℓ} → Outcome A → A → List ℕ → Type ℓ
Returns out a rest = (after : ByteArray) × (out ≡ ok a after) × IsValid after × (ahead after ≡ rest)

varint_bytes-more :
    (room v : ℕ) (bytes : List ℕ)
    → 128 ≤ v
    → varint_bytes room (v / 128) ≡ some bytes
    → varint_bytes (suc room) v ≡ some (bit_or (bit_and v 0x7f) 0x80 ∷ bytes)
unfolding varint_bytes
varint_bytes-more room v bytes h e = ground (arith, e)

-- The bytes that the varint writers put into a buffer of `room` bytes, for a value of at most
-- `7 * room` bits, are at least one and never run past it.
pub varint_bytes-total :
    (room v : ℕ)
    → 0 < room
    → v < 128 ^ room
    → (bytes : List ℕ) × (varint_bytes room v ≡ some bytes)
      × (1 ≤ length bytes)
      × (length bytes ≤ room)
unfolding varint_bytes
varint_bytes-total zero v pos h = absurd (omega arith)
varint_bytes-total (suc zero) v pos h = ((v % 256) ∷ [], ground arith, omega arith, omega arith)
varint_bytes-total (suc (suc room)) v pos h = elim (dec_lt v 128) [
  | yes small ↦ ((v % 256) ∷ [], ground arith, omega arith, omega arith)
  | no large ↦
      let (bytes, e, lo, hi) =
        varint_bytes-total (suc room) (v / 128) (omega arith)
          (omega (arith, pow-suc 128 (suc room))) in
      (
        bit_or (bit_and v 0x7f) 0x80 ∷ bytes,
        varint_bytes-more (suc room) v bytes (omega arith) e,
        omega arith,
        omega arith,
      )
]

module _ (alloc : Allocator) where
  -- Writing and going back: the bytes are ahead, and what they did not cover follows.
  rewind-Yields :
      (src : List ℕ) {b : ByteArray}
      → IsValid b
      → (after : ByteArray) × ((ByteArray.write alloc src >> ByteArray.set_position b.position) b
          ≡ ok tt after)
        × IsValid after
        × (ahead after ≡ src ++ drop (b.position + length src) (contents b))
        × (after.endian ≡ b.endian)
  unfolding Stream.write
  rewind-Yields src {b} v =
      let d = write-Done alloc src v in
      let moved : d.after.position ≡ b.position + length src =
        ap (λ (s : Stream.Stream). s.at) d.seen in
      let e = set_position-Done b.position d.valid (omega (arith, moved, d.valid.cursor)) in
      (
        e.after,
        ap (λ o. and_then o (λ _. ByteArray.set_position b.position)) d.result ∙ e.result,
        e.valid,
        ap (λ (s : Stream.Stream). drop s.at s.stored) e.seen
            ∙ ap (λ (s : Stream.Stream). drop b.position s.stored) d.seen
            ∙ drop-overwrite b.position src (contents b)
                (omega (arith, length-contents v, v.cursor)),
        e.same_endian ∙ d.same_endian,
      )

  -- Writing the `n` bytes of `src`, going back, and reading with a reader that understands them.
  written_then_read {ℓ} :
      {A : Type ℓ} (src : List ℕ) (n : ℕ) {b : ByteArray} (a : A) (reader : M A)
      → IsValid b
      → length src ≡ n
      → ((c : ByteArray)
          → IsValid c
          → c.endian ≡ b.endian
          → ahead c ≡ src ++ drop (b.position + n) (contents b)
          → Yields (reader c) a c (drop (b.position + n) (contents b)))
      → Returns
          ((ByteArray.write alloc src >> (ByteArray.set_position b.position >> reader)) b)
          a
          (drop (b.position + n) (contents b))
  written_then_read src n {b} a reader v len reads =
      let (c, e, valid, at, same) = rewind-Yields src v in
      let y =
        reads c valid same (at ∙ ap (λ (k : ℕ). src ++ drop (b.position + k) (contents b)) len) in
      (
        y.after,
        sym (
              and_then_assoc (ByteArray.write alloc src b) (λ _. ByteArray.set_position b.position)
                (λ _. reader))
            ∙ ap (λ o. and_then o (λ _. reader)) e
            ∙ y.result,
        y.valid,
        y.left,
      )

  -- On a valid array, in either byte order, writing an integer of `w` bytes, going back to where it
  -- was written and reading `w` bytes gives the integer; both calls return, the array is valid, and
  -- what was stored behind those bytes is what is left to read.
  pub fixed_round_trip :
      (w v : ℕ) {b : ByteArray}
      → IsValid b
      → 0 < w
      → v < 256 ^ w
      → Returns
          ((write_fixed alloc w v >> (ByteArray.set_position b.position >> read_fixed w)) b)
          v
          (drop (b.position + w) (contents b))
  unfolding write_fixed
  fixed_round_trip w v {b} valid pos h =
      written_then_read (fixed_bytes b.endian w v) w v (read_fixed w) valid (length-le_bytes w _)
        (λ c ok_c same at. read_fixed-Yields w v (drop (b.position + w) (contents b)) ok_c pos h (
          at
          ∙ ap (λ (e : Endian). fixed_bytes e w v ++ drop (b.position + w) (contents b))
              (sym same)))

  write_varint-eq-write :
      (room v : ℕ) (bytes : List ℕ) (b : ByteArray)
      → varint_bytes room v ≡ some bytes
      → write_varint alloc room v b ≡ ByteArray.write alloc bytes b
  unfolding write_varint
  write_varint-eq-write room v bytes b e = rw (e, write_varint)

  varint_round_trip :
      (room bits v : ℕ) (bytes : List ℕ) {b : ByteArray}
      → IsValid b
      → v < 2 ^ bits
      → varint_bytes room v ≡ some bytes
      → Returns
          ((write_varint alloc room v
              >> (ByteArray.set_position b.position >> read_varint room bits 0 0))
            b)
          v
          (drop (b.position + length bytes) (contents b))
  varint_round_trip room bits v bytes {b} valid h e =
      let rest = drop (b.position + length bytes) (contents b) in
      let (after, same, ok_after, left) =
        written_then_read bytes (length bytes) v (read_varint room bits 0 0) valid refl
          (λ c ok_c _ at.
            subst (λ (k : ℕ). Yields (read_varint room bits 0 0 c) k c rest) (omega arith)
              (read_varint-Yields room room bits 0 v 0 bytes rest ok_c e (omega arith) (omega arith)
                (omega arith) at)) in
      (
        after,
        ap (λ o. and_then o (λ _. ByteArray.set_position b.position >> read_varint room bits 0 0))
              (write_varint-eq-write room v bytes b e)
            ∙ same,
        ok_after,
        left,
      )

  -- On a valid array `writeUint32` of any 32-bit value takes one to five bytes, and `readUint32` from
  -- where it was written gives it back, with what was stored behind those bytes left to read.
  pub uint32_round_trip :
      (v : ℕ) {b : ByteArray}
      → IsValid b
      → v < 2 ^ 32
      → (n : ℕ) × (1 ≤ n)
        × (n ≤ 5)
        × Returns
            ((write_uint32 alloc v >> (ByteArray.set_position b.position >> read_uint32)) b)
            v
            (drop (b.position + n) (contents b))
  unfolding write_uint32 read_uint32
  uint32_round_trip v {b} valid h =
      let (bytes, e, lo, hi) = varint_bytes-total 5 v (omega arith) (omega arith) in
      (length bytes, lo, hi, varint_round_trip 5 32 v bytes valid h e)

  -- On a valid array `writeUint64` of any 64-bit value takes one to ten bytes, and `readUint64` from
  -- where it was written gives it back, with what was stored behind those bytes left to read.
  pub uint64_round_trip :
      (v : ℕ) {b : ByteArray}
      → IsValid b
      → v < 2 ^ 64
      → (n : ℕ) × (1 ≤ n)
        × (n ≤ 10)
        × Returns
            ((write_uint64 alloc v >> (ByteArray.set_position b.position >> read_uint64)) b)
            v
            (drop (b.position + n) (contents b))
  unfolding write_uint64 read_uint64
  uint64_round_trip v {b} valid h =
      let (bytes, e, lo, hi) = varint_bytes-total 10 v (omega arith) (omega arith) in
      (length bytes, lo, hi, varint_round_trip 10 64 v bytes valid h e)
