-- ===== src/ByteArray/Codec/Readers.antt =====
-- The readers of `ByteArray` on the bytes that its writers make.
use native.Mathlib.Numerals.{towards_suc}
use native.Mathlib.Nat.{div-add-mod, mod-eq_of_lt}
use native.Mathlib.Decide.{dec_lt}
use ota_new.Common.{
  ℕ, zero, suc, ◌+◌, ◌*◌, ◌/◌, ◌%◌, ◌^◌, ◌≤◌, ◌<◌, ◌≡◌, refl, ap, ◌∙◌, ◌⊎◌, inl, inr, List, [], ◌∷◌,
  ◌++◌, Option, none, some, bit_and, bit_or, arith, if◌then◌else◌,
}
use ota_new.Common.Bits.{bit_or-shift}
use ota_new.ByteArray
use ota_new.ByteArray.{
  ByteArray, Allocator, Endian, little, big, Outcome, ok, M, and_then, ◌>>=◌, ◌>>◌,
}
use ota_new.ByteArray.Inv.{IsValid}
use ota_new.ByteArray.Codec.{
  le_bytes, of_le, byteswap, host_order, varint_bytes, read_fixed, read_f8, read_varint,
}
use ota_new.ByteArray.Codec.Yields.{
  ahead, Yields, Yields-bind, Yields-step, Yields-ok, read_n-Yields,
}
use ota_new.ByteArray.Codec.Digits.{
  length-le_bytes, of_le-le_bytes, byteswap-byteswap, le_bytes-byteswap, group-low, group-more,
}

-- What `writeFint16` to `writeFuint64` put into the stream.
abbrev pub fixed_bytes : Endian → ℕ → ℕ → List ℕ
fixed_bytes e w v = le_bytes w (if host_order e then v else byteswap w v)

decode-fixed_bytes :
    (e : Endian) (w v : ℕ)
    → v < 256 ^ w
    → (if host_order e then of_le (fixed_bytes e w v) else byteswap w (of_le (fixed_bytes e w v)))
      ≡ v
decode-fixed_bytes little w v h = of_le-le_bytes w v h
decode-fixed_bytes big w v h =
    ap (λ (bs : List ℕ). byteswap w (of_le bs)) (le_bytes-byteswap w v)
    ∙ unfold byteswap in byteswap-byteswap w v h

-- A fixed-width integer is read back in either byte order.
pub read_fixed-Yields :
    (w v : ℕ) (rest : List ℕ) {b : ByteArray}
    → IsValid b
    → 0 < w
    → v < 256 ^ w
    → ahead b ≡ fixed_bytes b.endian w v ++ rest
    → Yields (read_fixed w b) v b rest
unfolding read_fixed
read_fixed-Yields w v rest {b} valid pos h e =
    let bytes = fixed_bytes b.endian w v in
    let y = read_n-Yields w bytes rest valid pos (length-le_bytes w _) e in
    Yields-bind (ByteArray.read w b) _ y
      (Yields-ok rest y.valid y.left (rw y.same_endian (decode-fixed_bytes b.endian w v h)))

-- The two forms of a written group.
varint_bytes-cases :
    (room v : ℕ) (bytes : List ℕ)
    → varint_bytes (suc room) v ≡ some bytes
    → ((v < 128) × (bytes ≡ v ∷ []))
      ⊎ ((128 ≤ v)
          × ((more : List ℕ) × (varint_bytes room (v / 128) ≡ some more)
              × (bytes ≡ (v % 128 + 128) ∷ more)))
unfolding varint_bytes
varint_bytes-cases room v bytes e = elim (dec_lt v 128) [
  | yes small ↦ inl (small, ground arith)
  | no large ↦ inr (omega arith, later (omega arith) (varint_bytes room (v / 128)) refl)
]
  where
    later :
        128 ≤ v
        → (o : Option (List ℕ)) → varint_bytes room (v / 128) ≡ o
        → (more : List ℕ) × (varint_bytes room (v / 128) ≡ some more)
          × (bytes ≡ (v % 128 + 128) ∷ more)
    later large none p = absurd (ground (arith, p))
    later large (some more) p = (more, p, ground (arith, p, group-more v))

read_f8-Yields :
    (x : ℕ) (rest : List ℕ) {b : ByteArray}
    → IsValid b
    → ahead b ≡ x ∷ rest
    → Yields (read_f8 b) x b rest
unfolding read_f8 of_le
read_f8-Yields x rest {b} v e =
    let y = read_n-Yields 1 (x ∷ []) rest v (omega arith) refl e in
    Yields-bind (ByteArray.read 1 b) _ y (Yields-ok rest y.valid y.left (omega arith))

read_varint-last :
    (rounds w i result x : ℕ) (b after : ByteArray)
    → read_f8 b ≡ ok x after
    → x < 128
    → read_varint (suc rounds) w i result b ≡ ok (bit_or result (x * 2 ^ i % 2 ^ w)) after
unfolding read_varint
read_varint-last rounds w i result x b after e h = ground (arith, e)

read_varint-more :
    (rounds w i result x : ℕ) (b after : ByteArray)
    → read_f8 b ≡ ok x after
    → 128 ≤ x
    → read_varint (suc rounds) w i result b
      ≡ read_varint rounds w (i + 7) (bit_or result (bit_and x 0x7f * 2 ^ i % 2 ^ w)) after
unfolding read_varint
read_varint-more rounds w i result x b after e h = ground (arith, e)

-- The group that is added, where the whole value fits the width.
add-group :
    (w i result g v : ℕ)
    → result < 2 ^ i
    → g ≤ v
    → result + v * 2 ^ i < 2 ^ w
    → bit_or result (g * 2 ^ i % 2 ^ w) ≡ result + g * 2 ^ i
add-group w i result g v small le fits =
    rw (mod-eq_of_lt {n = g * 2 ^ i} {m = 2 ^ w} (grind arith)) (bit_or-shift i result g small)

shift_seven : (i : ℕ) → 2 ^ (i + 7) ≡ 128 * 2 ^ i
shift_seven i = simp towards_suc (omega arith)

seven_more : (i v : ℕ) → v * 2 ^ i ≡ v % 128 * 2 ^ i + v / 128 * 2 ^ (i + 7)
seven_more i v = omega (
  arith,
  ap (λ (t : ℕ). t * 2 ^ i) (div-add-mod v 128),
  ap (λ (t : ℕ). v / 128 * t) (shift_seven i),
)

group_bound : (g p : ℕ) → g < 128 → g * p ≤ 127 * p
group_bound g p h = grind arith

pub read_varint-Yields :
    (room rounds w i v result : ℕ) (bytes rest : List ℕ) {b : ByteArray}
    → IsValid b
    → varint_bytes room v ≡ some bytes
    → room ≤ rounds
    → result < 2 ^ i
    → result + v * 2 ^ i < 2 ^ w
    → ahead b ≡ bytes ++ rest
    → Yields (read_varint rounds w i result b) (result + v * 2 ^ i) b rest
read_varint-Yields zero rounds w i v result bytes rest {b} valid e le small fits at =
    absurd (unfold varint_bytes in cc (e))
read_varint-Yields (suc room) zero w i v result bytes rest {b} valid e le small fits at =
    absurd (omega arith)
read_varint-Yields (suc room) (suc rounds) w i v result bytes rest {b} valid e le small fits at =
    elim (varint_bytes-cases room v bytes e) [
      | inl (last, p) ↦
          let y = read_f8-Yields v rest valid (at ∙ ap (λ (bs : List ℕ). bs ++ rest) p) in
          Yields-step y (read_varint-last rounds w i result v b y.after y.result last)
            (add-group w i result v v small (omega arith) fits) (Yields-ok rest y.valid y.left refl)
      | inr (large, (more, q, p)) ↦
          let y =
            read_f8-Yields (v % 128 + 128) (more ++ rest) valid
              (at ∙ ap (λ (bs : List ℕ). bs ++ rest) p) in
          let next : ℕ = result + v % 128 * 2 ^ i in
          Yields-step y
            (read_varint-more rounds w i result (v % 128 + 128) b y.after y.result (omega arith)
              ∙ ap (λ (k : ℕ). read_varint rounds w (i + 7) k y.after) acc)
            (omega (arith, seven_more i v))
            (read_varint-Yields room rounds w (i + 7) (v / 128) next more rest y.valid q
              (omega arith)
              (omega (arith, shift_seven i, group_bound (v % 128) (2 ^ i) (omega arith)))
              (omega (arith, seven_more i v)) y.left)
    ]
  where
    low : bit_and (v % 128 + 128) 0x7f ≡ v % 128
    low = omega (arith, group-low (v % 128 + 128))

    acc : bit_or result (bit_and (v % 128 + 128) 0x7f * 2 ^ i % 2 ^ w) ≡ result + v % 128 * 2 ^ i
    acc =
        ap (λ (g : ℕ). bit_or result (g * 2 ^ i % 2 ^ w)) low
        ∙ add-group w i result (v % 128) v small (omega arith) fits
