-- ===== src/ByteArray/Codec.antt =====
-- sherry/bytearray.cc: the integers and strings of `ByteArray`, over `write` and `read`; sherry/endian.h.
pub mod Digits
pub mod Yields
pub mod Readers
pub mod RoundTrip
pub mod Signed
-- An integer of `w` bytes is its bit pattern, below `256 ^ w`, and so is a signed one.
use mathlib.Core.Option
use ota_new.Common.{
  ℕ, zero, suc, ◌+◌, ◌-◌, ◌*◌, ◌/◌, ◌%◌, ◌^◌, List, [], ◌∷◌, Option, none, some, Bool, true, false,
  bit_and, bit_or, bit_xor, ltb, leb, if◌then◌else◌, length, reverse,
}
use ota_new.ByteArray.{
  ByteArray, Allocator, Endian, little, big, M, ◌>>=◌, ◌>>◌, return, ok, fault, write, read,
}

-- The bytes of a `w`-byte integer in the memory of a little-endian host, and back.
unfoldable pub le_bytes : ℕ → ℕ → List ℕ
le_bytes zero v = []
le_bytes (suc w) v = (v % 256) ∷ le_bytes w (v / 256)

unfoldable pub of_le : List ℕ → ℕ
of_le [] = 0
of_le (b ∷ bs) = b + 256 * of_le bs

-- `byteswap` of sherry/endian.h: the bytes in the opposite order.
unfoldable pub byteswap : ℕ → ℕ → ℕ
byteswap w v = of_le (reverse (le_bytes w v))

-- `m_endian == SYLAR_BYTE_ORDER`, where the host is little-endian.
abbrev pub host_order : Endian → Bool
host_order little = true
host_order big = false

-- `tmp` has room for as many bytes as the fuel; `none` is a write past it.
unfoldable pub varint_bytes : ℕ → ℕ → Option (List ℕ)
varint_bytes zero v = none
varint_bytes (suc room) v =
    let more = varint_bytes room (v / 2 ^ 7) in
    if leb 0x80 v
    then Option.map (◌∷◌ (bit_or (bit_and v 0x7f) 0x80)) more
    else some ((v % 256) ∷ [])

-- `EncodeZigzag32`, `EncodeZigzag64` at w = 32, 64. The products wrap.
unfoldable pub encode_zigzag : ℕ → ℕ → ℕ
encode_zigzag w p =
    if leb (2 ^ (w - 1)) p
    then ((2 ^ w - p) % 2 ^ w * 2 % 2 ^ w + 2 ^ w - 1) % 2 ^ w
    else p * 2 % 2 ^ w

-- `DecodeZigzag32`, `DecodeZigzag64`
unfoldable pub decode_zigzag : ℕ → ℕ → ℕ
decode_zigzag w v = bit_xor (v / 2) ((2 ^ w - bit_and v 1) % 2 ^ w)

module _ (alloc : Allocator) where
  -- `writeFint8`, `writeFuint8`
  unfoldable pub write_f8 : ℕ → M (Unit {0})
  write_f8 v = write alloc (le_bytes 1 v)

  -- `writeFint16` to `writeFuint64`, at w = 2, 4, 8
  unfoldable pub write_fixed : ℕ → ℕ → M (Unit {0})
  write_fixed w v b = write alloc (le_bytes w (if host_order b.endian then v else byteswap w v)) b

  write_varint : ℕ → ℕ → M (Unit {0})
  write_varint room v b = elim (varint_bytes room v) [
    | none ↦ fault
    | some bytes ↦ write alloc bytes b
  ]

  unfoldable pub write_uint32 : ℕ → M (Unit {0})
  unfolding write_varint
  write_uint32 = write_varint 5

  unfoldable pub write_uint64 : ℕ → M (Unit {0})
  unfolding write_varint
  write_uint64 = write_varint 10

  unfoldable pub write_int32 : ℕ → M (Unit {0})
  unfolding write_uint32
  write_int32 p = write_uint32 (encode_zigzag 32 p)

  unfoldable pub write_int64 : ℕ → M (Unit {0})
  unfolding write_uint64
  write_int64 p = write_uint64 (encode_zigzag 64 p)

  -- `writeStringF16`, `F32`, `F64` at w = 2, 4, 8; the length is cut to the integer's width.
  unfoldable pub write_string_fixed : ℕ → List ℕ → M (Unit {0})
  write_string_fixed w value = do write_fixed w (length value % 256 ^ w); write alloc value

  unfoldable pub write_string_vint : List ℕ → M (Unit {0})
  write_string_vint value = do write_uint64 (length value % 2 ^ 64); write alloc value

-- `readFint8`, `readFuint8`
unfoldable pub read_f8 : M ℕ
read_f8 = do bytes ← read 1; return (of_le bytes)

-- `readFint16` to `readFuint64`
unfoldable pub read_fixed : ℕ → M ℕ
read_fixed w = do
  bytes ← read w
  λ b. ok (if host_order b.endian then of_le bytes else byteswap w (of_le bytes)) b

-- The loop of `readUint32` and `readUint64`: the rounds left, the width in bits, `i` and `result`.
unfoldable pub read_varint : ℕ → ℕ → ℕ → ℕ → M ℕ
unfolding read_f8
read_varint zero w i result = return result
read_varint (suc rounds) w i result = do
  b ← read_f8
  let last = bit_or result (b * 2 ^ i % 2 ^ w)
  let more = read_varint rounds w (i + 7) (bit_or result (bit_and b 0x7f * 2 ^ i % 2 ^ w))
  if ltb b 0x80 then return last else more

unfoldable pub read_uint32 : M ℕ
read_uint32 = read_varint 5 32 0 0

unfoldable pub read_uint64 : M ℕ
read_uint64 = read_varint 10 64 0 0

unfoldable pub read_int32 : M ℕ
read_int32 = do v ← read_uint32; return (decode_zigzag 32 v)

unfoldable pub read_int64 : M ℕ
read_int64 = do v ← read_uint64; return (decode_zigzag 64 v)

-- `readStringF16`, `F32`, `F64`
unfoldable pub read_string_fixed : ℕ → M (List ℕ)
read_string_fixed w = do n ← read_fixed w; read n

unfoldable pub read_string_vint : M (List ℕ)
read_string_vint = do n ← read_uint64; read n
