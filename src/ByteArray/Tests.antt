-- ===== src/ByteArray/Tests.antt =====
-- Runs of the stream and its codecs, and the theorems on concrete arrays.
use ota_new.Common.{
  ℕ, ◌+◌, ◌-◌, ◌^◌, ◌≤◌, ◌≡◌, refl, List, [], ◌∷◌, some, none, true, take, drop, replicate,
  length-replicate, arith,
}
use ota_new.ByteArray
use ota_new.ByteArray.{
  ByteArray, Allocator, Endian, little, big, Outcome, ok, out_of_range, fault, M, ◌>>◌,
}
use ota_new.ByteArray.Inv.{IsValid}
use ota_new.ByteArray.Walk.{join}
use ota_new.ByteArray.Stream
use ota_new.ByteArray.Stream.{contents, view}
use ota_new.ByteArray.Refine.{Done, write-Done}
use ota_new.ByteArray.Reading.{read-Done, clear-IsValid}
use ota_new.ByteArray.Buffers.{get_read_buffers, get_read_buffers_at, socket_write}
use ota_new.ByteArray.Buffers.Gather.{socket_write-sends}
use ota_new.ByteArray.Codec.{
  write_fixed, read_fixed, write_uint32, read_uint32, encode_zigzag, varint_bytes,
}
use ota_new.ByteArray.Codec.RoundTrip.{Returns, fixed_round_trip, uint32_round_trip}

abbrev alloc0 : Allocator
alloc0 = record { block = λ k n. replicate n k; length-block = λ k n. length-replicate n k }

abbrev bytes : List ℕ
bytes = 1 ∷ 2 ∷ 3 ∷ 4 ∷ 5 ∷ 6 ∷ []

-- The cursor at the last byte.
abbrev full : ByteArray
full = record {
  base_size = 4;
  position = 5;
  capacity = 8;
  size = 6;
  endian = big;
  nodes = (1 ∷ 2 ∷ 3 ∷ 4 ∷ []) ∷ (5 ∷ 6 ∷ 1 ∷ 1 ∷ []) ∷ [];
  cur = 1;
}

full-IsValid : IsValid full
full-IsValid = record {
  base_pos = omega arith;
  blocks = (refl, (refl, tt));
  rooted = omega arith;
  allocated = refl;
  cursor = omega arith;
  stored = omega arith;
  at_cur = record { at = refl; inside = omega arith };
}

-- The cursor at the capacity, where `m_cur` is null.
abbrev at_end : ByteArray
at_end = record full { position = 8; size = 8; cur = 2 }

at_end-IsValid : IsValid at_end
at_end-IsValid = record {
  base_pos = omega arith;
  blocks = (refl, (refl, tt));
  rooted = omega arith;
  allocated = refl;
  cursor = omega arith;
  stored = omega arith;
  at_cur = record { at = refl; inside = omega arith };
}

zigzag_of_minus_one : encode_zigzag 32 (2 ^ 32 - 1) ≡ 1
unfolding encode_zigzag
zigzag_of_minus_one = refl

varint_of_300 : varint_bytes 5 300 ≡ some (0xac ∷ 2 ∷ [])
unfolding varint_bytes
varint_of_300 = refl

write-Done_example :
    Done (ByteArray.write alloc0 bytes full) tt full (Stream.write bytes (view full))
write-Done_example = write-Done alloc0 bytes full-IsValid

read-Done_example :
    Done
      (ByteArray.read 1 full)
      (take 1 (drop 5 (contents full)))
      full
      (record { stored = contents full; at = 6 })
read-Done_example = read-Done 1 full-IsValid (omega arith) (omega arith)

clear-IsValid_example : IsValid (ByteArray.clear full)
clear-IsValid_example = clear-IsValid full-IsValid

fixed_round_trip_example :
    Returns
      ((write_fixed alloc0 4 0x01020304 >> (ByteArray.set_position 5 >> read_fixed 4)) full)
      0x01020304
      (drop (5 + 4) (contents full))
fixed_round_trip_example =
    fixed_round_trip alloc0 4 0x01020304 full-IsValid (omega arith) (omega arith)

uint32_round_trip_example :
    (n : ℕ) × (1 ≤ n)
    × (n ≤ 5)
    × Returns
        ((write_uint32 alloc0 300 >> (ByteArray.set_position 5 >> read_uint32)) full)
        300
        (drop (5 + n) (contents full))
uint32_round_trip_example = uint32_round_trip alloc0 300 full-IsValid (omega arith)

-- The cursor in the first block, with four bytes behind it in two.
abbrev at_two : ByteArray
at_two = record full { position = 2; cur = 0 }

at_two-IsValid : IsValid at_two
at_two-IsValid = record {
  base_pos = omega arith;
  blocks = (refl, (refl, tt));
  rooted = omega arith;
  allocated = refl;
  cursor = omega arith;
  stored = omega arith;
  at_cur = record { at = refl; inside = omega arith };
}

two_pieces :
    get_read_buffers 3 at_two
    ≡ some (
      3,
      record { node = 0; offset = 2; len = 2 } ∷ record { node = 1; offset = 0; len = 1 } ∷ [],
    )
unfolding get_read_buffers
two_pieces = refl

-- From the last byte on, as many bytes as are behind the cursor: they go past the size.
past_the_size : get_read_buffers_at 4 5 at_two ≡ none
unfolding get_read_buffers_at
past_the_size = refl

socket_write-sends_example :
    Done
      (socket_write true 4 (some 3) at_two)
      (some (3 ∷ 4 ∷ 5 ∷ []))
      at_two
      (record { stored = contents at_two; at = 5 })
unfolding join
socket_write-sends_example =
    socket_write-sends 4 3 at_two at_two-IsValid (omega arith) (omega arith) (omega arith)
