-- ===== src/ByteArray.antt =====
-- sherry/bytearray.h and sherry/bytearray.cc: a byte stream with one cursor over a chain of blocks.
pub mod Chain
pub mod Walk
pub mod ReadLoop
pub mod Inv
pub mod Stream
pub mod Refine
pub mod Reading
pub mod Buffers
pub mod Codec
mod Tests
use ota_new.Common.{
  ℕ, zero, suc, ◌+◌, ◌-◌, ◌*◌, ◌/◌, ◌%◌, ◌^◌, ◌≡◌, List, [], ◌∷◌, ◌++◌, Option, none, some, Bool,
  true, false, ltb, leb, ◌==◌, if◌then◌else◌, length, take, drop,
}
use Chain.{Node, write_loop, read_chain, seek_loop}

pub data Endian : Type 0 where
  little big : Endian

-- `m_root` and the `next` pointers are the list `nodes`; `m_cur` is the number of nodes before it,
-- so `cur` is the length of the list where `m_cur` is null.
pub record ByteArray : Type 0 where
  pub base_size : ℕ
  pub position : ℕ
  pub capacity : ℕ
  pub size : ℕ
  pub endian : Endian
  pub nodes : List Node
  pub cur : ℕ

-- What a call ends in: a value, the exception `std::out_of_range` (the array is as it was when it was
-- thrown), or a read through a null `m_cur`.
pub data Outcome {ℓ} (A : Type ℓ) : Type ℓ where
  ok : A → ByteArray → Outcome A
  out_of_range : ByteArray → Outcome A
  fault : Outcome A

abbrev pub M {ℓ} : Type ℓ → Type ℓ
M A = ByteArray → Outcome A

abbrev pub and_then {ℓ κ} : {A : Type ℓ} {B : Type κ} → Outcome A → (A → M B) → Outcome B
and_then (ok a b) f = f a b
and_then (out_of_range b) f = out_of_range b
and_then fault f = fault

infixl 5 ◌>>=◌ ◌>>◌
abbrev pub ◌>>=◌ {ℓ κ} : {A : Type ℓ} {B : Type κ} → M A → (A → M B) → M B
◌>>=◌ m f b = and_then (m b) f

abbrev pub ◌>>◌ {ℓ} : {B : Type ℓ} → M (Unit {0}) → M B → M B
◌>>◌ m k b = and_then (m b) (λ _. k)

abbrev pub return {ℓ} : {A : Type ℓ} → A → M A
return a b = ok a b

-- `new char[n]` leaves its bytes undetermined: the bytes of the node that is allocated as number `k`.
pub record Allocator : Type 0 where
  pub block : ℕ → ℕ → List ℕ
  pub length-block : (k n : ℕ) → length (block k n) ≡ n

-- `getReadSize`; `position ≤ size` always (`Inv.IsValid`), so the subtraction does not wrap.
abbrev pub get_read_size : ByteArray → ℕ
get_read_size b = b.size - b.position

-- The private `getCapacity`: the bytes allocated behind the cursor.
abbrev pub get_capacity : ByteArray → ℕ
get_capacity b = b.capacity - b.position

unfoldable pub set_is_little_endian : Bool → ByteArray → ByteArray
set_is_little_endian val b = record b { endian = if val then little else big }

-- `ceil(1.0 * size / m_baseSize)` is exact below 2^53.
abbrev pub blocks_for : ℕ → ℕ → ℕ
blocks_for base n = (n + base - 1) / base

module _ (alloc : Allocator) where
  unfoldable pub init : ℕ → ByteArray
  init base = record {
    base_size = base;
    position = 0;
    capacity = base;
    size = 0;
    endian = big;
    nodes = alloc.block 0 base ∷ [];
    cur = 0;
  }

  -- `count` new nodes behind the first `k`.
  unfoldable pub new_nodes : ℕ → ℕ → ℕ → List Node
  new_nodes base k zero = []
  new_nodes base k (suc count) = alloc.block k base ∷ new_nodes base (suc k) count

  unfoldable pub add_capacity : ℕ → ByteArray → ByteArray
  add_capacity n b =
      let old_cap = get_capacity b in
      let count = blocks_for b.base_size (n - old_cap) in
      if n == 0 then b else if leb n old_cap then b else record b {
        nodes = b.nodes ++ new_nodes b.base_size (length b.nodes) count;
        capacity = b.capacity + count * b.base_size;
        cur = if old_cap == 0 then length b.nodes else b.cur;
      }

  -- The part of `write` behind `addCapacity`.
  unfoldable pub write_here : List ℕ → M (Unit {0})
  write_here src b = elim (write_loop (drop b.cur b.nodes) (b.position % b.base_size) src) [
    | none ↦ fault
    | some (chain, moved) ↦
        let stop = b.position + length src in
        ok tt (record b {
          nodes = take b.cur b.nodes ++ chain;
          cur = b.cur + moved;
          position = stop;
          size = if ltb b.size stop then stop else b.size;
        })
  ]

  unfoldable pub write : List ℕ → M (Unit {0})
  write src b = if length src == 0 then ok tt b else write_here src (add_capacity (length src) b)

unfoldable pub read : ℕ → M (List ℕ)
read n b =
    if ltb (get_read_size b) n
    then out_of_range b
    else elim (read_chain (drop b.cur b.nodes) (b.position % b.base_size) n) [
      | none ↦ fault
      | some (bytes, moved) ↦ ok bytes (record b { cur = b.cur + moved; position = b.position + n })
    ]

-- `read(buf, size, position) const`: the check wraps, and the walk begins at `m_cur`, not at `at`.
unfoldable pub read_at : ℕ → ℕ → M (List ℕ)
read_at n at b =
    if ltb ((b.size + 2 ^ 64 - at) % 2 ^ 64) n
    then out_of_range b
    else elim (read_chain (drop b.cur b.nodes) (at % b.base_size) n) [
      | none ↦ fault
      | some (bytes, moved) ↦ ok bytes b
    ]

unfoldable pub set_position : ℕ → M (Unit {0})
set_position v b = if ltb b.capacity v then out_of_range b else elim (seek_loop b.nodes v) [
  | none ↦ fault
  | some skipped ↦
      ok tt (record b { position = v; size = if ltb b.size v then v else b.size; cur = skipped })
]

unfoldable pub clear : ByteArray → ByteArray
clear b = record b {
  position = 0;
  size = 0;
  capacity = b.base_size;
  nodes = take 1 b.nodes;
  cur = 0;
}

unfoldable pub to_string : M (List ℕ)
to_string b = if get_read_size b == 0 then ok [] b else read_at (get_read_size b) b.position b
