-- ===== src/ByteArray/Reading.antt =====
-- `read`, `setPosition`, `clear` and `toString` on a valid array.
use ota_new.Common.{
  ℕ, ◌+◌, ◌-◌, ◌*◌, ◌%◌, ◌≤◌, ◌<◌, ◌≡◌, refl, ap, ◌⊎◌, inl, inr, List, [], ◌∷◌, some, none, length,
  take, drop, arith, length-take, length-drop, take-take, drop-take, drop-all, lt→ltb,
}
use native.Mathlib.Decide.{dec_lt}
use ota_new.ByteArray
use ota_new.ByteArray.{
  ByteArray, Allocator, Outcome, ok, out_of_range, fault, get_capacity, get_read_size,
}
use ota_new.ByteArray.Chain.{Node, read_loop, read_chain}
use ota_new.ByteArray.Walk.{join, Stands}
use ota_new.ByteArray.ReadLoop.{read_loop-Reads, seek_loop-Stands}
use ota_new.ByteArray.Inv.{IsValid, Blocks-take, Blocks-drop, Stands-mod}
use ota_new.ByteArray.Stream.{contents, drop-join, room-behind}
use ota_new.ByteArray.Refine.{Done}

-- What `read` leaves.
abbrev after_read : ByteArray → ℕ → ℕ → ByteArray
after_read b n moved = record b { cur = b.cur + moved; position = b.position + n }

read_chain-eq-read_loop :
    (npos n : ℕ) (ns : List Node) → 0 < n → read_chain ns npos n ≡ read_loop ns npos n
unfolding read_chain read_loop
read_chain-eq-read_loop npos n [] pos = refl
read_chain-eq-read_loop npos n (node ∷ rest) pos = ground arith

after_read-IsValid :
    (n : ℕ) {b : ByteArray} (moved off : ℕ)
    → IsValid b
    → b.position + n ≤ b.size
    → Stands b.base_size (b.position % b.base_size + n) moved off
    → IsValid (after_read b n moved)
after_read-IsValid n {b} moved off v h st = record {
  base_pos = v.base_pos;
  blocks = v.blocks;
  rooted = v.rooted;
  allocated = v.allocated;
  cursor = h;
  stored = v.stored;
  at_cur = Stands-mod (record { at = omega (arith, st.at, v.at_cur.at); inside = st.inside });
}

-- The bytes that `read` finds in the chain are those stored from the cursor on.
pub bytes-at-cursor :
    (n : ℕ) {b : ByteArray}
    → IsValid b
    → b.position + n ≤ b.size
    → take n (drop (b.position % b.base_size) (join (drop b.cur b.nodes)))
      ≡ take n (drop b.position (contents b))
bytes-at-cursor n {b} v h = ground (
  arith,
  drop-join v,
  drop-take b.position b.size (join b.nodes),
  take-take n (b.size - b.position) (drop b.position (join b.nodes)),
)

-- On a valid array a `read` of at least one byte, and of no more than lie between the cursor and the
-- size, returns the bytes of the stream at the cursor and moves it behind them; the array stays valid
-- and its bytes are the same.
pub read-Done :
    (n : ℕ) {b : ByteArray}
    → IsValid b
    → 0 < n
    → b.position + n ≤ b.size
    → Done
        (ByteArray.read n b)
        (take n (drop b.position (contents b)))
        b
        (record { stored = contents b; at = b.position + n })
unfolding ByteArray.read
read-Done n {b} v pos h =
    let (r, w) =
      read_loop-Reads b.base_size (b.position % b.base_size) n (drop b.cur b.nodes)
        (Blocks-drop b.base_size b.cur b.nodes v.blocks) v.at_cur.inside pos
        (room-behind n v (omega (arith, v.stored))) in
    record {
      after = after_read b n r.1;
      result = ground (
        arith,
        w.result,
        w.bytes,
        bytes-at-cursor n v h,
        read_chain-eq-read_loop (b.position % b.base_size) n (drop b.cur b.nodes) pos,
      );
      valid = after_read-IsValid n r.1 w.off v h w.stands;
      seen = refl;
      same_endian = refl;
    }

-- A read of more than the array holds throws and changes nothing.
pub read-out_of_range :
    (n : ℕ) (b : ByteArray) → b.size - b.position < n → ByteArray.read n b ≡ out_of_range b
unfolding ByteArray.read
read-out_of_range n b h = rw (lt→ltb (get_read_size b) n h)

chain_left : {b : ByteArray} → IsValid b → b.position < b.capacity → 0 < length (drop b.cur b.nodes)
chain_left {b} v h = omega (arith, length-drop b.cur b.nodes, before_end)
  where
    before_end : b.cur < length b.nodes
    before_end = grind (arith, v.at_cur.at, v.at_cur.inside, v.allocated)

chain_done : {b : ByteArray} → IsValid b → b.position ≡ b.capacity → drop b.cur b.nodes ≡ []
chain_done {b} v h = drop-all b.cur b.nodes (grind (arith, v.at_cur.at, v.at_cur.inside))

read_chain-zero : (npos : ℕ) (ns : List Node) → 0 < length ns → read_chain ns npos 0 ≡ some ([], 0)
unfolding read_chain
read_chain-zero npos [] h = absurd (omega arith)
read_chain-zero npos (n ∷ ns) h = refl

read_chain-nil : (npos : ℕ) → read_chain [] npos 0 ≡ none
unfolding read_chain
read_chain-nil npos = refl

-- On a valid array a `read` of no bytes returns them and changes nothing where the cursor is below the
-- capacity; where it is at the capacity the read goes through a null `m_cur`.
pub read-zero :
    {b : ByteArray}
    → IsValid b
    → ((b.position < b.capacity) × (ByteArray.read 0 b ≡ ok [] b))
      ⊎ ((b.position ≡ b.capacity) × (ByteArray.read 0 b ≡ fault))
unfolding ByteArray.read
read-zero {b} v = elim (dec_lt b.position b.capacity) [
  | yes inside ↦ inl (
    inside,
    ground (
      arith,
      read_chain-zero (b.position % b.base_size) (drop b.cur b.nodes),
      chain_left v inside,
    ),
  )
  | no end ↦
      let e : b.position ≡ b.capacity = omega (arith, v.stored, v.cursor) in
      inr (e, ground (arith, chain_done v e, read_chain-nil (b.position % b.base_size)))
]

-- On a valid array `setPosition` to a place up to the size returns; the array is valid, its bytes are
-- the same, and the cursor is at that place.
pub set_position-Done :
    (p : ℕ) {b : ByteArray}
    → IsValid b
    → p ≤ b.size
    → Done (ByteArray.set_position p b) tt b (record { stored = contents b; at = p })
unfolding ByteArray.set_position
set_position-Done p {b} v h =
    let (moved, off, e, st) =
      seek_loop-Stands b.base_size p b.nodes v.blocks v.base_pos v.rooted
        (omega (arith, v.stored, v.allocated)) in
    record {
      after = record b { position = p; size = b.size; cur = moved };
      result = ground (arith, e, v.stored);
      valid = record {
        base_pos = v.base_pos;
        blocks = v.blocks;
        rooted = v.rooted;
        allocated = v.allocated;
        cursor = h;
        stored = v.stored;
        at_cur = Stands-mod st;
      };
      seen = refl;
      same_endian = refl;
    }

-- `setPosition` beyond the allocated bytes throws and changes nothing.
pub set_position-out_of_range :
    (p : ℕ) (b : ByteArray) → b.capacity < p → ByteArray.set_position p b ≡ out_of_range b
unfolding ByteArray.set_position
set_position-out_of_range p b h = rw (lt→ltb b.capacity p h)

-- `clear` of a valid array leaves a valid one.
pub clear-IsValid : {b : ByteArray} → IsValid b → IsValid (ByteArray.clear b)
unfolding ByteArray.clear
clear-IsValid {b} v = record {
  base_pos = v.base_pos;
  blocks = Blocks-take b.base_size 1 b.nodes v.blocks;
  rooted = omega (arith, one_block);
  allocated = omega (arith, ap (λ (k : ℕ). k * b.base_size) one_block);
  cursor = omega arith;
  stored = omega arith;
  at_cur = Stands-mod {off = 0} (record { at = omega arith; inside = v.base_pos });
}
  where
    one_block : length (take 1 b.nodes) ≡ 1
    one_block = omega (arith, length-take 1 b.nodes, v.rooted)
