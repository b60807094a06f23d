-- ===== src/ByteArray/Inv.antt =====
-- The representation invariant of `ByteArray`: every operation keeps it, and none of them walks off
-- the chain but a read at its very end.
use ota_new.Common.{
  ℕ, zero, suc, ◌+◌, ◌-◌, ◌*◌, ◌%◌, ◌≤◌, ◌<◌, ◌≡◌, refl, ap, List, [], ◌∷◌, ◌++◌, length, take,
  drop, arith, append-nil, length-append,
}
use native.Mathlib.Decide.{dec_le}
use native.Mathlib.Nat.{div-add-mod', mod-lt}
use ota_new.ByteArray.{
  get_capacity, ByteArray, Allocator, init, new_nodes, blocks_for, add_capacity,
}
use ota_new.ByteArray.Chain.{Node}
use ota_new.ByteArray.Walk.{Blocks, Stands}

pub record IsValid (b : ByteArray) : Type 0 where
  pub base_pos : 0 < b.base_size
  pub blocks : Blocks b.base_size b.nodes
  pub rooted : 0 < length b.nodes
  pub allocated : b.capacity ≡ length b.nodes * b.base_size
  pub cursor : b.position ≤ b.size
  pub stored : b.size ≤ b.capacity
  pub at_cur : Stands b.base_size b.position b.cur (b.position % b.base_size)

-- The offset in the block is what the code computes by `%`.
off-eq-mod : (base pos cur off : ℕ) → Stands base pos cur off → pos % base ≡ off
off-eq-mod base pos cur off st = grind (arith, st.at, st.inside)

pub Stands-mod : {base pos cur off : ℕ} → Stands base pos cur off → Stands base pos cur (pos % base)
Stands-mod {base} {pos} {cur} {off} st = rw (off-eq-mod base pos cur off st) st

pub cur-le-length : {b : ByteArray} → IsValid b → b.cur ≤ length b.nodes
cur-le-length {b} v = grind (arith, v.at_cur.at, v.at_cur.inside)

pub Blocks-append :
    (base : ℕ) (ms ns : List Node) → Blocks base ms → Blocks base ns → Blocks base (ms ++ ns)
Blocks-append base [] ns h k = k
Blocks-append base (m ∷ ms) ns (h, hs) k = (h, Blocks-append base ms ns hs k)

pub Blocks-take : (base n : ℕ) (ns : List Node) → Blocks base ns → Blocks base (take n ns)
Blocks-take base zero ns h = tt
Blocks-take base (suc n) [] h = tt
Blocks-take base (suc n) (m ∷ ms) (h, hs) = (h, Blocks-take base n ms hs)

pub Blocks-drop : (base n : ℕ) (ns : List Node) → Blocks base ns → Blocks base (drop n ns)
Blocks-drop base zero ns h = h
Blocks-drop base (suc n) [] h = tt
Blocks-drop base (suc n) (m ∷ ms) (h, hs) = Blocks-drop base n ms hs

pub blocks_for-enough : (base n : ℕ) → 0 < base → n ≤ blocks_for base n * base
blocks_for-enough base n h =
    grind (arith, div-add-mod' (n + base - 1) base, mod-lt (n + base - 1) h)

module _ (alloc : Allocator) where
  new_nodes-Blocks : (base k count : ℕ) → Blocks base (new_nodes alloc base k count)
  unfolding new_nodes
  new_nodes-Blocks base k zero = tt
  new_nodes-Blocks base k (suc count) =
      (alloc.length-block k base, new_nodes-Blocks base (suc k) count)

  length-new_nodes : (base k count : ℕ) → length (new_nodes alloc base k count) ≡ count
  unfolding new_nodes
  length-new_nodes base k zero = refl
  length-new_nodes base k (suc count) = ap suc (length-new_nodes base (suc k) count)

  -- A fresh array is valid.
  pub init-IsValid : (base : ℕ) → 0 < base → IsValid (init alloc base)
  unfolding init
  init-IsValid base h = record {
    base_pos = h;
    blocks = (alloc.length-block 0 base, tt);
    rooted = omega arith;
    allocated = omega arith;
    cursor = omega arith;
    stored = omega arith;
    at_cur = Stands-mod (record { at = omega arith; inside = h });
  }

  -- `count` more blocks at the end, and the cursor where it was.
  abbrev pub grown : ByteArray → ℕ → ByteArray
  grown b count = record b {
    nodes = b.nodes ++ new_nodes alloc b.base_size (length b.nodes) count;
    capacity = b.capacity + count * b.base_size;
  }

  grown-zero : (b : ByteArray) → grown b 0 ≡ b
  unfolding new_nodes
  grown-zero b = ground (arith, append-nil b.nodes)

  -- Moving a null `m_cur` to the first new block keeps its index.
  pub add_capacity-eq-grown :
      (n : ℕ) {b : ByteArray}
      → IsValid b
      → (count : ℕ) × (add_capacity alloc n b ≡ grown b count) × (n ≤ get_capacity (grown b count))
  unfolding add_capacity
  add_capacity-eq-grown n {b} v = elim (dec_le n (get_capacity b)) [
    | yes fits ↦ (0, ground (arith, grown-zero b), omega arith)
    | no more ↦ (
      blocks_for b.base_size (n - get_capacity b),
      ground (arith, cur-at-end),
      omega (arith, blocks_for-enough b.base_size (n - get_capacity b) v.base_pos),
    )
  ]
    where
      cur-at-end : get_capacity b ≡ 0 → length b.nodes ≡ b.cur
      cur-at-end e = grind (arith, v.at_cur.at, v.at_cur.inside)

  pub grown-IsValid : (count : ℕ) {b : ByteArray} → IsValid b → IsValid (grown b count)
  grown-IsValid count {b} v = record {
    base_pos = v.base_pos;
    blocks = Blocks-append b.base_size b.nodes _ v.blocks (new_nodes-Blocks b.base_size _ count);
    rooted = omega (arith, len);
    allocated = rw len (omega (arith, v.allocated));
    cursor = v.cursor;
    stored = omega arith;
    at_cur = v.at_cur;
  }
    where
      len : length (grown b count).nodes ≡ length b.nodes + count
      len = omega (
        arith,
        length-append b.nodes (new_nodes alloc b.base_size (length b.nodes) count),
        length-new_nodes b.base_size (length b.nodes) count,
      )

  -- `addCapacity` of a valid array leaves a valid one, for any number of bytes asked for.
  pub add_capacity-IsValid : (n : ℕ) {b : ByteArray} → IsValid b → IsValid (add_capacity alloc n b)
  add_capacity-IsValid n {b} v =
      let (count, e, _) = add_capacity-eq-grown n v in rw e (grown-IsValid count v)
