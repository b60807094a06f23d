-- ===== src/ByteArray/Stream.antt =====
-- What a client of `ByteArray` sees: the bytes stored so far and a cursor in them.
use ota_new.Common.{
  ℕ, ◌+◌, ◌-◌, ◌*◌, ◌%◌, ◌≤◌, ◌≡◌, ap, List, ◌++◌, ltb, if◌then◌else◌, length, take, drop, arith,
  append_assoc, length-take, length-drop, take-append, drop-append, take-append-drop, take-take,
  take-all, drop-all, drop-take,
}
use ota_new.ByteArray.{ByteArray}
use ota_new.ByteArray.Chain.{overwrite}
use ota_new.ByteArray.Walk.{join, join-append, length-join}
use ota_new.ByteArray.Inv.{IsValid, Blocks-take, cur-le-length}

pub record Stream : Type 0 where
  pub stored : List ℕ
  pub at : ℕ

-- `src` replaces what it covers, and goes past the end where it is longer.
unfoldable pub write : List ℕ → Stream → Stream
unfolding overwrite
write src s = record { stored = overwrite s.at src s.stored; at = s.at + length src }

abbrev pub contents : ByteArray → List ℕ
contents b = take b.size (join b.nodes)

abbrev pub view : ByteArray → Stream
view b = record { stored = contents b; at = b.position }

pub overwrite-skip :
    (front : List ℕ) (at : ℕ) (src later : List ℕ)
    → overwrite (length front + at) src (front ++ later) ≡ front ++ overwrite at src later
unfolding overwrite
overwrite-skip front at src later = ground (
  arith,
  take-append (length front + at) front later,
  drop-append (length front + at + length src) front later,
  take-all (length front + at) front,
  drop-all (length front + at + length src) front,
  append_assoc front (take at later) (src ++ drop (at + length src) later),
)

-- Cutting the block memory at the size commutes with writing at or before it.
pub take-overwrite :
    (at : ℕ) (src all : List ℕ) (size size' : ℕ)
    → at ≤ size
    → size ≤ length all
    → size' ≡ (if ltb size (at + length src) then at + length src else size)
    → take size' (overwrite at src all) ≡ overwrite at src (take size all)
unfolding overwrite
take-overwrite at src all size size' h k e = ground (
  arith,
  cut,
  same,
  take-append size' (take at all) (src ++ drop (at + length src) all),
  take-append (size' - length (take at all)) src (drop (at + length src) all),
  take-all size' (take at all),
  take-all (size' - length (take at all)) src,
  take-take at size all,
  drop-take (at + length src) size all,
)
  where
    cut : length (take at all) ≡ at
    cut = omega (arith, length-take at all)

    same : size' - length (take at all) - length src ≡ size - (at + length src)
    same = ground (arith, cut)

-- The bytes in the nodes before `m_cur`, and those from it on.
pub split-join :
    (b : ByteArray) → join b.nodes ≡ join (take b.cur b.nodes) ++ join (drop b.cur b.nodes)
split-join b = rw (← join-append (take b.cur b.nodes) (drop b.cur b.nodes), take-append-drop)

pub length-front :
    {b : ByteArray}
    → IsValid b
    → length (join (take b.cur b.nodes)) + b.position % b.base_size ≡ b.position
length-front {b} v = omega (
  arith,
  v.at_cur.at,
  length-join b.base_size (take b.cur b.nodes) (Blocks-take b.base_size b.cur b.nodes v.blocks),
  ap (λ (k : ℕ). k * b.base_size) here,
)
  where
    here : length (take b.cur b.nodes) ≡ b.cur
    here = omega (arith, length-take b.cur b.nodes, cur-le-length v)

-- The bytes from the cursor on, found in the chain from `m_cur` on.
pub drop-join :
    {b : ByteArray}
    → IsValid b
    → drop b.position (join b.nodes) ≡ drop (b.position % b.base_size) (join (drop b.cur b.nodes))
drop-join {b} v = ground (
  arith,
  split-join b,
  length-front v,
  drop-append b.position (join (take b.cur b.nodes)) (join (drop b.cur b.nodes)),
  drop-all b.position (join (take b.cur b.nodes)),
)

pub overwrite-join :
    (src : List ℕ) {b : ByteArray}
    → IsValid b
    → overwrite b.position src (join b.nodes)
      ≡ join (take b.cur b.nodes)
        ++ overwrite (b.position % b.base_size) src (join (drop b.cur b.nodes))
overwrite-join src {b} v = ground (
  arith,
  split-join b,
  length-front v,
  overwrite-skip (join (take b.cur b.nodes)) (b.position % b.base_size) src
      (join (drop b.cur b.nodes)),
)

-- The chain from `m_cur` on is as long as what is allocated behind the cursor.
pub room-behind :
    {b : ByteArray} (n : ℕ)
    → IsValid b
    → n ≤ b.capacity - b.position
    → b.position % b.base_size + n ≤ length (drop b.cur b.nodes) * b.base_size
room-behind {b} n v h =
    omega (arith, v.at_cur.at, v.allocated, ap (λ (k : ℕ). k * b.base_size) split)
  where
    split : length b.nodes ≡ b.cur + length (drop b.cur b.nodes)
    split = omega (arith, length-drop b.cur b.nodes, cur-le-length v)

pub length-contents : {b : ByteArray} → IsValid b → length (contents b) ≡ b.size
length-contents {b} v = omega (
  arith,
  length-take b.size (join b.nodes),
  length-join b.base_size b.nodes v.blocks,
  v.stored,
  v.allocated,
)

pub drop-overwrite :
    (at : ℕ) (src all : List ℕ)
    → at ≤ length all
    → drop at (overwrite at src all) ≡ src ++ drop (at + length src) all
unfolding overwrite
drop-overwrite at src all h = ground (
  arith,
  drop-append at (take at all) (src ++ drop (at + length src) all),
  drop-all at (take at all),
  length-take at all,
)
