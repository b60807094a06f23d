-- ===== src/ByteArray/ReadLoop.antt =====
-- What the reading loop of `ByteArray::read` and the walk of `setPosition` reach in the chain.
use ota_new.Common.{
  ℕ, suc, ◌+◌, ◌-◌, ◌*◌, ◌≤◌, ◌<◌, ◌≡◌, List, [], ◌∷◌, ◌++◌, some, le→leb, lt→leb, length, take,
  drop, arith, append-nil, length-drop, take-append, drop-append, take-all,
}
use native.Mathlib.Decide.{dec_le}
use ota_new.ByteArray.Chain.{Node, passed, read_loop, seek_loop}
use ota_new.ByteArray.Walk.{join, Blocks, Stands, passed-Stands}

-- The read loop succeeds where the chain is long enough, and gives the bytes in order.
pub record Reads (base npos n : ℕ) (ns : List Node) (r : List ℕ × ℕ) : Type 0 where
  pub result : read_loop ns npos n ≡ some r
  pub bytes : r.0 ≡ take n (drop npos (join ns))
  pub off : ℕ
  pub stands : Stands base (npos + n) r.1 off

Reads-head :
    (base npos n : ℕ) (node : Node) (ns : List Node)
    → length node ≡ base
    → n ≤ length node - npos
    → npos < base
    → (off : ℕ) × Stands base (npos + n) (passed node (npos + n)) off
    → Reads base npos n (node ∷ ns) (take n (drop npos node), passed node (npos + n))
unfolding read_loop join
Reads-head base npos n node ns hl fits hn (off, stands) = record {
  result = rw (le→leb n (length node - npos) fits);
  bytes = ground (
    arith,
    drop-append npos node (join ns),
    take-append n (drop npos node) (join ns),
    length-drop npos node,
    append-nil (take n (drop npos node)),
  );
  off = off;
  stands = stands;
}

Reads-across :
    (base npos n : ℕ) (node : Node) (ns : List Node) (r : List ℕ × ℕ)
    → length node ≡ base
    → npos < base
    → length node - npos < n
    → Reads base 0 (n - (length node - npos)) ns r
    → Reads base npos n (node ∷ ns) (drop npos node ++ r.0, suc r.1)
unfolding read_loop join
Reads-across base npos n node ns r hl hn more w = record {
  result = rw (lt→leb n (length node - npos) more, w.result);
  bytes = rw w.bytes (
      ground (
        arith,
        drop-append npos node (join ns),
        take-append n (drop npos node) (join ns),
        length-drop npos node,
        take-all n (drop npos node),
      ));
  off = w.off;
  stands = record { at = omega (arith, w.stands.at); inside = w.stands.inside };
}

pub read_loop-Reads :
    (base npos n : ℕ) (ns : List Node)
    → Blocks base ns
    → npos < base
    → 0 < n
    → npos + n ≤ length ns * base
    → (r : List ℕ × ℕ) × Reads base npos n ns r
read_loop-Reads base npos n [] h hn hs room = absurd (omega arith)
read_loop-Reads base npos n (node ∷ ns) (hl, hb) hn hs room = elim (dec_le n (length node - npos)) [
  | yes fits ↦ (
    _,
    Reads-head base npos n node ns hl fits hn
        (passed-Stands base (npos + n) node hl (omega arith) (omega arith)),
  )
  | no more ↦
      let (r, w) =
        read_loop-Reads base 0 (n - (length node - npos)) ns hb (omega arith) (omega arith)
          (omega arith) in
      (_, Reads-across base npos n node ns r hl hn (omega arith) w)
]

-- The seek loop ends in the node that holds byte `v`, or behind the last one.
pub seek_loop-Stands :
    (base v : ℕ) (ns : List Node)
    → Blocks base ns
    → 0 < base
    → 0 < length ns
    → v ≤ length ns * base
    → (moved : ℕ) × (off : ℕ) × (seek_loop ns v ≡ some moved) × Stands base v moved off
unfolding seek_loop
seek_loop-Stands base v [] h pos hs room = absurd (omega arith)
seek_loop-Stands base v (n ∷ ns) (hl, hb) pos hs room = elim (dec_le v (length n)) [
  | yes here ↦
      let (off, st) = passed-Stands base v n hl pos (omega arith) in
      (passed n v, off, rw (le→leb v (length n) here), st)
  | no on ↦
      let some_left : 0 < length ns = grind arith in
      let (moved, off, e, st) =
        seek_loop-Stands base (v - length n) ns hb pos some_left (omega arith) in
      (
        suc moved,
        off,
        rw (lt→leb v (length n) (omega arith), e),
        record { at = omega (arith, st.at); inside = st.inside },
      )
]
