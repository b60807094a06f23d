-- ===== src/ByteArray/Buffers/Gather.antt =====
-- The pieces hold the bytes behind the cursor.
use ota_new.Common.{
  ℕ, ◌+◌, ◌-◌, ◌*◌, ◌%◌, ◌≤◌, ◌<◌, ◌≡◌, refl, sym, ap, ◌∙◌, subst, List, [], ◌∷◌, ◌++◌, append-nil,
  some, true, false, ◌==◌, if◌then◌else◌, length, take, drop, get_or, map, arith, le→leb, lt→leb,
  take-all, take-take, length-drop, min, drop-append, take-append,
}
use native.Mathlib.Decide.{dec_le}
use ota_new.ByteArray.{ByteArray, ok, set_position}
use ota_new.ByteArray.Chain.{Node}
use ota_new.ByteArray.Walk.{join, Blocks}
use ota_new.ByteArray.Inv.{IsValid, Blocks-drop}
use ota_new.ByteArray.Stream.{contents, room-behind, length-contents}
use ota_new.ByteArray.Refine.{Done}
use ota_new.ByteArray.Reading.{bytes-at-cursor, set_position-Done}
use ota_new.ByteArray.Buffers.{
  Iovec, shift, buffers_loop, gather, clip, counted, get_read_buffers, socket_write,
}

gather-shift :
    (node : Node) (rest : List Node) (vs : List Iovec)
    → gather (node ∷ rest) (map shift vs) ≡ gather rest vs
unfolding gather
gather-shift node rest [] = refl
gather-shift node rest (v ∷ vs) =
    ap (λ (l : List ℕ). take v.len (drop v.offset (get_or rest v.node [])) ++ l)
      (gather-shift node rest vs)

-- The loop stays on the chain where that is long enough, and finds its bytes.
loop-gathers :
    (base npos n : ℕ) (ns : List Node)
    → Blocks base ns
    → npos < base
    → 0 < n
    → npos + n ≤ length ns * base
    → (vs : List Iovec) × (buffers_loop ns npos n ≡ some vs)
      × (gather ns vs ≡ take n (drop npos (join ns)))
unfolding buffers_loop gather join
loop-gathers base npos n [] h hn hs room = absurd (omega arith)
loop-gathers base npos n (node ∷ rest) (hl, hb) hn hs room = elim (dec_le n (length node - npos)) [
  | yes fits ↦ (
    record { node = 0; offset = npos; len = n } ∷ [],
    rw (le→leb n (length node - npos) fits, buffers_loop) refl,
    ground (
      arith,
      drop-append npos node (join rest),
      take-append n (drop npos node) (join rest),
      length-drop npos node,
      append-nil (take n (drop npos node)),
    ),
  )
  | no on ↦
      let ncap = length node - npos in
      let (vs, e, g) =
        loop-gathers base 0 (n - ncap) rest hb (omega arith) (omega arith) (omega arith) in
      (
        record { node = 0; offset = npos; len = ncap } ∷ map shift vs,
        rw (lt→leb n ncap (omega arith), e, buffers_loop) refl,
        ap (λ (l : List ℕ). take ncap (drop npos node) ++ l) (gather-shift node rest vs ∙ g)
            ∙ ground (
              arith,
              drop-append npos node (join rest),
              take-append n (drop npos node) (join rest),
              length-drop npos node,
              take-all ncap (drop npos node),
              take-all n (drop npos node),
            ),
      )
]

from_loop :
    (len : ℕ) (b : ByteArray) (n : ℕ) (vs : List Iovec)
    → clip len b ≡ n
    → (n == 0) ≡ false
    → buffers_loop (drop b.cur b.nodes) (b.position % b.base_size) n ≡ some vs
    → get_read_buffers len b ≡ some (n, vs)
unfolding get_read_buffers
from_loop len b n vs c z e =
    subst
      (λ (k : ℕ).
        (if k == 0
          then some (0, [])
          else counted k (buffers_loop (drop b.cur b.nodes) (b.position % b.base_size) k))
        ≡ some (n, vs))
      (sym c) (rw (z, e) refl)

-- Where something is to be read, `getReadBuffers` of a valid array stays on the chain, tells how many bytes the
-- pieces have, which is what is asked for but no more than there is, and these are the bytes at the cursor.
pub get_read_buffers-gathers :
    (len : ℕ) (b : ByteArray)
    → IsValid b
    → 0 < len
    → b.position < b.size
    → (vs : List Iovec) × (get_read_buffers len b ≡ some (min len (b.size - b.position), vs))
      × (gather (drop b.cur b.nodes) vs ≡ take len (drop b.position (contents b)))
unfolding get_read_buffers
get_read_buffers-gathers len b v pos left =
    let n = min len (b.size - b.position) in
    let same = clip_min len b in
    let (vs, e, g) =
      loop-gathers b.base_size (b.position % b.base_size) n (drop b.cur b.nodes)
        (Blocks-drop b.base_size b.cur b.nodes v.blocks) v.at_cur.inside (omega (arith, pos, left))
        (room-behind n v (omega (arith, v.stored))) in
    (
      vs,
      from_loop len b n vs same (not_zero n (omega (arith, pos, left))) e,
      g ∙ bytes-at-cursor n v (omega (arith, left)) ∙ cut len b v,
    )
  where
    clip_min : (len : ℕ) (b : ByteArray) → clip len b ≡ min len (b.size - b.position)
    clip_min len b = ground arith

    not_zero : (k : ℕ) → 1 ≤ k → (k == 0) ≡ false
    not_zero k h = ground arith

    cut :
        (len : ℕ) (b : ByteArray)
        → IsValid b
        → take (min len (b.size - b.position)) (drop b.position (contents b))
          ≡ take len (drop b.position (contents b))
    cut len b v =
        sym (take-take len (b.size - b.position) (drop b.position (contents b)))
        ∙ ap (take len) (
            take-all (b.size - b.position) (drop b.position (contents b))
              (omega (arith, length-drop b.position (contents b), length-contents v)))

sent_and_moved :
    (len n k : ℕ) (b after : ByteArray) (vs : List Iovec)
    → get_read_buffers len b ≡ some (n, vs)
    → (k == 0) ≡ false
    → set_position (b.position + k) b ≡ ok tt after
    → socket_write true len (some k) b ≡ ok (some (take k (gather (drop b.cur b.nodes) vs))) after
unfolding socket_write
sent_and_moved len n k b after vs e z s = rw (e, z, s, socket_write) refl

-- A `SocketStream::write` of a valid array of which `send` takes `k` bytes, at least one and no more than it was
-- given, has sent the `k` bytes at the cursor, and the cursor is behind them; the array stays valid
-- and its bytes are the same.
pub socket_write-sends :
    (len k : ℕ) (b : ByteArray)
    → IsValid b
    → 1 ≤ k
    → k ≤ len
    → k ≤ b.size - b.position
    → Done
        (socket_write true len (some k) b)
        (some (take k (drop b.position (contents b))))
        b
        (record { stored = contents b; at = b.position + k })
socket_write-sends len k b v pos le room =
    let (vs, e, g) =
      get_read_buffers-gathers len b v (omega (arith, pos, le)) (omega (arith, pos, room)) in
    let moved = set_position-Done (b.position + k) v (omega (arith, room, pos)) in
    let bytes =
      ap (take k) g
      ∙ take-take k len (drop b.position (contents b))
      ∙ ap (λ (j : ℕ). take j (drop b.position (contents b))) (smaller k len le) in
    record {
      after = moved.after;
      result =
          sent_and_moved len (min len (b.size - b.position)) k b moved.after vs e (not_zero k pos)
            moved.result
          ∙ ap (λ (l : List ℕ). ok (some l) moved.after) bytes;
      valid = moved.valid;
      seen = moved.seen;
      same_endian = moved.same_endian;
    }
  where
    smaller : (k len : ℕ) → k ≤ len → min k len ≡ k
    smaller k len h = omega (arith, h)

    not_zero : (k : ℕ) → 1 ≤ k → (k == 0) ≡ false
    not_zero k h = ground arith
