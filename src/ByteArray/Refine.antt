-- ===== src/ByteArray/Refine.antt =====
-- The operations of `ByteArray` on a valid array are those of a byte stream with a cursor.
use ota_new.Common.{
  ℕ, ◌+◌, ◌%◌, ◌≤◌, ◌<◌, ◌≡◌, refl, sym, ◌∙◌, ap, List, [], ◌∷◌, ◌++◌, length, take, drop, arith,
  length-append, length-take, length-drop, take-append, take-append-drop, append-nil, ltb,
  if◌then◌else◌,
}
use ota_new.ByteArray
use ota_new.ByteArray.{
  ByteArray, Allocator, Outcome, ok, out_of_range, fault, get_capacity, get_read_size,
}
use ota_new.ByteArray.Chain.{Node, overwrite}
use ota_new.ByteArray.Walk.{join, join-append, length-join, Wrote, write_loop-Wrote}
use ota_new.ByteArray.Inv.{
  IsValid, Blocks-append, Blocks-take, Blocks-drop, Stands-mod, cur-le-length,
  add_capacity-eq-grown, grown, grown-IsValid,
}
use ota_new.ByteArray.Stream
use ota_new.ByteArray.Stream.{
  contents, view, split-join, drop-join, overwrite-join, take-overwrite, room-behind, length-front,
}

-- What a finished call leaves: its result, a valid array, and the same endian and block size.
pub record Done {ℓ} {A : Type ℓ} (out : Outcome A) (a : A) (b : ByteArray) (s : Stream.Stream)
    : Type ℓ where
  pub after : ByteArray
  pub result : out ≡ ok a after
  pub valid : IsValid after
  pub seen : view after ≡ s
  pub same_endian : after.endian ≡ b.endian

-- The array that `write` leaves once its loop has made the chain `r.0` and moved on `r.1` nodes.
abbrev written : ByteArray → List ℕ → List Node × ℕ → ByteArray
written b src r = record b {
  nodes = take b.cur b.nodes ++ r.0;
  cur = b.cur + r.1;
  position = b.position + length src;
  size = if ltb b.size (b.position + length src) then b.position + length src else b.size;
}

abbrev WroteHere : ByteArray → List ℕ → List Node × ℕ → Type 0
WroteHere b src r = Wrote b.base_size (b.position % b.base_size) src (drop b.cur b.nodes) r

written-IsValid :
    (src : List ℕ) {b : ByteArray} (r : List Node × ℕ)
    → IsValid b
    → length src ≤ get_capacity b
    → WroteHere b src r
    → IsValid (written b src r)
written-IsValid src {b} r v room w = record {
  base_pos = v.base_pos;
  blocks =
      Blocks-append b.base_size (take b.cur b.nodes) r.0
        (Blocks-take b.base_size b.cur b.nodes v.blocks) w.blocks;
  rooted = rw same_length v.rooted;
  allocated = rw same_length v.allocated;
  cursor = ground arith;
  stored = ground arith;
  at_cur =
      Stands-mod
        (record { at = omega (arith, w.stands.at, v.at_cur.at); inside = w.stands.inside });
}
  where
    same_length : length (take b.cur b.nodes ++ r.0) ≡ length b.nodes
    same_length = omega (
      arith,
      length-append (take b.cur b.nodes) r.0,
      w.same_length,
      length-take b.cur b.nodes,
      length-drop b.cur b.nodes,
      cur-le-length v,
    )

contents-written :
    (src : List ℕ) {b : ByteArray} (r : List Node × ℕ)
    → IsValid b
    → WroteHere b src r
    → contents (written b src r) ≡ overwrite b.position src (contents b)
contents-written src {b} r v w =
    ap (take (written b src r).size) whole
    ∙ take-overwrite b.position src (join b.nodes) b.size (written b src r).size v.cursor
        (omega (arith, v.stored, v.allocated, length-join b.base_size b.nodes v.blocks)) refl
  where
    whole : join (take b.cur b.nodes ++ r.0) ≡ overwrite b.position src (join b.nodes)
    whole = rw (join-append (take b.cur b.nodes) r.0, w.bytes) (sym (overwrite-join src v))

module _ (alloc : Allocator) where
  write_here-Done :
      (src : List ℕ) {b : ByteArray} (r : List Node × ℕ)
      → IsValid b
      → length src ≤ get_capacity b
      → WroteHere b src r
      → Done (ByteArray.write_here alloc src b) tt b (Stream.write src (view b))
  unfolding ByteArray.write_here Stream.write
  write_here-Done src {b} r v room w = record {
    after = written b src r;
    result = rw (w.result, ByteArray.write_here);
    valid = written-IsValid src r v room w;
    seen = ground (arith, contents-written src r v w);
    same_endian = refl;
  }

  contents-grown :
      (count : ℕ) {b : ByteArray} → IsValid b → contents (grown alloc b count) ≡ contents b
  contents-grown count {b} v = ground (
    arith,
    join-append b.nodes (ByteArray.new_nodes alloc b.base_size (length b.nodes) count),
    take-append b.size (join b.nodes)
        (join (ByteArray.new_nodes alloc b.base_size (length b.nodes) count)),
    length-join b.base_size b.nodes v.blocks,
    append-nil (take b.size (join b.nodes)),
  )

  write_after_growth :
      (src : List ℕ) (count : ℕ) {b : ByteArray}
      → IsValid b
      → 0 < length src
      → ByteArray.add_capacity alloc (length src) b ≡ grown alloc b count
      → Done
          (ByteArray.write_here alloc src (grown alloc b count))
          tt
          (grown alloc b count)
          (Stream.write src (view (grown alloc b count)))
      → Done (ByteArray.write alloc src b) tt b (Stream.write src (view b))
  unfolding ByteArray.write
  write_after_growth src count {b} v pos e d = record {
    after = d.after;
    result = ground (arith, d.result, ap (ByteArray.write_here alloc src) e);
    valid = d.valid;
    seen =
        d.seen
        ∙ ap (λ (c : List ℕ). Stream.write src (record { stored = c; at = b.position }))
            (contents-grown count v);
    same_endian = d.same_endian;
  }

  -- On a valid array `write` returns, however many blocks it allocates: the array it leaves is valid
  -- and has its byte order, and read as one stream it is the old one with the bytes laid over it at
  -- the cursor, which stands behind them.
  pub write-Done :
      (src : List ℕ) {b : ByteArray}
      → IsValid b
      → Done (ByteArray.write alloc src b) tt b (Stream.write src (view b))
  unfolding ByteArray.write Stream.write overwrite
  write-Done [] {b} v = record {
    after = b;
    result = refl;
    valid = v;
    seen = ground (arith, take-append-drop b.position (contents b));
    same_endian = refl;
  }
  write-Done (x ∷ xs) {b} v =
      let src : List ℕ = x ∷ xs in
      let (count, e, room) = add_capacity-eq-grown alloc (length src) v in
      let g = grown alloc b count in
      let valid = grown-IsValid alloc count v in
      let (r, w) =
        write_loop-Wrote b.base_size (b.position % b.base_size) src (drop g.cur g.nodes)
          (Blocks-drop b.base_size g.cur g.nodes valid.blocks) v.at_cur.inside (omega arith)
          (room-behind (length src) valid room) in
      write_after_growth src count v (omega arith) e (write_here-Done src r valid room w)
