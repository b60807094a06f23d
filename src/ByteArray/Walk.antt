-- ===== src/ByteArray/Walk.antt =====
-- What the loops over the chain do to its bytes read in one piece.
use ota_new.Common.{
  ℕ, suc, ◌+◌, ◌-◌, ◌*◌, ◌≤◌, ◌<◌, ◌≡◌, refl, sym, ap, ◌∙◌, List, [], ◌∷◌, ◌++◌, some, le→leb,
  lt→leb, length, take, drop, All, arith, append-nil, append_assoc, length-append, length-take,
  length-drop, take-append, drop-append, take-append-drop, drop-all,
}
use native.Mathlib.Decide.{dec_le, dec_lt}
use ota_new.ByteArray.Chain.{Node, overwrite, passed, write_loop}

unfoldable pub join : List Node → List ℕ
join [] = []
join (node ∷ rest) = node ++ join rest

abbrev pub Blocks : ℕ → List Node → Type 0
Blocks base ns = All (λ (n : Node). length n ≡ base) ns

pub length-join : (base : ℕ) (ns : List Node) → Blocks base ns → length (join ns) ≡ length ns * base
unfolding join
length-join base [] h = omega arith
length-join base (n ∷ ns) h = grind (arith, length-append n (join ns), length-join base ns h.1)

pub join-append : (ms ns : List Node) → join (ms ++ ns) ≡ join ms ++ join ns
unfolding join
join-append [] ns = refl
join-append (m ∷ ms) ns = ap (◌++◌ m) (join-append ms ns) ∙ append_assoc-sym
  where
    append_assoc-sym : m ++ (join ms ++ join ns) ≡ (m ++ join ms) ++ join ns
    append_assoc-sym = rw append_assoc

pub overwrite-head :
    (npos : ℕ) (src node later : List ℕ)
    → npos + length src ≤ length node
    → overwrite npos src (node ++ later) ≡ overwrite npos src node ++ later
unfolding overwrite
overwrite-head npos src node later h = ground (
  arith,
  take-append npos node later,
  drop-append (npos + length src) node later,
  append-nil (take npos node),
  append_assoc (take npos node) (src ++ drop (npos + length src) node) later,
  append_assoc src (drop (npos + length src) node) later,
)

-- Writing past the end of a node fills it and goes on at the front of what follows.
pub overwrite-across :
    (npos : ℕ) (src node later : List ℕ)
    → npos ≤ length node
    → length node < npos + length src
    → overwrite npos src (node ++ later)
      ≡ overwrite npos (take (length node - npos) src) node
        ++ overwrite 0 (drop (length node - npos) src) later
unfolding overwrite
overwrite-across npos src node later h k =
    let n = length node - npos in
    ground (
      arith,
      take-append npos node later,
      drop-append (npos + length src) node later,
      drop-all (npos + length src) node,
      drop-all (npos + length (take n src)) node,
      length-take n src,
      length-drop n src,
      take-append-drop n src,
      append-nil (take npos node),
      append-nil (take n src),
      append_assoc (take npos node) (take n src) (drop n src ++ drop (length src - n) later),
      append_assoc (take n src) (drop n src) (drop (length src - n) later),
    )

pub length-overwrite :
    (npos : ℕ) (src node : List ℕ)
    → npos + length src ≤ length node
    → length (overwrite npos src node) ≡ length node
unfolding overwrite
length-overwrite npos src node h = omega (
  arith,
  length-append (take npos node) (src ++ drop (npos + length src) node),
  length-append src (drop (npos + length src) node),
  length-take npos node,
  length-drop (npos + length src) node,
)

-- `moved` nodes were passed and the walk stands at byte `off` of the next, `walked` bytes on.
pub record Stands (base walked moved off : ℕ) : Type 0 where
  pub at : moved * base + off ≡ walked
  pub inside : off < base

-- The write loop succeeds where the chain has room, keeps its shape, and overwrites its bytes.
pub record Wrote (base npos : ℕ) (src : List ℕ) (ns : List Node) (r : List Node × ℕ) : Type 0 where
  pub result : write_loop ns npos src ≡ some r
  pub blocks : Blocks base r.0
  pub same_length : length r.0 ≡ length ns
  pub bytes : join r.0 ≡ overwrite npos src (join ns)
  pub off : ℕ
  pub stands : Stands base (npos + length src) r.1 off

-- Where the last piece ends: at the front of the next node, or inside this one.
pub passed-Stands :
    (base stop : ℕ) (n : Node)
    → length n ≡ base
    → 0 < base
    → stop ≤ base
    → (off : ℕ) × Stands base stop (passed n stop) off
passed-Stands base stop n hl pos h = elim (dec_lt stop base) [
  | yes inside ↦ (stop, ground arith)
  | no end ↦ (0, ground arith)
]

Wrote-head :
    (base npos : ℕ) (src : List ℕ) (n : Node) (ns : List Node)
    → length n ≡ base
    → Blocks base ns
    → 0 < base
    → npos + length src ≤ base
    → length src ≤ length n - npos
    → (off : ℕ) × Stands base (npos + length src) (passed n (npos + length src)) off
    → Wrote base npos src (n ∷ ns) (overwrite npos src n ∷ ns, passed n (npos + length src))
unfolding write_loop join
Wrote-head base npos src n ns hl hb pos room fits (off, stands) = record {
  result = rw (le→leb (length src) (length n - npos) fits);
  blocks = (omega (arith, length-overwrite npos src n (omega arith)), hb);
  same_length = refl;
  bytes = sym (overwrite-head npos src n (join ns) (omega arith));
  off = off;
  stands = stands;
}

Wrote-across :
    (base npos : ℕ) (src : List ℕ) (n : Node) (ns : List Node) (r : List Node × ℕ)
    → length n ≡ base
    → npos < base
    → length n - npos < length src
    → Wrote base 0 (drop (length n - npos) src) ns r
    → Wrote base npos src (n ∷ ns) (overwrite npos (take (length n - npos) src) n ∷ r.0, suc r.1)
unfolding write_loop join
Wrote-across base npos src n ns r hl hn more w = record {
  result = rw (lt→leb (length src) (length n - npos) more, w.result);
  blocks = (
    omega (
      arith,
      length-take (length n - npos) src,
      length-overwrite npos (take (length n - npos) src) n
          (omega (arith, length-take (length n - npos) src)),
    ),
    w.blocks,
  );
  same_length = ap suc w.same_length;
  bytes = rw w.bytes (sym (overwrite-across npos src n (join ns) (omega arith) (omega arith)));
  off = w.off;
  stands = record {
    at = omega (arith, w.stands.at, length-drop (length n - npos) src);
    inside = w.stands.inside;
  };
}

pub write_loop-Wrote :
    (base npos : ℕ) (src : List ℕ) (ns : List Node)
    → Blocks base ns
    → npos < base
    → 0 < length src
    → npos + length src ≤ length ns * base
    → (r : List Node × ℕ) × Wrote base npos src ns r
write_loop-Wrote base npos src [] h hn hs room = absurd (omega arith)
write_loop-Wrote base npos src (n ∷ ns) (hl, hb) hn hs room =
    elim (dec_le (length src) (length n - npos)) [
      | yes fits ↦ (
        _,
        Wrote-head base npos src n ns hl hb (omega arith) (omega arith) fits
            (passed-Stands base (npos + length src) n hl (omega arith) (omega arith)),
      )
      | no more ↦
          let short : length (drop (length n - npos) src) ≡ length src - (length n - npos) =
            length-drop (length n - npos) src in
          let (r, w) =
            write_loop-Wrote base 0 (drop (length n - npos) src) ns hb (omega arith) (omega arith)
              (omega arith) in
          (_, Wrote-across base npos src n ns r hl hn (omega arith) w)
    ]
