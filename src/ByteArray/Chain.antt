-- ===== src/ByteArray/Chain.antt =====
-- The loops of `ByteArray::write` and `ByteArray::read` (sherry/bytearray.cc) over the chain of nodes.
-- The list is the chain from `m_cur` on, so its end stands for a null `m_cur`; `none` is a read through
-- that null pointer.
use ota_new.Common.{
  ℕ, suc, ◌+◌, ◌-◌, List, [], ◌∷◌, ◌++◌, Option, none, some, leb, ◌==◌, if◌then◌else◌, length, take,
  drop,
}
use mathlib.Core.Option

-- A node holds its bytes; `m_cur->size` is their number.
abbrev pub Node : Type 0
Node = List ℕ

-- `memcpy(node->ptr + at, src, n)` for the `n` bytes of `src`.
unfoldable pub overwrite : ℕ → List ℕ → Node → Node
overwrite at src node = take at node ++ (src ++ drop (at + length src) node)

-- How far `m_cur` moves when the last piece ends at byte `stop` of its node.
abbrev pub passed : Node → ℕ → ℕ
passed node stop = if length node == stop then 1 else 0

-- The new chain, and the number of nodes that `m_cur` moved on. Called with at least one byte.
unfoldable pub write_loop : List Node → ℕ → List ℕ → Option (List Node × ℕ)
write_loop [] npos src = none
write_loop (node ∷ rest) npos src =
    let ncap = length node - npos in
    let later = write_loop rest 0 (drop ncap src) in
    if leb (length src) ncap
    then some (overwrite npos src node ∷ rest, passed node (npos + length src))
    else Option.map (λ p. (overwrite npos (take ncap src) node ∷ p.0, suc p.1)) later

-- The bytes read, and the number of nodes that `m_cur` moved on. Called with `0 < size`.
unfoldable pub read_loop : List Node → ℕ → ℕ → Option (List ℕ × ℕ)
read_loop [] npos size = none
read_loop (node ∷ rest) npos size =
    let ncap = length node - npos in
    let later = read_loop rest 0 (size - ncap) in
    if leb size ncap
    then some (take size (drop npos node), passed node (npos + size))
    else Option.map (λ p. (drop npos node ++ p.0, suc p.1)) later

-- `read` looks at `m_cur->size` before its loop, also when there is nothing to read.
unfoldable pub read_chain : List Node → ℕ → ℕ → Option (List ℕ × ℕ)
read_chain [] npos size = none
read_chain (node ∷ rest) npos size =
    if size == 0 then some ([], 0) else read_loop (node ∷ rest) npos size

-- The loop of `setPosition`: how many nodes `m_cur` moves on from the first, with `v` bytes to go.
unfoldable pub seek_loop : List Node → ℕ → Option ℕ
seek_loop [] v = none
seek_loop (node ∷ rest) v =
    let later = seek_loop rest (v - length node) in
    if leb v (length node) then some (passed node v) else Option.map suc later
