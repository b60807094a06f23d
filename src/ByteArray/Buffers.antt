-- ===== src/ByteArray/Buffers.antt =====
-- `getReadBuffers` of sherry/bytearray.cc: the pieces of the chain for a vectored write, and the write of
-- sherry/socket_stream.cc that sends them. A piece names its node by the number of nodes from the first one.
pub mod Gather
use ota_new.Common.{
  ℕ, zero, suc, ◌+◌, ◌-◌, ◌/◌, ◌%◌, List, [], ◌∷◌, ◌++◌, Option, none, some, Bool, true, false, ltb,
  leb, ◌==◌, if◌then◌else◌, length, take, drop, get_or, map,
}
use mathlib.Core.Option
use ota_new.ByteArray
use ota_new.ByteArray.{ByteArray, get_read_size, Outcome, ok, out_of_range, fault, set_position}
use ota_new.ByteArray.Chain.{Node}

-- `iovec`.
pub record Iovec : Type 0 where
  pub node : ℕ
  pub offset : ℕ
  pub len : ℕ

abbrev pub shift : Iovec → Iovec
shift v = record v { node = suc v.node }

-- The loop, from the node it starts in; called with at least one byte. `none` is a walk off the chain.
unfoldable pub buffers_loop : List Node → ℕ → ℕ → Option (List Iovec)
buffers_loop [] npos len = none
buffers_loop (node ∷ rest) npos len =
    let ncap = length node - npos in
    let later = buffers_loop rest 0 (len - ncap) in
    if leb len ncap
    then some (record { node = 0; offset = npos; len = len } ∷ [])
    else Option.map (λ vs. record { node = 0; offset = npos; len = ncap } ∷ map shift vs) later

-- What the pieces hold.
unfoldable pub gather : List Node → List Iovec → List ℕ
gather ns [] = []
gather ns (v ∷ vs) = take v.len (drop v.offset (get_or ns v.node [])) ++ gather ns vs

abbrev pub clip : ℕ → ByteArray → ℕ
clip len b = if ltb (get_read_size b) len then get_read_size b else len

abbrev pub counted : ℕ → Option (List Iovec) → Option (ℕ × List Iovec)
counted n none = none
counted n (some vs) = some (n, vs)

-- From the cursor; the nodes count from `m_cur`.
unfoldable pub get_read_buffers : ℕ → ByteArray → Option (ℕ × List Iovec)
unfolding buffers_loop
get_read_buffers len b =
    if clip len b == 0
    then some (0, [])
    else counted (clip len b)
        (buffers_loop (drop b.cur b.nodes) (b.position % b.base_size) (clip len b))

-- From a position of the caller's; the length is cut by what lies behind the cursor all the same.
unfoldable pub get_read_buffers_at : ℕ → ℕ → ByteArray → Option (ℕ × List Iovec)
unfolding buffers_loop
get_read_buffers_at len position b =
    if clip len b == 0
    then some (0, [])
    else counted (clip len b)
        (buffers_loop (drop (position / b.base_size) b.nodes) (position % b.base_size) (clip len b))

-- `SocketStream::write` of an array: the bytes that were sent, and `none` for -1. What `send` of the pieces
-- returns is an argument.
abbrev pub advanced : ℕ → List ℕ → Outcome (Unit {0}) → Outcome (Option (List ℕ))
advanced k bytes (ok u b) = ok (some bytes) b
advanced k bytes (out_of_range b) = out_of_range b
advanced k bytes fault = fault

unfoldable pub socket_write : Bool → ℕ → Option ℕ → ByteArray → Outcome (Option (List ℕ))
unfolding get_read_buffers gather
socket_write false len sent b = ok none b
socket_write true len sent b = elim (get_read_buffers len b) [
  | none ↦ fault
  | some (n, vs) ↦ elim sent [
    | none ↦ ok none b
    | some k ↦
        if k == 0
        then ok (some []) b
        else advanced k (take k (gather (drop b.cur b.nodes) vs)) (set_position (b.position + k) b)
  ]
]
