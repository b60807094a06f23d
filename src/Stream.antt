-- ===== src/Stream.antt =====
-- sherry/stream.cc and sherry/socket_stream.cc: reading and writing a fixed number of bytes.
-- What the calls of `read` and `write` return, in order, is an argument; a negative return is a failure. The loops
-- keep the return in a `size_t`, in which -1 is 2^64 - 1.
mod Tests
pub mod Whole
pub mod Failing
use ota_new.Common.{
  ℕ, zero, suc, ◌+◌, ◌-◌, ◌%◌, ◌^◌, List, [], ◌∷◌, ◌++◌, Bool, true, false, if◌then◌else◌, ◌==◌,
  length, take, drop,
}

-- A return of `read`: the bytes that it put where it was told, or -1.
pub data Reading : Type 0 where
  got : (bytes : List ℕ) → Reading
  failed : Reading

-- `SocketStream::read`: -1 on a socket that is not connected.
unfoldable pub socket_read : Bool → Reading → Reading
socket_read connected received = if connected then received else failed

abbrev pub size_of : Reading → ℕ
size_of (got bytes) = length bytes
size_of failed = 2 ^ 64 - 1

-- `offset` and `left`, and what was written, with the offset where it was.
pub record Progress : Type 0 where
  pub offset : ℕ
  pub left : ℕ
  pub chunks : List (ℕ × List ℕ)

-- The call returned the pattern of an `int`, or waits in `read`.
pub data Outcome : Type 0 where
  returned : (n : ℕ) (p : Progress) → Outcome
  waits : (p : Progress) → Outcome

abbrev pub put_bytes : ℕ → Reading → List (ℕ × List ℕ) → List (ℕ × List ℕ)
put_bytes offset (got bytes) cs = cs ++ ((offset, bytes) ∷ [])
put_bytes offset failed cs = cs

abbrev pub advance : Reading → Progress → Progress
advance r p = record {
  offset = (p.offset + size_of r) % 2 ^ 64;
  left = (p.left + 2 ^ 64 - size_of r) % 2 ^ 64;
  chunks = put_bytes p.offset r p.chunks;
}

-- `readFixSize`; `n` is what it is asked for.
unfoldable pub read_loop : ℕ → List Reading → Progress → Outcome
read_loop n [] p = if p.left == 0 then returned (n % 2 ^ 32) p else waits p
read_loop n (r ∷ rs) p =
    let rest = read_loop n rs (advance r p) in
    if p.left == 0 then returned (n % 2 ^ 32) p else if size_of r == 0 then returned 0 p else rest

unfoldable pub read_fix_size : ℕ → List Reading → Outcome
unfolding read_loop
read_fix_size n rs = read_loop n rs (record { offset = 0; left = n; chunks = [] })

-- `writeFixSize`: the returns of `write` are numbers of a `size_t`; `sent` is what was written of the buffer.
pub record Sending : Type 0 where
  pub offset : ℕ
  pub left : ℕ
  pub sent : List ℕ

pub data Sent : Type 0 where
  completed : (n : ℕ) (s : Sending) → Sent
  blocked : (s : Sending) → Sent

unfoldable pub write_loop : List ℕ → List ℕ → Sending → Sent
write_loop buffer [] s = if s.left == 0 then completed (length buffer % 2 ^ 32) s else blocked s
write_loop buffer (k ∷ ks) s =
    let rest = write_loop buffer ks (record {
      offset = (s.offset + k) % 2 ^ 64;
      left = (s.left + 2 ^ 64 - k) % 2 ^ 64;
      sent = s.sent ++ take k (drop s.offset buffer);
    }) in
    if s.left == 0
    then completed (length buffer % 2 ^ 32) s
    else if k == 0
    then completed 0 s
    else rest

unfoldable pub write_fix_size : List ℕ → List ℕ → Sent
unfolding write_loop
write_fix_size buffer ks =
    write_loop buffer ks (record { offset = 0; left = length buffer; sent = [] })

-- The loop of the other `readFixSize`, which reads into a `ByteArray` and asks for `length` each time: what is left after
-- the returns.
unfoldable pub left_after : ℕ → List ℕ → ℕ
left_after left [] = left
left_after left (k ∷ ks) =
    let rest = left_after ((left + 2 ^ 64 - k) % 2 ^ 64) ks in
    if left == 0 then 0 else if k == 0 then left else rest
