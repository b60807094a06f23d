-- ===== src/HttpSession.antt =====
-- sherry/http/http_session.cc: receiving a request. The parser that Ragel generates is a parameter, with the
-- `execute` of http_parser.cc around it, which moves what was not parsed to the front of the buffer.
mod Tests
pub mod Body
pub mod Receive
use ota_new.Common.{
  ℕ, zero, suc, ◌+◌, ◌-◌, ◌%◌, ◌^◌, List, [], ◌∷◌, ◌++◌, Option, none, some, Bool, true, false,
  ◌||◌, not, if◌then◌else◌, ◌==◌, ltb, leb, length, take, drop, replicate,
}
use ota_new.Stream.{
  Reading, got, failed, Outcome, returned, waits, read_fix_size, Sent, write_fix_size,
}
use ota_new.Http.{HttpResponse, dump_response}

-- `execute` gives the parser behind the bytes that it took, and their number.
pub record Parser (P R : Type 0) : Type 0 where
  pub start : P
  pub execute : P → List ℕ → P × ℕ
  pub has_error : P → Bool
  pub is_finished : P → Bool
  pub content_length : P → ℕ
  pub get_data : P → R
  pub set_body : List ℕ → R → R
  pub init : R → R

-- What `recvRequest` returns; `closed` closed the session, and `pending` waits for bytes.
pub data Received (R : Type 0) : Type 0 where
  request : (r : R) → Received R
  closed : Received R
  pending : Received R

-- Bytes at a place of the body.
unfoldable pub write_at : ℕ → List ℕ → List ℕ → List ℕ
write_at place bytes body = take place body ++ bytes ++ drop (place + length bytes) body

unfoldable pub paint : ℕ → List (ℕ × List ℕ) → List ℕ → List ℕ
unfolding write_at
paint place [] body = body
paint place ((offset, bytes) ∷ chunks) body =
    paint place chunks (write_at (place + offset) bytes body)

module _ {P R : Type 0} (parser : Parser P R) where
  abbrev pub done : P → R
  done p = parser.init (parser.get_data p)

  abbrev pub with_body : P → List ℕ → R
  with_body p body = parser.init (parser.set_body body (parser.get_data p))

  -- The rest of a body of which `held` is there; an `int` of the pattern 0, or with its sign bit, is not positive.
  abbrev pub rest_of_body : P → List ℕ → List ℕ → Outcome → Received R
  rest_of_body p held body (returned n q) =
      if (n == 0) || leb (2 ^ 31) n
      then closed
      else request (with_body p (paint (length held) q.chunks body))
  rest_of_body p held body (waits q) = pending

  -- The part of `recvRequest` behind the loop.
  unfoldable pub receive_body : P → List ℕ → List Reading → Received R
  unfolding paint write_at
  receive_body p held rs =
      let n = parser.content_length p % 2 ^ 32 in
      let empty = replicate n 0 in
      if n == 0
      then request (done p)
      else if ltb (length held) n
      then rest_of_body p held (write_at 0 held empty) (read_fix_size (n - length held) rs)
      else request (with_body p (write_at 0 (take n held) empty))

  -- The loop; `size` is that of the buffer, and `held` what is in it.
  unfoldable pub receive_loop : ℕ → P → List ℕ → List Reading → Received R
  unfolding receive_body
  receive_loop size p held [] = pending
  receive_loop size p held (failed ∷ rs) = closed
  receive_loop size p held (got bytes ∷ rs) =
      let data_in = held ++ bytes in
      let (q, n) = parser.execute p data_in in
      let left = drop n data_in in
      let rest = receive_loop size q left rs in
      if length bytes == 0
      then closed
      else if parser.has_error q || (length left == size)
      then closed
      else if parser.is_finished q
      then receive_body q left rs
      else rest

  unfoldable pub recv_request : ℕ → List Reading → Received R
  unfolding receive_loop
  recv_request size rs = receive_loop size parser.start [] rs

-- `sendResponse`: `returns` are those of `write`.
unfoldable pub send_response : HttpResponse → List ℕ → Sent
unfolding dump_response write_fix_size
send_response rsp returns = write_fix_size (dump_response rsp) returns
