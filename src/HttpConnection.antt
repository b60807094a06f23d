-- ===== src/HttpConnection.antt =====
-- sherry/http/http_connection.cc: a request and the receiving of a response. The parser that Ragel generates is a
-- parameter, with the `execute` of http_parser.cc around it, and so is what zlib makes of a body.
pub mod Chunks
pub mod Whole
pub mod Tests
use ota_new.Common.{
  ℕ, zero, suc, ◌+◌, ◌-◌, ◌%◌, ◌^◌, List, [], ◌∷◌, ◌++◌, Option, none, some, Bool, true, false,
  ◌||◌, ◌&&◌, not, if◌then◌else◌, ◌==◌, ltb, leb, length, take, drop, replicate, min, Text, codes,
}
use ota_new.Stream.{
  Reading, got, failed, Outcome, returned, waits, read_fix_size, Sent, write_fix_size,
}
use ota_new.HttpSession.{write_at, paint}
use ota_new.Http.{dump_request, HttpRequest, MapType, new_request, set_value, same_case, is_empty}
use ota_new.Http.Methods.{HttpMethod}

-- `execute` gives the parser behind the bytes that it took, and their number; `restart` is
-- httpclient_parser_init, which `execute` of a chunk begins with. `encoding` is the header "content-encoding".
pub record Parser (P R : Type 0) : Type 0 where
  pub start : P
  pub restart : P → P
  pub execute : P → List ℕ → P × ℕ
  pub has_error : P → Bool
  pub is_finished : P → Bool
  pub is_chunked : P → Bool
  pub content_len : P → ℕ
  pub chunks_done : P → Bool
  pub content_length : P → ℕ
  pub encoding : P → Text
  pub get_data : P → R
  pub set_body : List ℕ → R → R
  pub gunzip : List ℕ → List ℕ
  pub inflate : List ℕ → List ℕ

-- What `recvResponse` returns: the response, or nullptr with the connection closed; or it waits for bytes, or is
-- still at a chunk when the fuel is gone.
pub data Received (R : Type 0) : Type 0 where
  response : (r : R) → Received R
  closed : Received R
  pending : Received R
  no_fuel : Received R

-- The header of a message or of a chunk: the parser behind it, with what it did not take and the reads to come.
pub data Head (P : Type 0) : Type 0 where
  header : (q : P) (left : List ℕ) (rs : List Reading) → Head P
  lost : Head P
  waiting : Head P

-- The rest of a chunk.
pub data Filled : Type 0 where
  filled : (body : List ℕ) (rs : List Reading) → Filled
  broken : Filled
  short : Filled

-- `while(left > 0)`: the reads are for `left` bytes at most.
unfoldable pub fill : ℕ → List ℕ → List Reading → Filled
fill left body [] = if left == 0 then filled body [] else short
fill left body (failed ∷ rs) = if left == 0 then filled body (failed ∷ rs) else broken
fill left body (got bytes ∷ rs) =
    let rest = fill (left - length bytes) (body ++ bytes) rs in
    if left == 0 then filled body (got bytes ∷ rs) else if length bytes == 0 then broken else rest

-- A chunk taken: the body with it, what is held, and the reads to come.
pub data Chunk : Type 0 where
  taken : (body held : List ℕ) (rs : List Reading) → Chunk
  torn : Chunk
  wanting : Chunk

-- The content of a chunk of `n` bytes and the "\r\n" behind it.
unfoldable pub take_chunk : ℕ → List ℕ → List ℕ → List Reading → Chunk
unfolding fill
take_chunk n body held rs =
    if leb (n + 2) (length held)
    then taken (body ++ take n held) (drop (n + 2) held) rs
    else elim (fill (n + 2 - length held) (body ++ held) rs) [
      | filled whole later ↦ taken (take (length whole - 2) whole) [] later
      | broken ↦ torn
      | short ↦ wanting
    ]

module _ {P R : Type 0} (parser : Parser P R) where
  -- One `execute` and the checks behind it; `run` is the parser that it starts with.
  abbrev pub try_head : ℕ → (P → P) → P → List ℕ → List Reading → (P → List ℕ → Head P) → Head P
  try_head size run p held rs more =
      let (q, n) = parser.execute (run p) held in
      let left = drop n held in
      let again = more q left in
      if parser.has_error q || (length left == size)
      then lost
      else if parser.is_finished q
      then header q left rs
      else again

  -- The loop over a header that begins with a read.
  unfoldable pub read_head : ℕ → (P → P) → P → List ℕ → List Reading → Head P
  read_head size run p held [] = waiting
  read_head size run p held (failed ∷ rs) = lost
  read_head size run p held (got bytes ∷ rs) =
      let tried = try_head size run p (held ++ bytes) rs (λ q left. read_head size run q left rs) in
      if length bytes == 0 then lost else tried

  -- The header of a chunk: only where nothing is held does it begin with a read.
  unfoldable pub chunk_head : ℕ → P → List ℕ → List Reading → Head P
  unfolding read_head
  chunk_head size p held rs =
      if length held == 0
      then read_head size parser.restart p held rs
      else try_head size parser.restart p held rs
          (λ q left. read_head size parser.restart q left rs)

  -- `content_encoding` and the body; one that is empty is not set.
  unfoldable pub decoded : P → List ℕ → List ℕ
  decoded p body =
      if same_case (parser.encoding p) (codes "gzip")
      then parser.gunzip body
      else if same_case (parser.encoding p) (codes "deflate")
      then parser.inflate body
      else body

  unfoldable pub with_body : P → List ℕ → R
  unfolding decoded
  with_body p body =
      if length body == 0
      then parser.get_data p
      else parser.set_body (decoded p body) (parser.get_data p)

  -- The loop over the chunks, on fuel.
  unfoldable pub chunk_loop : ℕ → ℕ → P → List ℕ → List ℕ → List Reading → Received R
  unfolding chunk_head take_chunk with_body
  chunk_loop zero size p body held rs = no_fuel
  chunk_loop (suc fuel) size p body held rs = elim (chunk_head size p held rs) [
    | lost ↦ closed
    | waiting ↦ pending
    | header q left later ↦ elim (take_chunk (parser.content_len q) body left later) [
      | torn ↦ closed
      | wanting ↦ pending
      | taken whole rest last ↦
          let more = chunk_loop fuel size q whole rest last in
          if parser.chunks_done q then response (with_body q whole) else more
    ]
  ]

  abbrev fixed_rest : P → List ℕ → List ℕ → Outcome → Received R
  fixed_rest p held body (returned n q) =
      if (n == 0) || leb (2 ^ 31) n
      then closed
      else response (with_body p (paint (length held) q.chunks body))
  fixed_rest p held body (waits q) = pending

  -- A body of the length that the header tells.
  unfoldable pub fixed_body : P → List ℕ → List Reading → Received R
  unfolding write_at paint read_fix_size with_body
  fixed_body p held rs =
      let n = parser.content_length p in
      let empty = replicate n 0 in
      if n == 0
      then response (with_body p [])
      else if ltb (length held) n
      then fixed_rest p held (write_at 0 held empty) (read_fix_size (n - length held) rs)
      else response (with_body p (write_at 0 (take n held) empty))

  -- `recvResponse`: `size` is that of the buffer.
  unfoldable pub recv_response : ℕ → ℕ → List Reading → Received R
  unfolding read_head chunk_loop fixed_body
  recv_response fuel size rs = elim (read_head size (λ p. p) parser.start [] rs) [
    | lost ↦ closed
    | waiting ↦ pending
    | header q left later ↦
        if parser.is_chunked q
        then chunk_loop fuel size q [] left later
        else fixed_body q left later
  ]

-- `sendRequest`: `returns` are those of `write`.
unfoldable pub send_request : HttpRequest → List ℕ → Sent
unfolding dump_request write_fix_size
send_request req returns = write_fix_size (dump_request req) returns

-- `DoRequest`: the headers are given in the order of a `std::map`.
unfoldable pub add_headers : MapType → Bool → HttpRequest → Bool × HttpRequest
add_headers [] has_host r = (has_host, r)
add_headers ((k, v) ∷ hs) has_host r =
    let host = if not has_host && same_case k (codes "host") then not (is_empty v) else has_host in
    let r' : HttpRequest = record r { headers = set_value k v r.headers } in
    let skip : HttpRequest =
      if same_case v (codes "keep-alive") then record r { close = false } else r in
    let hop : Bool = same_case k (codes "connection") in
    add_headers hs (if hop then has_host else host) (if hop then skip else r')

-- What `DoRequest` makes of the parts of a URL.
unfoldable pub build_request :
    HttpMethod → Text → Text → Text → Text → MapType → List ℕ → HttpRequest
unfolding add_headers
build_request m path query fragment host headers body =
    let (has_host, r) = add_headers headers false (record (new_request 0x11 true) {
      method = m;
      path = path;
      query = query;
      fragment = fragment;
    }) in
    let named : HttpRequest =
      if has_host then r else record r { headers = set_value (codes "Host") host r.headers } in
    record named { body = body }
