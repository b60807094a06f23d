-- ===== src/ConnectionPool.antt =====
-- sherry/http/http_connection.cc: `HttpConnectionPool`. Which connections are connected, the clock, and the
-- result of connecting anew are arguments; a connection has its address as `id`.
mod Tests
pub mod Lent
pub mod Run
use ota_new.Common.{
  ℕ, zero, suc, ◌+◌, ◌-◌, ◌%◌, ◌^◌, List, [], ◌∷◌, ◌++◌, Option, none, some, Bool, true, false,
  ◌||◌, not, if◌then◌else◌, ◌==◌, ltb, leb, length,
}

-- Nothing ever sets `m_createTime` from its 0.
pub record Connection : Type 0 where
  pub id : ℕ
  pub create_time : ℕ
  pub requests : ℕ

-- `m_maxSize` is never read.
pub record Pool : Type 0 where
  pub conns : List Connection
  pub total : ℕ
  pub max_alive_time : ℕ
  pub max_request : ℕ

-- `m_total` is an atomic 32-bit number.
abbrev pub less32 : ℕ → ℕ → ℕ
less32 t n = (t + 2 ^ 32 - n) % 2 ^ 32

abbrev pub more32 : ℕ → ℕ
more32 t = (t + 1) % 2 ^ 32

-- The age of a connection, in a `uint64_t`.
abbrev pub alive_until : ℕ → Connection → ℕ
alive_until alive c = (c.create_time + alive) % 2 ^ 64

-- The loop over the connections: how many are invalid, the first that is not, and those behind it.
unfoldable pub take_valid :
    (ℕ → Bool) → ℕ → ℕ → List Connection → ℕ × Option Connection × List Connection
take_valid connected now alive [] = (0, none, [])
take_valid connected now alive (c ∷ cs) =
    let (n, found, rest) = take_valid connected now alive cs in
    if not (connected c.id) || ltb now (alive_until alive c)
    then (n + 1, found, rest)
    else (0, some c, cs)

-- `fresh` is the new connection's address, if it can be made.
abbrev pub connect : Option ℕ → Pool → Option Connection × Pool
connect none p = (none, p)
connect (some i) p =
    (some (record { id = i; create_time = 0; requests = 0 }), record p { total = more32 p.total })

abbrev pub given :
    Option ℕ → Pool → ℕ × Option Connection × List Connection → Option Connection × Pool
given fresh p (n, some c, rest) = (some c, record p { conns = rest; total = less32 p.total n })
given fresh p (n, none, rest) = connect fresh (record p { conns = rest; total = less32 p.total n })

unfoldable pub get_connection : (ℕ → Bool) → ℕ → Option ℕ → Pool → Option Connection × Pool
unfolding take_valid
get_connection connected now fresh p =
    given fresh p (take_valid connected now p.max_alive_time p.conns)

-- `ReleasePtr`.
unfoldable pub release : (ℕ → Bool) → ℕ → Connection → Pool → Pool
release connected now c p =
    let used = (c.requests + 1) % 2 ^ 64 in
    if not (connected c.id) || leb now (alive_until p.max_alive_time c) || leb p.max_request used
    then record p { total = less32 p.total 1 }
    else record p { conns = p.conns ++ (record c { requests = used } ∷ []) }

-- What `sendRequest` and `recvResponse` came to.
pub data Exchange : Type 0 where
  closed_by_peer socket_error no_response response : Exchange

-- `HttpResult::Error`.
pub data Error : Type 0 where
  ok invalid_url invalid_host connect_fail send_close_by_peer send_socket_error timeout
        create_socket_error pool_get_connection pool_invalid_connection :
      Error

abbrev pub error_of : Exchange → Error
error_of closed_by_peer = send_close_by_peer
error_of socket_error = send_socket_error
error_of no_response = timeout
error_of response = ok

abbrev pub exchanged : (ℕ → Bool) → ℕ → Exchange → Option Connection × Pool → Error × Pool
exchanged connected now e (none, p) = (pool_get_connection, p)
exchanged connected now e (some c, p) = (error_of e, release connected now c p)

-- `doRequest`: the connection is released when the request is done, at the time `after`.
unfoldable pub do_request :
    (ℕ → Bool) → ℕ → Option ℕ → Exchange → (ℕ → Bool) → ℕ → Pool → Error × Pool
unfolding get_connection release
do_request connected now fresh e connected_after after p =
    exchanged connected_after after e (get_connection connected now fresh p)
