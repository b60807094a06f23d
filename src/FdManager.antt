-- ===== src/FdManager.antt =====
-- sherry/fd_manager.h and fd_manager.cc: what the library knows of each descriptor. What `fstat` says of a descriptor is a
-- parameter, and which descriptors the kernel has as non-blocking is a state.
mod Tests
pub mod Found
use ota_new.Common.{
  ℕ, ◌+◌, ◌-◌, ◌*◌, ◌/◌, ◌^◌, List, [], ◌∷◌, ◌++◌, Option, none, some, Bool, true, false, ◌||◌, not,
  if◌then◌else◌, ◌==◌, leb, length, take, replicate, get_elem?, set,
}

-- A timeout of -1 is 2^64 - 1.
pub record FdCtx : Type 0 where
  pub is_init : Bool
  pub is_socket : Bool
  pub sys_nonblock : Bool
  pub user_nonblock : Bool
  pub is_closed : Bool
  pub fd : ℕ
  pub recv_timeout : ℕ
  pub send_timeout : ℕ

-- The descriptors that are non-blocking.
abbrev pub Flags : Type 0
Flags = ℕ → Bool

abbrev pub set_nonblock : ℕ → Flags → Flags
set_nonblock fd flags g = (g == fd) || flags g

-- `init` on a context that is not initialised; `stat` is none where `fstat` fails, else whether it is a socket.
unfoldable pub init : Option Bool → FdCtx → Flags → FdCtx × Flags
init stat c flags =
    let found : Bool = elim stat [ none ↦ false | some socket ↦ true ] in
    let socket : Bool = elim stat [ none ↦ false | some socket ↦ socket ] in
    if c.is_init then (c, flags) else (
      record c {
        is_init = found;
        is_socket = socket;
        sys_nonblock = socket;
        user_nonblock = false;
        is_closed = false;
        recv_timeout = 2 ^ 64 - 1;
        send_timeout = 2 ^ 64 - 1;
      },
      if socket then set_nonblock c.fd flags else flags,
    )

unfoldable pub new_ctx : Option Bool → ℕ → Flags → FdCtx × Flags
unfolding init
new_ctx stat fd flags =
    init stat
      (record {
        is_init = false;
        is_socket = false;
        sys_nonblock = false;
        user_nonblock = false;
        is_closed = false;
        fd = fd;
        recv_timeout = 2 ^ 64 - 1;
        send_timeout = 2 ^ 64 - 1;
      })
      flags

-- `SO_RCVTIMEO` is true.
unfoldable pub set_timeout : Bool → ℕ → FdCtx → FdCtx
set_timeout receive v c =
    if receive then record c { recv_timeout = v } else record c { send_timeout = v }

unfoldable pub get_timeout : Bool → FdCtx → ℕ
get_timeout receive c = if receive then c.recv_timeout else c.send_timeout

-- `m_datas`, and the descriptors of the kernel.
pub record FdManager : Type 0 where
  pub datas : List (Option FdCtx)
  pub flags : Flags

unfoldable pub new_manager : Flags → FdManager
new_manager flags = record { datas = replicate 64 none; flags = flags }

unfoldable pub resize : ℕ → List (Option FdCtx) → List (Option FdCtx)
resize n ds = take n ds ++ replicate (n - length ds) none

abbrev pub grown : ℕ → List (Option FdCtx) → List (Option FdCtx)
grown fd ds = if leb (length ds) fd then resize (fd * 3 / 2) ds else ds

abbrev pub created : Option (FdCtx × FdManager) → Option (Option FdCtx × FdManager)
created none = none
created (some (c, m)) = some (some c, m)

module _ (stat : ℕ → Option Bool) where
  -- The section with the write lock; `none` is a write outside of the vector.
  unfoldable pub create : ℕ → FdManager → Option (FdCtx × FdManager)
  unfolding new_ctx resize
  create fd m =
      let (c, flags) = new_ctx (stat fd) fd m.flags in
      let ds = grown fd m.datas in
      elim (get_elem? ds fd) [
        | none ↦ none
        | some x ↦ some (c, record { datas = set ds fd (some c); flags = flags })
      ]

  -- `get`; the descriptor -1 is `none`.
  unfoldable pub get : Option ℕ → Bool → FdManager → Option (Option FdCtx × FdManager)
  unfolding create
  get none auto_create m = some (none, m)
  get (some fd) auto_create m = elim (get_elem? m.datas fd) [
    | none ↦ if auto_create then created (create fd m) else some (none, m)
    | some none ↦ if auto_create then created (create fd m) else some (none, m)
    | some (some c) ↦ some (some c, m)
  ]

unfoldable pub del : ℕ → FdManager → FdManager
del fd m = record m { datas = set m.datas fd none }
