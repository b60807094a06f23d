-- ===== src/FdManager/Tests.antt =====
-- The manager of descriptors on concrete ones.
use ota_new.Common.{
  ℕ, ◌≡◌, refl, [], ◌∷◌, Option, none, some, Bool, true, false, ◌==◌, if◌then◌else◌, arith,
}
use ota_new.FdManager.{FdCtx, FdManager, get, new_ctx}
use ota_new.FdManager.Found.{Gives, get-Gives}

-- Descriptor 5 is a socket, and 2 is a file.
abbrev kernel : ℕ → Option Bool
kernel fd = if fd == 5 then some true else if fd == 2 then some false else none

abbrev small : FdManager
small = record { datas = none ∷ none ∷ none ∷ []; flags = λ g. false }

sockets_do_not_block : (new_ctx (kernel 5) 5 small.flags).1 5 ≡ true
unfolding new_ctx
sockets_do_not_block = refl

minus_one : get kernel none true small ≡ some (none, small)
unfolding get
minus_one = refl

get-Gives_example :
    (r : Option FdCtx × FdManager) × (get kernel (some 5) true small ≡ some r)
    × Gives kernel 5 small r
get-Gives_example = get-Gives kernel 5 small (omega arith)
