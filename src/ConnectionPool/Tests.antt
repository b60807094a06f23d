-- ===== src/ConnectionPool/Tests.antt =====
-- A pool with one connection in use and one given back.
use ota_new.Common.{ℕ, ◌≡◌, refl, [], ◌∷◌, none, some, Bool, true, ◌==◌, arith}
use ota_new.ConnectionPool.{Connection, Pool, get_connection, release, do_request, response, ok}
use ota_new.ConnectionPool.Lent.{IsCounted}
use ota_new.ConnectionPool.Run.{
  Reach, start, gets, releases, Reach-IsCounted, get_connection-ageless,
}

-- Connection 1 is connected until it is not.
abbrev always : ℕ → Bool
always i = true

abbrev not_one : ℕ → Bool
not_one i = i == 2

abbrev empty : Pool
empty = record { conns = []; total = 0; max_alive_time = 30; max_request = 5 }

abbrev first : Connection
first = record { id = 1; create_time = 0; requests = 0 }

abbrev used : Connection
used = record { id = 1; create_time = 0; requests = 1 }

abbrev pooled : Pool
pooled = record empty { conns = used ∷ []; total = 1 }

made_and_kept : do_request always 100 (some 1) response always 110 empty ≡ (ok, pooled)
unfolding do_request
made_and_kept = refl

gone_and_new :
    get_connection not_one 120 (some 2) pooled
    ≡ (some (record { id = 2; create_time = 0; requests = 0 }), record empty { total = 1 })
unfolding get_connection
gone_and_new = refl

-- Before that time on the clock every connection is discarded.
young_is_discarded : (release always 20 first (record empty { total = 1 })) ≡ empty
unfolding release
young_is_discarded = refl

pooled_at_last : Reach 30 5 pooled []
unfolding get_connection release
pooled_at_last = releases always 110 first [] [] (gets always 100 (some 1) (omega arith) start)

Reach-IsCounted_example : IsCounted pooled []
Reach-IsCounted_example = Reach-IsCounted 30 5 pooled [] pooled_at_last

-- Connection 1 is lost; 2 is handed out.
abbrev two_pooled : Pool
two_pooled = record empty { conns = used ∷ record used { id = 2 } ∷ []; total = 2 }

two_at_last : Reach 30 5 two_pooled []
unfolding get_connection release
two_at_last =
    releases always 110 (record first { id = 2 }) [] []
      (releases always 110 first (record first { id = 2 } ∷ []) []
        (gets always 100 (some 2) (omega arith) (gets always 100 (some 1) (omega arith) start)))

get_connection-ageless_example :
    get_connection not_one 120 none two_pooled
    ≡ (some (record used { id = 2 }), record two_pooled { conns = []; total = 1 })
get_connection-ageless_example =
    get_connection-ageless 30 5 two_pooled [] not_one 120 none (used ∷ []) []
      (record used { id = 2 }) two_at_last (omega arith) (omega arith) refl (refl, tt) refl
