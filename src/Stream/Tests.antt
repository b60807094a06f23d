-- ===== src/Stream/Tests.antt =====
-- Reads and writes of a stream, and the theorems on them.
use ota_new.Common.{ℕ, ◌+◌, ◌^◌, ◌≡◌, refl, List, [], ◌∷◌, ◌++◌, replicate, arith, false}
use ota_new.Stream.{
  got, failed, Progress, returned, waits, read_fix_size, completed, write_fix_size, left_after,
  socket_read,
}
use ota_new.Stream.Whole.{all_got, read_fix_size-whole, write_fix_size-whole}
use ota_new.Stream.Failing.{read_fix_size-never, left_after-wraps}

abbrev pieces : List (List ℕ)
pieces = (1 ∷ 2 ∷ []) ∷ (3 ∷ []) ∷ []

closed_early :
    read_fix_size 3 (got (1 ∷ 2 ∷ []) ∷ got [] ∷ [])
    ≡ returned 0 (record { offset = 2; left = 1; chunks = (0, 1 ∷ 2 ∷ []) ∷ [] })
unfolding read_fix_size
closed_early = refl

not_connected : socket_read false (got (1 ∷ [])) ≡ failed
unfolding socket_read
not_connected = refl

read_fix_size-whole_example :
    read_fix_size 3 (all_got pieces ++ (failed ∷ []))
    ≡ returned 3 (record { offset = 3; left = 0; chunks = (0, 1 ∷ 2 ∷ []) ∷ (2, 3 ∷ []) ∷ [] })
read_fix_size-whole_example =
    read_fix_size-whole pieces (failed ∷ []) (omega arith, (omega arith, tt)) (omega arith)

all_is_written :
    write_fix_size (7 ∷ 8 ∷ 9 ∷ []) ((1 ∷ 2 ∷ []) ++ [])
    ≡ completed 3 (record { offset = 3; left = 0; sent = 7 ∷ 8 ∷ 9 ∷ [] })
all_is_written =
    write_fix_size-whole (7 ∷ 8 ∷ 9 ∷ []) (1 ∷ 2 ∷ []) [] (omega arith, (omega arith, tt)) refl
      (omega arith)

read_fix_size-never_example :
    (q : Progress) × (read_fix_size 4 (replicate 100 failed) ≡ waits q)
    × (q.left ≡ 4 + 100)
    × (q.chunks ≡ [])
read_fix_size-never_example = read_fix_size-never 4 100 (omega arith) (omega arith)

left_after-wraps_example : left_after 4 (6 ∷ []) + 6 ≡ 4 + 2 ^ 64
left_after-wraps_example = left_after-wraps 4 6 (omega arith) (omega arith) (omega arith)
