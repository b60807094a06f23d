-- ===== src/Timer/Tests.antt =====
-- Runs of the timer manager, and the theorems on a concrete set.
use ota_new.Common.{map, ◌++◌, ℕ, ◌^◌, ◌<◌, ◌≡◌, refl, [], ◌∷◌, true, false, All, inl, arith}
use ota_new.Timer.{
  Timer, TimerManager, add_timer, cancel, list_expired_cb, init, detect_clock_rollover, less,
}
use ota_new.Timer.Order.{IsValid, cancel-IsValid}
use mathlib.Core.List.{Perm}
use ota_new.Timer.Cut.{due_at, not_due_at}
use ota_new.Timer.Due.{recurring_at, list_expired_cb-due}
use ota_new.Timer.Reach.{Reach, adds, expires, cancels, here, next, Reach-IsValid}
use ota_new.Timer.Settle.{list_expired_cb-settles}

abbrev poll : Timer ℕ
poll = record { id = 7; recurring = true; ms = 10; next = 100; cb = 1 }

abbrev once : Timer ℕ
once = record { id = 3; recurring = false; ms = 50; next = 150; cb = 2 }

abbrev two : TimerManager ℕ
two = record { timers = poll ∷ once ∷ []; tickled = false; previous_time = 90 }

-- `two` on a clock that had been far ahead.
abbrev ahead : TimerManager ℕ
ahead = record two { previous_time = 2 ^ 30 }

two-IsValid : IsValid two
two-IsValid = record {
  sorted = ((inl (omega arith), tt), (tt, tt));
  distinct = ((omega arith, tt), (tt, tt));
}

-- What `listExpiredCb` allocates at time 120.
abbrev key : Timer ℕ
key = record { id = 5; recurring = false; ms = 0; next = 120; cb = 0 }

forth : (detect_clock_rollover key.next two).0 ≡ false
unfolding detect_clock_rollover
forth = refl

back : (detect_clock_rollover key.next ahead).0 ≡ true
unfolding detect_clock_rollover
back = refl

one_expires : (list_expired_cb key two).0 ≡ 1 ∷ []
unfolding list_expired_cb less
one_expires = refl

cancel-IsValid_example : IsValid (cancel 7 two).1
cancel-IsValid_example = cancel-IsValid 7 two-IsValid

list_expired_cb-due_example :
    ((list_expired_cb key two).0 ≡ map (λ t. t.cb) (due_at 120 two.timers))
    × Perm
        (list_expired_cb key two).1.timers
        (recurring_at 120 (due_at 120 two.timers) ++ not_due_at 120 two.timers)
list_expired_cb-due_example = list_expired_cb-due key two two-IsValid forth

list_expired_cb-settles_example : All (λ t. 120 < t.next) (list_expired_cb key two).1.timers
list_expired_cb-settles_example =
    list_expired_cb-settles key two two-IsValid
      ((omega arith, omega arith), ((omega arith, omega arith), tt))

-- A timer is added, it expires and is put back, and it is cancelled.
abbrev after_three : TimerManager ℕ
after_three = (cancel 4 (list_expired_cb key (add_timer 4 5 9 true 110 (init 90)).1).1).1

three_calls : Reach (init 90) after_three
unfolding init
three_calls = next (next (next here (adds 4 5 9 true 110 tt)) (expires key)) (cancels 4)

Reach-IsValid_example : IsValid after_three
Reach-IsValid_example = Reach-IsValid 90 after_three three_calls
