-- ===== src/Scheduler/Tests.antt =====
-- Runs of a scheduler with two threads, and the theorems on them.
use ota_new.Common.{
  ℕ, ◌&&◌, ◌==◌, length, ◌+◌, ◌≤◌, ◌≡◌, refl, List, [], ◌∷◌, none, some, true, false, get_elem?,
  arith,
}
use ota_new.IoManager.{run_fiber, run_callback}
use ota_new.Scheduler.{
  Scheduler, init, hold, exec, yields_hold, returns, Entry, looking, holds, running, leaving, back,
  Worker, pick, schedule, take_task, start_task, leave, switch, deactivate, finish, is_stopping,
  settling,
}
use ota_new.Scheduler.Pick.{Picked, pick-Picked}
use ota_new.Scheduler.Owned.{sum, runs, queued, busy, idles}
use ota_new.Scheduler.Reach.{
  takes, starts, leaves, switches, deactivates, finishes, schedules, IsNew, Reach, here, next,
  Reach-alone, Reach-stopping,
}
use ota_new.Scheduler.Race.{yield-twice}

-- The entries of thread 7 and of any thread; fiber 1 runs.
abbrev entries : List (Entry ℕ)
entries =
    record { task = run_callback 5; thread = some 7 }
    ∷ record { task = run_fiber 1; thread = none }
    ∷ record { task = run_fiber 0; thread = none }
    ∷ record { task = run_callback 6; thread = none }
    ∷ []

third_is_picked : pick 3 (hold ∷ exec ∷ []) entries ≡ (
  true,
  some (record { task = run_fiber 0; thread = none }),
  record { task = run_callback 5; thread = some 7 }
      ∷ record { task = run_fiber 1; thread = none }
      ∷ record { task = run_callback 6; thread = none }
      ∷ [],
)
unfolding pick
third_is_picked = refl

abbrev resting : ℕ → Worker ℕ
resting t = record { thread = t; phase = looking; cb_fiber = none; idle_over = false }

abbrev fresh : Scheduler ℕ
fresh = record {
  queue = [];
  active = 0;
  idle = 0;
  fibers = [];
  workers = resting 3 ∷ resting 7 ∷ [];
  stopping = true;
  auto_stop = true;
}

fresh-IsNew : IsNew fresh
fresh-IsNew = record {
  queue = refl;
  fibers = refl;
  active = refl;
  idle = refl;
  workers = ((refl, refl), ((refl, refl), tt));
  few = omega arith;
}

-- A callback is scheduled, and the first thread takes it.
abbrev scheduled : Scheduler ℕ
unfolding schedule
scheduled = (schedule (some (run_callback 5)) none fresh).1

abbrev holder : Worker ℕ
holder = record (resting 3) { phase = holds (run_callback 5) }

abbrev took : Scheduler ℕ
unfolding take_task
took = take_task 0 (resting 3) scheduled

-- It runs in a new fiber.
abbrev runner : Worker ℕ
runner = record (resting 3) { phase = running 0 true }

abbrev inside : Scheduler ℕ
inside = record took { fibers = exec ∷ []; workers = runner ∷ resting 7 ∷ [] }

taken_by_two : Reach fresh took
unfolding scheduled took
taken_by_two =
    next (next here (schedules (run_callback 5) none tt)) (takes 0 (resting 3) (refl, refl))

entered_next : Reach fresh inside
unfolding start_task scheduled took
entered_next = next taken_by_two (starts 0 holder (run_callback 5) (refl, refl) refl)

-- The function returns, and the thread keeps the fiber.
abbrev over : Scheduler ℕ
over = record inside {
  active = 0;
  fibers = init ∷ [];
  workers = record (resting 3) { cb_fiber = some 0 } ∷ resting 7 ∷ [];
}

over_at_last : Reach fresh over
unfolding leave switch deactivate finish scheduled took
over_at_last =
    next
      (next
        (next (next entered_next (leaves 0 runner 0 true returns (refl, refl)))
          (switches 0 (record (resting 3) { phase = leaving 0 true }) 0 true (refl, refl)))
        (deactivates 0 (record (resting 3) { phase = back 0 true }) 0 true (refl, refl)))
      (finishes 0 (record (resting 3) { phase = settling 0 true }) 0 true (refl, refl) refl)

Reach-alone_example : sum (runs 0) inside.workers + queued 0 inside.queue ≤ 1
Reach-alone_example = Reach-alone fresh inside 0 fresh-IsNew entered_next

Reach-stopping_example :
    (over.active ≡ sum busy over.workers)
    × (over.idle ≡ sum idles over.workers)
    × (is_stopping over ≡ (
        over.auto_stop
        && (over.stopping && ((length over.queue == 0) && (sum busy over.workers == 0)))))
Reach-stopping_example = Reach-stopping fresh over fresh-IsNew over_at_last

-- Fiber 0 runs on the first thread and is on the queue.
abbrev awaited : Scheduler ℕ
awaited = record fresh {
  queue = record { task = run_fiber 0; thread = none } ∷ [];
  active = 1;
  fibers = exec ∷ [];
  workers = record (resting 3) { phase = running 0 false } ∷ resting 7 ∷ [];
}

yield-twice_example :
    (n : Scheduler ℕ) × (start_task 1
        (record (resting 7) { phase = holds (run_fiber 0) })
        (run_fiber 0)
        (take_task 1
          (resting 7)
          (leave 0 (record (resting 3) { phase = running 0 false }) 0 false yields_hold awaited))
      ≡ some n)
    × (get_elem? n.workers 0 ≡ some (record (resting 3) { phase = leaving 0 false }))
    × (get_elem? n.workers 1 ≡ some (record (resting 7) { phase = running 0 false }))
yield-twice_example =
    yield-twice awaited 0 1 (record (resting 3) { phase = running 0 false }) (resting 7) 0 false []
      (λ e. absurd (omega (arith, e))) (omega arith) (refl, refl) (refl, refl) refl

pick-Picked_example : Picked 3 (hold ∷ exec ∷ []) entries (pick 3 (hold ∷ exec ∷ []) entries)
pick-Picked_example = pick-Picked 3 (hold ∷ exec ∷ []) entries
