-- ===== src/IoManager/Tests.antt =====
-- Runs of the manager of events, and the theorems on a concrete manager.
use ota_new.Common.{
  List, length, map, ◌++◌, ℕ, ◌+◌, ◌≡◌, ◌==◌, false, refl, [], ◌∷◌, none, some, Bool, true, false,
  arith, set,
}
use ota_new.IoManager.{
  IoManager, Task, FdContext, read_event, write_event, run_fiber, run_callback, init, add_event,
  no_context, new_context,
}
use ota_new.IoManager.Both.{Report, cancel_all}
use ota_new.IoManager.Context.{tally, all_waiting}
use ota_new.IoManager.Counted.{IsValid}
use ota_new.IoManager.Grown.{is_waiting}
use ota_new.IoManager.Added.{Added, add_event-Added}
use ota_new.IoManager.Taken.{Conserves, cancel_all-Returns}
use ota_new.IoManager.Reach.{Call, add, call, Reach, start, next, Reach-counted}
use ota_new.IoManager.Idle.{Ready, all_woken, tickled, ready, idle_round, idle_round-Ends}
use ota_new.Timer.{TimerManager, list_expired_cb}
use ota_new.Timer

-- Fiber 6 waits to read from descriptor 5, the callback 8 to write to it; the scheduler is 1.
abbrev reader : Call ℕ
reader = add 1 6 true 5 read_event none

abbrev writer : Call ℕ
writer = add 1 6 true 5 write_event (some 8)

abbrev reading : FdContext ℕ
reading = record {
  events = record { readable = true; writable = false };
  read = record { scheduler = some 1; fiber = some 6; cb = none };
  write = no_context;
}

abbrev busy : FdContext ℕ
busy = record reading {
  events = record { readable = true; writable = true };
  write = record { scheduler = some 1; fiber = none; cb = some 8 };
}

abbrev writing : FdContext ℕ
writing = record busy { events = record { readable = false; writable = true }; read = no_context }

abbrev lone_writer : IoManager ℕ
lone_writer = record { contexts = new_context ∷ writing ∷ []; pending = 1; queue = [] }

-- A manager with six contexts, the last of them for descriptor 5.
abbrev with_last : FdContext ℕ → ℕ → IoManager ℕ
with_last c n = record {
  contexts = new_context ∷ new_context ∷ new_context ∷ new_context ∷ new_context ∷ c ∷ [];
  pending = n;
  queue = [];
}

with_reader :
    add_event 1 6 true 5 read_event none (with_last new_context 0)
    ≡ some (true, with_last reading 1)
unfolding add_event
with_reader = refl

with_both :
    add_event 1 6 true 5 write_event (some 8) (with_last reading 1) ≡ some (true, with_last busy 2)
unfolding add_event
with_both = refl

all_cancelled :
    cancel_all true 5 (with_last busy 2)
    ≡ some (
      true,
      record (with_last new_context 0) { queue = (1, run_fiber 6) ∷ (1, run_callback 8) ∷ [] },
    )
unfolding cancel_all
all_cancelled = refl

-- What two calls on a new manager leave, and its reports.
abbrev started : IoManager ℕ
unfolding init
started = init

abbrev one_waits : IoManager ℕ
one_waits = record started { contexts = set started.contexts 5 reading; pending = 1 }

abbrev two_wait : IoManager ℕ
two_wait = record started { contexts = set started.contexts 5 busy; pending = 2 }

two_calls : Reach ((1, run_callback 8) ∷ (1, run_fiber 6) ∷ []) [] two_wait
unfolding call init is_waiting add_event
two_calls =
    next writer true (next reader true start (omega arith, omega arith, refl) refl)
      (omega arith, omega arith, refl) refl

abbrev hang_up : Report
hang_up = record { in_ready = false; out_ready = false; broken = true }

no : {b : Bool} → false ≡ true → b ≡ true
no e = absurd (ground arith)

abbrev both_ready : Report
both_ready = record { in_ready = true; out_ready = true; broken = false }

-- The fiber 6.
abbrev is_six : ℕ × Task ℕ → Bool
is_six (s, run_fiber f) = f == 6
is_six (s, run_callback c) = false

two_wait-IsValid : IsValid two_wait
two_wait-IsValid =
    (Reach-counted ((1, run_callback 8) ∷ (1, run_fiber 6) ∷ []) [] two_wait is_six two_calls).0

Reach-counted_example :
    IsValid two_wait
    × (tally is_six (all_waiting two_wait.contexts) + tally is_six two_wait.queue + tally is_six []
        ≡ tally is_six ((1, run_callback 8) ∷ (1, run_fiber 6) ∷ []))
Reach-counted_example =
    Reach-counted ((1, run_callback 8) ∷ (1, run_fiber 6) ∷ []) [] two_wait is_six two_calls

add_event-Added_example :
    (r : Bool × IoManager ℕ) × (add_event 1 6 true 40 read_event none two_wait ≡ some r)
    × Added (1, run_fiber 6) two_wait r
unfolding init is_waiting
add_event-Added_example =
    add_event-Added 1 6 true 40 read_event none two_wait two_wait-IsValid (omega arith)
      (omega arith) refl

cancel_all-Returns_example :
    (r : Bool × IoManager ℕ) × (cancel_all true 5 two_wait ≡ some r) × Conserves two_wait r
cancel_all-Returns_example = cancel_all-Returns true 5 two_wait two_wait-IsValid

-- A timer whose callback is 9 is due at time 120.
abbrev timers : TimerManager ℕ
timers = record {
  timers = record { id = 7; recurring = false; ms = 10; next = 100; cb = 9 } ∷ [];
  tickled = false;
  previous_time = 90;
}

abbrev key : Timer.Timer ℕ
key = record { id = 5; recurring = false; ms = 0; next = 120; cb = 0 }

idle_round-Ends_example :
    let rs : List Ready = tickled ∷ ready true 5 hang_up ∷ [] in
    let due : List (ℕ × Task ℕ) = map (λ f. (1, run_callback f)) (list_expired_cb key timers).0 in
    ((idle_round 1 key rs timers two_wait).0 ≡ (list_expired_cb key timers).1)
    × ((n : IoManager ℕ) × ((idle_round 1 key rs timers two_wait).1 ≡ some n)
        × IsValid n
        × (n.queue ≡ two_wait.queue ++ (due ++ all_woken rs two_wait.contexts))
        × (n.pending + length n.queue ≡ two_wait.pending + length two_wait.queue + length due))
unfolding init
idle_round-Ends_example =
    idle_round-Ends 1 key (tickled ∷ ready true 5 hang_up ∷ []) timers two_wait two_wait-IsValid
      ((busy, refl, no, no), (λ x e. tt))
