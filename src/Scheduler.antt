-- ===== src/Scheduler.antt =====
-- sherry/scheduler.h, sherry/scheduler.cc and sherry/fiber.cc: the queue of tasks, and the threads that run them.
-- A fiber is the index of its state in `fibers`. A thread's loop in `run` is cut where its lock is
-- released and where it switches contexts; each piece is one function. `none` is an assertion that fails.
pub mod Pick
pub mod Owned
pub mod Change
pub mod Steps
pub mod Start
pub mod Kept
pub mod Leave
pub mod Count
pub mod Reach
pub mod Race
mod Tests
use ota_new.Common.{
  ℕ, zero, suc, ◌+◌, List, [], ◌∷◌, ◌++◌, Option, none, some, Bool, true, false, ◌&&◌, ◌||◌, not,
  if◌then◌else◌, ◌==◌, length, get_elem?, set,
}
use ota_new.IoManager.{Task, run_fiber, run_callback, increment, decrement}

-- `Fiber::State`.
pub data State : Type 0 where
  init hold exec term ready except : State

abbrev pub is_exec : State → Bool
is_exec exec = true
is_exec _ = false

abbrev pub is_over : State → Bool
is_over term = true
is_over except = true
is_over _ = false

-- How a fiber leaves its thread: `YieldToReady`, `YieldToHold`, the end of its function, an exception, or `swapOut`.
pub data Leaving : Type 0 where
  yields_ready yields_hold returns throws swaps_out : Leaving

abbrev pub left_as : Leaving → State
left_as yields_ready = ready
left_as yields_hold = hold
left_as returns = term
left_as throws = except
left_as swaps_out = exec

-- `FiberAndThread`: `none` is the thread -1, which is any.
pub record Entry (C : Type 0) : Type 0 where
  pub task : Task C
  pub thread : Option ℕ

-- Where a thread is in `run`. `own` tells its `cb_fiber` from a fiber of the queue. A fiber that is leaving has its
-- new state, and still runs on the thread; one that is `settling` is no longer counted, and not yet settled.
pub data Phase (C : Type 0) : Type 0 where
  looking : Phase C
  holds : (t : Task C) → Phase C
  running : (f : ℕ) (own : Bool) → Phase C
  leaving : (f : ℕ) (own : Bool) → Phase C
  back : (f : ℕ) (own : Bool) → Phase C
  settling : (f : ℕ) (own : Bool) → Phase C
  idling : Phase C
  ended : Phase C

-- `cb_fiber` is here while it does not run; `idle_over` says that the idle fiber is TERM.
pub record Worker (C : Type 0) : Type 0 where
  pub thread : ℕ
  pub phase : Phase C
  pub cb_fiber : Option ℕ
  pub idle_over : Bool

pub record Scheduler (C : Type 0) : Type 0 where
  pub queue : List (Entry C)
  pub active : ℕ
  pub idle : ℕ
  pub fibers : List State
  pub workers : List (Worker C)
  pub stopping : Bool
  pub auto_stop : Bool

-- `Fiber::reset` and `Fiber::swapIn`.
unfoldable pub reset : ℕ → List State → Option (List State)
reset f st = elim (get_elem? st f) [
  | none ↦ none
  | some init ↦ some (set st f init)
  | some term ↦ some (set st f init)
  | some except ↦ some (set st f init)
  | some _ ↦ none
]

unfoldable pub swap_in : ℕ → List State → Option (List State)
swap_in f st = elim (get_elem? st f) [
  | none ↦ none
  | some s ↦ if is_exec s then none else some (set st f exec)
]

abbrev pub then_swap_in : ℕ → Option (List State) → Option (List State)
then_swap_in f none = none
then_swap_in f (some st) = swap_in f st

-- What `run` does with a fiber that came back in the state `x`.
abbrev pub settle : ℕ → Bool → State → List State → List State
settle f true term st = set st f init
settle f true except st = set st f init
settle f false term st = st
settle f false except st = st
settle f own ready st = st
settle f own _ st = set st f hold

abbrev pub kept_fiber : ℕ → Bool → State → Option ℕ → Option ℕ
kept_fiber f true term cb = some f
kept_fiber f true except cb = some f
kept_fiber f true _ cb = none
kept_fiber f false x cb = cb

module _ {C : Type 0} where
  abbrev pub is_other : ℕ → Entry C → Bool
  is_other t e = elim e.thread [ none ↦ false | some u ↦ not (u == t) ]

  abbrev pub is_running : List State → Task C → Bool
  is_running st (run_fiber f) = elim (get_elem? st f) [ none ↦ false | some s ↦ is_exec s ]
  is_running st (run_callback c) = false

  -- The loop over the queue: whether to tickle, the task that is taken, and the queue without it.
  unfoldable pub pick : ℕ → List State → List (Entry C) → Bool × Option (Entry C) × List (Entry C)
  pick t st [] = (false, none, [])
  pick t st (e ∷ es) =
      let (tickle, found, rest) = pick t st es in
      if is_other t e
      then (true, found, e ∷ rest)
      else if is_running st e.task
      then (tickle, found, e ∷ rest)
      else (false, some e, es)

  -- `scheduleNoLock`: whether to tickle, and the queue.
  unfoldable pub schedule : Option (Task C) → Option ℕ → Scheduler C → Bool × Scheduler C
  schedule none thread s = (elim s.queue [ [] ↦ true | e ∷ es ↦ false ], s)
  schedule (some t) thread s = (
    elim s.queue [ [] ↦ true | e ∷ es ↦ false ],
    record s { queue = s.queue ++ (record { task = t; thread = thread } ∷ []) },
  )

  abbrev pub put : ℕ → Worker C → Scheduler C → Scheduler C
  put i w s = record s { workers = set s.workers i w }

  -- The locked section of `run`, and the branch for a thread that found nothing.
  abbrev pub taken : ℕ → Worker C → Scheduler C → Option (Entry C) → List (Entry C) → Scheduler C
  taken i w s (some e) rest =
      put i (record w { phase = holds e.task })
        (record s { queue = rest; active = increment s.active })
  taken i w s none rest =
      if w.idle_over
      then put i (record w { phase = ended }) s
      else put i (record w { phase = idling }) (record s { idle = increment s.idle })

  unfoldable pub take_task : ℕ → Worker C → Scheduler C → Scheduler C
  unfolding pick
  take_task i w s = let (_, found, rest) = pick w.thread s.fibers s.queue in taken i w s found rest

  -- A fiber that is entered.
  abbrev pub entered :
      ℕ → Worker C → ℕ → Bool → Scheduler C → Option (List State) → Option (Scheduler C)
  entered i w f own s none = none
  entered i w f own s (some st) =
      some (put i (record w { phase = running f own }) (record s { fibers = st }))

  -- A task that was taken: a fiber that is over is dropped; a callback runs in the thread's `cb_fiber`, or in a new one.
  unfoldable pub start_task : ℕ → Worker C → Task C → Scheduler C → Option (Scheduler C)
  unfolding reset swap_in
  start_task i w (run_fiber f) s = elim (get_elem? s.fibers f) [
    | none ↦ none
    | some x ↦
        if is_over x
        then some (put i (record w { phase = looking }) (record s { active = decrement s.active }))
        else entered i w f false s (swap_in f s.fibers)
  ]
  start_task i w (run_callback c) s = elim w.cb_fiber [
    | some g ↦ entered i (record w { cb_fiber = none }) g true s (then_swap_in g (reset g s.fibers))
    | none ↦ let g = length s.fibers in entered i w g true s (swap_in g (s.fibers ++ (init ∷ [])))
  ]

  -- The fiber sets its state; then the contexts are switched.
  unfoldable pub leave : ℕ → Worker C → ℕ → Bool → Leaving → Scheduler C → Scheduler C
  leave i w f own l s =
      put i (record w { phase = leaving f own }) (record s { fibers = set s.fibers f (left_as l) })

  unfoldable pub switch : ℕ → Worker C → ℕ → Bool → Scheduler C → Scheduler C
  switch i w f own s = put i (record w { phase = back f own }) s

  abbrev pub again : ℕ → State → List (Entry C)
  again f ready = record { task = run_fiber f; thread = none } ∷ []
  again f _ = []

  -- `--m_activeThreadCount` behind `swapIn`, which holds no lock.
  unfoldable pub deactivate : ℕ → Worker C → ℕ → Bool → Scheduler C → Scheduler C
  deactivate i w f own s =
      put i (record w { phase = settling f own }) (record s { active = decrement s.active })

  -- What follows it.
  unfoldable pub finish : ℕ → Worker C → ℕ → Bool → Scheduler C → Option (Scheduler C)
  finish i w f own s = elim (get_elem? s.fibers f) [
    | none ↦ none
    | some x ↦ some (
        put i (record w { phase = looking; cb_fiber = kept_fiber f own x w.cb_fiber })
          (record s { queue = s.queue ++ again f x; fibers = settle f own x s.fibers }))
  ]

  -- The idle fiber came back, at its end or not.
  unfoldable pub wake : ℕ → Worker C → Bool → Scheduler C → Scheduler C
  wake i w over s =
      put i (record w { phase = looking; idle_over = over }) (record s { idle = decrement s.idle })

  -- `stopping` of the scheduler.
  unfoldable pub is_stopping : Scheduler C → Bool
  is_stopping s =
      s.auto_stop && s.stopping && elim s.queue [ [] ↦ true | e ∷ es ↦ false ] && (s.active == 0)
