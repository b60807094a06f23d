-- ===== src/IoManager.antt =====
-- sherry/iomanager.h and sherry/iomanager.cc: the events that fibers and callbacks wait for.
-- A context is the index of its descriptor in `contexts`; the result of `epoll_ctl` and what `epoll_wait`
-- reports are arguments. `none` is an assertion that fails. Descriptors are not negative.
pub mod Both
pub mod Context
pub mod Counted
pub mod Taken
pub mod Grown
pub mod Added
pub mod Reach
pub mod Woken
pub mod Idle
mod Tests
use ota_new.Common.{
  ℕ, zero, suc, ◌+◌, ◌-◌, ◌*◌, ◌/◌, ◌%◌, ◌^◌, List, [], ◌∷◌, ◌++◌, Option, none, some, Bool, true,
  false, ◌&&◌, ◌||◌, not, if◌then◌else◌, ltb, ◌==◌, length, take, get_elem?, set,
}

pub data Event : Type 0 where
  read_event write_event : Event

-- The bits of `events`: READ and WRITE.
pub record Events : Type 0 where
  pub readable : Bool
  pub writable : Bool

abbrev pub has : Event → Events → Bool
has read_event e = e.readable
has write_event e = e.writable

-- What a scheduler is given.
pub data Task (C : Type 0) : Type 0 where
  run_fiber : ℕ → Task C
  run_callback : C → Task C

pub record EventContext (C : Type 0) : Type 0 where
  pub scheduler : Option ℕ
  pub fiber : Option ℕ
  pub cb : Option C

pub record FdContext (C : Type 0) : Type 0 where
  pub events : Events
  pub read : EventContext C
  pub write : EventContext C

-- `queue` is what was scheduled, with the scheduler that it went to, in order.
pub record IoManager (C : Type 0) : Type 0 where
  pub contexts : List (FdContext C)
  pub pending : ℕ
  pub queue : List (ℕ × Task C)

-- `m_pendingEventCount` is a `size_t`.
abbrev pub increment : ℕ → ℕ
increment n = (n + 1) % 2 ^ 64

abbrev pub decrement : ℕ → ℕ
decrement n = (n + 2 ^ 64 - 1) % 2 ^ 64

module _ {C : Type 0} where
  abbrev pub no_context : EventContext C
  no_context = record { scheduler = none; fiber = none; cb = none }

  abbrev pub new_context : FdContext C
  new_context = record {
    events = record { readable = false; writable = false };
    read = no_context;
    write = no_context;
  }

  abbrev pub get_context : Event → FdContext C → EventContext C
  get_context read_event c = c.read
  get_context write_event c = c.write

  -- The bit of an event, and the event's context.
  abbrev pub put_event : Event → Bool → EventContext C → FdContext C → FdContext C
  put_event read_event b x c = record c { events = record c.events { readable = b }; read = x }
  put_event write_event b x c = record c { events = record c.events { writable = b }; write = x }

  -- `schedule(&ctx.cb)` and `schedule(&ctx.fiber)` take what they schedule out of the context.
  abbrev pub scheduled : ℕ → Option ℕ → Option C → List (ℕ × Task C) × Option ℕ × Option C
  scheduled s fiber (some f) = ((s, run_callback f) ∷ [], fiber, none)
  scheduled s (some i) none = ((s, run_fiber i) ∷ [], none, none)
  scheduled s none none = ([], none, none)

  abbrev pub fire_context : EventContext C → Option (EventContext C × List (ℕ × Task C))
  fire_context x = elim x.scheduler [
    | none ↦ none
    | some s ↦
        let (tasks, fiber, cb) = scheduled s x.fiber x.cb in
        some (record { scheduler = none; fiber = fiber; cb = cb }, tasks)
  ]

  -- A context is called through its scheduler, which is there while the bit is set.
  abbrev pub fired :
      Event
      → FdContext C
      → Option (EventContext C × List (ℕ × Task C))
      → Option (FdContext C × List (ℕ × Task C))
  fired e c none = none
  fired e c (some (x, tasks)) = some (put_event e false x c, tasks)

  unfoldable pub trigger_event : Event → FdContext C → Option (FdContext C × List (ℕ × Task C))
  trigger_event e c = if has e c.events then fired e c (fire_context (get_context e c)) else none

  unfoldable pub reset_context : Event → FdContext C → FdContext C
  reset_context e c = put_event e false no_context c

  unfoldable pub fresh_contexts : ℕ → List (FdContext C)
  fresh_contexts zero = []
  fresh_contexts (suc n) = new_context ∷ fresh_contexts n

  -- `contextResize`: the vector is cut or filled with new contexts.
  unfoldable pub context_resize : ℕ → List (FdContext C) → List (FdContext C)
  unfolding fresh_contexts
  context_resize n cs = take n cs ++ fresh_contexts (n - length cs)

  unfoldable pub init : IoManager C
  unfolding context_resize
  init = record { contexts = context_resize 32 []; pending = 0; queue = [] }

  abbrev is_clear : EventContext C → Bool
  is_clear x = elim x.scheduler [
    | some s ↦ false
    | none ↦ elim x.fiber [ some i ↦ false | none ↦ elim x.cb [ some f ↦ false | none ↦ true ] ]
  ]

  -- The callback, or the fiber that runs.
  abbrev pub waiting : ℕ → Option C → ℕ → EventContext C
  waiting s (some f) current = record { scheduler = some s; fiber = none; cb = some f }
  waiting s none current = record { scheduler = some s; fiber = some current; cb = none }

  -- The part of `addEvent` behind the look-up of the context.
  unfoldable pub add_to_context :
      ℕ → ℕ → Bool → ℕ → Event → Option C → FdContext C → IoManager C → Option (Bool × IoManager C)
  add_to_context s current ok fd e cb c m =
      if has e c.events
      then none
      else if not ok
      then some (false, m)
      else if is_clear (get_context e c)
      then some (
        true,
        record m {
          pending = increment m.pending;
          contexts = set m.contexts fd (put_event e true (waiting s cb current) c);
        },
      )
      else none

  -- `addEvent`: true for 0, false for -1. `s` is the scheduler and `current` the fiber that run.
  unfoldable pub add_event :
      ℕ → ℕ → Bool → ℕ → Event → Option C → IoManager C → Option (Bool × IoManager C)
  unfolding context_resize add_to_context
  add_event s current ok fd e cb m =
      let grown =
        if ltb fd (length m.contexts) then m.contexts else context_resize (fd * 3 / 2) m.contexts in
      if ltb fd 1 then some (false, m) else elim (get_elem? grown fd) [
        | none ↦ none
        | some c ↦ add_to_context s current ok fd e cb c (record m { contexts = grown })
      ]

  unfoldable pub del_event : Bool → ℕ → Event → IoManager C → Bool × IoManager C
  unfolding reset_context
  del_event ok fd e m = elim (get_elem? m.contexts fd) [
    | none ↦ (false, m)
    | some c ↦
        if has e c.events && ok
        then (
          true,
          record m {
            pending = decrement m.pending;
            contexts = set m.contexts fd (reset_context e c);
          },
        )
        else (false, m)
  ]

  -- An event is triggered where the flag says so, and counted.
  abbrev pub after_trigger :
      FdContext C × List (ℕ × Task C) × ℕ
      → Option (FdContext C × List (ℕ × Task C))
      → Option (FdContext C × List (ℕ × Task C) × ℕ)
  after_trigger (c, tasks, pending) none = none
  after_trigger (c, tasks, pending) (some (c', more)) = some (c', tasks ++ more, decrement pending)

  unfoldable pub trigger_if :
      Bool
      → Event
      → FdContext C × List (ℕ × Task C) × ℕ
      → Option (FdContext C × List (ℕ × Task C) × ℕ)
  unfolding trigger_event
  trigger_if false e (c, tasks, pending) = some (c, tasks, pending)
  trigger_if true e (c, tasks, pending) = after_trigger (c, tasks, pending) (trigger_event e c)

  abbrev pub store :
      ℕ → IoManager C → Option (FdContext C × List (ℕ × Task C) × ℕ) → Option (Bool × IoManager C)
  store fd m none = none
  store fd m (some (c, tasks, pending)) = some (
    true,
    record m { contexts = set m.contexts fd c; queue = m.queue ++ tasks; pending = pending },
  )

  unfoldable pub cancel_event : Bool → ℕ → Event → IoManager C → Option (Bool × IoManager C)
  unfolding trigger_if
  cancel_event ok fd e m = elim (get_elem? m.contexts fd) [
    | none ↦ some (false, m)
    | some c ↦
        if has e c.events && ok
        then store fd m (trigger_if true e (c, [], m.pending))
        else some (false, m)
  ]
