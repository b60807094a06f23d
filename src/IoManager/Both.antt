-- ===== src/IoManager/Both.antt =====
-- sherry/iomanager.cc: the operations on both events of a descriptor, `cancelAll` and a round of `idle`, and
-- the condition on which `idle` ends. What `epoll_wait` reports is an argument.
use ota_new.Common.{
  ℕ, ◌-◌, ◌^◌, List, [], Option, none, some, Bool, false, ◌&&◌, ◌||◌, if◌then◌else◌, ◌==◌,
  get_elem?,
}
use ota_new.IoManager.{
  Events, Task, FdContext, IoManager, trigger_if, store, read_event, write_event,
}

-- What `epoll_wait` reports of a descriptor.
pub record Report : Type 0 where
  pub in_ready : Bool
  pub out_ready : Bool
  pub broken : Bool

-- `real_events`: an error or a hang-up stands for the events that are waited for.
abbrev pub real_events : Report → Events → Events
real_events r e = record {
  readable = r.in_ready || (r.broken && e.readable);
  writable = r.out_ready || (r.broken && e.writable);
}

module _ {C : Type 0} where
  -- READ first, then WRITE, each if its flag is set when it is its turn.
  abbrev pub then_write :
      (FdContext C → Bool)
      → Option (FdContext C × List (ℕ × Task C) × ℕ)
      → Option (FdContext C × List (ℕ × Task C) × ℕ)
  then_write flag none = none
  then_write flag (some (c, tasks, pending)) = trigger_if (flag c) write_event (c, tasks, pending)

  -- The assertion behind both.
  abbrev pub all_clear :
      Option (FdContext C × List (ℕ × Task C) × ℕ) → Option (FdContext C × List (ℕ × Task C) × ℕ)
  all_clear none = none
  all_clear (some (c, tasks, pending)) =
      if c.events.readable || c.events.writable then none else some (c, tasks, pending)

  unfoldable pub cancel_all : Bool → ℕ → IoManager C → Option (Bool × IoManager C)
  unfolding trigger_if
  cancel_all ok fd m = elim (get_elem? m.contexts fd) [
    | none ↦ some (false, m)
    | some c ↦
        if (c.events.readable || c.events.writable) && ok
        then store fd m (
            all_clear (
              then_write (λ c'. c'.events.writable)
                (trigger_if c.events.readable read_event (c, [], m.pending))))
        else some (false, m)
  ]

  -- One round of the loop in `idle` over the reported events, on a descriptor's context.
  unfoldable pub handle_report : Bool → ℕ → Report → IoManager C → Option (Bool × IoManager C)
  unfolding trigger_if
  handle_report ok fd r m = elim (get_elem? m.contexts fd) [
    | none ↦ none
    | some c ↦
        let real = real_events r c.events in
        if ((c.events.readable && real.readable) || (c.events.writable && real.writable)) && ok
        then store fd m (
            then_write (λ c'. real.writable)
              (trigger_if real.readable read_event (c, [], m.pending)))
        else some (false, m)
  ]

  -- `stopping` of the manager: no timer, no event, and the scheduler's own condition.
  unfoldable pub is_stopping : ℕ → Bool → IoManager C → Bool
  is_stopping next_timeout scheduler_stopping m =
      (next_timeout == 2 ^ 64 - 1) && ((m.pending == 0) && scheduler_stopping)
