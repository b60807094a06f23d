-- ===== src/IoManager/Reach.antt =====
-- Runs of the manager: calls of its operations one after the other, from a new manager.
use ota_new.Common.{
  ℕ, List, [], ◌∷◌, ◌++◌, ◌+◌, ◌^◌, ◌≤◌, ◌<◌, ◌≡◌, refl, sym, ap, ◌∙◌, subst, Option, some, Bool,
  true, false, if◌then◌else◌, get_elem?, arith,
}
use mathlib.Core.Option.{some-injective}
use ota_new.IoManager
use ota_new.IoManager.{
  Event, Task, FdContext, add_event, del_event, cancel_event, init, context_resize, fresh_contexts,
}
use ota_new.IoManager.Both.{Report, cancel_all, handle_report}
use ota_new.IoManager.Context.{tally, tally-append, all_waiting}
use ota_new.IoManager.Counted.{IsValid}
use ota_new.IoManager.Grown.{fresh-waiting, fresh-All, fresh-total, is_waiting}
use ota_new.IoManager.Added.{new_task, waiting_at, add_event-Added, del_event-Deleted}
use ota_new.IoManager.Taken.{
  Conserves, cancel_event-Returns, cancel_all-Returns, handle_report-Returns,
}

-- What is called, with the scheduler and the fiber that run, and the result of `epoll_ctl`.
pub data Call (C : Type 0) : Type 0 where
  add : (s current : ℕ) (ok : Bool) (fd : ℕ) (e : Event) (cb : Option C) → Call C
  del : (ok : Bool) (fd : ℕ) (e : Event) → Call C
  cancel : (ok : Bool) (fd : ℕ) (e : Event) → Call C
  cancel_both : (ok : Bool) (fd : ℕ) → Call C
  report : (ok : Bool) (fd : ℕ) (r : Report) → Call C

module _ {C : Type 0} where
  unfoldable pub call : Call C → IoManager.IoManager C → Option (Bool × IoManager.IoManager C)
  call (add s current ok fd e cb) m = add_event s current ok fd e cb m
  call (del ok fd e) m = some (del_event ok fd e m)
  call (cancel ok fd e) m = cancel_event ok fd e m
  call (cancel_both ok fd) m = cancel_all ok fd m
  call (report ok fd r) m = handle_report ok fd r m

  -- A descriptor of an `int`, with no event that already waits; the kernel reports of a context what
  -- waits in it.
  abbrev pub Allowed : Call C → IoManager.IoManager C → Type 0
  Allowed (add s current ok fd e cb) m =
      (1 ≤ fd) × (fd < 2 ^ 31) × (is_waiting m.contexts fd e ≡ false)
  Allowed (del ok fd e) m = Unit
  Allowed (cancel ok fd e) m = Unit
  Allowed (cancel_both ok fd) m = Unit
  Allowed (report ok fd r) m =
      (c : FdContext C) × (get_elem? m.contexts fd ≡ some c)
      × (r.in_ready ≡ true → c.events.readable ≡ true)
      × (r.out_ready ≡ true → c.events.writable ≡ true)

  -- The task of the event that a call has added, and of the one that it has deleted, where it returned `b`.
  abbrev pub adds : Call C → Bool → List (ℕ × Task C)
  adds (add s current ok fd e cb) b = if b then new_task s current cb ∷ [] else []
  adds _ b = []

  abbrev pub deletes : Call C → Bool → IoManager.IoManager C → List (ℕ × Task C)
  deletes (del ok fd e) b m = if b then waiting_at fd e m.contexts else []
  deletes _ b m = []

  -- `Reach as ds m`: a run leaves `m`, in which events with the tasks `as` were added and those with `ds` deleted.
  pub data Reach : List (ℕ × Task C) → List (ℕ × Task C) → IoManager.IoManager C → Type 0 where
    start : Reach [] [] init
    next :
        {as' ds : List (ℕ × Task C)} {m n : IoManager.IoManager C} (x : Call C) (b : Bool)
        → Reach as' ds m
        → Allowed x m
        → call x m ≡ some (b, n)
        → Reach (adds x b ++ as') (deletes x b m ++ ds) n

  -- How many of the tasks that pass a test wait or are scheduled.
  abbrev held : (ℕ × Task C → Bool) → IoManager.IoManager C → ℕ
  held p m = tally p (all_waiting m.contexts) + tally p m.queue

  -- What one call does, whatever it is.
  record Steps (x : Call C) (m : IoManager.IoManager C) (r : Bool × IoManager.IoManager C)
      : Type 0 where
    valid : IsValid r.1
    counted :
        (p : ℕ × Task C → Bool)
        → held p r.1 + tally p (deletes x r.0 m) ≡ held p m + tally p (adds x r.0)

  abbrev CallReturns : Call C → IoManager.IoManager C → Type 0
  CallReturns x m = (r : Bool × IoManager.IoManager C) × (call x m ≡ some r) × Steps x m r

  conserve :
      (x : Call C) (m : IoManager.IoManager C)
      → ((b : Bool) → (adds x b ≡ []) × (deletes x b m ≡ []))
      → (r : Bool × IoManager.IoManager C) × (call x m ≡ some r) × Conserves m r
      → CallReturns x m
  conserve x m h (r, eq, c) = (
    r,
    eq,
    record {
      valid = c.valid;
      counted = λ p. omega (arith, c.tasks p, ap (tally p) (h r.0).0, ap (tally p) (h r.0).1);
    },
  )

  call-Steps : (x : Call C) (m : IoManager.IoManager C) → IsValid m → Allowed x m → CallReturns x m
  unfolding call
  call-Steps (add s current ok fd e cb) m v (pos, lt, idle) =
      let (r, eq, a) = add_event-Added s current ok fd e cb m v pos lt idle in
      (
        r,
        eq,
        record { valid = a.valid; counted = λ p. omega (arith, a.tasks p, ap (tally p) a.queue) },
      )
  call-Steps (del ok fd e) m v h =
      let (valid, q, c, t) = del_event-Deleted ok fd e m v in
      (
        del_event ok fd e m,
        refl,
        record { valid = valid; counted = λ p. omega (arith, t p, ap (tally p) q) },
      )
  call-Steps (cancel ok fd e) m v h =
      conserve (cancel ok fd e) m (λ b. (refl, refl)) (cancel_event-Returns ok fd e m v)
  call-Steps (cancel_both ok fd) m v h =
      conserve (cancel_both ok fd) m (λ b. (refl, refl)) (cancel_all-Returns ok fd m v)
  call-Steps (report ok fd r) m v (c, here, hin, hout) =
      conserve (report ok fd r) m (λ b. (refl, refl))
        (handle_report-Returns ok fd r m c v here hin hout)

  init-IsValid : IsValid (init {C = C})
  unfolding init context_resize
  init-IsValid = record {
    consistent = fresh-All C 32;
    counted = sym (fresh-total C 32);
    small = omega arith;
    enough = omega arith;
  }

  -- The tasks of the events that were added are those that wait, those that were scheduled and those of the events
  -- that were deleted.
  abbrev pub Balances :
      List (ℕ × Task C) → List (ℕ × Task C) → IoManager.IoManager C → (ℕ × Task C → Bool) → Type 0
  Balances as' ds m p =
      tally p (all_waiting m.contexts) + tally p m.queue + tally p ds ≡ tally p as'

  step-Holds :
      (as' ds : List (ℕ × Task C)) {m n : IoManager.IoManager C} (x : Call C) (b : Bool)
      → CallReturns x m
      → ((p : ℕ × Task C → Bool) → Balances as' ds m p)
      → call x m ≡ some (b, n)
      → IsValid n × ((p : ℕ × Task C → Bool) → Balances (adds x b ++ as') (deletes x b m ++ ds) n p)
  step-Holds as' ds {m = m} {n = n} x b (r, eq, s) h e =
      let same : r ≡ (b, n) = some-injective _ _ (sym eq ∙ e) in
      let t : Steps x m (b, n) = subst (Steps x m) same s in
      (
        t.valid,
        λ p. omega (
          arith,
          h p,
          t.counted p,
          tally-append p (adds x b) as',
          tally-append p (deletes x b m) ds,
        ),
      )

  run-Holds :
      {as' ds : List (ℕ × Task C)} {m : IoManager.IoManager C}
      → Reach as' ds m
      → IsValid m × ((p : ℕ × Task C → Bool) → Balances as' ds m p)
  unfolding init context_resize
  run-Holds start = (init-IsValid, λ p. omega (arith, ap (tally p) (fresh-waiting C 32)))
  run-Holds (next {as' = as'} {ds = ds} {m = l} x b r a e) =
      let (v, h) = run-Holds r in step-Holds as' ds x b (call-Steps x l v a) h e

  -- In every manager that a run of calls leaves, the count of pending events is the number of events that
  -- something waits for; and of the tasks that pass any test, a fiber or a callback with its scheduler, as
  -- many were added with an event as wait now, were scheduled, or were deleted with their event: each is in
  -- one of these places, and once for each time that it was added.
  pub Reach-counted :
      (as' ds : List (ℕ × Task C)) (m : IoManager.IoManager C) (p : ℕ × Task C → Bool)
      → Reach as' ds m
      → IsValid m × (tally p (all_waiting m.contexts) + tally p m.queue + tally p ds ≡ tally p as')
  Reach-counted as' ds m p r = let (v, h) = run-Holds r in (v, h p)

  -- After any run of calls, a call that the kernel's and the caller's part allows fails no assertion.
  pub Reach-Returns :
      (as' ds : List (ℕ × Task C)) (m : IoManager.IoManager C) (x : Call C)
      → Reach as' ds m
      → Allowed x m
      → (r : Bool × IoManager.IoManager C) × (call x m ≡ some r)
  Reach-Returns as' ds m x r a = let (t, eq, _) = call-Steps x m (run-Holds r).0 a in (t, eq)
