-- ===== src/IoManager/Context.antt =====
-- The context of a descriptor: a bit is set exactly while something waits for the event.
use ota_new.Common.{
  ℕ, ◌+◌, ◌≡◌, refl, ap, List, if◌then◌else◌, [], ◌∷◌, ◌++◌, Option, none, some, Bool, true, false,
  arith, subst,
}
use ota_new.IoManager.{
  Event, read_event, write_event, has, Task, run_fiber, run_callback, EventContext, FdContext,
  no_context, new_context, get_context, put_event, fire_context, fired, trigger_event, waiting,
}

-- What waits for an event: 0 or 1.
abbrev bit : Bool → ℕ
bit true = 1
bit false = 0

module _ {C : Type 0} where
  -- A scheduler, and either a callback or a fiber.
  pub data Waits (x : EventContext C) : Type 0 where
    for_callback :
        (s : ℕ) (f : C) → x ≡ record { scheduler = some s; fiber = none; cb = some f } → Waits x
    for_fiber : (s i : ℕ) → x ≡ record { scheduler = some s; fiber = some i; cb = none } → Waits x

  abbrev pub Matches : Bool → EventContext C → Type 0
  Matches true x = Waits x
  Matches false x = x ≡ no_context

  abbrev pub IsConsistent : FdContext C → Type 0
  IsConsistent c = Matches c.events.readable c.read × Matches c.events.writable c.write

  pub new_context-IsConsistent : IsConsistent new_context
  new_context-IsConsistent = (refl, refl)

  abbrev pub weight : FdContext C → ℕ
  weight c = bit c.events.readable + bit c.events.writable

  -- What waits in a context: its callback or else its fiber, for the scheduler.
  abbrev pub tasks_in : EventContext C → List (ℕ × Task C)
  tasks_in x = elim x.scheduler [
    | none ↦ []
    | some s ↦ elim x.cb [
      | some f ↦ (s, run_callback f) ∷ []
      | none ↦ elim x.fiber [ some i ↦ (s, run_fiber i) ∷ [] | none ↦ [] ]
    ]
  ]

  abbrev pub waiting_for : Event → FdContext C → List (ℕ × Task C)
  waiting_for e c = if has e c.events then tasks_in (get_context e c) else []

  abbrev pub tasks_of : FdContext C → List (ℕ × Task C)
  tasks_of c = waiting_for read_event c ++ waiting_for write_event c

  -- What waits for any event, of any descriptor.
  abbrev pub all_waiting : List (FdContext C) → List (ℕ × Task C)
  all_waiting [] = []
  all_waiting (c ∷ cs) = tasks_of c ++ all_waiting cs

  -- How many of them pass a test.
  abbrev pub tally : (ℕ × Task C → Bool) → List (ℕ × Task C) → ℕ
  tally p [] = 0
  tally p (t ∷ ts) = bit (p t) + tally p ts

  pub tally-append :
      (p : ℕ × Task C → Bool) (xs ys : List (ℕ × Task C))
      → tally p (xs ++ ys) ≡ tally p xs + tally p ys
  tally-append p [] ys = omega arith
  tally-append p (x ∷ xs) ys = omega (arith, tally-append p xs ys)

  -- What an event that is put or cleared does to them.
  pub tally-put_event :
      (p : ℕ × Task C → Bool) (e : Event) (b : Bool) (x : EventContext C) (c : FdContext C)
      → tally p (tasks_of (put_event e b x c)) + tally p (waiting_for e c)
        ≡ tally p (tasks_of c) + tally p (if b then tasks_in x else [])
  tally-put_event p read_event b x c = omega (
    arith,
    tally-append p (if b then tasks_in x else []) (waiting_for write_event c),
    tally-append p (waiting_for read_event c) (waiting_for write_event c),
  )
  tally-put_event p write_event b x c = omega (
    arith,
    tally-append p (waiting_for read_event c) (if b then tasks_in x else []),
    tally-append p (waiting_for read_event c) (waiting_for write_event c),
  )

  -- What is scheduled for one that waits.
  pub task_of : (x : EventContext C) → Waits x → ℕ × Task C
  task_of x (for_callback s f e) = (s, run_callback f)
  task_of x (for_fiber s i e) = (s, run_fiber i)

  pub tasks_in-Waits : (x : EventContext C) (w : Waits x) → tasks_in x ≡ task_of x w ∷ []
  unfolding task_of
  tasks_in-Waits x (for_callback s f e) = rw e refl
  tasks_in-Waits x (for_fiber s i e) = rw e refl

  fire_context-Waits :
      (x : EventContext C) (w : Waits x) → fire_context x ≡ some (no_context, task_of x w ∷ [])
  unfolding task_of
  fire_context-Waits x (for_callback s f e) = rw e refl
  fire_context-Waits x (for_fiber s i e) = rw e refl

  pub waiting-Waits : (s : ℕ) (cb : Option C) (current : ℕ) → Waits (waiting s cb current)
  waiting-Waits s none current = for_fiber s current refl
  waiting-Waits s (some f) current = for_callback s f refl

  pub waits_for :
      (e : Event) (c : FdContext C)
      → IsConsistent c
      → has e c.events ≡ true
      → Waits (get_context e c)
  waits_for read_event c (r, w) h = subst (λ (b : Bool). Matches b c.read) h r
  waits_for write_event c (r, w) h = subst (λ (b : Bool). Matches b c.write) h w

  pub trigger_event-set :
      (e : Event) (c : FdContext C) (v : IsConsistent c) (h : has e c.events ≡ true)
      → trigger_event e c
        ≡ some (put_event e false no_context c, task_of (get_context e c) (waits_for e c v h) ∷ [])
  unfolding trigger_event
  trigger_event-set e c v h =
      rw (h, trigger_event)
        (ap (fired e c) (fire_context-Waits (get_context e c) (waits_for e c v h)))

  pub trigger_event-clear :
      (e : Event) (c : FdContext C) → has e c.events ≡ false → trigger_event e c ≡ none
  unfolding trigger_event
  trigger_event-clear e c h = rw (h, trigger_event) refl

  pub put_event-IsConsistent :
      (e : Event) (b : Bool) (x : EventContext C) (c : FdContext C)
      → IsConsistent c
      → Matches b x
      → IsConsistent (put_event e b x c)
  put_event-IsConsistent read_event b x c (r, w) m = (m, w)
  put_event-IsConsistent write_event b x c (r, w) m = (r, m)

  pub weight-put_clear :
      (e : Event) (x : EventContext C) (c : FdContext C)
      → has e c.events ≡ true
      → weight (put_event e false x c) + 1 ≡ weight c
  weight-put_clear read_event x c h = rw h (omega arith)
  weight-put_clear write_event x c h = rw h (omega arith)

  pub weight-put_set :
      (e : Event) (x : EventContext C) (c : FdContext C)
      → has e c.events ≡ false
      → weight (put_event e true x c) ≡ weight c + 1
  weight-put_set read_event x c h = rw h (omega arith)
  weight-put_set write_event x c h = rw h (omega arith)
