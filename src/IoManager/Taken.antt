-- ===== src/IoManager/Taken.antt =====
-- `cancelEvent`, `cancelAll` and the events that `epoll_wait` reports: what waits is scheduled, and counted.
use ota_new.Common.{
  ℕ, ◌+◌, ◌^◌, ◌≤◌, ◌<◌, ◌≡◌, refl, sym, ap, ◌∙◌, subst, inl, inr, List, [], ◌++◌, Option, some,
  Bool, true, false, ◌&&◌, ◌||◌, if◌then◌else◌, length, get_elem?, set, arith, Option-cases,
  length-append, length-set,
}
use ota_new.IoManager.{
  Event, read_event, write_event, has, Task, FdContext, IoManager, no_context, put_event,
  trigger_if, store, cancel_event,
}
use ota_new.IoManager.Both.{then_write, all_clear, cancel_all, handle_report, Report}
use ota_new.IoManager.Context.{weight, tally, tally-append, all_waiting}
use ota_new.IoManager.Counted.{
  IsValid, total-le, All-get, All-set, total-set, weight-le_total, Balanced, trigger_if-Balanced,
  start-Balanced, waiting-set,
}

and-left : (a b : Bool) → a && b ≡ true → a ≡ true
and-left a b h = ground arith

module _ {C : Type 0} where
  -- The manager is valid, and what no longer waits was scheduled.
  pub record Conserves (m : IoManager C) (r : Bool × IoManager C) : Type 0 where
    pub valid : IsValid r.1
    pub conserved : r.1.pending + length r.1.queue ≡ m.pending + length m.queue
    pub tasks :
        (p : ℕ × Task C → Bool)
        → tally p (all_waiting r.1.contexts) + tally p r.1.queue
          ≡ tally p (all_waiting m.contexts) + tally p m.queue

  abbrev pub Returns : IoManager C → Option (Bool × IoManager C) → Type 0
  Returns m o = (r : Bool × IoManager C) × (o ≡ some r) × Conserves m r

  same-Returns : (m : IoManager C) (b : Bool) → IsValid m → Returns m (some (b, m))
  same-Returns m b v = ((b, m), refl, record { valid = v; conserved = refl; tasks = λ p. refl })

  pending-lt : (m : IoManager C) → IsValid m → m.pending < 2 ^ 64
  pending-lt m v = omega (arith, v.counted, v.small, total-le m.contexts)

  store-Returns :
      (fd : ℕ) (m : IoManager C) (c : FdContext C) (t : FdContext C × List (ℕ × Task C) × ℕ)
      → IsValid m
      → get_elem? m.contexts fd ≡ some c
      → Balanced c m.pending t
      → Returns m (store fd m (some t))
  store-Returns fd m c (d, tasks, q) v here b = (
    (true, record m { contexts = set m.contexts fd d; queue = m.queue ++ tasks; pending = q }),
    refl,
    record {
      valid = record {
        consistent = All-set m.contexts fd d v.consistent b.consistent;
        counted = omega (arith, b.counted, b.moved, v.counted, total-set m.contexts fd c d here);
        small = rw (length-set m.contexts fd d) v.small;
        enough = rw (length-set m.contexts fd d) v.enough;
      };
      conserved = omega (arith, b.counted, length-append m.queue tasks);
      tasks = λ p.
          omega
            (arith, b.tasks p, waiting-set p m.contexts fd c d here, tally-append p m.queue tasks);
    },
  )

  abbrev Found : IoManager C → ℕ → FdContext C → Type 0
  Found m fd c = get_elem? m.contexts fd ≡ some c

  abbrev Start : IoManager C → FdContext C → Type 0
  Start m c =
      Balanced c m.pending (c, [], m.pending) × (weight c ≤ m.pending) × (m.pending < 2 ^ 64)

  Found-Start : (m : IoManager C) (fd : ℕ) (c : FdContext C) → IsValid m → Found m fd c → Start m c
  Found-Start m fd c v here = (
    start-Balanced c m.pending (All-get m.contexts fd c v.consistent here),
    omega (arith, v.counted, weight-le_total m.contexts fd c here),
    pending-lt m v,
  )

  -- One event of a context.
  one-Returns :
      (fd : ℕ) (m : IoManager C) (c : FdContext C) (e : Event)
      → IsValid m
      → Found m fd c
      → has e c.events ≡ true
      → Returns m (store fd m (trigger_if true e (c, [], m.pending)))
  one-Returns fd m c e v here h =
      let (b, le, small) = Found-Start m fd c v here in
      let (t, eq, done, _) =
        trigger_if-Balanced true e c m.pending c [] m.pending le small b (λ x. h) in
      subst (λ o. Returns m (store fd m o)) (sym eq) (store-Returns fd m c t v here done)

  -- Both events of a context, each if its flag says so.
  both-Returns :
      (fd : ℕ) (m : IoManager C) (c : FdContext C) (flag : Bool) (next : FdContext C → Bool)
      → IsValid m
      → Found m fd c
      → (flag ≡ true → c.events.readable ≡ true)
      → ((d : FdContext C)
          → d ≡ (if flag then put_event read_event false no_context c else c)
          → next d ≡ true
          → d.events.writable ≡ true)
      → Returns m (store fd m (then_write next (trigger_if flag read_event (c, [], m.pending))))
  both-Returns fd m c flag next v here h k =
      let (b, le, small) = Found-Start m fd c v here in
      let ((d, tasks, q), eq, done, is) =
        trigger_if-Balanced flag read_event c m.pending c [] m.pending le small b h in
      let (t, eq', done', _) =
        trigger_if-Balanced (next d) write_event c m.pending d tasks q le small done (k d is) in
      subst (λ o. Returns m (store fd m (then_write next o))) (sym eq)
        (subst (λ o. Returns m (store fd m o)) (sym eq') (store-Returns fd m c t v here done'))

  either-Returns :
      (m : IoManager C) (b : Bool) (x y : Option (Bool × IoManager C))
      → (b ≡ true → Returns m x)
      → Returns m y
      → Returns m (if b then x else y)
  either-Returns m true x y h k = h refl
  either-Returns m false x y h k = k

  -- `cancelEvent` on a valid manager never fails an assertion, leaves a valid one, and schedules
  -- as many tasks as events are no longer waited for.
  pub cancel_event-Returns :
      (ok : Bool) (fd : ℕ) (e : Event) (m : IoManager C)
      → IsValid m
      → Returns m (cancel_event ok fd e m)
  unfolding cancel_event
  cancel_event-Returns ok fd e m v = elim (Option-cases (get_elem? m.contexts fd)) [
    | inl gone ↦ rw (gone, cancel_event) (same-Returns m false v)
    | inr (c, here) ↦
        rw (here, cancel_event)
          (either-Returns m (has e c.events && ok) _ _
            (λ h. one-Returns fd m c e v here (and-left (has e c.events) ok h))
            (same-Returns m false v))
  ]

  writable-kept :
      (b : Bool) (c d : FdContext C)
      → d ≡ (if b then put_event read_event false no_context c else c)
      → d.events.writable ≡ c.events.writable
  writable-kept true c d e = ap (λ (x : FdContext C). x.events.writable) e
  writable-kept false c d e = ap (λ (x : FdContext C). x.events.writable) e

  cleared :
      (r w : Bool) (c d t : FdContext C)
      → r ≡ c.events.readable
      → d ≡ (if r then put_event read_event false no_context c else c)
      → w ≡ d.events.writable
      → t ≡ (if w then put_event write_event false no_context d else d)
      → t.events.readable || t.events.writable ≡ false
  cleared r w c d t hr hd hw ht = ground arith

  all_clear-some :
      (t : FdContext C × List (ℕ × Task C) × ℕ)
      → t.0.events.readable || t.0.events.writable ≡ false
      → all_clear (some t) ≡ some t
  all_clear-some t h = ground arith

  -- All events of a context, with the assertion that none is left.
  whole-Returns :
      (fd : ℕ) (m : IoManager C) (c : FdContext C)
      → IsValid m
      → Found m fd c
      → Returns m (
          store fd m (
            all_clear (
              then_write
                (λ c'. c'.events.writable)
                (trigger_if c.events.readable read_event (c, [], m.pending)))))
  whole-Returns fd m c v here =
      let (b, le, small) = Found-Start m fd c v here in
      let ((d, tasks, q), eq, done, is) =
        trigger_if-Balanced c.events.readable read_event c m.pending c [] m.pending le small b
          (λ r. r) in
      let (t, eq', done', is') =
        trigger_if-Balanced d.events.writable write_event c m.pending d tasks q le small done
          (λ w. w) in
      let clear =
        all_clear-some t (cleared c.events.readable d.events.writable c d t.0 refl is refl is') in
      subst (λ o. Returns m (store fd m (all_clear (then_write (λ c'. c'.events.writable) o))))
        (sym eq)
        (subst (λ o. Returns m (store fd m o)) (sym (ap all_clear eq' ∙ clear))
          (store-Returns fd m c t v here done'))

  -- `cancelAll` on a valid manager never fails an assertion, leaves a valid one, and schedules as
  -- many tasks as events are no longer waited for.
  pub cancel_all-Returns :
      (ok : Bool) (fd : ℕ) (m : IoManager C) → IsValid m → Returns m (cancel_all ok fd m)
  unfolding cancel_all
  cancel_all-Returns ok fd m v = elim (Option-cases (get_elem? m.contexts fd)) [
    | inl gone ↦ rw (gone, cancel_all) (same-Returns m false v)
    | inr (c, here) ↦
        rw (here, cancel_all)
          (either-Returns m ((c.events.readable || c.events.writable) && ok) _ _
            (λ h. whole-Returns fd m c v here) (same-Returns m false v))
  ]

  -- Where the kernel reports no event that nothing waits for, handling a report on a valid manager
  -- fails no assertion, leaves a valid one, and schedules as many tasks as events are no longer
  -- waited for.
  pub handle_report-Returns :
      (ok : Bool) (fd : ℕ) (r : Report) (m : IoManager C) (c : FdContext C)
      → IsValid m
      → get_elem? m.contexts fd ≡ some c
      → (r.in_ready ≡ true → c.events.readable ≡ true)
      → (r.out_ready ≡ true → c.events.writable ≡ true)
      → Returns m (handle_report ok fd r m)
  unfolding handle_report
  handle_report-Returns ok fd r m c v here hin hout =
      rw (here, handle_report)
        (either-Returns m
          (((c.events.readable && (r.in_ready || (r.broken && c.events.readable)))
              || (c.events.writable && (r.out_ready || (r.broken && c.events.writable))))
            && ok)
          _ _
          (λ h.
            both-Returns fd m c (r.in_ready || (r.broken && c.events.readable))
              (λ c'. r.out_ready || (r.broken && c.events.writable)) v here
              (λ p. either_bit r.in_ready r.broken c.events.readable hin p)
              (λ d is p.
                writable-kept _ c d is ∙ either_bit r.out_ready r.broken c.events.writable hout p))
          (same-Returns m false v))
    where
      either_bit :
          (ready broken bit : Bool)
          → (ready ≡ true → bit ≡ true)
          → ready || (broken && bit) ≡ true
          → bit ≡ true
      either_bit ready broken bit h p = ground arith
