-- ===== src/IoManager/Idle.antt =====
-- `idle`: how long it waits, and one round of its loop over timers and reported events.
use ota_new.Common.{
  ℕ, set, ◌+◌, ◌-◌, ◌%◌, ◌^◌, ◌≤◌, ◌<◌, ◌≡◌, refl, sym, ap, ◌∙◌, List, [], ◌∷◌, ◌++◌, map, Option,
  none, some, Bool, true, false, if◌then◌else◌, length, get_elem?, arith, ltb, ◌==◌, min,
  append-nil, append_assoc, length-append,
}
use mathlib.Core.Option.{some-injective}
use ota_new.IoManager
use ota_new.IoManager.{
  Event, read_event, write_event, has, FdContext, Task, run_callback, trigger_if, trigger_event,
  store,
}
use ota_new.IoManager.Both.{Report, handle_report}
use ota_new.IoManager.Counted.{IsValid, All-get}
use ota_new.IoManager.Woken.{woken, rest, handle_report-Wakes}
use ota_new.IoManager.Taken.{Conserves, handle_report-Returns}
use ota_new.IoManager.Reach.{report, Allowed}
use ota_new.Timer
use ota_new.Timer.{TimerManager, list_expired_cb}

-- What is given to `epoll_wait`: the time to the next timer, `~0` for none, is cut to an `int` before it is
-- compared and again in the call; `none` is a negative number, which waits without end.
unfoldable pub wait_ms : ℕ → Option ℕ
wait_ms timeout =
    if timeout == 2 ^ 64 - 1
    then some 3000
    else let cut = timeout % 2 ^ 32 in
      if ltb cut (2 ^ 31) then some (if ltb 3000 cut then 3000 else cut) else none

-- What `epoll_wait` tells: the pipe of `tickle`, or a descriptor, with the result of the `epoll_ctl` to come.
pub data Ready : Type 0 where
  tickled : Ready
  ready : (ok : Bool) (fd : ℕ) (r : Report) → Ready

module _ {C : Type 0} where
  -- The loop over the reported events.
  unfoldable pub handle_all : List Ready → IoManager.IoManager C → Option (IoManager.IoManager C)
  handle_all [] m = some m
  handle_all (tickled ∷ rs) m = handle_all rs m
  handle_all (ready ok fd r ∷ rs) m = elim (handle_report ok fd r m) [
    | none ↦ none
    | some x ↦ handle_all rs x.1
  ]

  -- `schedule` of the expired callbacks, in order.
  abbrev pub schedule_all : ℕ → List C → IoManager.IoManager C → IoManager.IoManager C
  schedule_all s fs m = record m { queue = m.queue ++ map (λ f. (s, run_callback f)) fs }

  -- One round behind `epoll_wait`, in the scheduler `s`.
  unfoldable pub idle_round :
      ℕ
      → Timer.Timer C
      → List Ready
      → TimerManager C
      → IoManager.IoManager C
      → TimerManager C × Option (IoManager.IoManager C)
  unfolding handle_all
  idle_round s now_timer rs ts m =
      let (cbs, ts') = list_expired_cb now_timer ts in (ts', handle_all rs (schedule_all s cbs m))

  -- What waits for the reported events, in the order of the reports: an event is woken by the first report of it
  -- for which `epoll_ctl` succeeds.
  unfoldable pub all_woken : List Ready → List (FdContext C) → List (ℕ × Task C)
  all_woken [] cs = []
  all_woken (tickled ∷ rs) cs = all_woken rs cs
  all_woken (ready false fd r ∷ rs) cs = all_woken rs cs
  all_woken (ready true fd r ∷ rs) cs = elim (get_elem? cs fd) [
    | none ↦ all_woken rs cs
    | some c ↦ woken r c ++ all_woken rs (set cs fd (rest r c))
  ]

  -- Each report is allowed in the manager that it meets.
  abbrev pub AllAllowed : List Ready → IoManager.IoManager C → Type 0
  AllAllowed [] m = Unit
  AllAllowed (tickled ∷ rs) m = AllAllowed rs m
  AllAllowed (ready ok fd r ∷ rs) m =
      Allowed (report ok fd r) m
      × ((x : Bool × IoManager.IoManager C) → handle_report ok fd r m ≡ some x → AllAllowed rs x.1)

  -- What the reports leave: a valid manager, in which what waited for them is scheduled.
  pub record Ends (rs : List Ready) (m n : IoManager.IoManager C) : Type 0 where
    pub valid : IsValid n
    pub kept : n.pending + length n.queue ≡ m.pending + length m.queue
    pub queue : n.queue ≡ m.queue ++ all_woken rs m.contexts

  abbrev AllReturns : List Ready → IoManager.IoManager C → Option (IoManager.IoManager C) → Type 0
  AllReturns rs m o = (n : IoManager.IoManager C) × (o ≡ some n) × Ends rs m n

  woken-first :
      (ok : Bool) (fd : ℕ) (r : Report) (rs : List Ready) (c : FdContext C)
      (cs : List (FdContext C))
      → get_elem? cs fd ≡ some c
      → all_woken (ready ok fd r ∷ rs) cs
        ≡ (if ok then woken r c else []) ++ all_woken rs (if ok then set cs fd (rest r c) else cs)
  unfolding all_woken
  woken-first true fd r rs c cs here =
      ap
        (λ o. elim o as (λ x. List (ℕ × Task C)) [
          | none ↦ all_woken rs cs
          | some d ↦ woken r d ++ all_woken rs (set cs fd (rest r d))
        ])
        here
  woken-first false fd r rs c cs here = refl

  then_Returns :
      (ok : Bool) (fd : ℕ) (r : Report) (rs : List Ready) (m : IoManager.IoManager C)
      (c : FdContext C) (x : Bool × IoManager.IoManager C)
      → get_elem? m.contexts fd ≡ some c
      → Conserves m x
      → x.1.contexts ≡ (if ok then set m.contexts fd (rest r c) else m.contexts)
      → x.1.queue ≡ m.queue ++ (if ok then woken r c else [])
      → AllReturns rs x.1 (handle_all rs x.1)
      → AllReturns (ready ok fd r ∷ rs) m (handle_all rs x.1)
  then_Returns ok fd r rs m c x here k cs q (n, eq, e) = (
    n,
    eq,
    record {
      valid = e.valid;
      kept = e.kept ∙ k.conserved;
      queue =
          e.queue
          ∙ ap (λ (l : List (ℕ × Task C)). l ++ all_woken rs x.1.contexts) q
          ∙ append_assoc m.queue (if ok then woken r c else []) (all_woken rs x.1.contexts)
          ∙ ap
              (λ (l : List (FdContext C)).
                m.queue ++ ((if ok then woken r c else []) ++ all_woken rs l))
              cs
          ∙ ap (λ (l : List (ℕ × Task C)). m.queue ++ l)
              (sym (woken-first ok fd r rs c m.contexts here));
    },
  )

  handle_all-Returns :
      (rs : List Ready) (m : IoManager.IoManager C)
      → IsValid m
      → AllAllowed rs m
      → AllReturns rs m (handle_all rs m)
  unfolding handle_all all_woken
  handle_all-Returns [] m v h =
      (m, refl, record { valid = v; kept = refl; queue = sym (append-nil m.queue) })
  handle_all-Returns (tickled ∷ rs) m v h =
      let (n, eq, e) = handle_all-Returns rs m v h in
      (n, eq, record { valid = e.valid; kept = e.kept; queue = e.queue })
  handle_all-Returns (ready ok fd r ∷ rs) m v ((c, here, hin, hout), h) =
      let (x, eq, k) = handle_report-Returns ok fd r m c v here hin hout in
      let (y, eq', cs, q) =
        handle_report-Wakes ok fd r m c (All-get m.contexts fd c v.consistent here) here hin hout in
      let same : y ≡ x = some-injective _ _ (sym eq' ∙ eq) in
      rw (eq, handle_all)
        (then_Returns ok fd r rs m c x here k
          (sym (ap (λ (z : Bool × IoManager.IoManager C). z.1.contexts) same) ∙ cs)
          (sym (ap (λ (z : Bool × IoManager.IoManager C). z.1.queue) same) ∙ q)
          (handle_all-Returns rs x.1 k.valid (h x eq)))

  -- A round of `idle` on a valid manager, for reports of events that are waited for, fails no assertion and leaves
  -- a valid manager; behind what was queued stand the callbacks of the expired timers, in their order, and
  -- then the fibers and callbacks that waited for the reported events, for all of a descriptor that is
  -- broken, in the order of the reports, unless `epoll_ctl` fails; apart from the callbacks of timers, as
  -- many more are queued as fewer are pending.
  pub idle_round-Ends :
      (s : ℕ) (now_timer : Timer.Timer C) (rs : List Ready) (ts : TimerManager C)
      (m : IoManager.IoManager C)
      → IsValid m
      → AllAllowed rs (schedule_all s (list_expired_cb now_timer ts).0 m)
      → let due : List (ℕ × Task C) =
          map (λ f. (s, run_callback f)) (list_expired_cb now_timer ts).0 in
        ((idle_round s now_timer rs ts m).0 ≡ (list_expired_cb now_timer ts).1)
        × ((n : IoManager.IoManager C) × ((idle_round s now_timer rs ts m).1 ≡ some n)
            × IsValid n
            × (n.queue ≡ m.queue ++ (due ++ all_woken rs m.contexts))
            × (n.pending + length n.queue ≡ m.pending + length m.queue + length due))
  unfolding idle_round
  idle_round-Ends s now_timer rs ts m v h =
      let due : List (ℕ × Task C) =
        map (λ f. (s, run_callback f)) (list_expired_cb now_timer ts).0 in
      let (n, eq, e) =
        handle_all-Returns rs (schedule_all s (list_expired_cb now_timer ts).0 m)
          (record {
            consistent = v.consistent;
            counted = v.counted;
            small = v.small;
            enough = v.enough;
          })
          h in
      (
        refl,
        (
          n,
          eq,
          e.valid,
          e.queue ∙ append_assoc m.queue due (all_woken rs m.contexts),
          omega (arith, e.kept, length-append m.queue due),
        ),
      )

  -- A report of an event that nothing waits for any longer, along with one that something waits for,
  -- fails the assertion of `triggerEvent`: the manager aborts.
  pub handle_report-stale :
      (fd : ℕ) (r : Report) (m : IoManager.IoManager C) (c : FdContext C)
      → get_elem? m.contexts fd ≡ some c
      → c.events.readable ≡ false
      → c.events.writable ≡ true
      → r.in_ready ≡ true
      → r.out_ready ≡ true
      → handle_report true fd r m ≡ none
  unfolding handle_report trigger_if
  handle_report-stale fd r m c here no_read yes_write hin hout =
      rw (here, no_read, yes_write, hin, hout, handle_report) refl

-- For a timer within 2^31 - 1 ms, or none, the wait ends, and after at most 3 seconds.
pub wait_ms-min : (timeout : ℕ) → timeout < 2 ^ 31 → wait_ms timeout ≡ some (min timeout 3000)
unfolding wait_ms
wait_ms-min timeout lt = ground (arith)

-- A timer that expires in 2^31 ms or somewhat later makes `epoll_wait` wait without end.
pub wait_ms-forever : (timeout : ℕ) → 2 ^ 31 ≤ timeout → timeout < 2 ^ 32 → wait_ms timeout ≡ none
unfolding wait_ms
wait_ms-forever timeout le lt = ground (arith)
