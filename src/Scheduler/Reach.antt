-- ===== src/Scheduler/Reach.antt =====
-- Runs of the scheduler: the pieces of its threads' loops in any order.
use ota_new.Common.{
  ℕ, ◌+◌, ◌^◌, ◌≤◌, ◌<◌, ◌≡◌, ◌≢◌, refl, sym, ap, ◌∙◌, subst, List, [], ◌∷◌, ◌++◌, Option, none,
  some, Bool, true, false, ◌&&◌, ◌==◌, length, get_elem?, All, arith, length-append, inl, inr,
}
use mathlib.Core.Option.{some-injective}
use ota_new.IoManager.{Task}
use ota_new.Scheduler
use ota_new.Scheduler.{
  State, init, exec, Leaving, Entry, Phase, looking, holds, running, leaving, back, idling, Worker,
  schedule, take_task, start_task, leave, switch, deactivate, settling, finish, wake, is_stopping,
}
use ota_new.Scheduler.Owned.{
  sum, runs, spares, owns, IsExclusive, busy, idles, Moved, queued, taken_in, run_in, spare_in,
  eq_or_ne,
}
use ota_new.Scheduler.Steps.{take_task-IsExclusive, get-append_ne, get-append_last}
use ota_new.Scheduler.Start.{start_task-Enters, Enters}
use ota_new.Scheduler.Leave.{
  leave-IsExclusive, switch-IsExclusive, wake-IsExclusive, deactivate-IsExclusive, finish-Settles,
  Free, schedule-IsExclusive,
}
use ota_new.Scheduler.Count.{
  IsCounted, deactivate-IsCounted, take_task-IsCounted, wake-IsCounted, on-IsCounted,
  held-IsCounted, busy_in, idles_in,
}

-- `At i w p s`: the thread `i` is `w`, and it is at `p`.
abbrev pub At : {C : Type 0} → ℕ → Worker C → Phase C → Scheduler.Scheduler C → Type 0
At i w p s = (get_elem? s.workers i ≡ some w) × (w.phase ≡ p)

module _ {C : Type 0} where
  -- One piece of a thread's loop, a task that is scheduled, or a fiber that is made.
  pub data Step : Scheduler.Scheduler C → Scheduler.Scheduler C → Type 0 where
    takes :
        {s : Scheduler.Scheduler C} (i : ℕ) (w : Worker C)
        → At i w looking s
        → Step s (take_task i w s)
    starts :
        {s n : Scheduler.Scheduler C} (i : ℕ) (w : Worker C) (t : Task C)
        → At i w (holds t) s
        → start_task i w t s ≡ some n
        → Step s n
    leaves :
        {s : Scheduler.Scheduler C} (i : ℕ) (w : Worker C) (f : ℕ) (own : Bool) (l : Leaving)
        → At i w (running f own) s
        → Step s (leave i w f own l s)
    switches :
        {s : Scheduler.Scheduler C} (i : ℕ) (w : Worker C) (f : ℕ) (own : Bool)
        → At i w (leaving f own) s
        → Step s (switch i w f own s)
    deactivates :
        {s : Scheduler.Scheduler C} (i : ℕ) (w : Worker C) (f : ℕ) (own : Bool)
        → At i w (back f own) s
        → Step s (deactivate i w f own s)
    finishes :
        {s n : Scheduler.Scheduler C} (i : ℕ) (w : Worker C) (f : ℕ) (own : Bool)
        → At i w (settling f own) s
        → finish i w f own s ≡ some n
        → Step s n
    wakes :
        {s : Scheduler.Scheduler C} (i : ℕ) (w : Worker C) (over : Bool)
        → At i w idling s
        → Step s (wake i w over s)
    schedules :
        {s : Scheduler.Scheduler C} (t : Task C) (thread : Option ℕ)
        → Free t s
        → Step s (schedule (some t) thread s).1
    creates : {s : Scheduler.Scheduler C} → Step s (record s { fibers = s.fibers ++ (init ∷ []) })

  -- What a scheduler starts with: an empty queue, and threads that have nothing.
  pub record IsNew (s : Scheduler.Scheduler C) : Type 0 where
    pub queue : s.queue ≡ []
    pub fibers : s.fibers ≡ []
    pub active : s.active ≡ 0
    pub idle : s.idle ≡ 0
    pub workers : All (λ (w : Worker C). (w.phase ≡ looking) × (w.cb_fiber ≡ none)) s.workers
    pub few : length s.workers < 2 ^ 64

  pub data Reach (s : Scheduler.Scheduler C) : Scheduler.Scheduler C → Type 0 where
    here : Reach s s
    next : {m n : Scheduler.Scheduler C} → Reach s m → Step m n → Reach s n

  IsValid : Scheduler.Scheduler C → Type 0
  IsValid s = IsExclusive s × IsCounted s

  creates-IsExclusive :
      (s : Scheduler.Scheduler C)
      → IsExclusive s
      → IsExclusive (record s { fibers = s.fibers ++ (init ∷ []) })
  creates-IsExclusive s v = record {
    unique = v.unique;
    known = λ f le. v.known f (omega (arith, le, length-append s.fibers (init ∷ [])));
    exec_runs = λ f e. elim (eq_or_ne f (length s.fibers)) [
      | inl eq ↦ absurd (
          init_not (
            sym (get-append_last s.fibers init)
            ∙ subst (λ (k : ℕ). get_elem? (s.fibers ++ (init ∷ [])) k ≡ some exec) eq e))
      | inr ne ↦ v.exec_runs f (sym (get-append_ne s.fibers init f ne) ∙ e)
    ];
    spare_init = λ f le. elim (eq_or_ne f (length s.fibers)) [
      | inl eq ↦
          subst (λ (k : ℕ). get_elem? (s.fibers ++ (init ∷ [])) k ≡ some init) (sym eq)
            (get-append_last s.fibers init)
      | inr ne ↦ get-append_ne s.fibers init f ne ∙ v.spare_init f le
    ];
  }
    where
      init_not : some init ≢ some exec
      init_not e = absurd (ground (arith, e))

  abbrev Fresh : Worker C → Type 0
  Fresh w = (w.phase ≡ looking) × (w.cb_fiber ≡ none)

  sum-Fresh :
      (g : Worker C → ℕ) (ws : List (Worker C))
      → ((w : Worker C) → Fresh w → g w ≡ 0)
      → All Fresh ws
      → sum g ws ≡ 0
  sum-Fresh g [] z h = refl
  sum-Fresh g (w ∷ ws) z (h, hs) = omega (arith, z w h, sum-Fresh g ws z hs)

  IsNew-IsValid : (s : Scheduler.Scheduler C) → IsNew s → IsValid s
  unfolding IsValid
  IsNew-IsValid s n =
      let none_owned = λ (f : ℕ).
        sum-Fresh (owns f) s.workers
          (λ w h. omega (arith, ap (taken_in f) h.0, ap (run_in f) h.0, ap (spare_in f) h.1))
          n.workers in
      let no_queue = λ (f : ℕ). ap (queued f) n.queue in
      (
        record {
          unique = λ f. omega (arith, none_owned f, no_queue f);
          known = λ f le. omega (arith, none_owned f, no_queue f);
          exec_runs = λ f e.
              absurd (nothing_there f (sym (ap (λ (l : List State). get_elem? l f) n.fibers) ∙ e));
          spare_init = λ f le. absurd (
              omega
                (arith, le, sum-Fresh (spares f) s.workers (λ w h. ap (spare_in f) h.1) n.workers));
        },
        record {
          active = n.active ∙ sym (sum-Fresh busy s.workers (λ w h. ap busy_in h.0) n.workers);
          idle = n.idle ∙ sym (sum-Fresh idles s.workers (λ w h. ap idles_in h.0) n.workers);
          few = n.few;
        },
      )
    where
      nothing_there : (f : ℕ) → none ≢ some exec
      nothing_there f e = absurd (ground (arith, e))

  entered-IsValid :
      {s n : Scheduler.Scheduler C} {o : Option (Scheduler.Scheduler C)} (i : ℕ) (w : Worker C)
      (p : Phase C)
      → IsCounted s
      → At i w p s
      → busy_in p ≡ 1
      → idles_in p ≡ 0
      → Enters i s o
      → o ≡ some n
      → IsValid n
  unfolding IsValid
  entered-IsValid {s = s} {n = n} i w p c (at, ph) b d (t, eq, x, m) e =
      let same : t ≡ n = some-injective _ _ (sym eq ∙ e) in
      (subst IsExclusive same x, held-IsCounted i w p s n c at ph b d (subst (Moved i s) same m))

  Step-IsValid : {s n : Scheduler.Scheduler C} → Step s n → IsValid s → IsValid n
  unfolding IsValid leave switch schedule
  Step-IsValid (takes {s = s} i w (at, ph)) (v, c) =
      (take_task-IsExclusive i w s v at ph, take_task-IsCounted i w s c at ph)
  Step-IsValid (starts {s = s} i w t (at, ph) e) (v, c) =
      entered-IsValid i w (holds t) c (at, ph) refl refl (start_task-Enters i w t s v at ph) e
  Step-IsValid (leaves {s = s} i w f own l (at, ph)) (v, c) = (
    leave-IsExclusive i w f own l s v at ph,
    on-IsCounted i w s c at (record w { phase = leaving f own }) s.queue _ (ap busy_in ph)
        (ap idles_in ph),
  )
  Step-IsValid (switches {s = s} i w f own (at, ph)) (v, c) = (
    switch-IsExclusive i w f own s v at ph,
    on-IsCounted i w s c at (record w { phase = back f own }) s.queue s.fibers (ap busy_in ph)
        (ap idles_in ph),
  )
  Step-IsValid (deactivates {s = s} i w f own (at, ph)) (v, c) =
      (deactivate-IsExclusive i w f own s v at ph, deactivate-IsCounted i w s c at f own ph)
  Step-IsValid (finishes {s = s} i w f own (at, ph) e) (v, c) =
      let (n, eq, x, d) = finish-Settles i w f own s v at c ph in
      let same = some-injective _ _ (sym eq ∙ e) in
      (subst IsExclusive same x, subst IsCounted same d)
  Step-IsValid (wakes {s = s} i w over (at, ph)) (v, c) =
      (wake-IsExclusive i w over s v at ph, wake-IsCounted i w s c at over ph)
  Step-IsValid (schedules {s = s} t thread free) (v, c) = (
    schedule-IsExclusive t thread s v free,
    record { active = c.active; idle = c.idle; few = c.few },
  )
  Step-IsValid (creates {s = s}) (v, c) =
      (creates-IsExclusive s v, record { active = c.active; idle = c.idle; few = c.few })

  Reach-IsValid : {s n : Scheduler.Scheduler C} → IsNew s → Reach s n → IsValid n
  Reach-IsValid {s = s} new here = IsNew-IsValid s new
  Reach-IsValid new (next r st) = Step-IsValid st (Reach-IsValid new r)

  runs-le : (f : ℕ) (ws : List (Worker C)) → sum (runs f) ws ≤ sum (owns f) ws
  runs-le f [] = omega arith
  runs-le f (w ∷ ws) = omega (arith, runs-le f ws)

  -- Where a fiber is scheduled only while neither the queue nor a thread has it: however the threads are
  -- interleaved, no fiber runs on two threads, and none that runs is in the queue as well.
  pub Reach-alone :
      (s n : Scheduler.Scheduler C) (f : ℕ)
      → IsNew s
      → Reach s n
      → sum (runs f) n.workers + queued f n.queue ≤ 1
  unfolding IsValid
  Reach-alone s n f new r =
      let (v, _) = Reach-IsValid new r in omega (arith, v.unique f, runs-le f n.workers)

  -- Where a fiber is scheduled only while neither the queue nor a thread has it: a thread that took a task
  -- enters it without failing the assertions of `swapIn` and `reset`, however the threads are interleaved.
  pub Reach-starts :
      (s n : Scheduler.Scheduler C) (i : ℕ) (w : Worker C) (t : Task C)
      → IsNew s
      → Reach s n
      → At i w (holds t) n
      → (m : Scheduler.Scheduler C) × (start_task i w t n ≡ some m)
  unfolding IsValid
  Reach-starts s n i w t new r (at, ph) =
      let (v, _) = Reach-IsValid new r in
      let (m, e, _, _) = start_task-Enters i w t n v at ph in (m, e)

  -- However the threads are interleaved: the counts are those of the threads that have a task which is not yet
  -- counted down and of those that run their idle fiber, and `stopping` is true exactly when both flags
  -- are set, the queue is empty and no thread has such a task.
  pub Reach-stopping :
      (s n : Scheduler.Scheduler C)
      → IsNew s
      → Reach s n
      → (n.active ≡ sum busy n.workers)
        × (n.idle ≡ sum idles n.workers)
        × (is_stopping n
            ≡ (n.auto_stop && (n.stopping && ((length n.queue == 0) && (sum busy n.workers == 0)))))
  unfolding IsValid is_stopping
  Reach-stopping s n new r =
      let (_, c) = Reach-IsValid new r in
      (
        c.active,
        c.idle,
        stopped n.auto_stop n.stopping n.queue n.active
            ∙ ap (λ (k : ℕ). n.auto_stop && (n.stopping && ((length n.queue == 0) && (k == 0))))
                c.active,
      )
    where
      stopped :
          (a b : Bool) (q : List (Entry C)) (k : ℕ)
          → (a && b && elim q [ [] ↦ true | x ∷ xs ↦ false ] && (k == 0))
            ≡ (a && (b && ((length q == 0) && (k == 0))))
      stopped a b [] k = ground arith
      stopped a b (x ∷ xs) k = ground arith
