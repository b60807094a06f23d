-- ===== src/Scheduler/Leave.antt =====
-- A fiber leaves its thread, and the thread comes back to its loop.
use ota_new.Common.{
  ℕ, ◌+◌, ◌≤◌, ◌<◌, ◌≡◌, refl, sym, ap, ◌∙◌, subst, inl, inr, [], ◌∷◌, ◌++◌, Option, some, Bool,
  length, get_elem?, set, max, ==_iff, arith, Bool-cases, Option-cases, ◌==◌, length-set,
  get_elem?-set_ne,
}
use ota_new.IoManager.{Task, run_fiber, run_callback, decrement}
use ota_new.Scheduler.{
  Leaving, left_as, looking, running, leaving, back, idling, Worker, Scheduler, leave, switch,
  deactivate, settling, settle, kept_fiber, again, finish, wake, schedule,
}
use ota_new.Scheduler.Owned.{
  sum-le, of_task, run_in, spare_in, owns, owners, IsExclusive, queued-append, one,
}
use ota_new.Scheduler.Change.{Keeps-IsExclusive, Changes-IsExclusive}
use ota_new.Scheduler.Steps.{get-none, one_ne}
use ota_new.Scheduler.Count.{IsCounted, on-IsCounted, busy_in, idles_in}
use ota_new.Scheduler.Kept.{
  keeps-le, settled-get, settled-exec, kept-init, settle-others, settle-length, kept-others,
}

module _ {C : Type 0} where
  pub leave-IsExclusive :
      (i : ℕ) (w : Worker C) (f : ℕ) (own : Bool) (l : Leaving) (s : Scheduler C)
      → IsExclusive s
      → get_elem? s.workers i ≡ some w
      → w.phase ≡ running f own
      → IsExclusive (leave i w f own l s)
  unfolding leave
  leave-IsExclusive i w f own l s v here h =
      let one_f : one (f == f) ≡ 1 = ground arith in
      let all = sum-le (owns f) s.workers i w here in
      Changes-IsExclusive i w (record w { phase = leaving f own }) s s.queue
        (set s.fibers f (left_as l)) s.active s.idle v here f
        (record {
          len = length-set s.fibers f (left_as l);
          grows = λ k. omega (arith, ap (run_in k) h);
          others = λ k ne. get_elem?-set_ne s.fibers (left_as l) (λ e. ne (sym e));
          run = λ k ne. omega (arith, ap (run_in k) h);
          spare = λ k ne. omega arith;
          runs_own = λ e. omega (arith, one_f);
          spare_own = λ le. absurd (omega (arith, le, one_f, ap (run_in f) h, all, v.unique f));
          had = omega (arith, one_f, ap (run_in f) h);
        })

  pub switch-IsExclusive :
      (i : ℕ) (w : Worker C) (f : ℕ) (own : Bool) (s : Scheduler C)
      → IsExclusive s
      → get_elem? s.workers i ≡ some w
      → w.phase ≡ leaving f own
      → IsExclusive (switch i w f own s)
  unfolding switch
  switch-IsExclusive i w f own s v here h =
      Keeps-IsExclusive i w (record w { phase = back f own }) s s.queue s.fibers s.active s.idle v
        here refl
        (record {
          grows = λ k. omega (arith, ap (run_in k) h);
          run = λ k. omega (arith, ap (run_in k) h);
          spare = λ k. omega arith;
        })

  pub wake-IsExclusive :
      (i : ℕ) (w : Worker C) (over : Bool) (s : Scheduler C)
      → IsExclusive s
      → get_elem? s.workers i ≡ some w
      → w.phase ≡ idling
      → IsExclusive (wake i w over s)
  unfolding wake
  wake-IsExclusive i w over s v here h =
      Keeps-IsExclusive i w (record w { phase = looking; idle_over = over }) s s.queue s.fibers
        s.active (decrement s.idle) v here refl
        (record {
          grows = λ k. omega arith;
          run = λ k. omega (arith, ap (run_in k) h);
          spare = λ k. omega arith;
        })

  pub deactivate-IsExclusive :
      (i : ℕ) (w : Worker C) (f : ℕ) (own : Bool) (s : Scheduler C)
      → IsExclusive s
      → get_elem? s.workers i ≡ some w
      → w.phase ≡ back f own
      → IsExclusive (deactivate i w f own s)
  unfolding deactivate
  deactivate-IsExclusive i w f own s v here h =
      Keeps-IsExclusive i w (record w { phase = settling f own }) s s.queue s.fibers
        (decrement s.active) s.idle v here refl
        (record {
          grows = λ k. omega (arith, ap (run_in k) h);
          run = λ k. omega (arith, ap (run_in k) h);
          spare = λ k. omega arith;
        })

  pub finish-Settles :
      (i : ℕ) (w : Worker C) (f : ℕ) (own : Bool) (s : Scheduler C)
      → IsExclusive s
      → get_elem? s.workers i ≡ some w
      → IsCounted s
      → w.phase ≡ settling f own
      → (n : Scheduler C) × (finish i w f own s ≡ some n) × IsExclusive n × IsCounted n
  unfolding finish
  finish-Settles i w f own s v here c h =
      let one_f : one (f == f) ≡ 1 = ground arith in
      let all = sum-le (owns f) s.workers i w here in
      elim (Option-cases (get_elem? s.fibers f)) [
        | inl gone ↦
            absurd
              (omega (arith, v.known f (get-none s.fibers f gone), one_f, ap (run_in f) h, all))
        | inr (x, there) ↦
            let none_spare : spare_in f w.cb_fiber ≡ 0 =
              omega (arith, one_f, ap (run_in f) h, all, v.unique f) in
            rw (there, finish)
              (
                _,
                refl,
                Changes-IsExclusive i w
                    (record w { phase = looking; cb_fiber = kept_fiber f own x w.cb_fiber }) s
                    (s.queue ++ again f x) (settle f own x s.fibers) s.active s.idle v here f
                    (record {
                      len = settle-length f own x s.fibers;
                      grows = λ k. omega (
                        arith,
                        queued-append k s.queue (again f x),
                        keeps-le C k f own x w.cb_fiber,
                        ap (run_in k) h,
                      );
                      others = λ k ne. settle-others f own x s.fibers k ne;
                      run = λ k ne. omega (arith, ap (run_in k) h, one_ne f k ne);
                      spare = λ k ne. kept-others k f own x w.cb_fiber (one_ne f k ne);
                      runs_own = λ e.
                          absurd
                            (settled-exec own x (sym (settled-get f own x s.fibers there) ∙ e));
                      spare_own = λ le.
                          settled-get f own x s.fibers there
                          ∙ ap some (kept-init f own x w.cb_fiber none_spare le);
                      had = omega (arith, one_f, ap (run_in f) h);
                    }),
                on-IsCounted i w s c here
                    (record w { phase = looking; cb_fiber = kept_fiber f own x w.cb_fiber })
                    (s.queue ++ again f x) (settle f own x s.fibers) (ap busy_in h) (ap idles_in h),
              )
      ]

  -- A task that may be scheduled: a callback, or a fiber that nothing else has.
  abbrev pub Free : Task C → Scheduler C → Type 0
  Free (run_fiber f) s = (f < length s.fibers) × (owners f s ≡ 0)
  Free (run_callback c) s = Unit

  pub schedule-IsExclusive :
      (t : Task C) (thread : Option ℕ) (s : Scheduler C)
      → IsExclusive s
      → Free t s
      → IsExclusive (schedule (some t) thread s).1
  unfolding schedule
  schedule-IsExclusive t thread s v free = record {
    unique = λ f. omega (
      arith,
      v.unique f,
      queued-append f s.queue (record { task = t; thread = thread } ∷ []),
      free_of t s f free,
    );
    known = λ f le. omega (
      arith,
      v.known f le,
      queued-append f s.queue (record { task = t; thread = thread } ∷ []),
      below t s f free le,
    );
    exec_runs = v.exec_runs;
    spare_init = v.spare_init;
  }
    where
      free_of :
          (t : Task C) (s : Scheduler C) (f : ℕ)
          → Free t s
          → of_task f t + owners f s ≤ max 1 (owners f s)
      free_of (run_fiber g) s f (lt, z) = elim (Bool-cases (g == f)) [
        | inl e ↦ omega (arith, z, subst (λ (k : ℕ). owners k s ≡ 0) ((==_iff g f).0 e) z, ap one e)
        | inr e ↦ omega (arith, ap one e)
      ]
      free_of (run_callback c) s f free = omega arith

      below :
          (t : Task C) (s : Scheduler C) (f : ℕ) → Free t s → length s.fibers ≤ f → of_task f t ≡ 0
      below (run_fiber g) s f (lt, z) le = one_ne g f (λ e. absurd (omega (arith, e, lt, le)))
      below (run_callback c) s f free le = refl
