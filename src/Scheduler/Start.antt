-- ===== src/Scheduler/Start.antt =====
-- A thread starts the task that it took: the fiber was its own, so that `swapIn` and `reset` assert nothing false.
use ota_new.Common.{
  ℕ, ◌+◌, ◌≤◌, ◌≡◌, ◌≢◌, refl, sym, ap, ◌∙◌, subst, inl, inr, List, [], ◌∷◌, ◌++◌, Option, none,
  some, Bool, true, false, length, get_elem?, set, arith, Bool-cases, Option-cases, ◌==◌,
  length-set, get_elem?-set_self, get_elem?-set_ne, length-append,
}
use ota_new.IoManager.{Task, run_fiber, run_callback, decrement}
use ota_new.Scheduler.{
  State, init, exec, is_exec, is_over, looking, holds, running, Worker, Scheduler, put, reset,
  swap_in, then_swap_in, entered, start_task,
}
use ota_new.Scheduler.Owned.{
  sum, sum-set, sum-le, rest-le, taken_in, run_in, spare_in, runs, spares, owns, IsExclusive, Moved,
  entered-Moved, dropped-Moved, eq_or_ne, one,
}
use ota_new.Scheduler.Change.{Keeps-IsExclusive, Changes-IsExclusive, moved}
use ota_new.Scheduler.Steps.{
  get-none, get-some, get-append_ne, get-append_last, one-le, one_ne, swap_in-free, reset-init,
  is_exec-exec,
}

module _ {C : Type 0} where
  -- What is entered was the thread's.
  entered-IsExclusive :
      (i : ℕ) (w u : Worker C) (g : ℕ) (own : Bool) (s : Scheduler C) (su : List State)
      → IsExclusive s
      → get_elem? s.workers i ≡ some w
      → length su ≡ length s.fibers
      → ((f : ℕ) → f ≢ g → get_elem? su f ≡ get_elem? s.fibers f)
      → ((f : ℕ) → one (g == f) + spare_in f u.cb_fiber ≤ owns f w)
      → ((f : ℕ) → run_in f w.phase ≡ 0)
      → ((f : ℕ) → spare_in f u.cb_fiber ≤ spare_in f w.cb_fiber)
      → IsExclusive (put i (record u { phase = running g own }) (record s { fibers = su }))
  entered-IsExclusive i w u g own s su v here len others grows idle spare =
      let one_g : one (g == g) ≡ 1 = ground arith in
      Changes-IsExclusive i w (record u { phase = running g own }) s s.queue su s.active s.idle v
        here g
        (record {
          len = len;
          grows = λ f. omega (arith, grows f);
          others = others;
          run = λ f ne. omega (arith, idle f);
          spare = λ f ne. spare f;
          runs_own = λ e. omega (arith, one_g);
          spare_own = λ h.
              absurd
                (omega (arith, h, one_g, grows g, v.unique g, sum-le (owns g) s.workers i w here));
          had = omega (arith, grows g, one_g);
        })

  -- The step returns, and keeps the fibers apart.
  abbrev pub Enters : ℕ → Scheduler C → Option (Scheduler C) → Type 0
  Enters i s o = (t : Scheduler C) × (o ≡ some t) × IsExclusive t × Moved i s t

  start_fiber-Enters :
      (i : ℕ) (w : Worker C) (f : ℕ) (s : Scheduler C)
      → IsExclusive s
      → get_elem? s.workers i ≡ some w
      → w.phase ≡ holds (run_fiber f)
      → Enters i s (start_task i w (run_fiber f) s)
  unfolding start_task swap_in
  start_fiber-Enters i w f s v here h =
      let one_f : one (f == f) ≡ 1 = ground arith in
      let mine : taken_in f w.phase ≡ 1 = ap (taken_in f) h ∙ one_f in
      let part = sum-le (owns f) s.workers i w here in
      elim (Option-cases (get_elem? s.fibers f)) [
        | inl gone ↦ absurd (omega (arith, v.known f (get-none s.fibers f gone), mine, part))
        | inr (x, there) ↦ elim (Bool-cases (is_over x)) [
          | inl over ↦
              rw (there, over, start_task)
                (
                  _,
                  refl,
                  Keeps-IsExclusive i w (record w { phase = looking }) s s.queue s.fibers
                      (decrement s.active) s.idle v here refl
                      (record {
                        grows = λ k. omega arith;
                        run = λ k. omega (arith, ap (run_in k) h);
                        spare = λ k. omega arith;
                      }),
                  dropped-Moved i w s s.queue s.fibers,
                )
          | inr live ↦ elim (Bool-cases (is_exec x)) [
            | inl e ↦
                let twice = v.exec_runs f (there ∙ ap some (is_exec-exec x e)) in
                absurd (
                  omega (
                    arith,
                    twice,
                    mine,
                    v.unique f,
                    ap (run_in f) h,
                    rest-le (runs f) (owns f) s.workers i w (λ u. omega arith) here,
                  ))
            | inr free ↦
                rw (there, live, swap_in-free f s.fibers x there free, start_task)
                  (
                    _,
                    refl,
                    entered-IsExclusive i w w f false s (set s.fibers f exec) v here
                        (length-set s.fibers f exec)
                        (λ k ne. get_elem?-set_ne s.fibers exec (λ e. ne (sym e)))
                        (λ k. omega (arith, ap (taken_in k) h)) (λ k. ap (run_in k) h)
                        (λ k. omega arith),
                    entered-Moved i w f false s (set s.fibers f exec),
                  )
          ]
        ]
      ]

  spare_fiber-Enters :
      (i : ℕ) (w : Worker C) (c : C) (g : ℕ) (s : Scheduler C)
      → IsExclusive s
      → get_elem? s.workers i ≡ some w
      → w.phase ≡ holds (run_callback c)
      → w.cb_fiber ≡ some g
      → Enters i s
          (entered i (record w { cb_fiber = none }) g true s (then_swap_in g (reset g s.fibers)))
  spare_fiber-Enters i w c g s v here h cb =
      let one_g : one (g == g) ≡ 1 = ground arith in
      let there =
        v.spare_init g
          (omega (arith, sum-le (spares g) s.workers i w here, ap (spare_in g) cb, one_g)) in
      let fresh = set s.fibers g init in
      let inside = get-some s.fibers g init there in
      let swapped : swap_in g fresh ≡ some (set fresh g exec) =
        swap_in-free g fresh init (get_elem?-set_self s.fibers g init inside) refl in
      let enters : then_swap_in g (reset g s.fibers) ≡ some (set fresh g exec) =
        ap (then_swap_in g) (reset-init g s.fibers there) ∙ swapped in
      subst (λ o. Enters i s (entered i (record w { cb_fiber = none }) g true s o)) (sym enters)
        (
          _,
          refl,
          entered-IsExclusive i w (record w { cb_fiber = none }) g true s (set fresh g exec) v here
              (length-set fresh g exec ∙ length-set s.fibers g init)
              (λ k ne.
                get_elem?-set_ne fresh exec (λ e. ne (sym e))
                ∙ get_elem?-set_ne s.fibers init (λ e. ne (sym e)))
              (λ k. omega (arith, ap (spare_in k) cb)) (λ k. ap (run_in k) h) (λ k. omega arith),
          entered-Moved i (record w { cb_fiber = none }) g true s (set fresh g exec),
        )

  new_fiber-Enters :
      (i : ℕ) (w : Worker C) (c : C) (s : Scheduler C)
      → IsExclusive s
      → get_elem? s.workers i ≡ some w
      → w.phase ≡ holds (run_callback c)
      → w.cb_fiber ≡ none
      → Enters i s (
          entered i w
            (length s.fibers)
            true
            s
            (swap_in (length s.fibers) (s.fibers ++ (init ∷ []))))
  new_fiber-Enters i w c s v here h cb =
      let g = length s.fibers in
      let more = s.fibers ++ (init ∷ []) in
      let su = set more g exec in
      let u : Worker C = record w { phase = running g true } in
      let one_g : one (g == g) ≡ 1 = ground arith in
      let len : length su ≡ g + 1 = length-set more g exec ∙ length-append s.fibers (init ∷ []) in
      let other = λ (f : ℕ) (ne : f ≢ g).
        get_elem?-set_ne more {i = g} {j = f} exec (λ e. ne (sym e))
        ∙ get-append_ne s.fibers init f ne in
      let before = λ (f : ℕ). moved i w u s s.queue su s.active s.idle v here f in
      let no_spare = λ (f : ℕ). ap (spare_in f) cb in
      let apart = λ (f : ℕ) (ne : f ≢ g). one_ne g f ne in
      rw (swap_in-free g more init (get-append_last s.fibers init) refl) (
        _,
        refl,
        record {
          unique = λ f. elim (eq_or_ne f g) [
            | inl eq ↦
                omega (arith, before f, v.known f (omega (arith, eq)), no_spare f, one-le (g == f))
            | inr ne ↦ omega (arith, before f, v.unique f, no_spare f, apart f ne)
          ];
          known = λ f le. omega (
            arith,
            before f,
            v.known f (omega (arith, len)),
            no_spare f,
            apart f (λ e. absurd (omega (arith, e, len, le))),
          );
          exec_runs = λ f e. elim (eq_or_ne f g) [
            | inl eq ↦
                subst (λ (x : ℕ). 1 ≤ sum (runs x) (set s.workers i u)) (sym eq)
                  (omega (
                    arith,
                    one_g,
                    sum-set (runs g) s.workers i w u here,
                    sum-le (runs g) s.workers i w here,
                  ))
            | inr ne ↦ omega (
              arith,
              sum-set (runs f) s.workers i w u here,
              v.exec_runs f (sym (other f ne) ∙ e),
              ap (run_in f) h,
            )
          ];
          spare_init = λ f le.
              let init_f =
                v.spare_init f (omega (arith, le, sum-set (spares f) s.workers i w u here)) in
              other f (λ e. absurd (omega (arith, e, get-some s.fibers f init init_f))) ∙ init_f;
        },
        entered-Moved i w g true s su,
      )

  pub start_task-Enters :
      (i : ℕ) (w : Worker C) (t : Task C) (s : Scheduler C)
      → IsExclusive s
      → get_elem? s.workers i ≡ some w
      → w.phase ≡ holds t
      → Enters i s (start_task i w t s)
  unfolding start_task
  start_task-Enters i w (run_fiber f) s v here h = start_fiber-Enters i w f s v here h
  start_task-Enters i w (run_callback c) s v here h = elim (Option-cases w.cb_fiber) [
    | inl absent ↦ rw (absent, start_task) (new_fiber-Enters i w c s v here h absent)
    | inr (g, kept) ↦ rw (kept, start_task) (spare_fiber-Enters i w c g s v here h kept)
  ]
