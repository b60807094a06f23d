-- ===== src/Scheduler/Race.antt =====
-- A fiber that is scheduled while it runs, as an event does that comes before the fiber yields.
use ota_new.Common.{
  ℕ, zero, suc, ◌<◌, ◌≡◌, ◌≢◌, refl, sym, ap, ◌∙◌, List, [], ◌∷◌, Option, none, some, Bool, true,
  false, ◌++◌, length, get_elem?, set, arith, get_elem?-set_self, get_elem?-set_ne, length-set,
}
use ota_new.IoManager.{run_fiber, increment}
use ota_new.Scheduler
use ota_new.Scheduler.{
  State, ready, settling, deactivate, finish, is_stopping, hold, exec, yields_hold, Entry, Phase,
  looking, holds, running, leaving, Worker, pick, take_task, start_task, leave, taken, put,
  is_other, is_running, is_exec, entered,
}
use ota_new.Scheduler.Steps.{swap_in-free}
use ota_new.Scheduler.Reach.{At}

not_running :
    (D : Type 0) (st : List State) (f : ℕ)
    → get_elem? st f ≡ some hold
    → is_running {C = D} st (run_fiber f) ≡ false
not_running D st f h = ap (λ o. elim o as (λ x. Bool) [ none ↦ false | some s ↦ is_exec s ]) h

module _ {C : Type 0} where
  abbrev pub any_thread : ℕ → Entry C
  any_thread f = record { task = run_fiber f; thread = none }

  pick-free :
      (t : ℕ) (st : List State) (e : Entry C) (es : List (Entry C))
      → is_other t e ≡ false
      → is_running st e.task ≡ false
      → pick t st (e ∷ es) ≡ (false, some e, es)
  unfolding pick
  pick-free t st e es mine free = rw (mine, free, pick) refl

  taken_first :
      (j : ℕ) (u : Worker C) (f : ℕ) (es : List (Entry C)) (s : Scheduler.Scheduler C)
      → s.queue ≡ any_thread f ∷ es
      → get_elem? s.fibers f ≡ some hold
      → take_task j u s
        ≡ put j
            (record u { phase = holds (run_fiber f) })
            (record s { queue = es; active = increment s.active })
  unfolding take_task
  taken_first j u f es s q h =
      ap (λ (r : Bool × Option (Entry C) × List (Entry C)). taken j u s r.1 r.2)
        (ap (pick u.thread s.fibers) q
          ∙ pick-free u.thread s.fibers (any_thread f) es refl (not_running C s.fibers f h))

  started :
      (j : ℕ) (u : Worker C) (f : ℕ) (s : Scheduler.Scheduler C)
      → get_elem? s.fibers f ≡ some hold
      → start_task j u (run_fiber f) s
        ≡ some (
            put j
              (record u { phase = running f false })
              (record s { fibers = set s.fibers f exec }))
  unfolding start_task
  started j u f s h =
      rw (h, start_task) (ap (entered j u f false s) (swap_in-free f s.fibers hold h refl))

  get-lt : (ws : List (Worker C)) (i : ℕ) (w : Worker C) → get_elem? ws i ≡ some w → i < length ws
  get-lt [] i w e = absurd (ground (arith, e))
  get-lt (x ∷ ws) zero w e = omega arith
  get-lt (x ∷ ws) (suc i) w e = omega (arith, get-lt ws i w e)

  two_threads :
      (ws : List (Worker C)) (i j : ℕ) (w v u x y : Worker C)
      → i ≢ j
      → get_elem? ws i ≡ some w
      → get_elem? ws j ≡ some u
      → (get_elem? (set (set (set ws i v) j x) j y) i ≡ some v)
        × (get_elem? (set (set (set ws i v) j x) j y) j ≡ some y)
  two_threads ws i j w v u x y ne hi hj = (
    get_elem?-set_ne (set (set ws i v) j x) y (λ e. ne (sym e))
        ∙ get_elem?-set_ne (set ws i v) x (λ e. ne (sym e))
        ∙ get_elem?-set_self ws i v (get-lt ws i w hi),
    get_elem?-set_self (set (set ws i v) j x) j y
        (omega (arith, length-set (set ws i v) j x, length-set ws i v, get-lt ws j u hj)),
  )

  -- A fiber that was put on the queue for any thread while it runs, and stands first in it, runs on two threads
  -- once it has set its state to HOLD to yield and another thread comes to the queue before the
  -- contexts are switched: neither the queue's test for EXEC nor an assertion of `swapIn` holds it back.
  pub yield-twice :
      (s : Scheduler.Scheduler C) (i j : ℕ) (w u : Worker C) (f : ℕ) (own : Bool)
      (es : List (Entry C))
      → i ≢ j
      → f < length s.fibers
      → At i w (running f own) s
      → At j u looking s
      → s.queue ≡ any_thread f ∷ es
      → (n : Scheduler.Scheduler C) × (start_task j
            (record u { phase = holds (run_fiber f) })
            (run_fiber f)
            (take_task j u (leave i w f own yields_hold s))
          ≡ some n)
        × (get_elem? n.workers i ≡ some (record w { phase = leaving f own }))
        × (get_elem? n.workers j ≡ some (record u { phase = running f false }))
  unfolding leave
  yield-twice s i j w u f own es ne lt (hi, pi) (hj, pj) q =
      let held = get_elem?-set_self s.fibers f hold lt in
      let v : Worker C = record w { phase = leaving f own } in
      let x : Worker C = record u { phase = holds (run_fiber f) } in
      let y : Worker C = record u { phase = running f false } in
      let left = leave i w f own yields_hold s in
      let held_by_two = put j x (record left { queue = es; active = increment left.active }) in
      let (at_i, at_j) = two_threads s.workers i j w v u x y ne hi hj in
      (
        put j y (record held_by_two { fibers = set left.fibers f exec }),
        ap (start_task j x (run_fiber f)) (taken_first j u f es left q held)
            ∙ started j x f held_by_two held,
        at_i,
        at_j,
      )

  -- A thread's only task, a fiber that yielded READY, is back: once the count is taken down, `stopping` is true,
  -- though the fiber goes back on the queue next.
  pub stopping-early :
      (s : Scheduler.Scheduler C) (i : ℕ) (w : Worker C) (f : ℕ)
      → get_elem? s.fibers f ≡ some ready
      → s.queue ≡ []
      → s.active ≡ 1
      → s.stopping ≡ true
      → s.auto_stop ≡ true
      → (is_stopping (deactivate i w f false s) ≡ true)
        × ((n : Scheduler.Scheduler C) × (finish i
                (record w { phase = settling f false })
                f
                false
                (deactivate i w f false s)
              ≡ some n)
            × (n.queue ≡ any_thread f ∷ []))
  unfolding is_stopping deactivate finish
  stopping-early s i w f h q a stopping auto = (
    rw (auto, stopping, q, a) refl,
    rw (h, finish) (_, refl, ap (λ (l : List (Entry C)). l ++ (any_thread f ∷ [])) q),
  )
