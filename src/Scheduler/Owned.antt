-- ===== src/Scheduler/Owned.antt =====
-- Who has a fiber: the queue, a thread that took it, a thread that runs it, or a thread that keeps it for callbacks.
use ota_new.Common.{
  ℕ, zero, suc, ◌+◌, ◌≤◌, ◌≡◌, ◌≢◌, refl, ◌⊎◌, inl, inr, List, [], ◌∷◌, ◌++◌, Option, none, some,
  Bool, true, false, length, get_elem?, set, arith, Bool-cases, ◌==◌,
}
use mathlib.Core.Option.{some-injective}
use ota_new.IoManager.{Task, run_fiber, run_callback, decrement}
use ota_new.Scheduler.{
  State, init, exec, Entry, Phase, looking, holds, running, leaving, back, settling, idling, Worker,
  Scheduler, put,
}

pub eq_or_ne : (a b : ℕ) → (a ≡ b) ⊎ (a ≢ b)
eq_or_ne a b = elim (Bool-cases (a == b)) [
  | inl h ↦ inl (ground (arith, h))
  | inr h ↦ inr (λ e. ground (arith, h, e))
]

abbrev pub one : Bool → ℕ
one true = 1
one false = 0

abbrev pub spare_in : ℕ → Option ℕ → ℕ
spare_in f none = 0
spare_in f (some g) = one (g == f)

module _ {C : Type 0} where
  abbrev pub sum : (Worker C → ℕ) → List (Worker C) → ℕ
  sum g [] = 0
  sum g (w ∷ ws) = g w + sum g ws

  pub sum-set :
      (g : Worker C → ℕ) (ws : List (Worker C)) (i : ℕ) (w v : Worker C)
      → get_elem? ws i ≡ some w
      → sum g (set ws i v) + g w ≡ sum g ws + g v
  sum-set g [] i w v e = absurd (ground arith)
  sum-set g (x ∷ ws) zero w v e = rw (some-injective _ _ e) (omega arith)
  sum-set g (x ∷ ws) (suc i) w v e = omega (arith, sum-set g ws i w v e)

  pub sum-le :
      (g : Worker C → ℕ) (ws : List (Worker C)) (i : ℕ) (w : Worker C)
      → get_elem? ws i ≡ some w
      → g w ≤ sum g ws
  sum-le g [] i w e = absurd (ground arith)
  sum-le g (x ∷ ws) zero w e = rw (some-injective _ _ e) (omega arith)
  sum-le g (x ∷ ws) (suc i) w e = omega (arith, sum-le g ws i w e)

  -- What the other workers have of less is less.
  pub rest-le :
      (a b : Worker C → ℕ) (ws : List (Worker C)) (i : ℕ) (w : Worker C)
      → ((u : Worker C) → a u ≤ b u)
      → get_elem? ws i ≡ some w
      → sum a ws + b w ≤ sum b ws + a w
  rest-le a b [] i w h e = absurd (ground arith)
  rest-le a b (x ∷ ws) zero w h e = rw (some-injective _ _ e) (omega (arith, all-le ws))
    where
      all-le : (us : List (Worker C)) → sum a us ≤ sum b us
      all-le [] = omega arith
      all-le (u ∷ us) = omega (arith, h u, all-le us)
  rest-le a b (x ∷ ws) (suc i) w h e = omega (arith, h x, rest-le a b ws i w h e)

  abbrev pub of_task : ℕ → Task C → ℕ
  of_task f (run_fiber g) = one (g == f)
  of_task f (run_callback c) = 0

  abbrev pub queued : ℕ → List (Entry C) → ℕ
  queued f [] = 0
  queued f (e ∷ es) = of_task f e.task + queued f es

  abbrev pub taken_in : ℕ → Phase C → ℕ
  taken_in f (holds t) = of_task f t
  taken_in f _ = 0

  abbrev pub run_in : ℕ → Phase C → ℕ
  run_in f (running g own) = one (g == f)
  run_in f (leaving g own) = one (g == f)
  run_in f (back g own) = one (g == f)
  run_in f (settling g own) = one (g == f)
  run_in f _ = 0

  abbrev pub runs : ℕ → Worker C → ℕ
  runs f w = run_in f w.phase

  abbrev pub spares : ℕ → Worker C → ℕ
  spares f w = spare_in f w.cb_fiber

  -- How often a thread has the fiber.
  abbrev pub owns : ℕ → Worker C → ℕ
  owns f w = taken_in f w.phase + run_in f w.phase + spare_in f w.cb_fiber

  -- How often the scheduler has it.
  abbrev pub owners : ℕ → Scheduler C → ℕ
  owners f s = queued f s.queue + sum (owns f) s.workers

  -- No fiber is anywhere twice; a state EXEC is that of a fiber that runs; what is kept for callbacks is INIT.
  pub record IsExclusive (s : Scheduler C) : Type 0 where
    pub unique : (f : ℕ) → owners f s ≤ 1
    pub known : (f : ℕ) → length s.fibers ≤ f → owners f s ≡ 0
    pub exec_runs : (f : ℕ) → get_elem? s.fibers f ≡ some exec → 1 ≤ sum (runs f) s.workers
    pub spare_init : (f : ℕ) → 1 ≤ sum (spares f) s.workers → get_elem? s.fibers f ≡ some init

  pub queued-append :
      (f : ℕ) (xs ys : List (Entry C)) → queued f (xs ++ ys) ≡ queued f xs + queued f ys
  queued-append f [] ys = omega arith
  queued-append f (x ∷ xs) ys = omega (arith, queued-append f xs ys)

  -- A thread that has a task that is counted, and one that runs its idle fiber.
  abbrev pub busy : Worker C → ℕ
  busy w = elim w.phase [
    | holds t ↦ 1
    | running f own ↦ 1
    | leaving f own ↦ 1
    | back f own ↦ 1
    | _ ↦ 0
  ]

  abbrev pub idles : Worker C → ℕ
  idles w = elim w.phase [ idling ↦ 1 | _ ↦ 0 ]

  -- What a step with a task does to the counts.
  pub record Moved (i : ℕ) (s t : Scheduler C) : Type 0 where
    pub worker : Worker C
    pub placed : t.workers ≡ set s.workers i worker
    pub idle_same : t.idle ≡ s.idle
    pub not_idle : idles worker ≡ 0
    pub counted :
        ((busy worker ≡ 1) × (t.active ≡ s.active))
        ⊎ ((busy worker ≡ 0) × (t.active ≡ decrement s.active))

  pub entered-Moved :
      (i : ℕ) (u : Worker C) (g : ℕ) (own : Bool) (s : Scheduler C) (su : List State)
      → Moved i s (put i (record u { phase = running g own }) (record s { fibers = su }))
  entered-Moved i u g own s su = record {
    worker = record u { phase = running g own };
    placed = refl;
    idle_same = refl;
    not_idle = refl;
    counted = inl (refl, refl);
  }

  pub dropped-Moved :
      (i : ℕ) (u : Worker C) (s : Scheduler C) (q : List (Entry C)) (su : List State)
      → Moved i s (
          put i
            (record u { phase = looking })
            (record s { active = decrement s.active; queue = q; fibers = su }))
  dropped-Moved i u s q su = record {
    worker = record u { phase = looking };
    placed = refl;
    idle_same = refl;
    not_idle = refl;
    counted = inr (refl, refl);
  }
