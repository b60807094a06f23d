-- ===== src/Scheduler/Count.antt =====
-- The counts of threads with a task and of idle threads.
use ota_new.Common.{
  ℕ, ◌+◌, ◌^◌, ◌≤◌, ◌<◌, ◌≡◌, refl, sym, ap, ◌∙◌, ◌⊎◌, inl, inr, List, [], ◌∷◌, ◌++◌, Option, none,
  some, Bool, true, false, if◌then◌else◌, length, get_elem?, set, arith, length-set,
}
use native.Mathlib.Nat.{mod-eq_of_lt}
use ota_new.IoManager.{decrement, increment}
use ota_new.IoManager.Counted.{decrement-pos}
use ota_new.Scheduler.{
  State, Entry, Phase, looking, holds, running, leaving, back, settling, deactivate, idling, ended,
  Worker, Scheduler, put, taken, take_task, wake,
}
use ota_new.Scheduler.Pick.{Picked, nothing, first, pick-Picked}
use ota_new.Scheduler.Owned.{sum, sum-set, sum-le, rest-le, busy, idles, Moved}

module _ {C : Type 0} where
  pub record IsCounted (s : Scheduler C) : Type 0 where
    pub active : s.active ≡ sum busy s.workers
    pub idle : s.idle ≡ sum idles s.workers
    pub few : length s.workers < 2 ^ 64

  sum-ones : (ws : List (Worker C)) → sum (λ w. 1) ws ≡ length ws
  sum-ones [] = refl
  sum-ones (w ∷ ws) = omega (arith, sum-ones ws)

  module _ (g : Worker C → ℕ) (small : (u : Worker C) → g u ≤ 1) (ws : List (Worker C)) (i : ℕ)
      (w v : Worker C) (n : ℕ) (here : get_elem? ws i ≡ some w) (same : n ≡ sum g ws)
      (few : length ws < 2 ^ 64) where
    room : sum g ws + 1 ≤ length ws + g w
    room = omega (arith, rest-le g (λ u. 1) ws i w small here, sum-ones ws)

    pub up : g w ≡ 0 → g v ≡ 1 → increment n ≡ sum g (set ws i v)
    up a b =
        mod-eq_of_lt {n = n + 1} {m = 2 ^ 64} (omega (arith, same, room, few, a))
        ∙ omega (arith, sum-set g ws i w v here, a, b, same)

    pub down : g w ≡ 1 → g v ≡ 0 → decrement n ≡ sum g (set ws i v)
    down a b =
        let le = sum-le g ws i w here in
        omega (
          arith,
          decrement-pos n (omega (arith, same, le, a)) (omega (arith, same, room, few, a)),
          sum-set g ws i w v here,
          a,
          b,
          same,
        )

    pub level : g w ≡ g v → n ≡ sum g (set ws i v)
    level e = omega (arith, sum-set g ws i w v here, e, same)

  busy-le : (u : Worker C) → busy u ≤ 1
  busy-le u = by_phase u.phase
    where
      by_phase : (p : Phase C) → busy (record u { phase = p }) ≤ 1
      by_phase looking = omega arith
      by_phase (holds t) = omega arith
      by_phase (running f own) = omega arith
      by_phase (leaving f own) = omega arith
      by_phase (back f own) = omega arith
      by_phase (settling f own) = omega arith
      by_phase idling = omega arith
      by_phase ended = omega arith

  idles-le : (u : Worker C) → idles u ≤ 1
  idles-le u = by_phase u.phase
    where
      by_phase : (p : Phase C) → idles (record u { phase = p }) ≤ 1
      by_phase looking = omega arith
      by_phase (holds t) = omega arith
      by_phase (running f own) = omega arith
      by_phase (leaving f own) = omega arith
      by_phase (back f own) = omega arith
      by_phase (settling f own) = omega arith
      by_phase idling = omega arith
      by_phase ended = omega arith

  abbrev pub busy_in : Phase C → ℕ
  busy_in p = busy (record { thread = 0; phase = p; cb_fiber = none; idle_over = false })

  abbrev pub idles_in : Phase C → ℕ
  idles_in p = idles (record { thread = 0; phase = p; cb_fiber = none; idle_over = false })

  -- A step with a task.
  pub Moved-IsCounted :
      (i : ℕ) (w : Worker C) (s t : Scheduler C)
      → IsCounted s
      → get_elem? s.workers i ≡ some w
      → busy w ≡ 1
      → idles w ≡ 0
      → Moved i s t
      → IsCounted t
  Moved-IsCounted i w s t c here b d m = record {
    active = counts m.counted;
    idle =
        m.idle_same
        ∙ level idles idles-le s.workers i w m.worker s.idle here c.idle c.few (d ∙ sym m.not_idle)
        ∙ sym (ap (sum idles) m.placed);
    few = rw (ap length m.placed ∙ length-set s.workers i m.worker) c.few;
  }
    where
      counts :
          ((busy m.worker ≡ 1) × (t.active ≡ s.active))
            ⊎ ((busy m.worker ≡ 0) × (t.active ≡ decrement s.active))
          → t.active ≡ sum busy t.workers
      counts (inl (one, e)) =
          e
          ∙ level busy busy-le s.workers i w m.worker s.active here c.active c.few (b ∙ sym one)
          ∙ sym (ap (sum busy) m.placed)
      counts (inr (free, e)) =
          e
          ∙ down busy busy-le s.workers i w m.worker s.active here c.active c.few b free
          ∙ sym (ap (sum busy) m.placed)

  -- A step that changes one thread and maybe the count of idle threads.
  quiet-IsCounted :
      (i : ℕ) (w v : Worker C) (s : Scheduler C) (q : List (Entry C)) (st : List State) (a d : ℕ)
      → IsCounted s
      → get_elem? s.workers i ≡ some w
      → a ≡ sum busy (set s.workers i v)
      → d ≡ sum idles (set s.workers i v)
      → IsCounted (put i v (record s { queue = q; fibers = st; active = a; idle = d }))
  quiet-IsCounted i w v s q st a d c here ea ed = record {
    active = ea;
    idle = ed;
    few = rw (length-set s.workers i v) c.few;
  }

  module _ (i : ℕ) (w : Worker C) (s : Scheduler C) (c : IsCounted s)
      (here : get_elem? s.workers i ≡ some w) where
    same_busy : (v : Worker C) → busy w ≡ busy v → s.active ≡ sum busy (set s.workers i v)
    same_busy v e = level busy busy-le s.workers i w v s.active here c.active c.few e

    same_idle : (v : Worker C) → idles w ≡ idles v → s.idle ≡ sum idles (set s.workers i v)
    same_idle v e = level idles idles-le s.workers i w v s.idle here c.idle c.few e

    either-IsCounted :
        (b : Bool) {x y : Scheduler C} → IsCounted x → IsCounted y → IsCounted (if b then x else y)
    either-IsCounted true h k = h
    either-IsCounted false h k = k

    taken-IsCounted :
        (q : List (Entry C)) {r : Bool × Option (Entry C) × List (Entry C)}
        → w.phase ≡ looking
        → Picked w.thread s.fibers q r
        → IsCounted (taken i w s r.1 r.2)
    taken-IsCounted q l (nothing b hs) =
        let over : Worker C = record w { phase = ended } in
        let rest : Worker C = record w { phase = idling } in
        either-IsCounted w.idle_over
          (quiet-IsCounted i w over s s.queue s.fibers s.active s.idle c here
            (same_busy over (ap busy_in l)) (same_idle over (ap idles_in l)))
          (quiet-IsCounted i w rest s s.queue s.fibers s.active (increment s.idle) c here
            (same_busy rest (ap busy_in l))
            (up idles idles-le s.workers i w rest s.idle here c.idle c.few (ap idles_in l) refl))
    taken-IsCounted q l (first b before x after split hs o r) =
        let v : Worker C = record w { phase = holds x.task } in
        quiet-IsCounted i w v s (before ++ after) s.fibers (increment s.active) s.idle c here
          (up busy busy-le s.workers i w v s.active here c.active c.few (ap busy_in l) refl)
          (same_idle v (ap idles_in l))

    pub take_task-IsCounted : w.phase ≡ looking → IsCounted (take_task i w s)
    unfolding take_task
    take_task-IsCounted l = taken-IsCounted s.queue l (pick-Picked w.thread s.fibers s.queue)

    pub wake-IsCounted : (over : Bool) → w.phase ≡ idling → IsCounted (wake i w over s)
    unfolding wake
    wake-IsCounted over l =
        let v : Worker C = record w { phase = looking; idle_over = over } in
        quiet-IsCounted i w v s s.queue s.fibers s.active (decrement s.idle) c here
          (same_busy v (ap busy_in l))
          (down idles idles-le s.workers i w v s.idle here c.idle c.few (ap idles_in l) refl)

    pub deactivate-IsCounted :
        (f : ℕ) (own : Bool) → w.phase ≡ back f own → IsCounted (deactivate i w f own s)
    unfolding deactivate
    deactivate-IsCounted f own l =
        let v : Worker C = record w { phase = settling f own } in
        quiet-IsCounted i w v s s.queue s.fibers (decrement s.active) s.idle c here
          (down busy busy-le s.workers i w v s.active here c.active c.few (ap busy_in l) refl)
          (same_idle v (ap idles_in l))

    -- A thread that goes on as it was counted.
    pub on-IsCounted :
        (v : Worker C) (q : List (Entry C)) (st : List State)
        → busy w ≡ busy v
        → idles w ≡ idles v
        → IsCounted (put i v (record s { queue = q; fibers = st }))
    on-IsCounted v q st b d =
        quiet-IsCounted i w v s q st s.active s.idle c here (same_busy v b) (same_idle v d)

  pub held-IsCounted :
      (i : ℕ) (w : Worker C) (p : Phase C) (s t : Scheduler C)
      → IsCounted s
      → get_elem? s.workers i ≡ some w
      → w.phase ≡ p
      → busy_in p ≡ 1
      → idles_in p ≡ 0
      → Moved i s t
      → IsCounted t
  held-IsCounted i w p s t c here e b d m =
      Moved-IsCounted i w s t c here (ap busy_in e ∙ b) (ap idles_in e ∙ d) m
