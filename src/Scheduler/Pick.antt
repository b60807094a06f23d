-- ===== src/Scheduler/Pick.antt =====
-- The task that a thread takes off the queue.
use ota_new.Common.{
  ℕ, ◌≡◌, refl, ap, List, [], ◌∷◌, ◌++◌, Option, none, some, Bool, true, false, ◌||◌, All, arith,
  Bool-cases, inl, inr,
}
use ota_new.Scheduler.{State, Entry, is_other, is_running, pick}

module _ {C : Type 0} where
  -- An entry that the thread passes over.
  abbrev pub Skipped : ℕ → List State → Entry C → Type 0
  Skipped t st e = is_other t e || is_running st e.task ≡ true

  -- `pick` took the first entry that is for the thread and does not run, or there is none.
  pub data Picked (t : ℕ) (st : List State) (q : List (Entry C))
      : Bool × Option (Entry C) × List (Entry C) → Type 0 where
    nothing : (b : Bool) → All (Skipped t st) q → Picked t st q (b, none, q)
    first :
        (b : Bool) (before : List (Entry C)) (e : Entry C) (after : List (Entry C))
        → q ≡ before ++ (e ∷ after)
        → All (Skipped t st) before
        → is_other t e ≡ false
        → is_running st e.task ≡ false
        → Picked t st q (b, some e, before ++ after)

  skip-Picked :
      (t : ℕ) (st : List State) (e : Entry C) (es : List (Entry C)) (c : Bool)
      {r : Bool × Option (Entry C) × List (Entry C)}
      → Skipped t st e
      → Picked t st es r
      → Picked t st (e ∷ es) (c, r.1, e ∷ r.2)
  skip-Picked t st e es c h (nothing b hs) = nothing c (h, hs)
  skip-Picked t st e es c h (first b before x after q hs o r) =
      first c (e ∷ before) x after (ap (◌∷◌ e) q) (h, hs) o r

  -- A thread takes the first entry of the queue that is for it or for any thread, and whose fiber does
  -- not run, and leaves the others in their order; it takes none only if there is no such entry.
  pub pick-Picked : (t : ℕ) (st : List State) (q : List (Entry C)) → Picked t st q (pick t st q)
  unfolding pick
  pick-Picked t st [] = nothing false tt
  pick-Picked t st (e ∷ es) = elim (Bool-cases (is_other t e)) [
    | inl other ↦
        rw (other, pick) (skip-Picked t st e es true (ground (arith, other)) (pick-Picked t st es))
    | inr mine ↦ elim (Bool-cases (is_running st e.task)) [
      | inl runs ↦
          rw (mine, runs, pick)
            (skip-Picked t st e es (pick t st es).0 (ground (arith, runs)) (pick-Picked t st es))
      | inr free ↦ rw (mine, free, pick) (first false [] e es refl tt mine free)
    ]
  ]
