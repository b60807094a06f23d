-- ===== src/IoManager/Counted.antt =====
-- `m_pendingEventCount` is the number of events that something waits for, and an event that is taken back
-- by force is scheduled once.
use ota_new.Common.{
  ℕ, zero, suc, ◌+◌, ◌-◌, ◌*◌, ◌^◌, ◌≤◌, ◌<◌, ◌≡◌, refl, ap, ◌∙◌, subst, List, [], ◌∷◌, ◌++◌, some,
  Bool, true, false, if◌then◌else◌, length, get_elem?, set, All, arith, length-append,
}
use native.Mathlib.Nat.{mod-eq_of_lt, add-mod_right}
use mathlib.Core.Option.{some-injective}
use ota_new.IoManager.{
  Event, has, Task, FdContext, IoManager, decrement, no_context, get_context, put_event,
  after_trigger, trigger_if,
}
use ota_new.IoManager.Context.{
  IsConsistent, weight, task_of, waits_for, trigger_event-set, put_event-IsConsistent,
  weight-put_clear, tally, tally-append, tally-put_event, tasks_of, tasks_in, tasks_in-Waits,
  all_waiting, waiting_for,
}

pub decrement-pos : (n : ℕ) → 0 < n → n < 2 ^ 64 → decrement n + 1 ≡ n
decrement-pos n pos small = grind (arith, add-mod_right, mod-eq_of_lt {n = n - 1} {m = 2 ^ 64})

module _ {C : Type 0} where
  abbrev pub total : List (FdContext C) → ℕ
  total [] = 0
  total (c ∷ cs) = weight c + total cs

  -- The representation invariant. A descriptor is an `int`, so the vector is short.
  pub record IsValid (m : IoManager C) : Type 0 where
    pub consistent : All IsConsistent m.contexts
    pub counted : m.pending ≡ total m.contexts
    pub small : length m.contexts ≤ 2 ^ 32
    pub enough : 2 ≤ length m.contexts

  weight-le : (c : FdContext C) → weight c ≤ 2
  weight-le c = ground arith

  pub total-le : (cs : List (FdContext C)) → total cs ≤ 2 * length cs
  total-le [] = omega arith
  total-le (c ∷ cs) = omega (arith, weight-le c, total-le cs)

  pub All-get :
      (cs : List (FdContext C)) (i : ℕ) (c : FdContext C)
      → All IsConsistent cs
      → get_elem? cs i ≡ some c
      → IsConsistent c
  All-get [] i c h e = absurd (ground arith)
  All-get (x ∷ cs) zero c (h, hs) e = subst IsConsistent (some-injective _ _ e) h
  All-get (x ∷ cs) (suc i) c (h, hs) e = All-get cs i c hs e

  pub All-set :
      (cs : List (FdContext C)) (i : ℕ) (c : FdContext C)
      → All IsConsistent cs
      → IsConsistent c
      → All IsConsistent (set cs i c)
  All-set [] i c h k = tt
  All-set (x ∷ cs) zero c (h, hs) k = (k, hs)
  All-set (x ∷ cs) (suc i) c (h, hs) k = (h, All-set cs i c hs k)

  pub total-set :
      (cs : List (FdContext C)) (i : ℕ) (c d : FdContext C)
      → get_elem? cs i ≡ some c
      → total (set cs i d) + weight c ≡ total cs + weight d
  total-set [] i c d e = absurd (ground arith)
  total-set (x ∷ cs) zero c d e = rw (some-injective _ _ e) (omega arith)
  total-set (x ∷ cs) (suc i) c d e = omega (arith, total-set cs i c d e)

  pub waiting-set :
      (p : ℕ × Task C → Bool) (cs : List (FdContext C)) (i : ℕ) (c d : FdContext C)
      → get_elem? cs i ≡ some c
      → tally p (all_waiting (set cs i d)) + tally p (tasks_of c)
        ≡ tally p (all_waiting cs) + tally p (tasks_of d)
  waiting-set p [] i c d e = absurd (ground arith)
  waiting-set p (x ∷ cs) zero c d e = rw (some-injective _ _ e) (
      omega (
        arith,
        tally-append p (tasks_of c) (all_waiting cs),
        tally-append p (tasks_of d) (all_waiting cs),
      ))
  waiting-set p (x ∷ cs) (suc i) c d e = omega (
    arith,
    tally-append p (tasks_of x) (all_waiting cs),
    tally-append p (tasks_of x) (all_waiting (set cs i d)),
    waiting-set p cs i c d e,
  )

  pub weight-le_total :
      (cs : List (FdContext C)) (i : ℕ) (c : FdContext C)
      → get_elem? cs i ≡ some c
      → weight c ≤ total cs
  weight-le_total [] i c e = absurd (ground arith)
  weight-le_total (x ∷ cs) zero c e = rw (some-injective _ _ e) (omega arith)
  weight-le_total (x ∷ cs) (suc i) c e = omega (arith, weight-le_total cs i c e)

  -- Of a context that began as `c` with the count `p`: what was taken out of it is scheduled.
  pub record Balanced (c : FdContext C) (p : ℕ) (t : FdContext C × List (ℕ × Task C) × ℕ)
      : Type 0 where
    pub consistent : IsConsistent t.0
    pub moved : weight t.0 + length t.1 ≡ weight c
    pub counted : t.2 + length t.1 ≡ p
    pub tasks :
        (q : ℕ × Task C → Bool) → tally q (tasks_of t.0) + tally q t.1 ≡ tally q (tasks_of c)

  one_waits :
      (e : Event) (d : FdContext C) (v : IsConsistent d) (h : has e d.events ≡ true)
      → waiting_for e d ≡ task_of (get_context e d) (waits_for e d v h) ∷ []
  one_waits e d v h =
      ap (λ b. if b then tasks_in (get_context e d) else []) h
      ∙ tasks_in-Waits (get_context e d) (waits_for e d v h)

  trigger-Balanced :
      (e : Event) (c : FdContext C) (p : ℕ) (d : FdContext C) (tasks : List (ℕ × Task C)) (q : ℕ)
      → weight c ≤ p
      → p < 2 ^ 64
      → Balanced c p (d, tasks, q)
      → has e d.events ≡ true
      → (t : FdContext C × List (ℕ × Task C) × ℕ) × (trigger_if true e (d, tasks, q) ≡ some t)
        × Balanced c p t
        × (t.0 ≡ put_event e false no_context d)
  unfolding trigger_if
  trigger-Balanced e c p d tasks q le small b h =
      let cleared = put_event e false no_context d in
      let task = task_of (get_context e d) (waits_for e d b.consistent h) in
      let lighter : weight cleared + 1 ≡ weight d = weight-put_clear e no_context d h in
      let len : length (tasks ++ (task ∷ [])) ≡ length tasks + 1 =
        length-append tasks (task ∷ []) in
      (
        (cleared, tasks ++ (task ∷ []), decrement q),
        ap (after_trigger (d, tasks, q)) (trigger_event-set e d b.consistent h),
        record {
          consistent = put_event-IsConsistent e false no_context d b.consistent refl;
          moved = omega (arith, lighter, len, b.moved);
          counted = omega (
            arith,
            lighter,
            len,
            b.moved,
            b.counted,
            decrement-pos q (omega (arith, b.moved, b.counted, lighter)) (omega (arith, b.counted)),
          );
          tasks = λ p. omega (
            arith,
            b.tasks p,
            tally-append p tasks (task ∷ []),
            tally-put_event p e false no_context d,
            ap (tally p) (one_waits e d b.consistent h),
          );
        },
        refl,
      )

  -- An event is triggered only where something waits for it.
  pub trigger_if-Balanced :
      (flag : Bool) (e : Event) (c : FdContext C) (p : ℕ) (d : FdContext C)
      (tasks : List (ℕ × Task C)) (q : ℕ)
      → weight c ≤ p
      → p < 2 ^ 64
      → Balanced c p (d, tasks, q)
      → (flag ≡ true → has e d.events ≡ true)
      → (t : FdContext C × List (ℕ × Task C) × ℕ) × (trigger_if flag e (d, tasks, q) ≡ some t)
        × Balanced c p t
        × (t.0 ≡ (if flag then put_event e false no_context d else d))
  unfolding trigger_if
  trigger_if-Balanced true e c p d tasks q le small b h =
      trigger-Balanced e c p d tasks q le small b (h refl)
  trigger_if-Balanced false e c p d tasks q le small b h = ((d, tasks, q), refl, b, refl)

  pub start-Balanced : (c : FdContext C) (p : ℕ) → IsConsistent c → Balanced c p (c, [], p)
  start-Balanced c p v = record {
    consistent = v;
    moved = omega arith;
    counted = omega arith;
    tasks = λ q. omega arith;
  }
