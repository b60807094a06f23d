-- ===== src/Scheduler/Change.antt =====
-- A step of one thread keeps each fiber in one place.
use ota_new.Common.{
  ℕ, ◌+◌, ◌≤◌, ◌≡◌, ◌≢◌, sym, ap, ◌∙◌, subst, inl, inr, List, some, length, get_elem?, arith,
}
use ota_new.Scheduler.{State, init, exec, Entry, Worker, Scheduler, put}
use ota_new.Scheduler.Owned.{
  sum, sum-set, sum-le, queued, runs, spares, owns, owners, IsExclusive, rest-le, eq_or_ne,
}

module _ {C : Type 0} where
  -- A thread that has no fiber of which the state is changed.
  pub record Keeps (w v : Worker C) (q p : List (Entry C)) : Type 0 where
    pub grows : (f : ℕ) → queued f p + owns f v ≤ queued f q + owns f w
    pub run : (f : ℕ) → runs f w ≤ runs f v
    pub spare : (f : ℕ) → spares f v ≤ spares f w

  -- A thread that changes the state of its fiber `g`.
  pub record Changes (g : ℕ) (w v : Worker C) (q p : List (Entry C)) (st su : List State)
      : Type 0 where
    pub len : length su ≡ length st
    pub grows : (f : ℕ) → queued f p + owns f v ≤ queued f q + owns f w
    pub others : (f : ℕ) → f ≢ g → get_elem? su f ≡ get_elem? st f
    pub run : (f : ℕ) → f ≢ g → runs f w ≤ runs f v
    pub spare : (f : ℕ) → f ≢ g → spares f v ≤ spares f w
    pub runs_own : get_elem? su g ≡ some exec → 1 ≤ runs g v
    pub spare_own : 1 ≤ spares g v → get_elem? su g ≡ some init
    pub had : 1 ≤ owns g w

  module _ (i : ℕ) (w v : Worker C) (s : Scheduler C) (p : List (Entry C)) (su : List State)
      (a b : ℕ) (v-ok : IsExclusive s) (here : get_elem? s.workers i ≡ some w) where
    -- The scheduler after the step.
    abbrev pub after : Scheduler C
    after = put i v (record s { queue = p; fibers = su; active = a; idle = b })

    pub moved :
        (f : ℕ) → owners f after + queued f s.queue + owns f w ≡ owners f s + queued f p + owns f v
    moved f = omega (arith, sum-set (owns f) s.workers i w v here)

    shrinks :
        (f : ℕ) → queued f p + owns f v ≤ queued f s.queue + owns f w → owners f after ≤ owners f s
    shrinks f h = omega (arith, moved f)

    pub Keeps-IsExclusive : su ≡ s.fibers → Keeps w v s.queue p → IsExclusive after
    Keeps-IsExclusive same k = record {
      unique = λ f. omega (arith, shrinks f (k.grows f), v-ok.unique f);
      known = λ f le.
          omega (arith, shrinks f (k.grows f), v-ok.known f (omega (arith, ap length same)));
      exec_runs = λ f e. omega (
        arith,
        sum-set (runs f) s.workers i w v here,
        k.run f,
        v-ok.exec_runs f (sym (ap (λ (l : List State). get_elem? l f) same) ∙ e),
      );
      spare_init = λ f h.
          ap (λ (l : List State). get_elem? l f) same
          ∙ v-ok.spare_init f
              (omega (arith, h, sum-set (spares f) s.workers i w v here, k.spare f));
    }

    pub Changes-IsExclusive : (g : ℕ) → Changes g w v s.queue p s.fibers su → IsExclusive after
    Changes-IsExclusive g k = record {
      unique = λ f. omega (arith, shrinks f (k.grows f), v-ok.unique f);
      known = λ f le. omega (arith, shrinks f (k.grows f), v-ok.known f (omega (arith, k.len)));
      exec_runs = λ f e. elim (eq_or_ne f g) [
        | inl eq ↦
            subst (λ (x : ℕ). 1 ≤ sum (runs x) after.workers) (sym eq)
              (omega (
                arith,
                sum-set (runs g) s.workers i w v here,
                sum-le (runs g) s.workers i w here,
                k.runs_own (subst (λ (x : ℕ). get_elem? su x ≡ some exec) eq e),
              ))
        | inr ne ↦ omega (
          arith,
          sum-set (runs f) s.workers i w v here,
          k.run f ne,
          v-ok.exec_runs f (sym (k.others f ne) ∙ e),
        )
      ];
      spare_init = λ f h. elim (eq_or_ne f g) [
        | inl eq ↦
            subst (λ (x : ℕ). get_elem? su x ≡ some init) (sym eq)
              (k.spare_own (
                omega (
                  arith,
                  subst (λ (x : ℕ). 1 ≤ sum (spares x) after.workers) eq h,
                  sum-set (spares g) s.workers i w v here,
                  rest-le (spares g) (owns g) s.workers i w (λ u. omega arith) here,
                  v-ok.unique g,
                  k.had,
                )))
        | inr ne ↦
            k.others f ne
            ∙ v-ok.spare_init f
                (omega (arith, h, sum-set (spares f) s.workers i w v here, k.spare f ne))
      ];
    }
