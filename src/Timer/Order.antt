-- ===== src/Timer/Order.antt =====
-- The set of timers stays strictly ordered, with no timer in it twice.
use ota_new.Common.{
  ℕ, ◌<◌, ◌≡◌, ◌≢◌, refl, List, [], ◌∷◌, none, some, Bool, true, false, arith, All, Bool-cases, inl,
  inr, ◌⊎◌, Option-cases, ◌==◌, ◌&&◌, not, ==_iff, sym, subst,
}
use ota_new.Timer.{
  Timer, TimerManager, less, insert, find, erase, add_to_set, add_timer, cancel, refresh, reset,
}

module _ {C : Type 0} where
  -- Before in time, or at the same time at a lower address.
  abbrev pub Before : Timer C → Timer C → Type 0
  Before a b = (a.next < b.next) ⊎ ((a.next ≡ b.next) × (a.id < b.id))

  abbrev pub IsSorted : List (Timer C) → Type 0
  IsSorted [] = Unit {0}
  IsSorted (x ∷ xs) = All (Before x) xs × IsSorted xs

  abbrev pub Fresh : ℕ → List (Timer C) → Type 0
  Fresh i ts = All (λ (t : Timer C). t.id ≢ i) ts

  abbrev pub Distinct : List (Timer C) → Type 0
  Distinct [] = Unit {0}
  Distinct (x ∷ xs) = Fresh x.id xs × Distinct xs

  pub less→Before : (a b : Timer C) → less a b ≡ true → Before a b
  unfolding less
  less→Before a b h = ground arith

  pub not_less→Before : (a b : Timer C) → a.id ≢ b.id → less a b ≡ false → Before b a
  unfolding less
  not_less→Before a b ne h = ground arith

  pub less-of-Before : (a b : Timer C) → Before a b → less a b ≡ true
  unfolding less
  less-of-Before a b h = ground arith

  Before-trans : (a b c : Timer C) → Before a b → Before b c → Before a c
  Before-trans a b c p q = ground arith

  Before-All :
      (a b : Timer C) (ts : List (Timer C)) → Before a b → All (Before b) ts → All (Before a) ts
  Before-All a b [] p h = tt
  Before-All a b (t ∷ ts) p (h, hs) = (Before-trans a b t p h, Before-All a b ts p hs)

  pub All-insert :
      (P : Timer C → Type 0) (t : Timer C) (ts : List (Timer C))
      → P t
      → All P ts
      → All P (insert t ts)
  unfolding insert
  All-insert P t [] p h = (p, tt)
  All-insert P t (x ∷ xs) p (h, hs) = elim (Bool-cases (less t x)) [
    | inl before ↦ rw before (p, (h, hs))
    | inr not_before ↦ elim (Bool-cases (less x t)) [
      | inl behind ↦ rw (not_before, behind) (h, All-insert P t xs p hs)
      | inr same ↦ rw (not_before, same) (h, hs)
    ]
  ]

  pub insert-IsSorted :
      (t : Timer C) (ts : List (Timer C)) → Fresh t.id ts → IsSorted ts → IsSorted (insert t ts)
  unfolding insert
  insert-IsSorted t [] f h = (tt, tt)
  insert-IsSorted t (x ∷ xs) (ne, f) (hx, hs) = elim (Bool-cases (less t x)) [
    | inl before ↦
        let b = less→Before t x before in rw before ((b, Before-All t x xs b hx), (hx, hs))
    | inr not_before ↦
        let b = not_less→Before t x (λ e. ne (sym e)) not_before in
        rw (not_before, less-of-Before x t b)
          (All-insert (Before x) t xs b hx, insert-IsSorted t xs f hs)
  ]

  -- Inserting a new timer puts it in, and loses none.
  pub insert-Fresh :
      (i : ℕ) (t : Timer C) (ts : List (Timer C)) → t.id ≢ i → Fresh i ts → Fresh i (insert t ts)
  insert-Fresh i t ts ne f = All-insert (λ (x : Timer C). x.id ≢ i) t ts ne f

  pub insert-Distinct :
      (t : Timer C) (ts : List (Timer C)) → Fresh t.id ts → Distinct ts → Distinct (insert t ts)
  unfolding insert
  insert-Distinct t [] f d = (tt, tt)
  insert-Distinct t (x ∷ xs) (ne, f) (fx, d) = elim (Bool-cases (less t x)) [
    | inl before ↦ rw before ((ne, f), (fx, d))
    | inr not_before ↦
        rw (not_before, less-of-Before x t (not_less→Before t x (λ e. ne (sym e)) not_before))
          (insert-Fresh x.id t xs (λ e. ne (sym e)) fx, insert-Distinct t xs f d)
  ]

  pub erase-All :
      (P : Timer C → Type 0) (i : ℕ) (ts : List (Timer C)) → All P ts → All P (erase i ts)
  unfolding erase
  erase-All P i [] h = tt
  erase-All P i (x ∷ xs) (h, hs) = elim (Bool-cases (x.id == i)) [
    | inl hit ↦ rw hit hs
    | inr miss ↦ rw miss (h, erase-All P i xs hs)
  ]

  pub erase-IsSorted : (i : ℕ) (ts : List (Timer C)) → IsSorted ts → IsSorted (erase i ts)
  unfolding erase
  erase-IsSorted i [] h = tt
  erase-IsSorted i (x ∷ xs) (h, hs) = elim (Bool-cases (x.id == i)) [
    | inl hit ↦ rw hit hs
    | inr miss ↦ rw miss (erase-All (Before x) i xs h, erase-IsSorted i xs hs)
  ]

  pub erase-Distinct : (i : ℕ) (ts : List (Timer C)) → Distinct ts → Distinct (erase i ts)
  unfolding erase
  erase-Distinct i [] h = tt
  erase-Distinct i (x ∷ xs) (h, hs) = elim (Bool-cases (x.id == i)) [
    | inl hit ↦ rw hit hs
    | inr miss ↦ rw miss (erase-All (λ (t : Timer C). t.id ≢ x.id) i xs h, erase-Distinct i xs hs)
  ]

  -- What is erased is gone.
  pub erase-Fresh_self : (i : ℕ) (ts : List (Timer C)) → Distinct ts → Fresh i (erase i ts)
  unfolding erase
  erase-Fresh_self i [] h = tt
  erase-Fresh_self i (x ∷ xs) (h, hs) = elim (Bool-cases (x.id == i)) [
    | inl hit ↦ rw hit (subst (λ (k : ℕ). Fresh k xs) ((==_iff x.id i).0 hit) h)
    | inr miss ↦ rw miss (ground arith, erase-Fresh_self i xs hs)
  ]

  pub find-none_of_Fresh : (i : ℕ) (ts : List (Timer C)) → Fresh i ts → find i ts ≡ none
  unfolding find
  find-none_of_Fresh i [] h = refl
  find-none_of_Fresh i (x ∷ xs) (h, hs) = ground (arith, find-none_of_Fresh i xs hs)

  pub find-id : (i : ℕ) (ts : List (Timer C)) (t : Timer C) → find i ts ≡ some t → t.id ≡ i
  unfolding find
  find-id i [] t e = cc
  find-id i (x ∷ xs) t e = ground (arith, find-id i xs t)

  -- The representation invariant of the manager.
  pub record IsValid (m : TimerManager C) : Type 0 where
    pub sorted : IsSorted m.timers
    pub distinct : Distinct m.timers

  put-IsValid :
      (t : Timer C) (m : TimerManager C) (tickled : Bool)
      → IsValid m
      → Fresh t.id m.timers
      → IsValid (record m { timers = insert t m.timers; tickled = tickled })
  put-IsValid t m tickled v f = record {
    sorted = insert-IsSorted t m.timers f v.sorted;
    distinct = insert-Distinct t m.timers f v.distinct;
  }

  -- `addTimer` of a timer at an address that no timer of the set has keeps the set strictly ordered
  -- and without duplicates.
  pub add_timer-IsValid :
      (id ms : ℕ) (cb : C) (recurring : Bool) (now : ℕ) {m : TimerManager C}
      → IsValid m
      → Fresh id m.timers
      → IsValid (add_timer id ms cb recurring now m).1
  unfolding add_timer
  add_timer-IsValid id ms cb recurring now {m} v f = put-IsValid _ m _ v f

  take_out :
      (i : ℕ) {m : TimerManager C}
      → IsValid m
      → IsValid (record m { timers = erase i m.timers }) × Fresh i (erase i m.timers)
  take_out i {m} v = (
    record {
      sorted = erase-IsSorted i m.timers v.sorted;
      distinct = erase-Distinct i m.timers v.distinct;
    },
    erase-Fresh_self i m.timers v.distinct,
  )

  -- `cancel` keeps the set strictly ordered and without duplicates, whether the timer is there or not.
  pub cancel-IsValid : (i : ℕ) {m : TimerManager C} → IsValid m → IsValid (cancel i m).1
  unfolding cancel
  cancel-IsValid i {m} v = elim (Option-cases (find i m.timers)) [
    | inl gone ↦ rw (gone, cancel) v
    | inr (t, here) ↦ rw (here, cancel) (take_out i v).0
  ]

  -- `refresh` keeps the set strictly ordered and without duplicates, whether the timer is there or not.
  pub refresh-IsValid : (i now : ℕ) {m : TimerManager C} → IsValid m → IsValid (refresh i now m).1
  unfolding refresh
  refresh-IsValid i now {m} v = elim (Option-cases (find i m.timers)) [
    | inl gone ↦ rw (gone, refresh) v
    | inr (t, here) ↦
        let (w, f) = take_out i v in
        rw (here, refresh)
          (put-IsValid _ (record m { timers = erase i m.timers }) m.tickled w
            (rw (find-id i m.timers t here) f))
  ]

  -- `reset` keeps the set strictly ordered and without duplicates, on each of its branches.
  pub reset-IsValid :
      (h : Timer C) (ms : ℕ) (from_now : Bool) (now : ℕ) {m : TimerManager C}
      → IsValid m
      → IsValid (reset h ms from_now now m).1
  unfolding reset add_to_set
  reset-IsValid h ms from_now now {m} v = elim (Bool-cases (ms == h.ms && not from_now)) [
    | inl same ↦ rw (same, reset) v
    | inr change ↦ elim (Option-cases (find h.id m.timers)) [
      | inl gone ↦ rw (change, gone, reset) v
      | inr (t, here) ↦
          let (w, f) = take_out h.id v in
          rw (change, here, reset)
            (put-IsValid _ (record m { timers = erase h.id m.timers }) _ w
              (rw (find-id h.id m.timers t here) f))
    ]
  ]
