-- ===== src/Timer/Cut.antt =====
-- Which callbacks `listExpiredCb` hands out, and what stays in the set.
use ota_new.Common.{
  ℕ, ◌<◌, ◌≡◌, refl, List, [], ◌∷◌, Bool, true, false, arith, All, Bool-cases, inl, inr, ltb, leb,
  if◌then◌else◌, ltb→lt,
}
use ota_new.Timer.{
  Timer, TimerManager, less, list_expired_cb, rearm, split_due, callbacks, detect_clock_rollover,
}
use ota_new.Timer.Order.{Before, IsSorted, IsValid}

module _ {C : Type 0} where
  -- The timers at or before `now`, in order: what should fire.
  unfoldable pub due_at : ℕ → List (Timer C) → List (Timer C)
  due_at now [] = []
  due_at now (x ∷ xs) = if leb x.next now then x ∷ due_at now xs else due_at now xs

  unfoldable pub not_due_at : ℕ → List (Timer C) → List (Timer C)
  not_due_at now [] = []
  not_due_at now (x ∷ xs) = if leb x.next now then not_due_at now xs else x ∷ not_due_at now xs

  none_due :
      (x : Timer C) (now : ℕ) (ts : List (Timer C))
      → now < x.next
      → All (Before x) ts
      → (due_at now ts ≡ []) × (not_due_at now ts ≡ ts)
  unfolding due_at not_due_at
  none_due x now [] h a = (refl, refl)
  none_due x now (t ∷ ts) h (a, as') = ground (arith, none_due x now ts h as')

  -- On an ordered set, cutting at `lower_bound` and stepping over the timers at `now` separates the
  -- due timers from the others, whatever the address of the key is.
  pub split_due-eq :
      (key : Timer C) (ts : List (Timer C))
      → IsSorted ts
      → split_due key ts ≡ (due_at key.next ts, not_due_at key.next ts)
  unfolding split_due due_at not_due_at less
  split_due-eq key [] h = refl
  split_due-eq key (x ∷ xs) (h, hs) = ground (arith, split_due-eq key xs hs, none_due x key.next xs)

  none_due_of_front :
      (t : Timer C) (now : ℕ) (ts : List (Timer C))
      → now < t.next
      → IsSorted (t ∷ ts)
      → (due_at now (t ∷ ts) ≡ []) × (not_due_at now (t ∷ ts) ≡ t ∷ ts)
  unfolding due_at not_due_at
  none_due_of_front t now ts h (a, s) = ground (arith, none_due t now ts h a)

  manager_of : List (Timer C) → Bool → ℕ → TimerManager C
  manager_of ts tickled before = record { timers = ts; tickled = tickled; previous_time = before }

  expired_of_cons :
      (key t : Timer C) (ts : List (Timer C)) (tickled : Bool) (before : ℕ)
      → IsSorted (t ∷ ts)
      → (detect_clock_rollover key.next (manager_of (t ∷ ts) tickled before)).0 ≡ false
      → ((list_expired_cb key (manager_of (t ∷ ts) tickled before)).0
          ≡ callbacks (due_at key.next (t ∷ ts)))
        × ((list_expired_cb key (manager_of (t ∷ ts) tickled before)).1.timers
            ≡ rearm key.next (due_at key.next (t ∷ ts)) (not_due_at key.next (t ∷ ts)))
  unfolding list_expired_cb manager_of callbacks rearm
  expired_of_cons key t ts tickled before s e = elim (Bool-cases (ltb key.next t.next)) [
    | inl h ↦
        (let (a, b) = none_due_of_front t key.next ts (ltb→lt _ _ h) s in
          rw (e) (rw (h) (rw (a, b) (refl, refl))))
    | inr h ↦ rw (e) (rw (h) (rw (split_due-eq key (t ∷ ts) s) (refl, refl)))
  ]

  expired_of_manager :
      (key : Timer C) (ts : List (Timer C)) (tickled : Bool) (before : ℕ)
      → IsSorted ts
      → (detect_clock_rollover key.next (manager_of ts tickled before)).0 ≡ false
      → ((list_expired_cb key (manager_of ts tickled before)).0 ≡ callbacks (due_at key.next ts))
        × ((list_expired_cb key (manager_of ts tickled before)).1.timers
            ≡ rearm key.next (due_at key.next ts) (not_due_at key.next ts))
  unfolding list_expired_cb manager_of callbacks rearm due_at not_due_at
  expired_of_manager key [] tickled before s e = (refl, refl)
  expired_of_manager key (t ∷ ts) tickled before s e = expired_of_cons key t ts tickled before s e

  -- In a valid manager whose clock has not gone back, `listExpiredCb` takes the timers at or before the
  -- current time out of the set.
  pub list_expired_cb-cuts :
      (key : Timer C) (m : TimerManager C)
      → IsValid m
      → (detect_clock_rollover key.next m).0 ≡ false
      → ((list_expired_cb key m).0 ≡ callbacks (due_at key.next m.timers))
        × ((list_expired_cb key m).1.timers
            ≡ rearm key.next (due_at key.next m.timers) (not_due_at key.next m.timers))
  unfolding manager_of
  list_expired_cb-cuts key m v e =
      expired_of_manager key m.timers m.tickled m.previous_time v.sorted e

  rollover_of_manager :
      (key : Timer C) (ts : List (Timer C)) (tickled : Bool) (before : ℕ)
      → (detect_clock_rollover key.next (manager_of ts tickled before)).0 ≡ true
      → ((list_expired_cb key (manager_of ts tickled before)).0 ≡ callbacks ts)
        × ((list_expired_cb key (manager_of ts tickled before)).1.timers ≡ rearm key.next ts [])
  unfolding list_expired_cb manager_of callbacks rearm
  rollover_of_manager key [] tickled before e = (refl, refl)
  rollover_of_manager key (t ∷ ts) tickled before e = rw (e) (refl, refl)

  -- When the clock has gone back by more than an hour, `listExpiredCb` hands out the callback of
  -- every timer and leaves in the set the ones that recur, an interval after the new time.
  pub list_expired_cb-rollover :
      (key : Timer C) (m : TimerManager C)
      → (detect_clock_rollover key.next m).0 ≡ true
      → ((list_expired_cb key m).0 ≡ callbacks m.timers)
        × ((list_expired_cb key m).1.timers ≡ rearm key.next m.timers [])
  unfolding manager_of
  list_expired_cb-rollover key m e = rollover_of_manager key m.timers m.tickled m.previous_time e
