-- ===== src/Timer/Reach.antt =====
-- Runs of the timer manager: every call of its interface, one after the other, from a new manager.
use ota_new.Common.{ℕ, ◌≡◌, refl, List, [], ◌∷◌, Bool}
use ota_new.Timer
use ota_new.Timer.{
  TimerManager, init, add_timer, cancel, refresh, reset, list_expired_cb, get_next_timer,
}
use ota_new.Timer.Order.{
  Fresh, IsValid, add_timer-IsValid, cancel-IsValid, refresh-IsValid, reset-IsValid,
}
use ota_new.Timer.Settle.{list_expired_cb-IsValid}

module _ {C : Type 0} where
  -- A call, which leaves another manager. A new timer has an address that no timer in the set has.
  pub data Step : TimerManager C → TimerManager C → Type 0 where
    adds :
        {m : TimerManager C} (id ms : ℕ) (cb : C) (recurring : Bool) (now : ℕ)
        → Fresh id m.timers
        → Step m (add_timer id ms cb recurring now m).1
    cancels : {m : TimerManager C} (id : ℕ) → Step m (cancel id m).1
    refreshes : {m : TimerManager C} (id now : ℕ) → Step m (refresh id now m).1
    resets :
        {m : TimerManager C} (h : Timer.Timer C) (ms : ℕ) (from_now : Bool) (now : ℕ)
        → Step m (reset h ms from_now now m).1
    expires : {m : TimerManager C} (key : Timer.Timer C) → Step m (list_expired_cb key m).1
    waits : {m : TimerManager C} (now : ℕ) → Step m (get_next_timer now m).1

  pub data Reach (s : TimerManager C) : TimerManager C → Type 0 where
    here : Reach s s
    next : {m n : TimerManager C} → Reach s m → Step m n → Reach s n

  waits-timers :
      (now : ℕ) (ts : List (Timer.Timer C)) (m : TimerManager C)
      → m.timers ≡ ts
      → (get_next_timer now m).1.timers ≡ ts
  unfolding get_next_timer
  waits-timers now [] m e = rw (e, get_next_timer) e
  waits-timers now (t ∷ ts) m e = rw (e, get_next_timer) e

  waits-IsValid : (now : ℕ) (m : TimerManager C) → IsValid m → IsValid (get_next_timer now m).1
  waits-IsValid now m v =
      let same = waits-timers now m.timers m refl in
      record { sorted = rw same v.sorted; distinct = rw same v.distinct }

  Step-IsValid : {m n : TimerManager C} → Step m n → IsValid m → IsValid n
  Step-IsValid (adds id ms cb recurring now f) v = add_timer-IsValid id ms cb recurring now v f
  Step-IsValid (cancels id) v = cancel-IsValid id v
  Step-IsValid (refreshes id now) v = refresh-IsValid id now v
  Step-IsValid (resets h ms from_now now) v = reset-IsValid h ms from_now now v
  Step-IsValid (expires {m} key) v = list_expired_cb-IsValid key m v
  Step-IsValid (waits {m} now) v = waits-IsValid now m v

  -- Whatever is called on a new manager, in any order: the set of timers stays strictly ordered by time and
  -- then address, and holds no timer twice.
  pub Reach-IsValid : (now : ℕ) (m : TimerManager C) → Reach (init now) m → IsValid m
  unfolding init
  Reach-IsValid now m here = record { sorted = tt; distinct = tt }
  Reach-IsValid now m (next {m = l} r s) = Step-IsValid s (Reach-IsValid now l r)
