-- ===== src/Timer/Waits.antt =====
-- `cancel` of a timer that is gone, and the time that `getNextTimer` tells to wait.
use ota_new.Common.{
  ℕ, ◌-◌, ◌≤◌, ◌≡◌, refl, List, [], ◌∷◌, none, false, arith, All, Bool-cases, inl, inr, ◌==◌,
  Option-cases,
}
use ota_new.Timer.{Timer, TimerManager, cancel, get_next_timer, find}
use ota_new.Timer.Order.{Before, IsSorted, IsValid, Fresh, find-none_of_Fresh, erase-Fresh_self}

module _ {C : Type 0} where
  Fresh-of-find : (i : ℕ) (ts : List (Timer C)) → find i ts ≡ none → Fresh i ts
  unfolding find
  Fresh-of-find i [] e = tt
  Fresh-of-find i (x ∷ xs) e = elim (Bool-cases (x.id == i)) [
    | inl hit ↦ ground arith
    | inr miss ↦ (ground arith, Fresh-of-find i xs (ground arith))
  ]

  left_out : (i : ℕ) (m : TimerManager C) → IsValid m → Fresh i (cancel i m).1.timers
  unfolding cancel
  left_out i m v = elim (Option-cases (find i m.timers)) [
    | inl gone ↦ rw (gone, cancel) (Fresh-of-find i m.timers gone)
    | inr (t, here) ↦ rw (here, cancel) (erase-Fresh_self i m.timers v.distinct)
  ]

  cancel-absent : (i : ℕ) (m : TimerManager C) → Fresh i m.timers → cancel i m ≡ (false, m)
  unfolding cancel
  cancel-absent i m f = rw (find-none_of_Fresh i m.timers f, cancel) refl

  -- A timer that was cancelled is out of the set, and cancelling it again returns false and
  -- changes nothing.
  pub cancel-twice :
      (i : ℕ) (m : TimerManager C)
      → IsValid m
      → Fresh i (cancel i m).1.timers × (cancel i (cancel i m).1 ≡ (false, (cancel i m).1))
  cancel-twice i m v =
      let f : Fresh i (cancel i m).1.timers = left_out i m v in
      (f, cancel-absent i (cancel i m).1 f)

  front_least :
      (t : Timer C) (ts : List (Timer C)) → All (Before t) ts → All (λ x. t.next ≤ x.next) ts
  front_least t [] h = tt
  front_least t (x ∷ xs) (h, hs) = (ground arith, front_least t xs hs)

  wait_of_front :
      (now front wait : ℕ) (ts : List (Timer C))
      → wait ≤ front - now
      → All (λ x. front ≤ x.next) ts
      → All (λ x. wait ≤ x.next - now) ts
  wait_of_front now front wait [] w h = tt
  wait_of_front now front wait (x ∷ xs) w (h, hs) =
      (omega arith, wait_of_front now front wait xs w hs)

  wait_of_least :
      (now : ℕ) (t : Timer C) (ts : List (Timer C)) (m : TimerManager C)
      → m.timers ≡ t ∷ ts
      → (get_next_timer now m).0 ≤ t.next - now
  unfolding get_next_timer
  wait_of_least now t ts m e = rw (e, get_next_timer) (ground arith)

  least_of_set :
      (now : ℕ) (ts : List (Timer C)) (m : TimerManager C)
      → m.timers ≡ ts
      → IsSorted ts
      → All (λ t. (get_next_timer now m).0 ≤ t.next - now) ts
  least_of_set now [] m e s = tt
  least_of_set now (t ∷ ts) m e (h, s) =
      let w = wait_of_least now t ts m e in
      (w, wait_of_front now t.next (get_next_timer now m).0 ts w (front_least t ts h))

  -- The time that `getNextTimer` tells to wait is no longer than any timer of the set has
  -- left, so that a wait of that time oversleeps none.
  pub get_next_timer-least :
      (now : ℕ) (m : TimerManager C)
      → IsValid m
      → All (λ t. (get_next_timer now m).0 ≤ t.next - now) m.timers
  get_next_timer-least now m v = least_of_set now m.timers m refl v.sorted
