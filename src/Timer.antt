-- ===== src/Timer.antt =====
-- sherry/timer.h and sherry/timer.cc: timers in a set ordered by their time, and the callbacks that are due.
-- A timer has its callback exactly as long as it is in the set, so a handle is the timer's `id` (its
-- address), and the timers that fired or were cancelled are those not in the set. The clock's reading
-- `now` (`GetCurrentMS`) and the address of a new object are arguments.
pub mod Order
pub mod Cut
pub mod Due
pub mod Settle
pub mod Waits
pub mod Reach
pub mod Presence
mod Tests
use ota_new.Common.{
  ℕ, ◌+◌, ◌-◌, ◌*◌, ◌%◌, ◌^◌, List, [], ◌∷◌, ◌++◌, Option, none, some, Bool, true, false, ltb, leb,
  ◌==◌, ◌&&◌, not, if◌then◌else◌, map,
}

pub record Timer (C : Type 0) : Type 0 where
  pub id : ℕ
  pub recurring : Bool
  pub ms : ℕ
  pub next : ℕ
  pub cb : C

pub record TimerManager (C : Type 0) : Type 0 where
  pub timers : List (Timer C)
  pub tickled : Bool
  pub previous_time : ℕ

-- A `uint64_t` sum.
abbrev pub add64 : ℕ → ℕ → ℕ
add64 a b = (a + b) % 2 ^ 64

module _ {C : Type 0} where
  -- `Timer::Comparator` on two timers that are there.
  unfoldable pub less : Timer C → Timer C → Bool
  less a b = if ltb a.next b.next then true else if ltb b.next a.next then false else ltb a.id b.id

  -- `std::set::insert`: an equivalent element keeps the place.
  unfoldable pub insert : Timer C → List (Timer C) → List (Timer C)
  insert t [] = t ∷ []
  insert t (x ∷ xs) =
      if less t x then t ∷ (x ∷ xs) else if less x t then x ∷ insert t xs else x ∷ xs

  unfoldable pub find : ℕ → List (Timer C) → Option (Timer C)
  find i [] = none
  find i (x ∷ xs) = if x.id == i then some x else find i xs

  unfoldable pub erase : ℕ → List (Timer C) → List (Timer C)
  erase i [] = []
  erase i (x ∷ xs) = if x.id == i then xs else x ∷ erase i xs

  -- The id of the timer in front, `*m_timers.begin()`.
  unfoldable pub is_front : ℕ → List (Timer C) → Bool
  is_front i [] = false
  is_front i (x ∷ xs) = x.id == i

  unfoldable pub init : ℕ → TimerManager C
  init now = record { timers = []; tickled = false; previous_time = now }

  -- The protected `addTimer`. The Boolean says whether `onTimerInsertedAtFront` is called.
  unfoldable pub add_to_set : Timer C → TimerManager C → Bool × TimerManager C
  add_to_set t m =
      let timers = insert t m.timers in
      let at_front = is_front t.id timers && not m.tickled in
      (at_front, record m { timers = timers; tickled = if at_front then true else m.tickled })

  unfoldable pub add_timer : ℕ → ℕ → C → Bool → ℕ → TimerManager C → Bool × TimerManager C
  unfolding add_to_set
  add_timer id ms cb recurring now m =
      add_to_set (record { id = id; recurring = recurring; ms = ms; next = add64 now ms; cb = cb })
        m

  unfoldable pub cancel : ℕ → TimerManager C → Bool × TimerManager C
  cancel i m = elim (find i m.timers) [
    | none ↦ (false, m)
    | some t ↦ (true, record m { timers = erase i m.timers })
  ]

  -- `refresh` puts the timer back without a look at the front.
  unfoldable pub refresh : ℕ → ℕ → TimerManager C → Bool × TimerManager C
  refresh i now m = elim (find i m.timers) [
    | none ↦ (false, m)
    | some t ↦
        (true, record m { timers = insert (record t { next = add64 now t.ms }) (erase i m.timers) })
  ]

  -- `reset`; the timer `h` is what the handle points to, so that its `m_ms` is read before the lock.
  -- The last Boolean says whether `onTimerInsertedAtFront` is called.
  unfoldable pub reset : Timer C → ℕ → Bool → ℕ → TimerManager C → Bool × TimerManager C × Bool
  unfolding add_to_set
  reset h ms from_now now m =
      if ms == h.ms && not from_now then (true, m, false) else elim (find h.id m.timers) [
        | none ↦ (false, m, false)
        | some t ↦
            let start = if from_now then now else (t.next + 2 ^ 64 - t.ms) % 2 ^ 64 in
            let t' = record t { ms = ms; next = add64 start ms } in
            let (front, m') = add_to_set t' (record m { timers = erase h.id m.timers }) in
            (true, m', front)
      ]

  unfoldable pub get_next_timer : ℕ → TimerManager C → ℕ × TimerManager C
  get_next_timer now m = elim m.timers [
    | [] ↦ (2 ^ 64 - 1, record m { tickled = false })
    | t ∷ ts ↦ (if leb t.next now then 0 else t.next - now, record m { tickled = false })
  ]

  -- The bound one hour back wraps below it.
  unfoldable pub detect_clock_rollover : ℕ → TimerManager C → Bool × TimerManager C
  detect_clock_rollover now m = (
    ltb now m.previous_time && ltb now ((m.previous_time + 2 ^ 64 - 60 * 60 * 1000) % 2 ^ 64),
    record m { previous_time = now },
  )

  -- `lower_bound(now_timer)`, then the timers at `now` itself: the set before and from there.
  unfoldable pub split_due : Timer C → List (Timer C) → List (Timer C) × List (Timer C)
  split_due now_timer [] = ([], [])
  split_due now_timer (x ∷ xs) =
      let (due, later) = split_due now_timer xs in
      if less x now_timer
      then (x ∷ due, later)
      else if x.next == now_timer.next
      then (x ∷ due, later)
      else ([], x ∷ xs)

  -- The loop over the expired timers: those that recur go back into the set.
  unfoldable pub rearm : ℕ → List (Timer C) → List (Timer C) → List (Timer C)
  rearm now [] ts = ts
  rearm now (x ∷ xs) ts =
      rearm now xs (if x.recurring then insert (record x { next = add64 now x.ms }) ts else ts)

  unfoldable pub callbacks : List (Timer C) → List C
  callbacks ts = map (λ t. t.cb) ts

  -- `listExpiredCb`; `now_timer` is the key that it allocates.
  unfoldable pub list_expired_cb : Timer C → TimerManager C → List C × TimerManager C
  unfolding detect_clock_rollover split_due rearm callbacks
  list_expired_cb now_timer m = elim m.timers [
    | [] ↦ ([], m)
    | t ∷ ts ↦
        let now = now_timer.next in
        let (rollover, m') = detect_clock_rollover now m in
        if not rollover && ltb now t.next
        then ([], m')
        else (let (due, later) = if rollover then (t ∷ ts, []) else split_due now_timer (t ∷ ts) in
            (callbacks due, record m' { timers = rearm now due later }))
  ]

  unfoldable pub has_timer : TimerManager C → Bool
  has_timer m = elim m.timers [ [] ↦ false | t ∷ ts ↦ true ]

-- `OnTimer`: a conditional timer's callback runs what it holds only while the condition's object lives.
unfoldable pub on_timer {ℓ} : {S : Type ℓ} → Bool → (S → S) → S → S
on_timer alive cb s = if alive then cb s else s
