-- ===== src/Timer/Settle.antt =====
-- The set after `listExpiredCb`: it is valid, and without a rollover nothing due is left in it.
use ota_new.Common.{
  ℕ, ◌+◌, ◌^◌, ◌<◌, ◌≡◌, ◌≢◌, refl, sym, ◌∙◌, List, [], ◌∷◌, Bool, true, false, arith, All,
  Bool-cases, inl, inr, leb, if◌then◌else◌,
}
use native.Mathlib.Nat.{mod-eq_of_lt}
use ota_new.Timer.{
  Timer, TimerManager, insert, add64, list_expired_cb, rearm, detect_clock_rollover,
}
use ota_new.Timer.Order.{
  Before, IsSorted, IsValid, Distinct, Fresh, All-insert, insert-IsSorted, insert-Distinct,
  insert-Fresh,
}
use ota_new.Timer.Cut.{due_at, not_due_at, list_expired_cb-cuts, list_expired_cb-rollover}

module _ {C : Type 0} where
  due_at-All :
      (P : Timer C → Type 0) (now : ℕ) (ts : List (Timer C)) → All P ts → All P (due_at now ts)
  unfolding due_at
  due_at-All P now [] h = tt
  due_at-All P now (x ∷ xs) (h, hs) = elim (Bool-cases (leb x.next now)) [
    | inl due ↦ rw due (h, due_at-All P now xs hs)
    | inr later ↦ rw later (due_at-All P now xs hs)
  ]

  not_due_at-All :
      (P : Timer C → Type 0) (now : ℕ) (ts : List (Timer C)) → All P ts → All P (not_due_at now ts)
  unfolding not_due_at
  not_due_at-All P now [] h = tt
  not_due_at-All P now (x ∷ xs) (h, hs) = elim (Bool-cases (leb x.next now)) [
    | inl due ↦ rw due (not_due_at-All P now xs hs)
    | inr later ↦ rw later (h, not_due_at-All P now xs hs)
  ]

  pub due_at-Distinct : (now : ℕ) (ts : List (Timer C)) → Distinct ts → Distinct (due_at now ts)
  unfolding due_at
  due_at-Distinct now [] h = tt
  due_at-Distinct now (x ∷ xs) (h, hs) = elim (Bool-cases (leb x.next now)) [
    | inl due ↦ rw due (due_at-All (λ t. t.id ≢ x.id) now xs h, due_at-Distinct now xs hs)
    | inr later ↦ rw later (due_at-Distinct now xs hs)
  ]

  not_due_at-Distinct : (now : ℕ) (ts : List (Timer C)) → Distinct ts → Distinct (not_due_at now ts)
  unfolding not_due_at
  not_due_at-Distinct now [] h = tt
  not_due_at-Distinct now (x ∷ xs) (h, hs) = elim (Bool-cases (leb x.next now)) [
    | inl due ↦ rw due (not_due_at-Distinct now xs hs)
    | inr later ↦
        rw later (not_due_at-All (λ t. t.id ≢ x.id) now xs h, not_due_at-Distinct now xs hs)
  ]

  not_due_at-IsSorted : (now : ℕ) (ts : List (Timer C)) → IsSorted ts → IsSorted (not_due_at now ts)
  unfolding not_due_at
  not_due_at-IsSorted now [] h = tt
  not_due_at-IsSorted now (x ∷ xs) (h, hs) = elim (Bool-cases (leb x.next now)) [
    | inl due ↦ rw due (not_due_at-IsSorted now xs hs)
    | inr later ↦ rw later (not_due_at-All (Before x) now xs h, not_due_at-IsSorted now xs hs)
  ]

  not_due_at-later : (now : ℕ) (ts : List (Timer C)) → All (λ t. now < t.next) (not_due_at now ts)
  unfolding not_due_at
  not_due_at-later now [] = tt
  not_due_at-later now (x ∷ xs) = elim (Bool-cases (leb x.next now)) [
    | inl due ↦ rw due (not_due_at-later now xs)
    | inr later ↦ rw later (ground arith, not_due_at-later now xs)
  ]

  -- No timer of the one list is in the other.
  abbrev pub Apart : List (Timer C) → List (Timer C) → Type 0
  Apart xs ys = All (λ x. Fresh x.id ys) xs

  Apart-add :
      (x : Timer C) (xs ys : List (Timer C)) → Fresh x.id xs → Apart xs ys → Apart xs (x ∷ ys)
  Apart-add x [] ys f h = tt
  Apart-add x (t ∷ xs) ys (ne, f) (h, hs) = ((λ e. ne (sym e), h), Apart-add x xs ys f hs)

  pub due_at-Apart :
      (now : ℕ) (ts : List (Timer C)) → Distinct ts → Apart (due_at now ts) (not_due_at now ts)
  unfolding due_at not_due_at
  due_at-Apart now [] h = tt
  due_at-Apart now (x ∷ xs) (h, hs) = elim (Bool-cases (leb x.next now)) [
    | inl due ↦ rw due (not_due_at-All (λ t. t.id ≢ x.id) now xs h, due_at-Apart now xs hs)
    | inr later ↦ rw later (
        Apart-add x (due_at now xs) (not_due_at now xs) (due_at-All (λ t. t.id ≢ x.id) now xs h)
          (due_at-Apart now xs hs))
  ]

  pub Apart-insert :
      (x t : Timer C) (xs ys : List (Timer C))
      → x.id ≡ t.id
      → Fresh x.id xs
      → Apart xs ys
      → Apart xs (insert t ys)
  Apart-insert x t [] ys e f h = tt
  Apart-insert x t (y ∷ xs) ys e (ne, f) (h, hs) =
      (insert-Fresh y.id t ys (λ p. ne (sym (e ∙ p))) h, Apart-insert x t xs ys e f hs)

  pub either_way :
      (P : List (Timer C) → Type 0) (b : Bool) {xs ys : List (Timer C)}
      → P xs
      → P ys
      → P (if b then xs else ys)
  either_way P true p q = p
  either_way P false p q = q

  record Stays (ts : List (Timer C)) : Type 0 where
    sorted : IsSorted ts
    distinct : Distinct ts

  rearm-Stays :
      (now : ℕ) (due later : List (Timer C))
      → Distinct due
      → Apart due later
      → Stays later
      → Stays (rearm now due later)
  unfolding rearm
  rearm-Stays now [] later d a s = s
  rearm-Stays now (x ∷ xs) later (dx, d) (ax, a) s =
      let t = record x { next = add64 now x.ms } in
      rearm-Stays now xs _ d
        (either_way (Apart xs) x.recurring (Apart-insert x t xs later refl dx a) a)
        (either_way Stays x.recurring
          (record {
            sorted = insert-IsSorted t later ax s.sorted;
            distinct = insert-Distinct t later ax s.distinct;
          })
          s)

  Apart-nil : (xs : List (Timer C)) → Apart xs []
  Apart-nil [] = tt
  Apart-nil (x ∷ xs) = (tt, Apart-nil xs)

  -- `listExpiredCb` keeps the set strictly ordered and without duplicates, with or without a
  -- rollover of the clock.
  pub list_expired_cb-IsValid :
      (key : Timer C) (m : TimerManager C) → IsValid m → IsValid (list_expired_cb key m).1
  list_expired_cb-IsValid key m v = elim (Bool-cases (detect_clock_rollover key.next m).0) [
    | inl back ↦
        let (_, left) = list_expired_cb-rollover key m back in
        let s =
          rearm-Stays key.next m.timers [] v.distinct (Apart-nil m.timers)
            (record { sorted = tt; distinct = tt }) in
        record { sorted = rw left s.sorted; distinct = rw left s.distinct }
    | inr forth ↦
        let (_, left) = list_expired_cb-cuts key m v forth in
        let s =
          rearm-Stays key.next (due_at key.next m.timers) (not_due_at key.next m.timers)
            (due_at-Distinct key.next m.timers v.distinct)
            (due_at-Apart key.next m.timers v.distinct)
            (record {
              sorted = not_due_at-IsSorted key.next m.timers v.sorted;
              distinct = not_due_at-Distinct key.next m.timers v.distinct;
            }) in
        record { sorted = rw left s.sorted; distinct = rw left s.distinct }
  ]

  abbrev pub Advances : ℕ → Timer C → Type 0
  Advances now t = (0 < t.ms) × (now + t.ms < 2 ^ 64)

  rearm-later :
      (now : ℕ) (due later : List (Timer C))
      → All (Advances now) due
      → All (λ t. now < t.next) later
      → All (λ t. now < t.next) (rearm now due later)
  unfolding rearm
  rearm-later now [] later h s = s
  rearm-later now (x ∷ xs) later ((pos, fits), h) s =
      let t = record x { next = add64 now x.ms } in
      let ahead : now < add64 now x.ms =
        rw (mod-eq_of_lt {n = now + x.ms} {m = 2 ^ 64} fits) (omega arith) in
      rearm-later now xs _ h (
        either_way (All (λ y. now < y.next)) x.recurring
          (All-insert (λ y. now < y.next) t later ahead s) s)

  -- Where every interval is positive and no sum wraps, no timer that `listExpiredCb` leaves in
  -- the set is due at that time, so that one call is enough for a time.
  pub list_expired_cb-settles :
      (key : Timer C) (m : TimerManager C)
      → IsValid m
      → All (Advances key.next) m.timers
      → All (λ t. key.next < t.next) (list_expired_cb key m).1.timers
  list_expired_cb-settles key m v h = elim (Bool-cases (detect_clock_rollover key.next m).0) [
    | inl back ↦
        let (_, left) = list_expired_cb-rollover key m back in
        rw left (rearm-later key.next m.timers [] h tt)
    | inr forth ↦
        let (_, left) = list_expired_cb-cuts key m v forth in
        rw left (
          rearm-later key.next (due_at key.next m.timers) (not_due_at key.next m.timers)
            (due_at-All (Advances key.next) key.next m.timers h)
            (not_due_at-later key.next m.timers))
  ]
