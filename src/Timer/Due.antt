-- ===== src/Timer/Due.antt =====
-- Which callbacks `listExpiredCb` hands out, and what the set holds behind it.
use ota_new.Common.{
  ℕ, ◌%◌, ◌+◌, ◌^◌, ◌≡◌, sym, refl, List, [], ◌∷◌, ◌++◌, map, Bool, true, false, if◌then◌else◌,
  Bool-cases, inl, inr,
}
use mathlib.Core.List.Perm
use mathlib.Core.List.{Perm, perm_middle}
use ota_new.Timer.{
  Timer, TimerManager, less, insert, add64, list_expired_cb, rearm, detect_clock_rollover,
  callbacks,
}
use ota_new.Timer.Order.{IsValid, Distinct, Fresh, not_less→Before, less-of-Before}
use ota_new.Timer.Cut.{due_at, not_due_at, list_expired_cb-cuts}
use ota_new.Timer.Settle.{Apart, Apart-insert, due_at-Apart, due_at-Distinct}

module _ {C : Type 0} where
  -- The timers that recur, each an interval after `now`.
  unfoldable pub recurring_at : ℕ → List (Timer C) → List (Timer C)
  recurring_at now [] = []
  recurring_at now (x ∷ xs) =
      if x.recurring
      then record x { next = (now + x.ms) % 2 ^ 64 } ∷ recurring_at now xs
      else recurring_at now xs

  insert-Perm : (t : Timer C) (ts : List (Timer C)) → Fresh t.id ts → Perm (insert t ts) (t ∷ ts)
  unfolding insert
  insert-Perm t [] f = Perm.rfl
  insert-Perm t (x ∷ xs) (ne, f) = elim (Bool-cases (less t x)) [
    | inl before ↦ rw before Perm.rfl
    | inr not_before ↦
        rw (not_before, less-of-Before x t (not_less→Before t x (λ e. ne (sym e)) not_before))
          (Perm.trans (Perm.cons x (insert-Perm t xs f)) (Perm.swap t x xs))
  ]

  rearm-Perm :
      (now : ℕ) (due later : List (Timer C))
      → Distinct due
      → Apart due later
      → Perm (rearm now due later) (recurring_at now due ++ later)
  unfolding rearm recurring_at
  rearm-Perm now [] later d a = Perm.rfl
  rearm-Perm now (x ∷ xs) later (dx, d) (ax, a) =
      either_Perm x.recurring
        (Perm.trans (rearm-Perm now xs (insert t later) d (Apart-insert x t xs later refl dx a)) (
          Perm.trans (Perm.append_left (recurring_at now xs) (insert-Perm t later ax))
            (perm_middle (recurring_at now xs) later)))
        (rearm-Perm now xs later d a)
    where
      t : Timer C
      t = record x { next = add64 now x.ms }

      either_Perm :
          (b : Bool)
          → Perm (rearm now xs (insert t later)) (t ∷ (recurring_at now xs ++ later))
          → Perm (rearm now xs later) (recurring_at now xs ++ later)
          → Perm
              (rearm now xs (if b then insert t later else later))
              ((if b then t ∷ recurring_at now xs else recurring_at now xs) ++ later)
      either_Perm true p q = p
      either_Perm false p q = q

  -- In a valid manager whose clock has not gone back, `listExpiredCb` hands out the callbacks of exactly the
  -- timers at or before the current time, in the order of the set; and the set holds, each once, the
  -- other timers and the due ones that recur, their time an interval after the current one.
  pub list_expired_cb-due :
      (key : Timer C) (m : TimerManager C)
      → IsValid m
      → (detect_clock_rollover key.next m).0 ≡ false
      → ((list_expired_cb key m).0 ≡ map (λ t. t.cb) (due_at key.next m.timers))
        × Perm
            (list_expired_cb key m).1.timers
            (recurring_at key.next (due_at key.next m.timers) ++ not_due_at key.next m.timers)
  unfolding callbacks
  list_expired_cb-due key m v e =
      let (out, left) = list_expired_cb-cuts key m v e in
      (
        out,
        rw left (
            rearm-Perm key.next (due_at key.next m.timers) (not_due_at key.next m.timers)
              (due_at-Distinct key.next m.timers v.distinct)
              (due_at-Apart key.next m.timers v.distinct)),
      )
