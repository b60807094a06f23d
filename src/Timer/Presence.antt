-- ===== src/Timer/Presence.antt =====
-- A timer stays in the set while others come and go.
use ota_new.Common.{
  ℕ, ◌+◌, ◌%◌, ◌^◌, ◌≡◌, some, arith, ◌≢◌, List, [], ◌∷◌, Bool, Bool-cases, inl, inr, ◌==◌,
  Option-cases, ==_iff, sym, ◌∙◌,
}
use ota_new.Timer.{Timer, TimerManager, less, insert, find, erase, cancel, add_timer}
use ota_new.Timer.Order.{Fresh, erase-All, not_less→Before, less-of-Before}

module _ {C : Type 0} where
  insert-Fresh_back :
      (i : ℕ) (t : Timer C) (ts : List (Timer C)) → Fresh i (insert t ts) → Fresh i ts
  unfolding insert
  insert-Fresh_back i t [] = λ h. tt
  insert-Fresh_back i t (x ∷ xs) = elim (Bool-cases (less t x)) [
    | inl before ↦ rw before (λ h. h.1)
    | inr not_before ↦ elim (Bool-cases (less x t)) [
      | inl behind ↦ rw (not_before, behind) (λ h. (h.0, insert-Fresh_back i t xs h.1))
      | inr same ↦ rw (not_before, same) (λ h. h)
    ]
  ]

  erase-Fresh_back : (i j : ℕ) (ts : List (Timer C)) → j ≢ i → Fresh i (erase j ts) → Fresh i ts
  unfolding erase
  erase-Fresh_back i j [] ne = λ h. tt
  erase-Fresh_back i j (x ∷ xs) ne = elim (Bool-cases (x.id == j)) [
    | inl hit ↦ rw hit (λ h. ((λ e. ne (sym ((==_iff x.id j).0 hit) ∙ e)), h))
    | inr miss ↦ rw miss (λ h. (h.0, erase-Fresh_back i j xs ne h.1))
  ]

  pub cancel-Fresh :
      (i j : ℕ) (m : TimerManager C) → Fresh i m.timers → Fresh i (cancel j m).1.timers
  unfolding cancel
  cancel-Fresh i j m f = elim (Option-cases (find j m.timers)) [
    | inl gone ↦ rw (gone, cancel) f
    | inr (t, here) ↦ rw (here, cancel) (erase-All (λ (x : Timer C). x.id ≢ i) j m.timers f)
  ]

  find-insert :
      (t : Timer C) (ts : List (Timer C)) → Fresh t.id ts → find t.id (insert t ts) ≡ some t
  unfolding find insert
  find-insert t [] f = ground arith
  find-insert t (x ∷ xs) (ne, f) = elim (Bool-cases (less t x)) [
    | inl before ↦ rw before (ground arith)
    | inr not_before ↦
        rw (not_before, less-of-Before x t (not_less→Before t x (λ e. ne (sym e)) not_before))
          (ground (arith, ne, find-insert t xs f))
  ]

  -- A timer that is added at a free address is in the set.
  pub add_timer-find :
      (id ms : ℕ) (cb : C) (recurring : Bool) (now : ℕ) (m : TimerManager C)
      → Fresh id m.timers
      → find id (add_timer id ms cb recurring now m).1.timers
        ≡ some (record {
          id = id;
          recurring = recurring;
          ms = ms;
          next = (now + ms) % 2 ^ 64;
          cb = cb;
        })
  unfolding add_timer
  add_timer-find id ms cb recurring now m f = find-insert _ m.timers f

  pub cancel-Fresh_back :
      (i j : ℕ) (m : TimerManager C) → j ≢ i → Fresh i (cancel j m).1.timers → Fresh i m.timers
  unfolding cancel
  cancel-Fresh_back i j m ne = elim (Option-cases (find j m.timers)) [
    | inl gone ↦ rw (gone, cancel) (λ h. h)
    | inr (t, here) ↦ rw (here, cancel) (erase-Fresh_back i j m.timers ne)
  ]

  pub add_timer-Fresh_back :
      (i id ms : ℕ) (cb : C) (recurring : Bool) (now : ℕ) (m : TimerManager C)
      → Fresh i (add_timer id ms cb recurring now m).1.timers
      → Fresh i m.timers
  unfolding add_timer
  add_timer-Fresh_back i id ms cb recurring now m h = insert-Fresh_back i _ m.timers h
