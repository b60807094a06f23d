-- ===== src/Scheduler/Steps.antt =====
-- Each piece of a thread's loop keeps the fibers apart, and fails no assertion.
use ota_new.Common.{
  ℕ, zero, suc, ◌≤◌, ◌<◌, ◌≡◌, ◌≢◌, refl, sym, ap, ◌∙◌, inl, inr, List, [], ◌∷◌, ◌++◌, Option, none,
  some, Bool, true, false, if◌then◌else◌, length, get_elem?, set, arith, Bool-cases, ◌==◌, ==_iff,
}
use ota_new.IoManager.{increment}
use ota_new.Scheduler.{
  State, init, hold, exec, term, ready, except, is_exec, Entry, looking, holds, idling, ended,
  Worker, Scheduler, reset, swap_in, taken, take_task,
}
use ota_new.Scheduler.Owned.{queued, taken_in, run_in, IsExclusive, queued-append, one}
use ota_new.Scheduler.Pick.{Picked, nothing, first, pick-Picked}
use ota_new.Scheduler.Change.{Keeps-IsExclusive}

pub get-none : (st : List State) (f : ℕ) → get_elem? st f ≡ none → length st ≤ f
get-none [] f e = omega arith
get-none (x ∷ st) zero e = absurd (ground arith)
get-none (x ∷ st) (suc f) e = omega (arith, get-none st f e)

pub get-some : (st : List State) (f : ℕ) (x : State) → get_elem? st f ≡ some x → f < length st
get-some [] f x e = absurd (ground arith)
get-some (y ∷ st) zero x e = omega arith
get-some (y ∷ st) (suc f) x e = omega (arith, get-some st f x e)

pub is_exec-exec : (x : State) → is_exec x ≡ true → x ≡ exec
is_exec-exec init h = absurd (ground arith)
is_exec-exec hold h = absurd (ground arith)
is_exec-exec exec h = refl
is_exec-exec term h = absurd (ground arith)
is_exec-exec ready h = absurd (ground arith)
is_exec-exec except h = absurd (ground arith)

pub swap_in-free :
    (f : ℕ) (st : List State) (x : State)
    → get_elem? st f ≡ some x
    → is_exec x ≡ false
    → swap_in f st ≡ some (set st f exec)
unfolding swap_in
swap_in-free f st x e h = rw (e, h, swap_in) refl

pub reset-init :
    (f : ℕ) (st : List State) → get_elem? st f ≡ some init → reset f st ≡ some (set st f init)
unfolding reset
reset-init f st e = rw (e, reset) refl

pub get-append_ne :
    (st : List State) (x : State) (f : ℕ)
    → f ≢ length st
    → get_elem? (st ++ (x ∷ [])) f ≡ get_elem? st f
get-append_ne [] x zero ne = absurd (ne refl)
get-append_ne [] x (suc f) ne = refl
get-append_ne (y ∷ st) x zero ne = refl
get-append_ne (y ∷ st) x (suc f) ne = get-append_ne st x f (λ e. ne (ap suc e))

pub one-le : (b : Bool) → one b ≤ 1
one-le b = ground arith

pub one_ne : (g f : ℕ) → f ≢ g → one (g == f) ≡ 0
one_ne g f ne = elim (Bool-cases (g == f)) [
  | inl e ↦ absurd (ne (sym ((==_iff g f).0 e)))
  | inr e ↦ ap one e
]

pub get-append_last :
    (st : List State) (x : State) → get_elem? (st ++ (x ∷ [])) (length st) ≡ some x
get-append_last [] x = refl
get-append_last (y ∷ st) x = get-append_last st x

module _ {C : Type 0} where
  either-IsExclusive :
      (b : Bool) {x y : Scheduler C}
      → IsExclusive x
      → IsExclusive y
      → IsExclusive (if b then x else y)
  either-IsExclusive true h k = h
  either-IsExclusive false h k = k

  taken-IsExclusive :
      (i : ℕ) (w : Worker C) (s : Scheduler C) (q : List (Entry C))
      {r : Bool × Option (Entry C) × List (Entry C)}
      → IsExclusive s
      → get_elem? s.workers i ≡ some w
      → w.phase ≡ looking
      → s.queue ≡ q
      → Picked w.thread s.fibers q r
      → IsExclusive (taken i w s r.1 r.2)
  taken-IsExclusive i w s q v here l e (nothing b hs) =
      either-IsExclusive w.idle_over
        (Keeps-IsExclusive i w (record w { phase = ended }) s s.queue s.fibers s.active s.idle v
          here refl
          (record {
            grows = λ f. omega (arith, ap (taken_in f) l, ap (run_in f) l);
            run = λ f. omega (arith, ap (run_in f) l);
            spare = λ f. omega arith;
          }))
        (Keeps-IsExclusive i w (record w { phase = idling }) s s.queue s.fibers s.active
          (increment s.idle) v here refl
          (record {
            grows = λ f. omega (arith, ap (taken_in f) l, ap (run_in f) l);
            run = λ f. omega (arith, ap (run_in f) l);
            spare = λ f. omega arith;
          }))
  taken-IsExclusive i w s q v here l e (first b before x after split hs o r) =
      Keeps-IsExclusive i w (record w { phase = holds x.task }) s (before ++ after) s.fibers
        (increment s.active) s.idle v here refl
        (record {
          grows = λ f. omega (
            arith,
            ap (taken_in f) l,
            ap (run_in f) l,
            ap (queued f) (e ∙ split),
            queued-append f before (x ∷ after),
            queued-append f before after,
          );
          run = λ f. omega (arith, ap (run_in f) l);
          spare = λ f. omega arith;
        })

  pub take_task-IsExclusive :
      (i : ℕ) (w : Worker C) (s : Scheduler C)
      → IsExclusive s
      → get_elem? s.workers i ≡ some w
      → w.phase ≡ looking
      → IsExclusive (take_task i w s)
  unfolding take_task
  take_task-IsExclusive i w s v here l =
      taken-IsExclusive i w s s.queue v here l refl (pick-Picked w.thread s.fibers s.queue)
