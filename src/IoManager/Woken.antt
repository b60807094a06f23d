-- ===== src/IoManager/Woken.antt =====
-- What a report of a descriptor wakes: the tasks of the events that are reported, or all of them when it is broken.
use ota_new.Common.{
  ℕ, zero, suc, ◌≡◌, refl, sym, ap, ◌∙◌, List, [], ◌∷◌, ◌++◌, Option, some, Bool, true, false, ◌&&◌,
  ◌||◌, if◌then◌else◌, get_elem?, set, arith, append-nil,
}
use mathlib.Core.Option.{some-injective}
use ota_new.IoManager.{
  Event, read_event, write_event, has, Task, FdContext, IoManager, no_context, get_context,
  put_event, decrement, trigger_if, after_trigger, store,
}
use ota_new.IoManager.Both.{Report, then_write, handle_report}
use ota_new.IoManager.Context.{
  IsConsistent, tasks_in, tasks_in-Waits, waits_for, trigger_event-set, put_event-IsConsistent,
}

pub set-same {ℓ} :
    {A : Type ℓ} (xs : List A) (i : ℕ) (x : A) → get_elem? xs i ≡ some x → set xs i x ≡ xs
set-same [] i x e = refl
set-same (y ∷ xs) zero x e = ap (λ z. z ∷ xs) (sym (some-injective _ _ e))
set-same (y ∷ xs) (suc i) x e = ap (◌∷◌ y) (set-same xs i x e)

module _ {C : Type 0} where
  -- The tasks of a context, each where its flag says so, reading first.
  abbrev pub chosen : Bool → Bool → FdContext C → List (ℕ × Task C)
  chosen r w c = (if r then tasks_in c.read else []) ++ (if w then tasks_in c.write else [])

  -- The context without these events.
  abbrev pub without : Bool → Bool → FdContext C → FdContext C
  without true true c =
      put_event write_event false no_context (put_event read_event false no_context c)
  without true false c = put_event read_event false no_context c
  without false true c = put_event write_event false no_context c
  without false false c = c

  -- What a report is of: events that are waited for, and reported or broken.
  abbrev pub is_read : Report → FdContext C → Bool
  is_read r c = c.events.readable && (r.in_ready || r.broken)

  abbrev pub is_written : Report → FdContext C → Bool
  is_written r c = c.events.writable && (r.out_ready || r.broken)

  abbrev pub woken : Report → FdContext C → List (ℕ × Task C)
  woken r c = chosen (is_read r c) (is_written r c) c

  abbrev pub rest : Report → FdContext C → FdContext C
  rest r c = without (is_read r c) (is_written r c) c

  trigger-some :
      (e : Event) (c : FdContext C) (tasks : List (ℕ × Task C)) (p : ℕ)
      → IsConsistent c
      → has e c.events ≡ true
      → trigger_if true e (c, tasks, p)
        ≡ some (put_event e false no_context c, tasks ++ tasks_in (get_context e c), decrement p)
  unfolding trigger_if
  trigger-some e c tasks p v h =
      ap (after_trigger (c, tasks, p)) (trigger_event-set e c v h)
      ∙ ap
          (λ (ts : List (ℕ × Task C)).
            some (put_event e false no_context c, tasks ++ ts, decrement p))
          (sym (tasks_in-Waits (get_context e c) (waits_for e c v h)))

  -- Both events of a context.
  triggers :
      (r w : Bool) (c : FdContext C) (p : ℕ)
      → IsConsistent c
      → (r ≡ true → c.events.readable ≡ true)
      → (w ≡ true → c.events.writable ≡ true)
      → (q : ℕ) × (then_write (λ d. w) (trigger_if r read_event (c, [], p))
          ≡ some (without r w c, chosen r w c, q))
  unfolding trigger_if
  triggers true true c p v hr hw = (
    _,
    ap (then_write (λ d. true)) (trigger-some read_event c [] p v (hr refl))
        ∙ trigger-some write_event (put_event read_event false no_context c) (tasks_in c.read)
            (decrement p) (put_event-IsConsistent read_event false no_context c v refl) (hw refl),
  )
  triggers true false c p v hr hw = (
    _,
    ap (then_write (λ d. false)) (trigger-some read_event c [] p v (hr refl))
        ∙ ap
            (λ (ts : List (ℕ × Task C)).
              some (put_event read_event false no_context c, ts, decrement p))
            (sym (append-nil (tasks_in c.read))),
  )
  triggers false true c p v hr hw = (_, trigger-some write_event c [] p v (hw refl))
  triggers false false c p v hr hw = (p, refl)

  -- What handling a report does to the contexts and the queue.
  abbrev pub Wakes :
      Bool
      → ℕ
      → List (ℕ × Task C)
      → FdContext C
      → IoManager C
      → Option (Bool × IoManager C)
      → Type 0
  Wakes ok fd tasks d m o =
      (x : Bool × IoManager C) × (o ≡ some x)
      × (x.1.contexts ≡ (if ok then set m.contexts fd d else m.contexts))
      × (x.1.queue ≡ m.queue ++ (if ok then tasks else []))

  stored-Wakes :
      (fd : ℕ) (r w : Bool) (c : FdContext C) (m : IoManager C)
      → IsConsistent c
      → (r ≡ true → c.events.readable ≡ true)
      → (w ≡ true → c.events.writable ≡ true)
      → Wakes true fd
          (chosen r w c)
          (without r w c)
          m
          (store fd m (then_write (λ d. w) (trigger_if r read_event (c, [], m.pending))))
  stored-Wakes fd r w c m v hr hw =
      let (q, eq) = triggers r w c m.pending v hr hw in (_, ap (store fd m) eq, refl, refl)

  guarded-Wakes :
      (ok : Bool) (fd : ℕ) (r w : Bool) (c : FdContext C) (m : IoManager C)
      → IsConsistent c
      → get_elem? m.contexts fd ≡ some c
      → (r ≡ true → c.events.readable ≡ true)
      → (w ≡ true → c.events.writable ≡ true)
      → Wakes ok fd (chosen r w c) (without r w c) m (
          if ((c.events.readable && r) || (c.events.writable && w)) && ok
          then store fd m (then_write (λ d. w) (trigger_if r read_event (c, [], m.pending)))
          else some (false, m))
  guarded-Wakes false fd r w c m v here hr hw =
      let off : ((c.events.readable && r) || (c.events.writable && w)) && false ≡ false =
        ground arith in
      rw off ((false, m), refl, refl, sym (append-nil m.queue))
  guarded-Wakes true fd false false c m v here hr hw =
      let off : ((c.events.readable && false) || (c.events.writable && false)) && true ≡ false =
        ground arith in
      rw off ((false, m), refl, sym (set-same m.contexts fd c here), sym (append-nil m.queue))
  guarded-Wakes true fd true w c m v here hr hw =
      let on : ((c.events.readable && true) || (c.events.writable && w)) && true ≡ true =
        ground (arith, hr refl) in
      rw on (stored-Wakes fd true w c m v hr hw)
  guarded-Wakes true fd false true c m v here hr hw =
      let on : ((c.events.readable && false) || (c.events.writable && true)) && true ≡ true =
        ground (arith, hw refl) in
      rw on (stored-Wakes fd false true c m v hr hw)

  -- A report of events that are waited for schedules what waits for them and clears them.
  pub handle_report-Wakes :
      (ok : Bool) (fd : ℕ) (r : Report) (m : IoManager C) (c : FdContext C)
      → IsConsistent c
      → get_elem? m.contexts fd ≡ some c
      → (r.in_ready ≡ true → c.events.readable ≡ true)
      → (r.out_ready ≡ true → c.events.writable ≡ true)
      → Wakes ok fd (woken r c) (rest r c) m (handle_report ok fd r m)
  unfolding handle_report
  handle_report-Wakes ok fd r m c v here hin hout =
      rw
        (
          here,
          sym (flag r.in_ready r.broken c.events.readable hin),
          sym (flag r.out_ready r.broken c.events.writable hout),
          handle_report,
        )
        (guarded-Wakes ok fd (r.in_ready || (r.broken && c.events.readable))
          (r.out_ready || (r.broken && c.events.writable)) c m v here
          (λ p. real r.in_ready r.broken c.events.readable hin p)
          (λ p. real r.out_ready r.broken c.events.writable hout p))
    where
      flag :
          (ready broken bit : Bool)
          → (ready ≡ true → bit ≡ true)
          → ready || (broken && bit) ≡ bit && (ready || broken)
      flag ready broken bit h = ground arith

      real :
          (ready broken bit : Bool)
          → (ready ≡ true → bit ≡ true)
          → ready || (broken && bit) ≡ true
          → bit ≡ true
      real ready broken bit h p = ground arith
