-- ===== src/IoManager/Added.antt =====
-- `addEvent` and `delEvent`: what waits is counted.
use ota_new.Common.{
  ℕ, ◌+◌, ◌^◌, ◌≤◌, ◌<◌, ◌≡◌, ap, [], ◌∷◌, none, refl, sym, ◌∙◌, subst, inl, inr, List, Option,
  some, Bool, true, false, ◌&&◌, if◌then◌else◌, get_elem?, set, arith, Bool-cases, Option-cases,
  length-set, le→ltb,
}
use native.Mathlib.Nat.{mod-eq_of_lt}
use ota_new.IoManager
use ota_new.IoManager.{
  Event, read_event, write_event, Events, has, Task, run_fiber, run_callback, EventContext,
  FdContext, increment, decrement, no_context, new_context, put_event, get_context, context_resize,
  fresh_contexts, waiting, add_to_context, add_event, del_event, reset_context, init, trigger_event,
  trigger_if, store,
}
use ota_new.IoManager.Context.{
  tally, tally-put_event, all_waiting, tasks_in, waiting_for, Matches, IsConsistent, waiting-Waits,
  put_event-IsConsistent, weight-put_set, weight-put_clear,
}
use ota_new.IoManager.Counted.{
  IsValid, total-le, All-get, All-set, total-set, weight-le_total, decrement-pos, waiting-set,
}
use ota_new.IoManager.Grown.{is_waiting, Reaches, grown, grown-Reaches}

module _ {C : Type 0} where
  -- What `addEvent` leaves: nothing is scheduled, and the event is counted where it was added.
  pub record Added (t : ℕ × Task C) (m : IoManager.IoManager C) (r : Bool × IoManager.IoManager C)
      : Type 0 where
    pub valid : IsValid r.1
    pub counted : r.1.pending ≡ (if r.0 then m.pending + 1 else m.pending)
    pub queue : r.1.queue ≡ m.queue
    pub tasks :
        (p : ℕ × Task C → Bool)
        → tally p (all_waiting r.1.contexts)
          ≡ tally p (all_waiting m.contexts) + tally p (if r.0 then t ∷ [] else [])

  -- The task of an event that is added.
  abbrev pub new_task : ℕ → ℕ → Option C → ℕ × Task C
  new_task s current none = (s, run_fiber current)
  new_task s current (some f) = (s, run_callback f)

  abbrev AddReturns :
      ℕ × Task C → IoManager.IoManager C → Option (Bool × IoManager.IoManager C) → Type 0
  AddReturns t m o = (r : Bool × IoManager.IoManager C) × (o ≡ some r) × Added t m r

  same-Returns :
      (t : ℕ × Task C) (m : IoManager.IoManager C) (fd : ℕ) (e : Event) (g : List (FdContext C))
      → IsValid m
      → Reaches m fd e g
      → AddReturns t m (some (false, record m { contexts = g }))
  same-Returns t m fd e g v r = (
    (false, record m { contexts = g }),
    refl,
    record {
      valid = record {
        consistent = r.all;
        counted = v.counted ∙ sym r.same;
        small = r.small;
        enough = r.enough;
      };
      counted = refl;
      queue = refl;
      tasks = λ p. omega (arith, r.tasks p);
    },
  )

  clear-of_free :
      (e : Event) (c : FdContext C)
      → IsConsistent c
      → has e c.events ≡ false
      → get_context e c ≡ no_context
  clear-of_free read_event c (r, w) h = subst (λ (b : Bool). Matches b c.read) h r
  clear-of_free write_event c (r, w) h = subst (λ (b : Bool). Matches b c.write) h w

  put-Returns :
      (t : ℕ × Task C) (m : IoManager.IoManager C) (fd : ℕ) (e : Event) (g : List (FdContext C))
      (x : EventContext C)
      → IsValid m
      → (r : Reaches m fd e g) → Matches true x
      → tasks_in x ≡ t ∷ []
      → AddReturns t m (
          some (
            true,
            record m {
              pending = increment m.pending;
              contexts = set g fd (put_event e true x r.context);
            },
          ))
  put-Returns t m fd e g x v r w one =
      let c = put_event e true x r.context in
      let up : increment m.pending ≡ m.pending + 1 =
        mod-eq_of_lt {n = m.pending + 1} {m = 2 ^ 64}
          (omega (arith, v.counted, v.small, total-le m.contexts)) in
      (
        (true, record m { pending = increment m.pending; contexts = set g fd c }),
        refl,
        record {
          valid = record {
            consistent = All-set g fd c r.all (
                put_event-IsConsistent e true x r.context (All-get g fd r.context r.all r.there) w);
            counted = omega (
              arith,
              up,
              v.counted,
              r.same,
              total-set g fd r.context c r.there,
              weight-put_set e x r.context r.free,
            );
            small = rw (length-set g fd c) r.small;
            enough = rw (length-set g fd c) r.enough;
          };
          counted = up;
          queue = refl;
          tasks = λ p. omega (
            arith,
            r.tasks p,
            waiting-set p g fd r.context c r.there,
            tally-put_event p e true x r.context,
            ap (tally p) one,
            ap (λ b. tally p (if b then tasks_in (get_context e r.context) else [])) r.free,
          );
        },
      )

  add_to_context-Returns :
      (s current : ℕ) (ok : Bool) (fd : ℕ) (e : Event) (cb : Option C) (m : IoManager.IoManager C)
      (g : List (FdContext C))
      → IsValid m
      → (r : Reaches m fd e g)
      → AddReturns
          (new_task s current cb)
          m
          (add_to_context s current ok fd e cb r.context (record m { contexts = g }))
  unfolding add_to_context
  add_to_context-Returns s current true fd e cb m g v r =
      rw
        (
          r.free,
          clear-of_free e r.context (All-get g fd r.context r.all r.there) r.free,
          add_to_context,
        )
        (put-Returns (new_task s current cb) m fd e g (waiting s cb current) v r
          (waiting-Waits s cb current) (waits cb))
    where
      waits : (cb : Option C) → tasks_in (waiting s cb current) ≡ new_task s current cb ∷ []
      waits none = refl
      waits (some f) = refl
  add_to_context-Returns s current false fd e cb m g v r =
      rw (r.free, add_to_context) (same-Returns (new_task s current cb) m fd e g v r)

  -- `addEvent` on a valid manager, for a descriptor and an event that nothing waits for yet, fails no
  -- assertion and stays inside the vector, whatever `epoll_ctl` returns; the manager stays valid,
  -- nothing is scheduled, and one more event is pending exactly where it returns 0.
  pub add_event-Added :
      (s current : ℕ) (ok : Bool) (fd : ℕ) (e : Event) (cb : Option C) (m : IoManager.IoManager C)
      → IsValid m
      → 1 ≤ fd
      → fd < 2 ^ 31
      → is_waiting m.contexts fd e ≡ false
      → (r : Bool × IoManager.IoManager C) × (add_event s current ok fd e cb m ≡ some r)
        × Added (new_task s current cb) m r
  unfolding add_event
  add_event-Added s current ok fd e cb m v pos lt idle =
      let r = grown-Reaches m fd e v lt idle in
      rw (le→ltb fd 1 pos, r.there, add_event)
        (add_to_context-Returns s current ok fd e cb m (grown fd m) v r)

  -- What waits for an event of a descriptor.
  abbrev pub waiting_at : ℕ → Event → List (FdContext C) → List (ℕ × Task C)
  waiting_at fd e cs = elim (get_elem? cs fd) [ none ↦ [] | some c ↦ waiting_for e c ]

  waiting_at-found :
      (fd : ℕ) (e : Event) (cs : List (FdContext C)) (c : FdContext C)
      → get_elem? cs fd ≡ some c
      → waiting_at fd e cs ≡ waiting_for e c
  waiting_at-found fd e cs c here = rw (here, waiting_at) refl

  -- `delEvent` on a valid manager leaves a valid one, schedules nothing, and one event less is
  -- pending exactly where it returns true.
  pub del_event-Deleted :
      (ok : Bool) (fd : ℕ) (e : Event) (m : IoManager.IoManager C)
      → IsValid m
      → IsValid (del_event ok fd e m).1
        × ((del_event ok fd e m).1.queue ≡ m.queue)
        × (m.pending ≡ (
            if (del_event ok fd e m).0
            then (del_event ok fd e m).1.pending + 1
            else (del_event ok fd e m).1.pending))
        × ((p : ℕ × Task C → Bool)
            → tally p (all_waiting (del_event ok fd e m).1.contexts)
                + tally p (if (del_event ok fd e m).0 then waiting_at fd e m.contexts else [])
              ≡ tally p (all_waiting m.contexts))
  unfolding del_event reset_context
  del_event-Deleted ok fd e m v = elim (Option-cases (get_elem? m.contexts fd)) [
    | inl gone ↦ rw (gone, del_event) (v, refl, refl, λ p. omega arith)
    | inr (c, here) ↦ elim (Bool-cases (has e c.events && ok)) [
      | inl go ↦
          let d = put_event e false no_context c in
          let on : has e c.events ≡ true = ground (arith, go) in
          let le = weight-le_total m.contexts fd c here in
          let down =
            decrement-pos m.pending
              (omega (arith, le, v.counted, weight-put_clear e no_context c on))
              (omega (arith, v.counted, v.small, total-le m.contexts)) in
          rw (here, go, del_event)
            (
              record {
                consistent = All-set m.contexts fd d v.consistent (
                    put_event-IsConsistent e false no_context c
                      (All-get m.contexts fd c v.consistent here) refl);
                counted = omega (
                  arith,
                  down,
                  v.counted,
                  total-set m.contexts fd c d here,
                  weight-put_clear e no_context c on,
                );
                small = rw (length-set m.contexts fd d) v.small;
                enough = rw (length-set m.contexts fd d) v.enough;
              },
              refl,
              sym down,
              λ p. omega (
                arith,
                waiting-set p m.contexts fd c d here,
                tally-put_event p e false no_context c,
                ap (tally p) (waiting_at-found fd e m.contexts c here),
              ),
            )
      | inr stay ↦ rw (here, stay, del_event) (v, refl, refl, λ p. omega arith)
    ]
  ]
