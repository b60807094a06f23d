-- ===== src/IoManager/Grown.antt =====
-- The vector of contexts that `addEvent` works on: it grows as far as the descriptor, with nothing more in it.
use ota_new.Common.{
  ℕ, zero, suc, ◌+◌, ◌-◌, ◌*◌, ◌/◌, ◌^◌, ◌≤◌, ◌<◌, ◌≡◌, refl, sym, ap, ◌∙◌, subst, List, [], ◌∷◌,
  ◌++◌, none, some, Bool, false, if◌then◌else◌, length, take, get_elem?, All, take-all, arith,
  length-append, ltb, lt→ltb, le→ltb,
}
use native.Mathlib.Decide.{dec_lt}
use ota_new.IoManager
use ota_new.IoManager.{
  Event, read_event, write_event, Events, has, Task, EventContext, FdContext, increment, decrement,
  no_context, new_context, put_event, get_context, context_resize, fresh_contexts, waiting,
  add_to_context, add_event, del_event, reset_context, init, trigger_event, trigger_if, store,
}
use ota_new.IoManager.Context.{
  tally, tally-append, all_waiting, tasks_of, IsConsistent, new_context-IsConsistent,
}
use ota_new.IoManager.Counted.{total, IsValid}

pub fresh-All : (C : Type 0) (n : ℕ) → All IsConsistent (fresh_contexts {C = C} n)
unfolding fresh_contexts
fresh-All C zero = tt
fresh-All C (suc n) = (new_context-IsConsistent, fresh-All C n)

pub fresh-total : (C : Type 0) (n : ℕ) → total (fresh_contexts {C = C} n) ≡ 0
unfolding fresh_contexts
fresh-total C zero = refl
fresh-total C (suc n) = omega (arith, fresh-total C n)

pub fresh-waiting : (C : Type 0) (n : ℕ) → all_waiting (fresh_contexts {C = C} n) ≡ []
unfolding fresh_contexts
fresh-waiting C zero = refl
fresh-waiting C (suc n) = fresh-waiting C n

length-fresh : (C : Type 0) (n : ℕ) → length (fresh_contexts {C = C} n) ≡ n
unfolding fresh_contexts
length-fresh C zero = refl
length-fresh C (suc n) = ap suc (length-fresh C n)

module _ {C : Type 0} where
  fresh-get : (n i : ℕ) → i < n → get_elem? (fresh_contexts {C = C} n) i ≡ some new_context
  unfolding fresh_contexts
  fresh-get zero i h = absurd (omega arith)
  fresh-get (suc n) zero h = refl
  fresh-get (suc n) (suc i) h = fresh-get n i (omega arith)

  append-All :
      (xs ys : List (FdContext C))
      → All IsConsistent xs
      → All IsConsistent ys
      → All IsConsistent (xs ++ ys)
  append-All [] ys h k = k
  append-All (x ∷ xs) ys (h, hs) k = (h, append-All xs ys hs k)

  append-total : (xs ys : List (FdContext C)) → total (xs ++ ys) ≡ total xs + total ys
  append-total [] ys = omega arith
  append-total (x ∷ xs) ys = omega (arith, append-total xs ys)

  append-waiting :
      (p : ℕ × Task C → Bool) (xs ys : List (FdContext C))
      → tally p (all_waiting (xs ++ ys)) ≡ tally p (all_waiting xs) + tally p (all_waiting ys)
  append-waiting p [] ys = omega arith
  append-waiting p (x ∷ xs) ys = omega (
    arith,
    append-waiting p xs ys,
    tally-append p (tasks_of x) (all_waiting xs),
    tally-append p (tasks_of x) (all_waiting (xs ++ ys)),
  )

  append-get :
      (xs ys : List (FdContext C)) (i : ℕ)
      → length xs ≤ i
      → get_elem? (xs ++ ys) i ≡ get_elem? ys (i - length xs)
  append-get [] ys i h = ground arith
  append-get (x ∷ xs) ys zero h = absurd (omega arith)
  append-get (x ∷ xs) ys (suc i) h = ground (arith, append-get xs ys i)

  pub get-some :
      (cs : List (FdContext C)) (i : ℕ)
      → i < length cs
      → (c : FdContext C) × (get_elem? cs i ≡ some c)
  get-some [] i h = absurd (omega arith)
  get-some (c ∷ cs) zero h = (c, refl)
  get-some (c ∷ cs) (suc i) h = get-some cs i (omega arith)

  -- Something waits for the event on the descriptor.
  unfoldable pub is_waiting : List (FdContext C) → ℕ → Event → Bool
  is_waiting cs fd e = elim (get_elem? cs fd) [ none ↦ false | some c ↦ has e c.events ]

  -- A manager whose vector reaches the descriptor, with nothing more in it.
  pub record Reaches (m : IoManager.IoManager C) (fd : ℕ) (e : Event) (g : List (FdContext C))
      : Type 0 where
    pub all : All IsConsistent g
    pub same : total g ≡ total m.contexts
    pub tasks : (p : ℕ × Task C → Bool) → tally p (all_waiting g) ≡ tally p (all_waiting m.contexts)
    pub small : length g ≤ 2 ^ 32
    pub enough : 2 ≤ length g
    pub context : FdContext C
    pub there : get_elem? g fd ≡ some context
    pub free : has e context.events ≡ false

  resize-Reaches :
      (m : IoManager.IoManager C) (fd : ℕ) (e : Event)
      → IsValid m
      → length m.contexts ≤ fd
      → fd < 2 ^ 31
      → Reaches m fd e (context_resize (fd * 3 / 2) m.contexts)
  unfolding context_resize
  resize-Reaches m fd e v out lt =
      let n = fd * 3 / 2 in
      let cs = m.contexts in
      let whole : take n cs ≡ cs = take-all n cs (omega (arith, v.enough)) in
      subst (λ (g : List (FdContext C)). Reaches m fd e (g ++ fresh_contexts (n - length cs)))
        (sym whole)
        (record {
          all = append-All cs _ v.consistent (fresh-All C (n - length cs));
          same = omega (
            arith,
            append-total cs (fresh_contexts (n - length cs)),
            fresh-total C (n - length cs),
          );
          tasks = λ p. omega (
            arith,
            append-waiting p cs (fresh_contexts (n - length cs)),
            ap (tally p) (fresh-waiting C (n - length cs)),
          );
          small = omega (
            arith,
            length-append cs (fresh_contexts (n - length cs)),
            length-fresh C (n - length cs),
            v.enough,
          );
          enough = omega (arith, length-append cs (fresh_contexts (n - length cs)), v.enough);
          context = new_context;
          there =
              append-get cs _ fd out
              ∙ fresh-get (n - length cs) (fd - length cs) (omega (arith, v.enough));
          free = empty e;
        })
    where
      empty : (e : Event) → has e (new_context {C = C}).events ≡ false
      empty read_event = refl
      empty write_event = refl

  in_range-Reaches :
      (m : IoManager.IoManager C) (fd : ℕ) (e : Event)
      → IsValid m
      → fd < length m.contexts
      → is_waiting m.contexts fd e ≡ false
      → Reaches m fd e m.contexts
  unfolding is_waiting
  in_range-Reaches m fd e v inside idle =
      let (c, here) = get-some m.contexts fd inside in
      record {
        all = v.consistent;
        same = refl;
        tasks = λ p. refl;
        small = v.small;
        enough = v.enough;
        context = c;
        there = here;
        free =
            subst (λ o. elim o as (λ x. Bool) [ none ↦ false | some d ↦ has e d.events ] ≡ false)
              here idle;
      }

  -- The vector that `addEvent` works on.
  abbrev pub grown : ℕ → IoManager.IoManager C → List (FdContext C)
  grown fd m =
      if ltb fd (length m.contexts) then m.contexts else context_resize (fd * 3 / 2) m.contexts

  pub grown-Reaches :
      (m : IoManager.IoManager C) (fd : ℕ) (e : Event)
      → IsValid m
      → fd < 2 ^ 31
      → is_waiting m.contexts fd e ≡ false
      → Reaches m fd e (grown fd m)
  grown-Reaches m fd e v lt idle = elim (dec_lt fd (length m.contexts)) [
    | yes inside ↦ rw (lt→ltb fd (length m.contexts) inside) (in_range-Reaches m fd e v inside idle)
    | no outside ↦
        rw (le→ltb fd (length m.contexts) (omega arith)) (resize-Reaches m fd e v (omega arith) lt)
  ]
