-- ===== src/FdManager/Found.antt =====
-- `get` gives each descriptor its context.
use ota_new.Common.{
  ℕ, zero, suc, ◌-◌, ◌*◌, ◌/◌, ◌≤◌, ◌<◌, ◌≡◌, ◌≢◌, refl, sym, ap, ◌∙◌, subst, List, [], ◌∷◌, ◌++◌,
  Option, none, some, Bool, true, leb, length, replicate, get_elem?, set, arith, take-all,
  length-append, length-replicate, length-set, get_elem?-set_self, Option-cases, Bool-cases, inl,
  inr,
}
use mathlib.Core.Option.{some-injective}
use ota_new.FdManager
use ota_new.FdManager.{FdCtx, init, new_ctx, resize, grown, create, created, get, del}

-- What is known of a descriptor.
unfoldable pub entry : ℕ → List (Option FdCtx) → Option FdCtx
entry g [] = none
entry zero (x ∷ ds) = x
entry (suc g) (x ∷ ds) = entry g ds

entry-nothing : (k g : ℕ) → entry g (replicate k none) ≡ none
unfolding entry
entry-nothing zero g = refl
entry-nothing (suc k) zero = refl
entry-nothing (suc k) (suc g) = entry-nothing k g

entry-append : (ds : List (Option FdCtx)) (k g : ℕ) → entry g (ds ++ replicate k none) ≡ entry g ds
unfolding entry
entry-append [] k g = entry-nothing k g
entry-append (x ∷ ds) k zero = refl
entry-append (x ∷ ds) k (suc g) = entry-append ds k g

entry-set_ne :
    (ds : List (Option FdCtx)) (i g : ℕ) (x : Option FdCtx)
    → g ≢ i
    → entry g (set ds i x) ≡ entry g ds
unfolding entry
entry-set_ne [] i g x ne = refl
entry-set_ne (y ∷ ds) zero zero x ne = absurd (ne refl)
entry-set_ne (y ∷ ds) zero (suc g) x ne = refl
entry-set_ne (y ∷ ds) (suc i) zero x ne = refl
entry-set_ne (y ∷ ds) (suc i) (suc g) x ne = entry-set_ne ds i g x (λ e. ne (ap suc e))

pub record Grown (fd : ℕ) (ds es : List (Option FdCtx)) : Type 0 where
  pub reach : fd < length es
  pub two : 2 ≤ length es
  pub same : (g : ℕ) → entry g es ≡ entry g ds

grown-Grown : (fd : ℕ) (ds : List (Option FdCtx)) → 2 ≤ length ds → Grown fd ds (grown fd ds)
unfolding resize
grown-Grown fd ds two = elim (Bool-cases (leb (length ds) fd)) [
  | inl out ↦
      let le : length ds ≤ fd = ground (arith, out) in
      let n = fd * 3 / 2 in
      let whole = take-all n ds (omega (arith, le, two)) in
      rw (out) (
        subst (λ (l : List (Option FdCtx)). Grown fd ds (l ++ replicate (n - length ds) none))
          (sym whole)
          (record {
            reach = omega (
              arith,
              length-append ds (replicate (n - length ds) none),
              length-replicate {A = Option FdCtx} (n - length ds) none,
              le,
              two,
            );
            two = omega (arith, length-append ds (replicate (n - length ds) none), two);
            same = λ g. entry-append ds (n - length ds) g;
          }))
  | inr inside ↦
      rw (inside) (record { reach = ground (arith, inside); two = two; same = λ g. refl })
]

entry-get :
    (ds : List (Option FdCtx)) (i : ℕ) (x : Option FdCtx) → get_elem? ds i ≡ some x → entry i ds ≡ x
unfolding entry
entry-get [] i x e = absurd (ground (arith, e))
entry-get (y ∷ ds) zero x e = some-injective _ _ e
entry-get (y ∷ ds) (suc i) x e = entry-get ds i x e

reach-get :
    (ds : List (Option FdCtx)) (i : ℕ)
    → i < length ds
    → (x : Option FdCtx) × (get_elem? ds i ≡ some x)
reach-get [] i h = absurd (omega arith)
reach-get (y ∷ ds) zero h = (y, refl)
reach-get (y ∷ ds) (suc i) h = reach-get ds i (omega arith)

module _ (stat : ℕ → Option Bool) where
  -- `get` gave the context `c`, and left the manager `n`.
  pub record Gives (fd : ℕ) (m : FdManager.FdManager) (r : Option FdCtx × FdManager.FdManager)
      : Type 0 where
    pub ctx : FdCtx
    pub given : r.0 ≡ some ctx
    pub kept : entry fd r.1.datas ≡ some ctx
    pub others : (g : ℕ) → g ≢ fd → entry g r.1.datas ≡ entry g m.datas
    pub two : 2 ≤ length r.1.datas
    pub again : (auto_create : Bool) → get stat (some fd) auto_create r.1 ≡ some r

  abbrev GetGives : ℕ → FdManager.FdManager → Option (Option FdCtx × FdManager.FdManager) → Type 0
  GetGives fd m o = (r : Option FdCtx × FdManager.FdManager) × (o ≡ some r) × Gives fd m r

  get-there :
      (fd : ℕ) (b : Bool) (c : FdCtx) (m : FdManager.FdManager)
      → get_elem? m.datas fd ≡ some (some c)
      → get stat (some fd) b m ≡ some (some c, m)
  unfolding get
  get-there fd b c m e = rw (e, get) refl

  create-Gives :
      (fd : ℕ) (m : FdManager.FdManager)
      → 2 ≤ length m.datas
      → GetGives fd m (created (create stat fd m))
  unfolding create
  create-Gives fd m two =
      let ds = grown fd m.datas in
      let g = grown-Grown fd m.datas two in
      let (x, there) = reach-get ds fd g.reach in
      let c = (new_ctx (stat fd) fd m.flags).0 in
      let here = get_elem?-set_self ds fd (some c) g.reach in
      let n : FdManager.FdManager = record {
        datas = set ds fd (some c);
        flags = (new_ctx (stat fd) fd m.flags).1;
      } in
      rw (there, create)
        (
          (some c, n),
          refl,
          record {
            ctx = c;
            given = refl;
            kept = entry-get n.datas fd (some c) here;
            others = λ k ne. entry-set_ne ds fd k (some c) ne ∙ g.same k;
            two = omega (arith, length-set ds fd (some c), g.two);
            again = λ b. get-there fd b c n here;
          },
        )

  -- `get` of a descriptor with `auto_create` writes inside the vector and gives a context, which is the one that a
  -- later `get` of it gives, with or without `auto_create`; what is known of the other descriptors stays.
  pub get-Gives :
      (fd : ℕ) (m : FdManager.FdManager)
      → 2 ≤ length m.datas
      → (r : Option FdCtx × FdManager.FdManager) × (get stat (some fd) true m ≡ some r)
        × Gives fd m r
  unfolding get
  get-Gives fd m two = elim (Option-cases (get_elem? m.datas fd)) [
    | inl gone ↦ rw (gone, get) (create-Gives fd m two)
    | inr (x, here) ↦ elim (Option-cases x) [
      | inl null ↦ rw (here ∙ ap some null, get) (create-Gives fd m two)
      | inr (c, is) ↦
          let there = here ∙ ap some is in
          (
            (some c, m),
            get-there fd true c m there,
            record {
              ctx = c;
              given = refl;
              kept = entry-get m.datas fd (some c) there;
              others = λ k ne. refl;
              two = two;
              again = λ b. get-there fd b c m there;
            },
          )
    ]
  ]
