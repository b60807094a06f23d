-- ===== src/Config/Kept.antt =====
-- What every call keeps of the variables: their names, their types and the pointers to them.
use ota_new.Common.{
  ℕ, zero, suc, ◌≡◌, ◌≢◌, refl, sym, ap, ◌∙◌, ◌⊎◌, inl, inr, List, [], ◌∷◌, ◌++◌, some, true, Text,
  str_eq, str_eq→≡, str_eq_refl, map, length, get_elem?, set, get_elem?-set_self, get_elem?-set_ne,
  Bool-cases, arith, ◌<◌, subst,
}
use native.Mathlib.Decide.{ℕ_discrete}
use mathlib.Core.Option.{some-injective}
use ota_new.Config.{
  Casts, ConfigVar, Config, Node, is_name_char, every, to_lower, find_key, put_key, lookup,
  set_value, from_string, add_listener, del_listener, clear_listener, load_from_yaml,
}

pub get_elem?-lt {ℓ} :
    {A : Type ℓ} (xs : List A) (i : ℕ) {x : A} → get_elem? xs i ≡ some x → i < length xs
get_elem?-lt [] i h = cc
get_elem?-lt (y ∷ ys) zero h = omega arith
get_elem?-lt (y ∷ ys) (suc i) h = omega (arith, get_elem?-lt ys i h)

pub get_elem?-snoc {ℓ} :
    {A : Type ℓ} (xs : List A) (y : A) (i : ℕ) {x : A}
    → get_elem? xs i ≡ some x
    → get_elem? (xs ++ (y ∷ [])) i ≡ some x
get_elem?-snoc [] y i h = cc
get_elem?-snoc (z ∷ zs) y zero h = h
get_elem?-snoc (z ∷ zs) y (suc i) h = get_elem?-snoc zs y i h

pub get_elem?-last {ℓ} :
    {A : Type ℓ} (xs : List A) (y : A) → get_elem? (xs ++ (y ∷ [])) (length xs) ≡ some y
get_elem?-last [] y = refl
get_elem?-last (z ∷ zs) y = get_elem?-last zs y

pub get_elem?-snoc_inv {ℓ} :
    {A : Type ℓ} (xs : List A) (y : A) (i : ℕ) {x : A}
    → get_elem? (xs ++ (y ∷ [])) i ≡ some x
    → (get_elem? xs i ≡ some x) ⊎ ((i ≡ length xs) × (x ≡ y))
get_elem?-snoc_inv [] y zero h = inr (refl, sym (some-injective _ _ h))
get_elem?-snoc_inv [] y (suc i) h = cc
get_elem?-snoc_inv (z ∷ zs) y zero h = inl h
get_elem?-snoc_inv (z ∷ zs) y (suc i) h = elim (get_elem?-snoc_inv zs y i h) [
  | inl old ↦ inl old
  | inr (e, here) ↦ inr (ap suc e, here)
]

pub find_key-put_key :
    (name k : Text) (h : ℕ) (ds : List (Text × ℕ))
    → ((find_key k (put_key name h ds) ≡ some h) × (k ≡ name))
      ⊎ ((find_key k (put_key name h ds) ≡ find_key k ds) × (k ≢ name))
unfolding find_key put_key
find_key-put_key name k h [] = elim (Bool-cases (str_eq name k)) [
  | inl same ↦ inl (rw same refl, sym (str_eq→≡ name k same))
  | inr other ↦ inr (rw other refl, λ e. cc (str_eq_refl name, ap (str_eq name) e))
]
find_key-put_key name k h ((j, g) ∷ ds) = elim (Bool-cases (str_eq j name)) [
  | inl hit ↦ elim (Bool-cases (str_eq j k)) [
    | inl same ↦ inl (rw (hit, same) refl, sym (str_eq→≡ j k same) ∙ str_eq→≡ j name hit)
    | inr other ↦ inr (rw (hit, other) refl, λ e. cc (ap (str_eq j) e, other, hit))
  ]
  | inr miss ↦ elim (Bool-cases (str_eq j k)) [
    | inl same ↦ inr (rw (miss, same) refl, λ e. cc (ap (str_eq j) e, same, miss))
    | inr other ↦ rw (miss, other) (find_key-put_key name k h ds)
  ]
]

pub lower_name : (name : Text) → every is_name_char name ≡ true → map to_lower name ≡ name
lower_name [] h = refl
lower_name (c ∷ cs) h = ground (arith, lower_name cs)

module _ {K V : Type 0} (casts : Casts K V) where
  -- The calls on a variable, of which `setValue` is given a value of the variable's type.
  pub data Method (x : ConfigVar K V) : ConfigVar K V → Type 0 where
    text : (s : Text) → Method x (from_string casts s x).0
    value : (v : V) → casts.kind_of v ≡ x.kind → Method x (set_value casts v x)
    listen : (key : ℕ) → Method x (add_listener casts key x)
    unlisten : (key : ℕ) → Method x (del_listener casts key x)
    clear : Method x (clear_listener casts x)

  pub data Step (c : Config K V) : Config K V → Type 0 where
    look : (name : Text) (v : V) → Step c (lookup casts name v c).0
    call :
        (h : ℕ) (x y : ConfigVar K V)
        → get_elem? c.vars h ≡ some x
        → Method x y
        → Step c (record c { vars = set c.vars h y })
    load : (root : Node) → Step c (load_from_yaml casts root c)

  pub data Reach (c : Config K V) : Config K V → Type 0 where
    here : Reach c c
    next : {d e : Config K V} → Reach c d → Step d e → Reach c e

  abbrev pub init : Config K V
  init = record { vars = []; datas = [] }

  -- What an entry names is there, under its name; and values are of their variables' types.
  pub record IsValid (c : Config K V) : Type 0 where
    pub named :
        (name : Text) (h : ℕ)
        → find_key name c.datas ≡ some h
        → (x : ConfigVar K V) × (get_elem? c.vars h ≡ some x) × (x.name ≡ name)
    pub typed :
        (h : ℕ) (x : ConfigVar K V) → get_elem? c.vars h ≡ some x → casts.kind_of x.value ≡ x.kind

  -- A variable that is there stays, with its name and type.
  abbrev pub Grows : Config K V → Config K V → Type 0
  Grows c d =
      (h : ℕ) (x : ConfigVar K V)
      → get_elem? c.vars h ≡ some x
      → (y : ConfigVar K V) × (get_elem? d.vars h ≡ some y) × (y.kind ≡ x.kind) × (y.name ≡ x.name)

  -- One variable replaced by one of its name and type.
  abbrev pub Same : ConfigVar K V → ConfigVar K V → Type 0
  Same x y =
      (y.kind ≡ x.kind)
      × (y.name ≡ x.name)
      × (casts.kind_of x.value ≡ x.kind → casts.kind_of y.value ≡ y.kind)

  pub set-Grows :
      (c : Config K V) (h : ℕ) (x y : ConfigVar K V)
      → get_elem? c.vars h ≡ some x
      → Same x y
      → Grows c (record c { vars = set c.vars h y })
  set-Grows c h x y there same g z e = elim (ℕ_discrete h g) [
    | yes p ↦
        let here : some x ≡ some z = sym there ∙ ap (get_elem? c.vars) p ∙ e in
        let xz : x ≡ z = some-injective _ _ here in
        (
          y,
          subst (λ (i : ℕ). get_elem? (set c.vars h y) i ≡ some y) p
              (get_elem?-set_self c.vars h y (get_elem?-lt c.vars h there)),
          same.0 ∙ ap ConfigVar.kind xz,
          same.1 ∙ ap ConfigVar.name xz,
        )
    | no p ↦ (z, get_elem?-set_ne c.vars y p ∙ e, refl, refl)
  ]

  set-typed :
      (c : Config K V) (h : ℕ) (x y : ConfigVar K V)
      → get_elem? c.vars h ≡ some x
      → Same x y
      → IsValid c
      → (g : ℕ) (z : ConfigVar K V) → get_elem? (set c.vars h y) g ≡ some z
      → casts.kind_of z.value ≡ z.kind
  set-typed c h x y there same v g z e = elim (ℕ_discrete h g) [
    | yes p ↦
        let yz : some y ≡ some z =
          sym (get_elem?-set_self c.vars h y (get_elem?-lt c.vars h there))
          ∙ ap (get_elem? (set c.vars h y)) p
          ∙ e in
        subst (λ (w : ConfigVar K V). casts.kind_of w.value ≡ w.kind) (some-injective _ _ yz)
          (same.2 (v.typed h x there))
    | no p ↦ v.typed g z (sym (get_elem?-set_ne c.vars y p) ∙ e)
  ]

  pub set-IsValid :
      (c : Config K V) (h : ℕ) (x y : ConfigVar K V)
      → get_elem? c.vars h ≡ some x
      → Same x y
      → IsValid c
      → IsValid (record c { vars = set c.vars h y })
  set-IsValid c h x y there same v = record {
    named = λ name g e.
        let (z, at_g, named_z) = v.named name g e in
        let (w, now, kind_w, name_w) = set-Grows c h x y there same g z at_g in
        (w, now, name_w ∙ named_z);
    typed = set-typed c h x y there same v;
  }
