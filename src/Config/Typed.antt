-- ===== src/Config/Typed.antt =====
-- A variable keeps its type, and holds values of it, whatever is called.
use ota_new.Common.{
  ℕ, ◌≡◌, refl, sym, ◌∙◌, inl, inr, List, [], ◌∷◌, ◌++◌, some, true, Text, map, length, get_elem?,
  Bool-cases, Option-cases, subst,
}
use mathlib.Core.Option.{some-injective}
use ota_new.Config.{
  Casts, ConfigVar, Config, Node, is_name_char, every, to_lower, find_key, lookup_base, cast_to,
  lookup, make_var, new_var, set_value, from_string, add_listener, del_listener, clear_listener, at,
  load_one, load_all, load_from_yaml, list_all_member, is_empty, text_of,
}
use ota_new.Config.Kept.{
  Method, text, value, listen, unlisten, clear, Step, look, call, load, Reach, here, next, init,
  IsValid, Grows, Same, set-Grows, set-IsValid, get_elem?-snoc, get_elem?-last, get_elem?-snoc_inv,
  find_key-put_key, lower_name,
}

module _ {K V : Type 0} (casts : Casts K V) where
  -- What is read as a value of a type has that type.
  abbrev pub Reads : Type 0
  Reads = (k : K) (s : Text) (v : V) → casts.cast k s ≡ some v → casts.kind_of v ≡ k

  -- The comparison of types tells equal ones.
  abbrev pub Tells : Type 0
  Tells = (j k : K) → casts.same_kind j k ≡ true → j ≡ k

  set_value-Same :
      (v : V) (x : ConfigVar K V) → casts.kind_of v ≡ x.kind → Same casts x (set_value casts v x)
  unfolding set_value
  set_value-Same v x k = elim (Bool-cases (casts.same v x.value)) [
    | inl same ↦ rw same (refl, refl, λ h. h)
    | inr other ↦ rw other (refl, refl, λ h. k)
  ]

  module _ (reads : Reads) where
    pub from_string-Same : (s : Text) (x : ConfigVar K V) → Same casts x (from_string casts s x).0
    unfolding from_string
    from_string-Same s x = elim (Option-cases (casts.cast x.kind s)) [
      | inl bad ↦ rw (bad, from_string) (refl, refl, λ h. h)
      | inr (v, e) ↦ rw (e, from_string) (set_value-Same v x (reads x.kind s v e))
    ]

    Method-Same : {x y : ConfigVar K V} → Method casts x y → Same casts x y
    unfolding add_listener del_listener clear_listener
    Method-Same {x = x} (text s) = from_string-Same s x
    Method-Same {x = x} (value v k) = set_value-Same v x k
    Method-Same (listen key) = (refl, refl, λ h. h)
    Method-Same (unlisten key) = (refl, refl, λ h. h)
    Method-Same clear = (refl, refl, λ h. h)

    -- What a call keeps: the invariant, and the variables.
    abbrev pub Keeps : Config K V → Config K V → Type 0
    Keeps c d = (IsValid casts c → IsValid casts d) × Grows casts c d

    Keeps-refl : (c : Config K V) → Keeps c c
    Keeps-refl c = (λ v. v, λ h x e. (x, e, refl, refl))

    Keeps-trans : (c d e : Config K V) → Keeps c d → Keeps d e → Keeps c e
    Keeps-trans c d e p q = (
      λ v. q.0 (p.0 v),
      λ h x there.
          let (y, at_y, ky, ny) = p.1 h x there in
          let (z, at_z, kz, nz) = q.1 h y at_y in (z, at_z, kz ∙ ky, nz ∙ ny),
    )

    at-Keeps :
        (h : ℕ) (f : ConfigVar K V → ConfigVar K V) (c : Config K V)
        → ((x : ConfigVar K V) → Same casts x (f x))
        → Keeps c (at casts h f c)
    unfolding at
    at-Keeps h f c keep = elim (Option-cases (get_elem? c.vars h)) [
      | inl out ↦ rw (out, at) (Keeps-refl c)
      | inr (x, e) ↦
          rw (e, at)
            (set-IsValid casts c h x (f x) e (keep x), set-Grows casts c h x (f x) e (keep x))
    ]

    load_one-Keeps : (e : Text × Node) (c : Config K V) → Keeps c (load_one casts e c)
    unfolding load_one
    load_one-Keeps (key, node) c = elim (Bool-cases (is_empty key)) [
      | inl empty ↦ rw empty (Keeps-refl c)
      | inr named ↦ elim (Option-cases (lookup_base casts (map to_lower key) c)) [
        | inl unknown ↦ rw (named, unknown, load_one) (Keeps-refl c)
        | inr (h, e) ↦
            rw (named, e, load_one)
              (at-Keeps h (λ (x : ConfigVar K V). (from_string casts (text_of casts node) x).0) c
                (from_string-Same (text_of casts node)))
      ]
    ]

    load_all-Keeps : (es : List (Text × Node)) (c : Config K V) → Keeps c (load_all casts es c)
    unfolding load_all
    load_all-Keeps [] c = Keeps-refl c
    load_all-Keeps (e ∷ es) c =
        Keeps-trans c (load_one casts e c) (load_all casts es (load_one casts e c))
          (load_one-Keeps e c) (load_all-Keeps es (load_one casts e c))

    make_var-Keeps : (name : Text) (v : V) (c : Config K V) → Keeps c (make_var casts name v c).0
    unfolding make_var new_var
    make_var-Keeps name v c = elim (Bool-cases (every is_name_char name)) [
      | inr bad ↦ rw bad (Keeps-refl c)
      | inl good ↦ rw good (
        λ valid. record {
          named = λ k h e. elim (find_key-put_key name k (length c.vars) c.datas) [
            | inl (put, same) ↦
                let hh : length c.vars ≡ h = some-injective _ _ (sym put ∙ e) in
                subst
                  (λ (i : ℕ).
                    (x : ConfigVar K V) × (get_elem? (c.vars ++ (new_var casts name v ∷ [])) i
                      ≡ some x)
                    × (x.name ≡ k))
                  hh
                  (new_var casts name v, get_elem?-last c.vars _, lower_name name good ∙ sym same)
            | inr (kept, other) ↦
                let (x, there, named_x) = valid.named k h (sym kept ∙ e) in
                (x, get_elem?-snoc c.vars _ h there, named_x)
          ];
          typed = λ h x e. elim (get_elem?-snoc_inv c.vars (new_var casts name v) h e) [
            | inl old ↦ valid.typed h x old
            | inr (i, new) ↦
                subst (λ (w : ConfigVar K V). casts.kind_of w.value ≡ w.kind) (sym new) refl
          ];
        },
        λ h x there. (x, get_elem?-snoc c.vars _ h there, refl, refl),
      )
    ]

    pub lookup-Keeps : (name : Text) (v : V) (c : Config K V) → Keeps c (lookup casts name v c).0
    unfolding lookup
    lookup-Keeps name v c = elim (Option-cases (lookup_base casts name c)) [
      | inl unknown ↦ rw (unknown, lookup) (make_var-Keeps name v c)
      | inr (h, e) ↦ elim (Bool-cases (cast_to casts (casts.kind_of v) h c)) [
        | inl fits ↦ rw (e, lookup, fits) (make_var-Keeps name v c)
        | inr other ↦ rw (e, lookup, other) (Keeps-refl c)
      ]
    ]

    Step-Keeps : {c d : Config K V} → Step casts c d → Keeps c d
    unfolding load_from_yaml
    Step-Keeps {c} (look name v) = lookup-Keeps name v c
    Step-Keeps {c} (call h x y there m) = (
      set-IsValid casts c h x y there (Method-Same m),
      set-Grows casts c h x y there (Method-Same m),
    )
    Step-Keeps {c} (load root) = load_all-Keeps (list_all_member [] root) c

    pub Reach-Keeps :
        {c d : Config K V} → Reach casts c d → (IsValid casts c → IsValid casts d) × Grows casts c d
    Reach-Keeps {c} here = Keeps-refl c
    Reach-Keeps {c} (next {d} {e} r st) = Keeps-trans c d e (Reach-Keeps r) (Step-Keeps st)

    pub init-IsValid : IsValid casts (init casts)
    unfolding find_key
    init-IsValid = record { named = λ name h e. cc; typed = λ h x e. cc }
