-- ===== src/Config/Made.antt =====
-- A variable that `Lookup` has made, and what leads to it.
use ota_new.Common.{
  ℕ, ◌≡◌, ◌≢◌, refl, sym, ap, ◌∙◌, inl, inr, List, [], ◌∷◌, ◌++◌, some, true, Text, map, length,
  get_elem?, Bool-cases, Option-cases, arith, All,
}
use mathlib.Core.Option.{some-injective}
use ota_new.Config.{
  Casts, ConfigVar, Config, Node, found, is_name_char, is_key_char, every, to_lower, find_key,
  put_key, lookup_base, cast_to, lookup, make_var, new_var, load_from_yaml, list_all_member,
}
use ota_new.Config.Kept.{Reach, init, IsValid, get_elem?-last, find_key-put_key}
use ota_new.Config.Typed.{Reads, Reach-Keeps, init-IsValid, lookup-Keeps}
use ota_new.Config.Loaded.{KeyName, listed, lower_key, load_all-other}

module _ {K V : Type 0} (casts : Casts K V) where
  pub Reach-IsValid : Reads casts → {c : Config K V} → Reach casts (init casts) c → IsValid casts c
  Reach-IsValid reads r = (Reach-Keeps casts reads r).0 (init-IsValid casts reads)

  -- A variable that `Lookup` gives is a new one.
  pub lookup-new :
      (name : Text) (v : V) (c : Config K V) (h : ℕ)
      → (lookup casts name v c).1 ≡ found h
      → ((lookup casts name v c).0 ≡ record {
        vars = c.vars ++ (new_var casts name v ∷ []);
        datas = put_key name (length c.vars) c.datas;
      })
        × (h ≡ length c.vars)
        × (every is_name_char name ≡ true)
  unfolding lookup make_var
  lookup-new name v c h e = elim (Bool-cases (every is_name_char name)) [
    | inl good ↦ elim (Option-cases (lookup_base casts name c)) [
      | inl unknown ↦ ground (arith, good, unknown, e)
      | inr (g, at_g) ↦ elim (Bool-cases (cast_to casts (casts.kind_of v) g c)) [
        | inl fits ↦ ground (arith, good, fits, at_g, e)
        | inr other ↦ absurd (ground (arith, good, other, at_g, e))
      ]
    ]
    | inr bad ↦ elim (Option-cases (lookup_base casts name c)) [
      | inl unknown ↦ absurd (ground (arith, bad, unknown, e))
      | inr (g, at_g) ↦ elim (Bool-cases (cast_to casts (casts.kind_of v) g c)) [
        | inl fits ↦ absurd (ground (arith, bad, fits, at_g, e))
        | inr other ↦ absurd (ground (arith, bad, other, at_g, e))
      ]
    ]
  ]

  abbrev pub after : Text → V → Config K V → Config K V
  after name v c = (lookup casts name v c).0

  pub Misses : Config K V → ℕ → List (Text × Node) → Type 0
  Misses c h es = All (λ (e : Text × Node). find_key (map to_lower e.0) c.datas ≢ some h) es

  pub Misses-All :
      (c : Config K V) (h : ℕ) (es : List (Text × Node))
      → All (KeyName Node) es
      → ((key : Text) → every is_key_char key ≡ true → find_key key c.datas ≢ some h)
      → Misses c h es
  unfolding Misses
  Misses-All c h [] ks ne = tt
  Misses-All c h ((key, node) ∷ es) (k, ks) ne = (
    λ e. ne key k (ap (λ (t : Text). find_key t c.datas) (sym (lower_key key k)) ∙ e),
    Misses-All c h es ks ne,
  )

  pub load-other :
      (c : Config K V) (h : ℕ) (root : Node)
      → ((key : Text) → every is_key_char key ≡ true → find_key key c.datas ≢ some h)
      → get_elem? (load_from_yaml casts root c).vars h ≡ get_elem? c.vars h
  unfolding load_from_yaml Misses
  load-other c h root ne =
      load_all-other casts h (list_all_member [] root) c
        (Misses-All c h (list_all_member [] root) (listed [] root) ne)

  -- The variable that was made last, and its entry.
  pub made :
      (name : Text) (v : V) (c : Config K V) (h : ℕ)
      → (lookup casts name v c).1 ≡ found h
      → (get_elem? (after name v c).vars h ≡ some (new_var casts name v))
        × (find_key name (after name v c).datas ≡ some h)
  made name v c h e =
      let (state, at_h, good) = lookup-new name v c h e in
      rw (state, at_h)
        (
          get_elem?-last c.vars (new_var casts name v),
          elim (find_key-put_key name name (length c.vars) c.datas) [
            | inl (put, same) ↦ put
            | inr (kept, other) ↦ absurd (other refl)
          ],
        )

  pub after-IsValid :
      Reads casts
      → (name : Text) (v : V) {c : Config K V} → Reach casts (init casts) c
      → IsValid casts (after name v c)
  after-IsValid reads name v {c} r = (lookup-Keeps casts reads name v c).0 (Reach-IsValid reads r)

  -- What leads to a variable is its name.
  pub leads :
      {c : Config K V} (h : ℕ) (key : Text) {x : ConfigVar K V}
      → IsValid casts c
      → get_elem? c.vars h ≡ some x
      → find_key key c.datas ≡ some h
      → x.name ≡ key
  leads h key valid there e =
      let (y, at_h, named) = valid.named key h e in
      ap ConfigVar.name (some-injective _ _ (sym there ∙ at_h)) ∙ named

  pub new-name : (name : Text) (v : V) → (new_var casts name v).name ≡ map to_lower name
  unfolding new_var
  new-name name v = refl

  -- A name that is there with the type is given a new variable all the same.
  pub again :
      (name : Text) (v w : V) (d : Config K V) (h : ℕ)
      → get_elem? d.vars h ≡ some (new_var casts name v)
      → find_key name d.datas ≡ some h
      → casts.same_kind (casts.kind_of v) (casts.kind_of w) ≡ true
      → every is_name_char name ≡ true
      → (lookup casts name w d).1 ≡ found (length d.vars)
  unfolding lookup lookup_base make_var cast_to new_var
  again name v w d h there entry same good = ground (arith, there, entry, same, good)
