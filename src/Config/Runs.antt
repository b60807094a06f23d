-- ===== src/Config/Runs.antt =====
-- What `Lookup` gives in any run, and what becomes of it.
use ota_new.Common.{
  ℕ, ◌≡◌, ◌≢◌, sym, ap, ◌∙◌, inl, inr, [], some, true, false, Text, map, length, get_elem?,
  Bool-cases, Option-cases, arith,
}
use mathlib.Core.Option.{some-injective}
use ota_new.Config.{
  Casts, ConfigVar, Config, Node, found, is_key_char, every, to_lower, find_key, lookup_base,
  cast_to, lookup, lookup_as, new_var, load_from_yaml, list_all_member, is_empty,
}
use ota_new.Config.Kept.{
  Reach, init, IsValid, get_elem?-lt, get_elem?-snoc, find_key-put_key, lower_name,
}
use ota_new.Config.Typed.{Reads, Tells, Reach-Keeps}
use ota_new.Config.Paths.{told, assigned, readings-told, reads_all-assigned}
use ota_new.Config.Loaded.{listed, reads_all, load_all-reads}
use ota_new.Config.Made.{
  Reach-IsValid, lookup-new, after, load-other, made, after-IsValid, leads, new-name, again,
}

module _ {K V : Type 0} (casts : Casts K V) where
  -- Where what is read as a value of a type has the type: a variable that `Lookup` gives as one of a type,
  -- in any run, is there with that type in whatever the run comes to, and holds a value of the type.
  pub lookup_as-typed :
      Reads casts
      → Tells casts
      → (k : K) (name : Text) (h : ℕ) {c d : Config K V} → Reach casts (init casts) c
      → lookup_as casts k name c ≡ some h
      → Reach casts c d
      → (x : ConfigVar K V) × (get_elem? d.vars h ≡ some x)
        × (x.kind ≡ k)
        × (casts.kind_of x.value ≡ k)
  unfolding lookup_as cast_to
  lookup_as-typed reads tells k name h {c} {d} r e q =
      elim (Option-cases (lookup_base casts name c)) [
        | inl unknown ↦ absurd (ground (arith, unknown, e))
        | inr (g, at_g) ↦ elim (Option-cases (get_elem? c.vars g)) [
          | inl out ↦ absurd (ground (arith, out, at_g, e))
          | inr (x, there) ↦ elim (Bool-cases (casts.same_kind x.kind k)) [
            | inr other ↦ absurd (ground (arith, other, there, at_g, e))
            | inl same ↦
                let gh : g ≡ h = ground (arith, same, there, at_g, e) in
                let (y, now, kind_y, name_y) =
                  (Reach-Keeps casts reads q).1 h x (ap (get_elem? c.vars) (sym gh) ∙ there) in
                let kind : y.kind ≡ k = kind_y ∙ tells x.kind k same in
                (
                  y,
                  now,
                  kind,
                  ((Reach-Keeps casts reads q).0 (Reach-IsValid casts reads r)).typed h y now
                      ∙ kind,
                )
          ]
        ]
      ]

  -- A variable whose name has a character that `ListAllMember` refuses, such as the 9 that `Lookup` takes,
  -- keeps its default value whatever document is loaded.
  pub load_from_yaml-refuses :
      Reads casts
      → (name : Text) (v : V) (h : ℕ) (root : Node) {c : Config K V} → Reach casts (init casts) c
      → (lookup casts name v c).1 ≡ found h
      → every is_key_char name ≡ false
      → get_elem? (load_from_yaml casts root (lookup casts name v c).0).vars h
        ≡ some (new_var casts name v)
  load_from_yaml-refuses reads name v h root {c} r e bad =
      load-other casts (after casts name v c) h root (λ key good entry.
        let named : map to_lower name ≡ key =
          sym (new-name casts name v)
          ∙ leads casts h key (after-IsValid casts reads name v r) (made casts name v c h e).0
              entry in
        let same : name ≡ key = sym (lower_name name (lookup-new casts name v c h e).2) ∙ named in
        cc (ap (every is_key_char) same, good, bad))
      ∙ (made casts name v c h e).0

  -- Once `Lookup` is called again with a name and a value of the same type, the variable that the first call
  -- gave is not the one that the second gives, and keeps its default value whatever document is loaded.
  pub lookup-orphans :
      Reads casts
      → (name : Text) (v w : V) (h : ℕ) (root : Node) {c : Config K V} → Reach casts (init casts) c
      → (lookup casts name v c).1 ≡ found h
      → casts.same_kind (casts.kind_of v) (casts.kind_of w) ≡ true
      → (g : ℕ) × ((lookup casts name w (lookup casts name v c).0).1 ≡ found g)
        × (h ≢ g)
        × (get_elem?
              (load_from_yaml casts root (lookup casts name w (lookup casts name v c).0).0).vars
              h
            ≡ some (new_var casts name v))
  lookup-orphans reads name v w h root {c} r e same =
      let d : Config K V = after casts name v c in
      let valid : IsValid casts d = after-IsValid casts reads name v r in
      let (there, entry) = made casts name v c h e in
      let second : (lookup casts name w d).1 ≡ found (length d.vars) =
        again casts name v w d h there entry same (lookup-new casts name v c h e).2 in
      let (state, at_g, good) = lookup-new casts name w d (length d.vars) second in
      let ne : h ≢ length d.vars = λ p. omega (arith, get_elem?-lt d.vars h there) in
      (
        length d.vars,
        second,
        ne,
        load-other casts (after casts name w d) h root (λ key key_name found_h.
              elim (find_key-put_key name key (length d.vars) d.datas) [
                | inl (put, p) ↦ ne (
                    some-injective _ _
                      (sym found_h ∙ ap (λ (s : Config K V). find_key key s.datas) state ∙ put))
                | inr (kept, other) ↦ other (
                    sym (
                      sym (lower_name name good)
                      ∙ sym (new-name casts name v)
                      ∙ leads casts h key valid there (
                          sym kept
                          ∙ sym (ap (λ (s : Config K V). find_key key s.datas) state)
                          ∙ found_h)))
              ])
            ∙ ap (λ (s : Config K V). get_elem? s.vars h) state
            ∙ get_elem?-snoc d.vars (new_var casts name w) h there,
      )

  -- Loading a document gives the variable of a name the texts of the nodes whose keys, with dots between them,
  -- make that name, one after another as they stand in the document, and nothing else: each that its
  -- type takes as a new value becomes the value, and every listener is called with the old one and the
  -- new one. A name with a character that `ListAllMember` refuses is given nothing.
  pub load_from_yaml-reads :
      Reads casts
      → (name : Text) (h : ℕ) (root : Node) {c : Config K V} {x : ConfigVar K V}
      → Reach casts (init casts) c
      → is_empty name ≡ false
      → lookup_base casts name c ≡ some h
      → get_elem? c.vars h ≡ some x
      → get_elem? (load_from_yaml casts root c).vars h
        ≡ some (assigned casts (told casts name root) x)
  unfolding load_from_yaml lookup_base
  load_from_yaml-reads reads name h root {c} {x} r full entry there =
      load_all-reads casts name h (list_all_member [] root) c full
        (λ k e.
          sym (leads casts h k (Reach-IsValid casts reads r) there e)
          ∙ leads casts h name (Reach-IsValid casts reads r) there entry)
        entry (listed [] root) there
      ∙ ap (λ l. some (reads_all casts l x)) (readings-told casts name root)
      ∙ ap some (reads_all-assigned casts (told casts name root) x)
