-- ===== src/Config/Loaded.antt =====
-- What loading a document does to a variable.
use ota_new.Common.{
  ℕ, ◌≡◌, ◌≢◌, refl, sym, ap, ◌∙◌, inl, inr, List, [], ◌∷◌, ◌++◌, some, true, false, Text, map,
  get_elem?, Bool-cases, Option-cases, arith, subst, str_eq, str_eq→≡, str_eq_refl,
  get_elem?-set_self, get_elem?-set_ne, if◌then◌else◌, All,
}
use ota_new.Config.{
  Casts, ConfigVar, Config, Node, Members, scalar, sequence, mapping, end, member, is_key_char,
  every, to_lower, find_key, lookup_base, from_string, at, load_one, load_all, list_all_member,
  list_members, join_key, is_empty, text_of,
}
use ota_new.Config.Kept.{get_elem?-lt}

abbrev pub KeyName : (N : Type 0) → Text × N → Type 0
KeyName N e = every is_key_char e.0 ≡ true

All-append {ℓ} :
    {A : Type ℓ} (P : A → Type 0) (xs ys : List A) → All P xs → All P ys → All P (xs ++ ys)
All-append P [] ys h k = k
All-append P (x ∷ xs) ys (h, hs) k = (h, All-append P xs ys hs k)

-- The names of the nodes that are listed have no other character than those that are asked for.
mutual
  unfolding list_all_member

  pub listed : (prefix : Text) (node : Node) → All (KeyName Node) (list_all_member prefix node)
  listed prefix Node.null = elim (Bool-cases (every is_key_char prefix)) [
    | inl good ↦ rw good (good, tt)
    | inr bad ↦ rw bad tt
  ]
  listed prefix (scalar s) = elim (Bool-cases (every is_key_char prefix)) [
    | inl good ↦ rw good (good, tt)
    | inr bad ↦ rw bad tt
  ]
  listed prefix (sequence xs) = elim (Bool-cases (every is_key_char prefix)) [
    | inl good ↦ rw good (good, tt)
    | inr bad ↦ rw bad tt
  ]
  listed prefix (mapping ms) = elim (Bool-cases (every is_key_char prefix)) [
    | inl good ↦ rw good (good, listed_members prefix ms)
    | inr bad ↦ rw bad tt
  ]

  listed_members : (prefix : Text) (ms : Members) → All (KeyName Node) (list_members prefix ms)
  listed_members prefix end = tt
  listed_members prefix (member key node ms) =
      All-append (KeyName Node) (list_all_member (join_key prefix key) node)
        (list_members prefix ms) (listed (join_key prefix key) node) (listed_members prefix ms)

pub lower_key : (name : Text) → every is_key_char name ≡ true → map to_lower name ≡ name
lower_key [] h = refl
lower_key (c ∷ cs) h = ground (arith, lower_key cs)

module _ {K V : Type 0} (casts : Casts K V) where
  -- The texts of the nodes of a name, in the order of the document.
  abbrev pub readings : Text → List (Text × Node) → List Text
  readings name [] = []
  readings name ((key, node) ∷ es) =
      if str_eq key name then text_of casts node ∷ readings name es else readings name es

  -- A variable that reads one text after another.
  abbrev pub reads_all : List Text → ConfigVar K V → ConfigVar K V
  reads_all [] x = x
  reads_all (s ∷ ss) x = reads_all ss (from_string casts s x).0

  at-other :
      (g h : ℕ) (f : ConfigVar K V → ConfigVar K V) (c : Config K V)
      → g ≢ h
      → get_elem? (at casts g f c).vars h ≡ get_elem? c.vars h
  unfolding at
  at-other g h f c ne = elim (Option-cases (get_elem? c.vars g)) [
    | inl out ↦ rw (out, at) refl
    | inr (x, e) ↦ rw (e, at) (get_elem?-set_ne c.vars (f x) ne)
  ]

  at_self :
      (h : ℕ) (f : ConfigVar K V → ConfigVar K V) (c : Config K V) {x : ConfigVar K V}
      → get_elem? c.vars h ≡ some x
      → get_elem? (at casts h f c).vars h ≡ some (f x)
  unfolding at
  at_self h f c e = rw (e, at) (get_elem?-set_self c.vars h (f _) (get_elem?-lt c.vars h e))

  at-datas :
      (h : ℕ) (f : ConfigVar K V → ConfigVar K V) (c : Config K V)
      → (at casts h f c).datas ≡ c.datas
  unfolding at
  at-datas h f c = elim (Option-cases (get_elem? c.vars h)) [
    | inl out ↦ rw (out, at) refl
    | inr (x, e) ↦ rw (e, at) refl
  ]

  load_one-datas : (e : Text × Node) (c : Config K V) → (load_one casts e c).datas ≡ c.datas
  unfolding load_one
  load_one-datas (key, node) c = elim (Bool-cases (is_empty key)) [
    | inl empty ↦ rw (empty, load_one) refl
    | inr named ↦ elim (Option-cases (lookup_base casts (map to_lower key) c)) [
      | inl unknown ↦ rw (named, unknown, load_one) refl
      | inr (h, e) ↦ rw (named, e, load_one) (at-datas h _ c)
    ]
  ]

  -- A node that leads to another variable, or to none.
  load_one-other :
      (h : ℕ) (key : Text) (node : Node) (c : Config K V)
      → find_key (map to_lower key) c.datas ≢ some h
      → get_elem? (load_one casts (key, node) c).vars h ≡ get_elem? c.vars h
  unfolding load_one lookup_base
  load_one-other h key node c ne = elim (Bool-cases (is_empty key)) [
    | inl empty ↦ rw (empty, load_one) refl
    | inr named ↦ elim (Option-cases (find_key (map to_lower key) c.datas)) [
      | inl unknown ↦ rw (named, unknown, load_one) refl
      | inr (g, e) ↦ rw (named, e, load_one) (at-other g h _ c (λ p. ne (e ∙ ap some p)))
    ]
  ]

  load_one_self :
      (h : ℕ) (key : Text) (node : Node) (c : Config K V) {x : ConfigVar K V}
      → is_empty key ≡ false
      → find_key (map to_lower key) c.datas ≡ some h
      → get_elem? c.vars h ≡ some x
      → get_elem? (load_one casts (key, node) c).vars h
        ≡ some (from_string casts (text_of casts node) x).0
  unfolding load_one lookup_base
  load_one_self h key node c named e there = rw (named, e, load_one) (at_self h _ c there)

  -- Nodes that do not lead to a variable leave it.
  pub load_all-other :
      (h : ℕ) (es : List (Text × Node)) (c : Config K V)
      → All (λ (e : Text × Node). find_key (map to_lower e.0) c.datas ≢ some h) es
      → get_elem? (load_all casts es c).vars h ≡ get_elem? c.vars h
  unfolding load_all
  load_all-other h [] c ne = refl
  load_all-other h ((key, node) ∷ es) c (ne, rest) =
      load_all-other h es (load_one casts (key, node) c) (
        subst
          (λ (ds : List (Text × ℕ)).
            All (λ (e : Text × Node). find_key (map to_lower e.0) ds ≢ some h) es)
          (sym (load_one-datas (key, node) c)) rest)
      ∙ load_one-other h key node c ne

  pub load_all-reads :
      (name : Text) (h : ℕ) (es : List (Text × Node)) (c : Config K V) {x : ConfigVar K V}
      → is_empty name ≡ false
      → ((k : Text) → find_key k c.datas ≡ some h → k ≡ name)
      → find_key name c.datas ≡ some h
      → All (KeyName Node) es
      → get_elem? c.vars h ≡ some x
      → get_elem? (load_all casts es c).vars h ≡ some (reads_all (readings name es) x)
  unfolding load_all
  load_all-reads name h [] c full only here ks there = there
  load_all-reads name h ((key, node) ∷ es) c full only here (k, ks) there =
      let datas : (load_one casts (key, node) c).datas ≡ c.datas = load_one-datas (key, node) c in
      let only' = λ (j : Text) (e : find_key j (load_one casts (key, node) c).datas ≡ some h).
        only j (ap (find_key j) (sym datas) ∙ e) in
      let here' : find_key name (load_one casts (key, node) c).datas ≡ some h =
        ap (find_key name) datas ∙ here in
      elim (Bool-cases (str_eq key name)) [
        | inl hit ↦
            let same : key ≡ name = str_eq→≡ key name hit in
            let lower : map to_lower key ≡ name = lower_key key k ∙ same in
            rw hit (
              load_all-reads name h es (load_one casts (key, node) c) full only' here' ks (
                load_one_self h key node c (ap is_empty same ∙ full)
                  (ap (λ (t : Text). find_key t c.datas) lower ∙ here) there))
        | inr miss ↦ rw miss (
            load_all-reads name h es (load_one casts (key, node) c) full only' here' ks (
              load_one-other h key node c (λ e. cc (
                ap (str_eq key) (sym (lower_key key k) ∙ only (map to_lower key) e),
                str_eq_refl key,
                miss,
              ))
              ∙ there))
      ]
