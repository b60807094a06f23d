-- ===== src/Config/Paths.antt =====
-- The nodes of a document with the keys that lead to them, and the names that these make.
use ota_new.Common.{
  ℕ, none, some, map, Option-cases, ◌≡◌, refl, sym, ap, ◌∙◌, inl, inr, List, [], ◌∷◌, ◌++◌, true,
  false, ◌&&◌, Text, codes, Bool-cases, arith, str_eq, str_eq→≡, if◌then◌else◌, All,
}
use ota_new.Config.{
  ConfigVar, from_string, set_value, Casts, Node, Members, scalar, sequence, mapping, end, member,
  is_key_char, every, list_all_member, list_members, join_key, is_empty, text_of,
}
use ota_new.Config.Loaded.{KeyName, listed, readings, reads_all}

-- One key in front of the keys of each node.
abbrev pub under : Text → List (List Text × Node) → List (List Text × Node)
under key [] = []
under key ((keys, node) ∷ es) = (key ∷ keys, node) ∷ under key es

-- Every node of a document, in its order, with the keys from the root.
unfoldable mutual
  pub paths : Node → List (List Text × Node)
  paths Node.null = ([], Node.null) ∷ []
  paths (scalar s) = ([], scalar s) ∷ []
  paths (sequence xs) = ([], sequence xs) ∷ []
  paths (mapping ms) = ([], mapping ms) ∷ member_paths ms

  pub member_paths : Members → List (List Text × Node)
  member_paths end = []
  member_paths (member key node ms) = under key (paths node) ++ member_paths ms

-- The keys behind a name, with dots between them.
unfoldable pub dotted : Text → List Text → Text
dotted start [] = start
dotted start (key ∷ keys) =
    dotted (if is_empty start then key else start ++ (codes "." ++ key)) keys

every-append : (xs ys : Text) → every is_key_char xs ≡ false → every is_key_char (xs ++ ys) ≡ false
every-append [] ys h = absurd (ground (arith, h))
every-append (x ∷ xs) ys h = elim (Bool-cases (is_key_char x)) [
  | inl good ↦ rw good (every-append xs ys (sym (ap (λ b. b && every is_key_char xs) good) ∙ h))
  | inr bad ↦ rw bad refl
]

-- A name with a character that is refused has it in all names below it.
dotted-refused :
    (start : Text) (keys : List Text)
    → every is_key_char start ≡ false
    → every is_key_char (dotted start keys) ≡ false
unfolding dotted
dotted-refused start [] h = h
dotted-refused [] (key ∷ keys) h = absurd (ground (arith, h))
dotted-refused (c ∷ cs) (key ∷ keys) h =
    dotted-refused ((c ∷ cs) ++ (codes "." ++ key)) keys
      (every-append (c ∷ cs) (codes "." ++ key) h)

module _ {K V : Type 0} (casts : Casts K V) where
  -- The text of a node: what a scalar says, or the node as it is printed.
  abbrev pub text : Node → Text
  text (scalar t) = t
  text Node.null = casts.print Node.null
  text (sequence xs) = casts.print (sequence xs)
  text (mapping ms) = casts.print (mapping ms)

  -- The texts of the nodes whose keys make the name.
  abbrev pub texts_at : Text → Text → List (List Text × Node) → List Text
  texts_at start name [] = []
  texts_at start name ((keys, node) ∷ es) =
      if str_eq (dotted start keys) name
      then text node ∷ texts_at start name es
      else texts_at start name es

  -- What a document tells of a name: nothing, if the name has a character that is refused.
  abbrev pub told : Text → Node → List Text
  told name root = if every is_key_char name then texts_at [] name (paths root) else []

  texts_at-append :
      (start name : Text) (xs ys : List (List Text × Node))
      → texts_at start name (xs ++ ys) ≡ texts_at start name xs ++ texts_at start name ys
  texts_at-append start name [] ys = refl
  texts_at-append start name ((keys, node) ∷ xs) ys =
      elim (Bool-cases (str_eq (dotted start keys) name)) [
        | inl hit ↦ rw hit (ap (◌∷◌ (text node)) (texts_at-append start name xs ys))
        | inr miss ↦ rw miss (texts_at-append start name xs ys)
      ]

  readings-append :
      (name : Text) (xs ys : List (Text × Node))
      → readings casts name (xs ++ ys) ≡ readings casts name xs ++ readings casts name ys
  readings-append name [] ys = refl
  readings-append name ((key, node) ∷ xs) ys = elim (Bool-cases (str_eq key name)) [
    | inl hit ↦ rw hit (ap (◌∷◌ (text_of casts node)) (readings-append name xs ys))
    | inr miss ↦ rw miss (readings-append name xs ys)
  ]

  texts_at-under :
      (start name key : Text) (es : List (List Text × Node))
      → texts_at start name (under key es) ≡ texts_at (join_key start key) name es
  unfolding dotted join_key
  texts_at-under start name key [] = refl
  texts_at-under start name key ((keys, node) ∷ es) =
      elim (Bool-cases (str_eq (dotted (join_key start key) keys) name)) [
        | inl hit ↦ rw hit (ap (◌∷◌ (text node)) (texts_at-under start name key es))
        | inr miss ↦ rw miss (texts_at-under start name key es)
      ]

  texts_at-refused :
      (start name : Text) (es : List (List Text × Node))
      → every is_key_char start ≡ false
      → every is_key_char name ≡ true
      → texts_at start name es ≡ []
  texts_at-refused start name [] bad good = refl
  texts_at-refused start name ((keys, node) ∷ es) bad good =
      elim (Bool-cases (str_eq (dotted start keys) name)) [
        | inl hit ↦ absurd (
            ground (
              arith,
              ap (every is_key_char) (str_eq→≡ (dotted start keys) name hit),
              dotted-refused start keys bad,
              good,
            ))
        | inr miss ↦ rw miss (texts_at-refused start name es bad good)
      ]

  -- What `ListAllMember` lists of a name is what stands at its keys.
  leaf :
      (start name : Text) (node : Node)
      → text_of casts node ≡ text node
      → readings casts name ((start, node) ∷ []) ≡ texts_at start name (([], node) ∷ [])
  unfolding dotted
  leaf start name node same = ap (λ (t : Text). if str_eq start name then t ∷ [] else []) same

  mutual
    unfolding list_all_member paths dotted

    listed-told :
        (start name : Text) (node : Node)
        → every is_key_char name ≡ true
        → readings casts name (list_all_member start node) ≡ texts_at start name (paths node)
    listed-told start name Node.null good = elim (Bool-cases (every is_key_char start)) [
      | inl fine ↦ rw fine (leaf start name Node.null refl)
      | inr bad ↦ rw bad (sym (texts_at-refused start name (paths Node.null) bad good))
    ]
    listed-told start name (scalar s) good = elim (Bool-cases (every is_key_char start)) [
      | inl fine ↦ rw fine (leaf start name (scalar s) refl)
      | inr bad ↦ rw bad (sym (texts_at-refused start name (paths (scalar s)) bad good))
    ]
    listed-told start name (sequence xs) good = elim (Bool-cases (every is_key_char start)) [
      | inl fine ↦ rw fine (leaf start name (sequence xs) refl)
      | inr bad ↦ rw bad (sym (texts_at-refused start name (paths (sequence xs)) bad good))
    ]
    listed-told start name (mapping ms) good = elim (Bool-cases (every is_key_char start)) [
      | inl fine ↦ rw fine (
          readings-append name ((start, mapping ms) ∷ []) (list_members start ms)
          ∙ ap (λ (l : List Text). readings casts name ((start, mapping ms) ∷ []) ++ l)
              (members-told start name ms good)
          ∙ sym (texts_at-append start name (([], mapping ms) ∷ []) (member_paths ms)))
      | inr bad ↦ rw bad (sym (texts_at-refused start name (paths (mapping ms)) bad good))
    ]

    members-told :
        (start name : Text) (ms : Members)
        → every is_key_char name ≡ true
        → readings casts name (list_members start ms) ≡ texts_at start name (member_paths ms)
    members-told start name end good = refl
    members-told start name (member key node ms) good =
        readings-append name (list_all_member (join_key start key) node) (list_members start ms)
        ∙ ap (λ (l : List Text). l ++ readings casts name (list_members start ms))
            (listed-told (join_key start key) name node good
              ∙ sym (texts_at-under start name key (paths node)))
        ∙ ap (λ (l : List Text). texts_at start name (under key (paths node)) ++ l)
            (members-told start name ms good)
        ∙ sym (texts_at-append start name (under key (paths node)) (member_paths ms))

  refused-readings :
      (name : Text) (es : List (Text × Node))
      → All (KeyName Node) es
      → every is_key_char name ≡ false
      → readings casts name es ≡ []
  refused-readings name [] h bad = refl
  refused-readings name ((key, node) ∷ es) (h, hs) bad = elim (Bool-cases (str_eq key name)) [
    | inl hit ↦ absurd (ground (arith, ap (every is_key_char) (str_eq→≡ key name hit), h, bad))
    | inr miss ↦ rw miss (refused-readings name es hs bad)
  ]

  pub readings-told :
      (name : Text) (root : Node) → readings casts name (list_all_member [] root) ≡ told name root
  readings-told name root = elim (Bool-cases (every is_key_char name)) [
    | inl good ↦ rw good (listed-told [] name root good)
    | inr bad ↦ rw bad (refused-readings name (list_all_member [] root) (listed [] root) bad)
  ]

  -- A variable that is given a text: if its type takes it as another value than the one it has, that becomes the
  -- value, and every listener is called with the old one and the new one.
  abbrev pub assigned_one : Text → ConfigVar K V → ConfigVar K V
  assigned_one t x = elim (casts.cast x.kind t) [
    | none ↦ x
    | some w ↦
        if casts.same w x.value
        then x
        else record x { value = w; calls = x.calls ++ map (λ (k : ℕ). (k, x.value, w)) x.listeners }
  ]

  abbrev pub assigned : List Text → ConfigVar K V → ConfigVar K V
  assigned [] x = x
  assigned (t ∷ ts) x = assigned ts (assigned_one t x)

  from_string-assigned :
      (t : Text) (x : ConfigVar K V) → (from_string casts t x).0 ≡ assigned_one t x
  unfolding from_string set_value
  from_string-assigned t x = elim (Option-cases (casts.cast x.kind t)) [
    | inl refused ↦ rw (refused, from_string, assigned_one) refl
    | inr (w, taken) ↦ rw (taken, from_string, assigned_one) refl
  ]

  pub reads_all-assigned :
      (ts : List Text) (x : ConfigVar K V) → reads_all casts ts x ≡ assigned ts x
  reads_all-assigned [] x = refl
  reads_all-assigned (t ∷ ts) x =
      ap (reads_all casts ts) (from_string-assigned t x) ∙ reads_all-assigned ts (assigned_one t x)
