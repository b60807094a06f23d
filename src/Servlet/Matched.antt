-- ===== src/Servlet/Matched.antt =====
-- Which servlet is found, and what the registrations before did.
use ota_new.Common.{
  ◌≡◌, ◌≢◌, refl, sym, ap, ◌∙◌, List, [], ◌∷◌, ◌++◌, Option, none, some, Bool, true, false,
  if◌then◌else◌, Text, str_eq, str_eq_refl, str_eq→≡, All, arith, Bool-cases, inl, inr,
  Option-cases, subst, append-nil, append_assoc,
}
use ota_new.Servlet.{Dispatch, assign, look_up, add_servlet, first_glob, get_matched_servlet}

str_eq-swap : (a b : Text) → str_eq a b ≡ false → str_eq b a ≡ false
str_eq-swap a b h = elim (Bool-cases (str_eq b a)) [
  | inl e ↦ absurd (true_not (sym (str_eq_refl a) ∙ ap (str_eq a) (sym (str_eq→≡ b a e)) ∙ h))
  | inr e ↦ e
]
  where
    true_not : true ≢ false
    true_not e = absurd (ground (arith, e))

module _ {S : Type 0} where
  pub look_up-assign :
      (u uri : Text) (x : Option S) (m : List (Text × Option S))
      → look_up u (assign uri x m) ≡ (if str_eq uri u then some x else look_up u m)
  unfolding look_up assign
  look_up-assign u uri x [] = refl
  look_up-assign u uri x ((v, y) ∷ m) = elim (Bool-cases (str_eq v uri)) [
    | inl same ↦
        subst
          (λ (t : Text).
            look_up u (assign t x ((v, y) ∷ m))
            ≡ (if str_eq t u then some x else look_up u ((v, y) ∷ m)))
          (str_eq→≡ v uri same) (rw (str_eq_refl v) (replaced (str_eq v u)))
    | inr differ ↦
        rw (differ, look_up-assign u uri x m) (passed (str_eq v u) (str_eq uri u) (apart differ))
  ]
    where
      replaced :
          (b : Bool)
          → (if b then some x else look_up u m)
            ≡ (if b then some x else (if b then some y else look_up u m))
      replaced true = refl
      replaced false = refl

      apart : str_eq v uri ≡ false → str_eq v u ≡ true → str_eq uri u ≡ false
      apart h e = str_eq-swap u uri (subst (λ (t : Text). str_eq t uri ≡ false) (str_eq→≡ v u e) h)

      passed :
          (a b : Bool)
          → (a ≡ true → b ≡ false)
          → (if a then some y else (if b then some x else look_up u m))
            ≡ (if b then some x else (if a then some y else look_up u m))
      passed true b h = rw (h refl) refl
      passed false b h = refl

  -- The pattern of a pair does not match, and the name is not there.
  abbrev pub Misses : (Text → Text → Bool) → Text → Text × Option S → Type 0
  Misses fnmatch uri p = fnmatch p.0 uri ≡ false

  -- What `getMatchedServlet` finds: the servlet of the name; else that of the first pattern which matches; else
  -- the default.
  pub data Finds (fnmatch : Text → Text → Bool) (uri : Text) (d : Dispatch S)
      : Option S → Type 0 where
    by_name : (x : Option S) → look_up uri d.datas ≡ some x → Finds fnmatch uri d x
    by_glob :
        (before : List (Text × Option S)) (pattern : Text) (x : Option S)
        (after : List (Text × Option S))
        → look_up uri d.datas ≡ none
        → d.globs ≡ before ++ ((pattern, x) ∷ after)
        → All (Misses fnmatch uri) before
        → fnmatch pattern uri ≡ true
        → Finds fnmatch uri d x
    by_default :
        look_up uri d.datas ≡ none
        → All (Misses fnmatch uri) d.globs
        → Finds fnmatch uri d d.default

  module _ (fnmatch : Text → Text → Bool) (uri : Text) (d : Dispatch S)
      (unnamed : look_up uri d.datas ≡ none) where
    globs-Finds :
        (passed rest : List (Text × Option S))
        → d.globs ≡ passed ++ rest
        → All (Misses fnmatch uri) passed
        → Finds fnmatch uri d (first_glob fnmatch uri rest d.default)
    unfolding first_glob
    globs-Finds passed [] e h =
        by_default unnamed (subst (All (Misses fnmatch uri)) (sym (e ∙ append-nil passed)) h)
    globs-Finds passed ((pattern, x) ∷ rest) e h = elim (Bool-cases (fnmatch pattern uri)) [
      | inl hit ↦ rw (hit, first_glob) (by_glob passed pattern x rest unnamed e h hit)
      | inr miss ↦
          rw (miss, first_glob)
            (globs-Finds (passed ++ ((pattern, x) ∷ [])) rest
              (e ∙ sym (append_assoc passed ((pattern, x) ∷ []) rest)) (All-append passed h miss))
    ]
      where
        All-append :
            (xs : List (Text × Option S))
            → All (Misses fnmatch uri) xs
            → fnmatch pattern uri ≡ false
            → All (Misses fnmatch uri) (xs ++ ((pattern, x) ∷ []))
        All-append [] h m = (m, tt)
        All-append (y ∷ ys) (h, hs) m = (h, All-append ys hs m)

  -- `getMatchedServlet` finds the servlet of exactly that name; only without one that of the first pattern, in
  -- the order in which they were added, which matches; and only without both the default.
  pub get_matched_servlet-Finds :
      (fnmatch : Text → Text → Bool) (uri : Text) (d : Dispatch S)
      → Finds fnmatch uri d (get_matched_servlet fnmatch uri d)
  unfolding get_matched_servlet
  get_matched_servlet-Finds fnmatch uri d = elim (Option-cases (look_up uri d.datas)) [
    | inl gone ↦ rw (gone, get_matched_servlet) (globs-Finds fnmatch uri d gone [] d.globs refl tt)
    | inr (x, here) ↦ rw (here, get_matched_servlet) (by_name x here)
  ]

  -- After `addServlet` the name has its servlet, and every other path the one it had.
  pub get_matched_servlet-add :
      (fnmatch : Text → Text → Bool) (u uri : Text) (x : Option S) (d : Dispatch S)
      → get_matched_servlet fnmatch u (add_servlet uri x d)
        ≡ (if str_eq uri u then x else get_matched_servlet fnmatch u d)
  unfolding get_matched_servlet add_servlet
  get_matched_servlet-add fnmatch u uri x d = elim (Bool-cases (str_eq uri u)) [
    | inl e ↦ rw (look_up-assign u uri x d.datas, e, get_matched_servlet) refl
    | inr e ↦ rw (look_up-assign u uri x d.datas, e, get_matched_servlet) refl
  ]
