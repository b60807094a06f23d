-- ===== src/Log/Pattern.antt =====
-- Patterns that are written as the loop reads them.
use ota_new.Common.{
  ℕ, zero, suc, ◌+◌, ◌-◌, ◌<◌, ◌≡◌, refl, sym, ap, ◌∙◌, List, [], ◌∷◌, ◌++◌, append_assoc,
  append-nil, Option, none, some, true, false, ◌||◌, ◌==◌, inl, inr, ◌⊎◌, length, length-append,
  Text, Without, arith, subst,
}
use ota_new.Http.{is_empty}
use ota_new.Log.{
  Piece, literal, directive, is_alpha, scanned, scan_name, flush, Pieces, before, read_pieces, Item,
  word, item_of, items_of, init,
}

-- No letter or brace follows, which would go on with a directive.
abbrev pub Stops : Text → Type 0
Stops [] = Unit
Stops (c ∷ cs) = (is_alpha c || (c == b'{' || c == b'}')) ≡ false

-- Nothing, or a directive.
abbrev pub Divides : Text → Type 0
Divides [] = Unit
Divides (c ∷ cs) = c ≡ b'%'

-- A pattern for items: a directive is a letter that stands for one, and stops there; a text has no `%` and
-- ends at a directive.
pub data Spells : Text → List Item → Type 0 where
  nothing : Spells [] []
  item :
      {i : Item} {is : List Item} (c : ℕ) (rest : Text)
      → is_alpha c ≡ true
      → item_of (c ∷ []) [] ≡ some i
      → Stops rest
      → Spells rest is
      → Spells (b'%' ∷ (c ∷ rest)) (i ∷ is)
  text :
      {pattern : Text} {is : List Item} (t rest : Text)
      → pattern ≡ t ++ rest
      → is_empty t ≡ false
      → Without b'%' t
      → Divides rest
      → Spells rest is
      → Spells pattern (word t ∷ is)

scan-letter :
    (c : ℕ) (rest : Text)
    → is_alpha c ≡ true
    → Stops rest
    → scan_name [] (c ∷ rest) ≡ scanned (c ∷ []) [] rest
unfolding scan_name
scan-letter c [] a s = ground arith
scan-letter c (d ∷ rest) a s = ground arith

before-append :
    (ps qs : List Piece) (o : Option Pieces)
    → before (ps ++ qs) false o ≡ before ps false (before qs false o)
before-append ps qs none = refl
before-append ps qs (some (rs, e)) = ap (λ (x : List Piece). some (x, e)) (append_assoc ps qs rs)

-- The step over a directive.
pub read-item :
    (f c : ℕ) (rest nstr : Text)
    → is_alpha c ≡ true
    → Stops rest
    → read_pieces (suc f) (b'%' ∷ (c ∷ rest)) nstr
      ≡ before (flush nstr ++ (directive (c ∷ []) [] ∷ [])) false (read_pieces f rest [])
unfolding read_pieces
read-item f c rest nstr a s = rw (other, scan-letter c rest a s) refl
  where
    other : (c == b'%') ≡ false
    other = ground arith

-- Text is collected.
pub read-text :
    (t rest nstr : Text) (g : ℕ)
    → Without b'%' t
    → read_pieces (length t + g) (t ++ rest) nstr ≡ read_pieces g rest (nstr ++ t)
unfolding read_pieces
read-text [] rest nstr g w = rw (zero_add, append-nil nstr) refl
  where
    zero_add : 0 + g ≡ g
    zero_add = omega arith
read-text (c ∷ t) rest nstr g (ne, w) =
    rw (suc_add, other, read_pieces)
      (read-text t rest (nstr ++ (c ∷ [])) g w
        ∙ ap (read_pieces g rest) (append_assoc nstr (c ∷ []) t))
  where
    suc_add : suc (length t) + g ≡ suc (length t + g)
    suc_add = omega arith

    other : (c == b'%') ≡ false
    other = ground arith

-- What a pattern that spells items is read as.
abbrev Reads : ℕ → Text → Text → List Item → Type 0
Reads f pattern nstr is =
    (ps : List Piece) × (read_pieces f pattern nstr ≡ before (flush nstr) false (some (ps, false)))
    × (items_of ps ≡ (is, false))

items-directive :
    (c : ℕ) (ps : List Piece) {i : Item} {is : List Item}
    → items_of ps ≡ (is, false)
    → item_of (c ∷ []) [] ≡ some i
    → items_of (directive (c ∷ []) [] ∷ ps) ≡ (i ∷ is, false)
unfolding items_of
items-directive c ps made known = ground (arith, made, known)

items-literal :
    (t : Text) (ps : List Piece) {is : List Item}
    → items_of ps ≡ (is, false)
    → items_of (literal t ∷ ps) ≡ (word t ∷ is, false)
unfolding items_of
items-literal t ps made = ground (arith, made)

spells-Reads :
    (f : ℕ) (pattern nstr : Text) (is : List Item)
    → Spells pattern is
    → length pattern < f
    → (nstr ≡ []) ⊎ Divides pattern
    → Reads f pattern nstr is
unfolding items_of
spells-Reads zero pattern nstr is s h d = absurd (omega arith)
spells-Reads (suc f) _ nstr _ nothing h d = (
  [],
  unfold read_pieces in ap (λ (x : List Piece). some (x, false)) (sym (append-nil (flush nstr))),
  refl,
)
spells-Reads (suc f) _ nstr _ (item {i} {is} c rest a known stops s) h d =
    let (ps, read, made) = spells-Reads f rest [] is s (omega arith) (inl refl) in
    (
      directive (c ∷ []) [] ∷ ps,
      read-item f c rest nstr a stops
          ∙ ap (before (flush nstr ++ (directive (c ∷ []) [] ∷ [])) false) read
          ∙ before-append (flush nstr) (directive (c ∷ []) [] ∷ []) (some (ps, false)),
      items-directive c ps made known,
    )
spells-Reads (suc f) pattern nstr _ (text {is = is} t rest e full w div s) h d =
    let sizes : length pattern ≡ length t + length rest = ap length e ∙ length-append t rest in
    let (ps, read, made) = spells-Reads (suc f - length t) rest t is s (omega arith) (inr div) in
    (
      literal t ∷ ps,
      ap (λ (x : Text). read_pieces (suc f) x nstr) e
          ∙ ap (λ (x : Text). read_pieces (suc f) (t ++ rest) x)
              (fresh nstr t rest full w (ends d e))
          ∙ ap (λ (k : ℕ). read_pieces k (t ++ rest) []) (omega (arith, sizes))
          ∙ read-text t rest [] (suc f - length t) w
          ∙ read
          ∙ rw (full, fresh nstr t rest full w (ends d e)) refl,
      items-literal t ps made,
    )
  where
    ends : (nstr ≡ []) ⊎ Divides pattern → pattern ≡ t ++ rest → (nstr ≡ []) ⊎ Divides (t ++ rest)
    ends (inl n) e = inl n
    ends (inr v) e = inr (subst Divides e v)

    fresh :
        (nstr t rest : Text)
        → is_empty t ≡ false
        → Without b'%' t
        → (nstr ≡ []) ⊎ Divides (t ++ rest)
        → nstr ≡ []
    fresh nstr t rest full w (inl n) = n
    fresh nstr [] rest full w (inr v) = cc
    fresh nstr (c ∷ t) rest full w (inr v) = absurd (w.0 v)

-- A pattern that spells items, directives and texts between them, is read without an error as these items, in
-- their order.
pub init-Spells :
    (pattern : Text) (is : List Item)
    → Spells pattern is
    → init pattern ≡ some (record { items = is; has_error = false })
unfolding init
init-Spells pattern is s =
    let (ps, read, made) =
      spells-Reads (length pattern + 1) pattern [] is s (omega arith) (inl refl) in
    rw (read, init, made) refl
