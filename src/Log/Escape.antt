-- ===== src/Log/Escape.antt =====
-- Every pattern is read to its end; and `%%`, which should stand for a `%`, is an error.
use ota_new.Common.{
  ℕ, zero, suc, ◌+◌, ◌≤◌, ◌<◌, ◌≡◌, refl, ap, ◌∙◌, List, [], ◌∷◌, ◌++◌, Option, some, Bool, true,
  false, ◌||◌, not, ◌==◌, Bool-cases, inl, inr, ◌⊎◌, length, length-append, Text, codes, Without,
  arith, subst,
}
use ota_new.Log.{
  Piece, literal, directive, is_alpha, Scan, scanned, unclosed, scan_format, scan_name, flush,
  begins_percent, Pieces, before, read_pieces, items_of, LogFormatter, init,
}
use ota_new.Log.Pattern.{Stops, read-text}

-- What is left behind a directive is no longer than what was there.
abbrev Fits : ℕ → Scan → Type 0
Fits n (scanned name format rest) = length rest ≤ n
Fits n unclosed = Unit {0}

Fits-suc : (n : ℕ) (s : Scan) → Fits n s → Fits (suc n) s
Fits-suc n (scanned name format rest) h = omega arith
Fits-suc n unclosed h = tt

scan_format-Fits : (name format p : Text) → Fits (length p) (scan_format name format p)
unfolding scan_format
scan_format-Fits name format [] = tt
scan_format-Fits name format (c ∷ cs) = elim (Bool-cases (c == b'}')) [
  | inl close ↦ rw close (omega arith)
  | inr other ↦ elim (Bool-cases (is_alpha c || c == b'{')) [
    | inl on ↦
        rw (other, on)
          (Fits-suc (length cs) (scan_format name (format ++ (c ∷ [])) cs)
            (scan_format-Fits name (format ++ (c ∷ [])) cs))
    | inr bad ↦ rw (other, bad) tt
  ]
]

scan_name-Fits : (name p : Text) → Fits (length p) (scan_name name p)
unfolding scan_name
scan_name-Fits name [] = omega arith
scan_name-Fits name (c ∷ cs) = elim (Bool-cases (c == b'{')) [
  | inl brace ↦
      rw brace (Fits-suc (length cs) (scan_format name [] cs) (scan_format-Fits name [] cs))
  | inr other ↦ elim (Bool-cases (is_alpha c || c == b'}')) [
    | inl on ↦
        rw (other, on)
          (Fits-suc (length cs) (scan_name (name ++ (c ∷ [])) cs)
            (scan_name-Fits (name ++ (c ∷ [])) cs))
    | inr stop ↦ rw (other, stop) (omega arith)
  ]
]

abbrev Total : Option Pieces → Type 0
Total o = (r : Pieces) × (o ≡ some r)

before-Total : (ps : List Piece) (e : Bool) {o : Option Pieces} → Total o → Total (before ps e o)
before-Total ps e ((qs, f), p) = ((ps ++ qs, e || f), ap (before ps e) p)

Scan-cases :
    (s : Scan)
    → ((name : Text) × (format : Text) × (rest : Text) × (s ≡ scanned name format rest))
      ⊎ (s ≡ unclosed)
Scan-cases (scanned name format rest) = inl (name, format, rest, refl)
Scan-cases unclosed = inr refl

-- Fuel above the length of the pattern is enough.
read_pieces-Total : (f : ℕ) (p nstr : Text) → length p < f → Total (read_pieces f p nstr)
unfolding read_pieces
read_pieces-Total zero p nstr h = absurd (omega arith)
read_pieces-Total (suc f) [] nstr h = ((flush nstr, false), refl)
read_pieces-Total (suc f) (c ∷ cs) nstr h =
    elim (Bool-cases (not (c == b'%') || begins_percent cs)) [
      | inl plain ↦
          rw (plain, read_pieces) (read_pieces-Total f cs (nstr ++ (c ∷ [])) (omega arith))
      | inr behind ↦ elim (Scan-cases (scan_name [] cs)) [
        | inl (name, format, rest, e) ↦
            let fits : length rest ≤ length cs =
              subst (Fits (length cs)) e (scan_name-Fits [] cs) in
            rw (behind, e, read_pieces)
              (before-Total (flush nstr ++ (directive name format ∷ [])) false
                (read_pieces-Total f rest [] (omega (arith, fits))))
        | inr e ↦
            rw (behind, e, read_pieces)
              (before-Total (literal (codes "<<pattrn_error>>") ∷ []) true
                (read_pieces-Total f cs nstr (omega arith)))
      ]
    ]

scan_name-Stops : (rest : Text) → Stops rest → scan_name [] rest ≡ scanned [] [] rest
unfolding scan_name
scan_name-Stops [] s = refl
scan_name-Stops (c ∷ cs) s = ground arith

items-unknown :
    (nstr : Text) (qs : List Piece)
    → (items_of ((flush nstr ++ (directive [] [] ∷ [])) ++ qs)).1 ≡ true
unfolding items_of
items-unknown [] qs = refl
items-unknown (c ∷ cs) qs = refl

or-true : (e b : Bool) → b ≡ true → e || b ≡ true
or-true true b h = refl
or-true false b h = h

-- A pattern whose first `%` is doubled, with no letter, brace or third `%` behind it, is read as one with an
-- error: the second `%` begins a directive without a name.
pub init-escape :
    (pre rest : Text)
    → Without b'%' pre
    → Stops rest
    → begins_percent rest ≡ false
    → (r : LogFormatter) × (init (pre ++ (b'%' ∷ (b'%' ∷ rest))) ≡ some r) × (r.has_error ≡ true)
unfolding init read_pieces
init-escape pre rest w s one =
    let ((qs, e), read) = read_pieces-Total (suc (length rest)) rest [] (omega arith) in
    let nstr : Text = pre ++ (b'%' ∷ []) in
    let ps : List Piece = (flush nstr ++ (directive [] [] ∷ [])) ++ qs in
    let whole : read_pieces (length (pre ++ (b'%' ∷ (b'%' ∷ rest))) + 1)
          (pre ++ (b'%' ∷ (b'%' ∷ rest))) []
        ≡ some (ps, e) =
      ap (λ (k : ℕ). read_pieces k (pre ++ (b'%' ∷ (b'%' ∷ rest))) [])
        (omega (arith, length-append pre (b'%' ∷ (b'%' ∷ rest))))
      ∙ read-text pre (b'%' ∷ (b'%' ∷ rest)) [] (suc (suc (suc (length rest)))) w
      ∙ doubled pre rest (suc (length rest)) s one
      ∙ ap (before (flush nstr ++ (directive [] [] ∷ [])) false) read in
    (
      record { items = (items_of ps).0; has_error = e || (items_of ps).1 },
      rw (whole, init) refl,
      or-true e (items_of ps).1 (items-unknown nstr qs),
    )
  where
    doubled :
        (nstr rest : Text) (f : ℕ)
        → Stops rest
        → begins_percent rest ≡ false
        → read_pieces (suc (suc f)) (b'%' ∷ (b'%' ∷ rest)) nstr
          ≡ before
              (flush (nstr ++ (b'%' ∷ [])) ++ (directive [] [] ∷ []))
              false
              (read_pieces f rest [])
    doubled nstr rest f s one = rw (one, scan_name-Stops rest s) refl
