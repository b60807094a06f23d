-- ===== src/Http/Printed.antt =====
-- What a reader of HTTP finds in a printed message: the lines up to an empty one, and the body.
use ota_new.Common.{
  ℕ, ◌/◌, ◌≡◌, ◌≢◌, refl, sym, ap, ◌∙◌, inl, inr, List, [], ◌∷◌, ◌++◌, append_assoc, Option, none,
  some, Bool, true, false, ◌&&◌, ◌==◌, if◌then◌else◌, Text, codes, decimal, decimal-Without,
  Without, Bool-cases, length, arith, not, bit_and,
}
use mathlib.Core.Option
use ota_new.Http.Statuses.{status_to_string, find_status, status_map}
use ota_new.Http.{MapType, crlf, print_body, keep_or_close, show_version, is_empty, same_case}

-- The text up to the first "\r\n", and what follows.
abbrev pub cut : Text → Option (Text × Text)
cut [] = none
cut (c ∷ []) = none
cut (c ∷ (d ∷ r)) =
    if (c == 13) && (d == 10)
    then some ([], r)
    else Option.map (λ (p : Text × Text). (c ∷ p.0, p.1)) (cut (d ∷ r))

-- A message is read line by line, and its body stands behind an empty line.
pub data Reads : Text → List Text → Text → Type 0 where
  blank : {t : Text} (r : Text) → cut t ≡ some ([], r) → Reads t [] r
  line :
      {t l r : Text} {ls : List Text} {body : Text}
      → cut t ≡ some (l, r)
      → l ≢ []
      → Reads r ls body
      → Reads t (l ∷ ls) body

-- No "\r\n" in a text, and none across its end.
abbrev pub Unbroken : Text → Type 0
Unbroken [] = Unit
Unbroken (c ∷ []) = c ≢ 13
Unbroken (c ∷ (d ∷ r)) = (c ≡ 13 → d ≢ 10) × Unbroken (d ∷ r)

pub cut-Unbroken : (a r : Text) → Unbroken a → cut (a ++ (13 ∷ (10 ∷ r))) ≡ some (a, r)
cut-Unbroken [] r u = refl
cut-Unbroken (c ∷ []) r u = ground arith
cut-Unbroken (c ∷ (d ∷ a)) r (u, us) = ground (arith, cut-Unbroken (d ∷ a) r us)

pub Without-Unbroken : (a : Text) → Without 13 a → Unbroken a
Without-Unbroken [] w = tt
Without-Unbroken (c ∷ []) (ne, w) = ne
Without-Unbroken (c ∷ (d ∷ a)) (ne, w) = (λ e. absurd (ne e), Without-Unbroken (d ∷ a) w)

pub cut-line : (a r : Text) → Without 13 a → cut (a ++ (crlf ++ r)) ≡ some (a, r)
cut-line a r w = cut-Unbroken a r (Without-Unbroken a w)

pub Without-append : (a b : Text) → Without 13 a → Without 13 b → Without 13 (a ++ b)
Without-append [] b u v = v
Without-append (c ∷ a) b (ne, u) v = (ne, Without-append a b u v)

-- A check that runs.
unfoldable pub absent : Text → Bool
absent [] = true
absent (c ∷ cs) = not (c == 13) && absent cs

pub absent-Without : (t : Text) → absent t ≡ true → Without 13 t
unfolding absent
absent-Without [] h = tt
absent-Without (c ∷ cs) h = (ground arith, absent-Without cs (ground arith))

all_absent : List (ℕ × Text) → Bool
all_absent [] = true
all_absent ((n, t) ∷ ts) = absent t && all_absent ts

find_status-Without :
    (ts : List (ℕ × Text)) (s : ℕ) → all_absent ts ≡ true → Without 13 (find_status ts s)
unfolding find_status all_absent absent
find_status-Without [] s h = absent-Without (codes "<unknown>") refl
find_status-Without ((n, t) ∷ ts) s h = elim (Bool-cases (n == s)) [
  | inl hit ↦ rw hit (absent-Without t (ground arith))
  | inr miss ↦ rw miss (find_status-Without ts s (ground arith))
]

pub status-Without : (s : ℕ) → Without 13 (status_to_string s)
unfolding status_to_string all_absent absent
status-Without s = find_status-Without status_map s refl

pub number-Without : (n : ℕ) → Without 13 (decimal n)
number-Without n = decimal-Without 13 n (inr (omega arith))

pub version-Without : (v : ℕ) → Without 13 (show_version v)
version-Without v =
    Without-append (decimal (v / 16)) _ (number-Without (v / 16))
      ((λ e. omega (arith, e)), number-Without (bit_and v 0x0f))

pub append-ne_nil : (a : Text) (c : ℕ) (b : Text) → a ++ (c ∷ b) ≢ []
append-ne_nil [] c b e = cc
append-ne_nil (d ∷ a) c b e = cc

-- The headers without a line break.
abbrev pub IsPlain : Text × Text → Type 0
IsPlain (k, v) = Without 13 k × Without 10 k × Without 13 v

-- The lines that headers should make.
pub header_lines : MapType → List Text
header_lines [] = []
header_lines ((k, v) ∷ m) =
    if same_case k (codes "connection")
    then header_lines m
    else (k ++ (codes ":" ++ v)) ∷ header_lines m

pub length_lines : Text → Text → List Text
length_lines name body = if is_empty body then [] else (name ++ decimal (length body)) ∷ []

pub body-Reads :
    (name body : Text)
    → Without 13 name
    → name ≢ []
    → Reads (print_body name body) (length_lines name body) body
unfolding print_body length_lines
body-Reads name [] w ne = blank [] refl
body-Reads [] (c ∷ cs) w ne = absurd (ne refl)
body-Reads (d ∷ ds) (c ∷ cs) w ne =
    line
      (ap cut (sym (append_assoc (d ∷ ds) (decimal (length (c ∷ cs))) _))
        ∙ cut-line ((d ∷ ds) ++ decimal (length (c ∷ cs))) (crlf ++ (c ∷ cs))
            (Without-append (d ∷ ds) _ w (number-Without (length (c ∷ cs)))))
      (λ e. cc) (blank (c ∷ cs) refl)

pub keep_or_close-Without : (c : Bool) → Without 13 (keep_or_close c)
unfolding absent
keep_or_close-Without true = absent-Without (codes "close") refl
keep_or_close-Without false = absent-Without (codes "keep-alive") refl

pub prefixed : (t : Text) (rest : Text) → absent t ≡ true → Without 13 rest → Without 13 (t ++ rest)
prefixed t rest h w = Without-append t rest (absent-Without t h) w
