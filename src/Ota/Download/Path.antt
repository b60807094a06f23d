-- ===== src/Ota/Download/Path.antt =====
-- The path of a download: it is read as it was made, and what it names stays in the directory.
use ota_new.Common.{
  ℕ, zero, suc, ◌+◌, ◌-◌, ◌*◌, ◌/◌, ◌%◌, ◌^◌, ◌≤◌, ◌<◌, ◌≡◌, ◌≢◌, refl, ap, ◌∙◌, inl, inr, [], ◌∷◌,
  ◌++◌, Option, none, some, Text, codes, decimal, decimal_of, Without, decimal-Without, drop, arith,
  ◌==◌, Bool-cases, lt→ltb, le→ltb, All, Option-cases, subst,
}
use native.Mathlib.Nat.{mod-eq_of_lt}
use mathlib.Core.Option.{some-injective}
use native.Mathlib.Decide.{dec_lt}
use ota_new.Ota.Redis.{ℤ, pos}
use ota_new.Ota.Download.{
  stoi, digits_value, segment, parse_path, read_version, read_name, read_type, Target, invalid,
  thrown, target, to_u16,
}

segment-slash : (a r : Text) → Without b'/' a → segment (a ++ (b'/' ∷ r)) ≡ (a, some r)
unfolding segment
segment-slash [] r h = refl
segment-slash (x ∷ xs) r (ne, h) = ground (arith, segment-slash xs r h)

segment-end : (a : Text) → Without b'/' a → segment a ≡ (a, none)
unfolding segment
segment-end [] h = refl
segment-end (x ∷ xs) (ne, h) = ground (arith, segment-end xs h)

segment-Without : (a : Text) → Without b'/' (segment a).0
unfolding segment
segment-Without [] = tt
segment-Without (x ∷ xs) = elim (Bool-cases (x == b'/')) [
  | inl cut ↦ rw cut tt
  | inr keep ↦ rw keep ((λ e. ground arith), segment-Without xs)
]

-- Reading on from a value.
abbrev read_on : ℕ → Text → Option ℕ
read_on n ds = digits_value (some n) ds

abbrev Numeric : Text → Type 0
Numeric ds = All (λ (c : ℕ). (48 ≤ c) × (c ≤ 57)) ds

digits_value-snoc :
    (seen : ℕ) (ds : Text) (n d : ℕ)
    → read_on seen ds ≡ some n
    → Numeric ds
    → d < 10
    → read_on seen (ds ++ ((48 + d) ∷ [])) ≡ some (10 * n + d)
unfolding digits_value
digits_value-snoc seen [] n d e h small = ground (arith, some-injective _ _ e)
digits_value-snoc seen (c ∷ ds) n d e ((lo, hi), h) small =
    ground (arith, digits_value-snoc (10 * seen + (c - 48)) ds n d (ground arith) h small)

Numeric-snoc : (ds : Text) (d : ℕ) → Numeric ds → d < 10 → Numeric (ds ++ ((48 + d) ∷ []))
Numeric-snoc [] d h small = ((omega arith, omega arith), tt)
Numeric-snoc (c ∷ ds) d (hc, h) small = (hc, Numeric-snoc ds d h small)

decimal_of-Numeric : (fuel n : ℕ) → Numeric (decimal_of fuel n)
unfolding decimal_of
decimal_of-Numeric zero n = tt
decimal_of-Numeric (suc fuel) n = elim (dec_lt n 10) [
  | yes small ↦ rw (lt→ltb n 10 small) ((omega arith, omega arith), tt)
  | no large ↦ rw (le→ltb n 10 (omega arith)) (
      Numeric-snoc (decimal_of fuel (n / 10)) (n % 10) (decimal_of-Numeric fuel (n / 10))
        (omega arith))
]

digits_value-decimal_of : (fuel n : ℕ) → n < fuel → read_on 0 (decimal_of fuel n) ≡ some n
unfolding decimal_of digits_value
digits_value-decimal_of zero n h = absurd (omega arith)
digits_value-decimal_of (suc fuel) n h = elim (dec_lt n 10) [
  | yes small ↦ ground arith
  | no large ↦ rw (le→ltb n 10 (omega arith)) (
      digits_value-snoc 0 (decimal_of fuel (n / 10)) (n / 10) (n % 10)
        (digits_value-decimal_of fuel (n / 10) (omega arith)) (decimal_of-Numeric fuel (n / 10))
        (omega arith)
      ∙ ap some (omega arith))
]

stoi-Numeric :
    (ds : Text) (n : ℕ)
    → Numeric ds
    → read_on 0 ds ≡ some n
    → n < 2 ^ 31
    → ds ≢ []
    → stoi ds ≡ some (pos n)
unfolding stoi digits_value
stoi-Numeric [] n h e small ne = absurd (ne refl)
stoi-Numeric (c ∷ cs) n ((lo, hi), h) e small ne = ground (arith, e)

snoc-ne_nil : (ds : Text) (d : ℕ) → ds ++ (d ∷ []) ≢ []
snoc-ne_nil [] d e = cc
snoc-ne_nil (c ∷ ds) d e = cc

decimal_of-ne_nil : (fuel n : ℕ) → decimal_of (suc fuel) n ≢ []
unfolding decimal_of
decimal_of-ne_nil fuel n = elim (dec_lt n 10) [
  | yes small ↦ rw (lt→ltb n 10 small) (λ e. cc)
  | no large ↦ rw (le→ltb n 10 (omega arith)) (snoc-ne_nil (decimal_of fuel (n / 10)) (48 + n % 10))
]

decimal-eq : (n : ℕ) → decimal n ≡ decimal_of (suc n) n
unfolding decimal
decimal-eq n = refl

stoi-decimal : (n : ℕ) → n < 2 ^ 31 → stoi (decimal n) ≡ some (pos n)
stoi-decimal n small = rw (decimal-eq n) (
    stoi-Numeric (decimal_of (suc n) n) n (decimal_of-Numeric (suc n) n)
      (digits_value-decimal_of (suc n) n (omega arith)) small (decimal_of-ne_nil n n))

read_type-number :
    (a r : Text) (n : ℤ) → stoi a ≡ some n → read_type (a, some r) ≡ read_name n (segment r)
unfolding read_type
read_type-number a r n st = rw (st, read_type) refl

read_name-target :
    (n : ℤ) (name version : Text)
    → Without b'/' version
    → read_name n (name, some version) ≡ target (to_u16 n) name version
unfolding read_name read_version
read_name-target n name version w = ap (read_version n name) (segment-end version w)

-- The path made of a device type of 16 bits, a name and a version, neither with a slash in it, is
-- read as these three.
pub parse_path-target :
    (device_type : ℕ) (name version : Text)
    → device_type < 2 ^ 16
    → Without b'/' name
    → Without b'/' version
    → parse_path (
        codes "/ota/file_download/" ++ (decimal device_type ++ (b'/' ∷ (name ++ (b'/' ∷ version)))))
      ≡ target device_type name version
unfolding parse_path
parse_path-target device_type name version h wn wv =
    ap read_type (
      segment-slash (decimal device_type) (name ++ (b'/' ∷ version))
        (decimal-Without b'/' device_type (inr (omega arith))))
    ∙ read_type-number (decimal device_type) (name ++ (b'/' ∷ version)) (pos device_type)
        (stoi-decimal device_type (omega arith))
    ∙ ap (read_name (pos device_type)) (segment-slash name version wn)
    ∙ read_name-target (pos device_type) name version wv
    ∙ ap (λ (t : ℕ). target t name version) (mod-eq_of_lt {n = device_type} {m = 2 ^ 16} h)

-- What a target has in common with its name and version.
abbrev Plain : Target → Type 0
Plain invalid = Unit {0}
Plain thrown = Unit {0}
Plain (target t name version) = Without b'/' name × Without b'/' version

read_version-Plain :
    (n : ℤ) (name : Text) (p : Text × Option Text)
    → Without b'/' name
    → Without b'/' p.0
    → Plain (read_version n name p)
unfolding read_version
read_version-Plain n name (version, none) w v = (w, v)
read_version-Plain n name (version, some more) w v = tt

read_name-Plain : (n : ℤ) (p : Text × Option Text) → Without b'/' p.0 → Plain (read_name n p)
unfolding read_name
read_name-Plain n (name, none) w = tt
read_name-Plain n (name, some rest) w =
    read_version-Plain n name (segment rest) w (segment-Without rest)

read_type-Plain : (p : Text × Option Text) → Plain (read_type p)
unfolding read_type
read_type-Plain (a, none) = tt
read_type-Plain (a, some rest) = elim (Option-cases (stoi a)) [
  | inl none_there ↦ rw (none_there, read_type) tt
  | inr (n, e) ↦ rw (e, read_type) (read_name-Plain n (segment rest) (segment-Without rest))
]

-- Whatever the path is, the name and the version that it is read as have no slash in them.
pub parse_path-Without :
    (path : Text) (device_type : ℕ) (name version : Text)
    → parse_path path ≡ target device_type name version
    → Without b'/' name × Without b'/' version
parse_path-Without path device_type name version e =
    subst Plain e (unfold parse_path in read_type-Plain (segment (drop 19 path)))
