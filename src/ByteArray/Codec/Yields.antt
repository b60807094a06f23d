-- ===== src/ByteArray/Codec/Yields.antt =====
-- Reads that give a value and leave the rest of the stream, chained.
use ota_new.Common.{
  ℕ, ◌+◌, ◌≤◌, ◌<◌, ◌≡◌, refl, sym, ap, subst, ◌∙◌, List, [], ◌∷◌, ◌++◌, length, take, drop,
  drop-drop, length-append, length-drop, length-take, arith,
}
use ota_new.ByteArray
use ota_new.ByteArray.{
  ByteArray, Allocator, Endian, little, big, Outcome, ok, M, and_then, ◌>>=◌, ◌>>◌,
}
use ota_new.ByteArray.Inv.{IsValid}
use ota_new.ByteArray.Stream
use ota_new.ByteArray.Stream.{contents, view}
use ota_new.ByteArray.Reading.{read-Done}

-- The bytes from the cursor on.
abbrev pub ahead : ByteArray → List ℕ
ahead b = drop b.position (contents b)

-- A read that gives `a`, leaves `rest` to be read, and changes nothing else.
pub record Yields {ℓ} {A : Type ℓ} (out : Outcome A) (a : A) (b : ByteArray) (rest : List ℕ)
    : Type ℓ where
  pub after : ByteArray
  pub result : out ≡ ok a after
  pub valid : IsValid after
  pub left : ahead after ≡ rest
  pub same_bytes : contents after ≡ contents b
  pub same_endian : after.endian ≡ b.endian

-- Splitting a list that begins with `xs`.
take-prefix : (xs ys : List ℕ) → take (length xs) (xs ++ ys) ≡ xs
take-prefix [] ys = refl
take-prefix (x ∷ xs) ys = ap (◌∷◌ x) (take-prefix xs ys)

drop-prefix : (xs ys : List ℕ) → drop (length xs) (xs ++ ys) ≡ ys
drop-prefix [] ys = refl
drop-prefix (x ∷ xs) ys = drop-prefix xs ys

ahead-fits :
    (bytes rest : List ℕ) (b : ByteArray)
    → 0 < length bytes
    → ahead b ≡ bytes ++ rest
    → b.position + length bytes ≤ b.size
ahead-fits bytes rest b pos e = omega (
  arith,
  ap length e,
  length-append bytes rest,
  length-drop b.position (contents b),
  length-take b.size (ByteArray.Walk.join b.nodes),
)

pub read-Yields :
    (bytes rest : List ℕ) {b : ByteArray}
    → IsValid b
    → 0 < length bytes
    → ahead b ≡ bytes ++ rest
    → Yields (ByteArray.read (length bytes) b) bytes b rest
read-Yields bytes rest {b} v pos e =
    let d = read-Done (length bytes) v pos (ahead-fits bytes rest b pos e) in
    record {
      after = d.after;
      result =
          d.result
          ∙ ap (λ (got : List ℕ). ok got d.after)
              (ap (take (length bytes)) e ∙ take-prefix bytes rest);
      valid = d.valid;
      left =
          ap (λ (s : Stream.Stream). drop s.at s.stored) d.seen
          ∙ sym (drop-drop (length bytes) b.position (contents b))
          ∙ ap (drop (length bytes)) e
          ∙ drop-prefix bytes rest;
      same_bytes = ap (λ (s : Stream.Stream). s.stored) d.seen;
      same_endian = d.same_endian;
    }

pub read_n-Yields :
    (n : ℕ) (bytes rest : List ℕ) {b : ByteArray}
    → IsValid b
    → 0 < n
    → length bytes ≡ n
    → ahead b ≡ bytes ++ rest
    → Yields (ByteArray.read n b) bytes b rest
read_n-Yields n bytes rest {b} v pos len e =
    subst (λ (k : ℕ). Yields (ByteArray.read k b) bytes b rest) len
      (read-Yields bytes rest v (omega (arith, len)) e)

pub Yields-ok {ℓ} :
    {A : Type ℓ} {a a' : A} {b : ByteArray} (rest : List ℕ)
    → IsValid b
    → ahead b ≡ rest
    → a' ≡ a
    → Yields (ok a' b) a b rest
Yields-ok {b = b} rest v left e = record {
  after = b;
  result = ap (λ x. ok x b) e;
  valid = v;
  left = left;
  same_bytes = refl;
  same_endian = refl;
}

-- One call after another.
pub Yields-bind {ℓ κ} :
    {A : Type ℓ} {B : Type κ} (out : Outcome A) {a : A} {b : ByteArray} {rest rest' : List ℕ}
    {c : B} (f : A → M B)
    → (y : Yields out a b rest) → Yields (f a y.after) c y.after rest'
    → Yields (and_then out f) c b rest'
Yields-bind out f y z = record {
  after = z.after;
  result = ap (λ o. and_then o f) y.result ∙ z.result;
  valid = z.valid;
  left = z.left;
  same_bytes = z.same_bytes ∙ y.same_bytes;
  same_endian = z.same_endian ∙ y.same_endian;
}

-- The same, where the rest of the computation is known by an equation.
pub Yields-step {ℓ κ} :
    {A : Type ℓ} {B : Type κ} {out : Outcome A} {out' more : Outcome B} {a : A} {b : ByteArray}
    {rest rest' : List ℕ} {c c' : B}
    → (y : Yields out a b rest) → out' ≡ more
    → c' ≡ c
    → Yields more c' y.after rest'
    → Yields out' c b rest'
Yields-step y e f z = record {
  after = z.after;
  result = e ∙ z.result ∙ ap (λ x. ok x z.after) f;
  valid = z.valid;
  left = z.left;
  same_bytes = z.same_bytes ∙ y.same_bytes;
  same_endian = z.same_endian ∙ y.same_endian;
}

pub and_then_assoc {ℓ κ μ} :
    {A : Type ℓ} {B : Type κ} {C : Type μ} (o : Outcome A) (f : A → M B) (g : B → M C)
    → and_then (and_then o f) g ≡ and_then o (λ a b. and_then (f a b) g)
and_then_assoc (ok a b) f g = refl
and_then_assoc (Outcome.out_of_range b) f g = refl
and_then_assoc Outcome.fault f g = refl

-- A last step `k` after three.
pub and_then_last {ℓ κ} :
    {A : Type ℓ} {B : Type κ} (w : Outcome (Unit {0})) (s : M (Unit {0})) (r : M A) (k : A → M B)
    → and_then w (λ _. s >> (r >>= k)) ≡ and_then (and_then w (λ _. s >> r)) k
and_then_last (ok a b) s r k = sym (and_then_assoc (s b) (λ _. r) k)
and_then_last (Outcome.out_of_range b) s r k = refl
and_then_last Outcome.fault s r k = refl
