-- ===== src/HttpSession/Receive.antt =====
-- The loop over the header, and then the body.
use ota_new.Common.{ℕ, ◌≤◌, ◌≡◌, List, [], ◌∷◌, ◌++◌, true, false, ◌==◌, length, drop}
use ota_new.HttpSession.{Parser}

module _ {P R : Type 0} (parser : Parser P R) (size : ℕ) where
  -- `Parses p held bs q left`: on reads of `bs` the parser takes the header to its end; `left` is what of the bytes it
  -- did not take. The buffer never is full with what was not taken.
  pub data Parses : P → List ℕ → List (List ℕ) → P → List ℕ → Type 0 where
    header_end :
        (p : P) (held bytes : List ℕ) (q : P) (n : ℕ)
        → 1 ≤ length bytes
        → parser.execute p (held ++ bytes) ≡ (q, n)
        → parser.has_error q ≡ false
        → (length (drop n (held ++ bytes)) == size) ≡ false
        → parser.is_finished q ≡ true
        → Parses p held (bytes ∷ []) q (drop n (held ++ bytes))
    header_part :
        (p : P) (held bytes : List ℕ) (bs : List (List ℕ)) (q r : P) (n : ℕ) (left : List ℕ)
        → 1 ≤ length bytes
        → parser.execute p (held ++ bytes) ≡ (q, n)
        → parser.has_error q ≡ false
        → (length (drop n (held ++ bytes)) == size) ≡ false
        → parser.is_finished q ≡ false
        → Parses q (drop n (held ++ bytes)) bs r left
        → Parses p held (bytes ∷ bs) r left
