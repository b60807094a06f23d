-- ===== src/HttpConnection/Chunks.antt =====
-- A response in chunks, however the reads cut it: its body is the contents of the chunks, in order.
use ota_new.Common.{
  ℕ, ◌+◌, ◌-◌, ◌<◌, ◌≡◌, refl, sym, ap, ◌∙◌, List, [], ◌∷◌, ◌++◌, append_assoc, append-nil, le→leb,
  lt→leb, length, length-append, take, drop, take-append, drop-append, take-all, drop-all, All,
  arith,
}
use ota_new.Stream.{Reading, got, failed}
use ota_new.Stream.Whole.{joined, all_got, IsFull, not_zero}
use ota_new.HttpConnection.{filled, taken, fill, take_chunk}

pub all_got-append : (a b : List (List ℕ)) → all_got (a ++ b) ≡ all_got a ++ all_got b
all_got-append [] b = refl
all_got-append (x ∷ a) b = ap (◌∷◌ (got x)) (all_got-append a b)

fill-done : (body : List ℕ) (rs : List Reading) → fill 0 body rs ≡ filled body rs
unfolding fill
fill-done body [] = refl
fill-done body (failed ∷ rs) = refl
fill-done body (got bytes ∷ rs) = refl

-- Reads that bring as much as is left.
fill-joined :
    (bs : List (List ℕ)) (body : List ℕ) (left : ℕ) (rs : List Reading)
    → All IsFull bs
    → length (joined bs) ≡ left
    → fill left body (all_got bs ++ rs) ≡ filled (body ++ joined bs) rs
unfolding fill
fill-joined [] body left rs full len =
    rw (sym len) (fill-done body rs ∙ ap (λ (b : List ℕ). filled b rs) (sym (append-nil body)))
fill-joined (b ∷ bs) body left rs (f, full) len =
    rw (not_zero left (omega (arith, length-append b (joined bs))), not_zero (length b) f)
      (fill-joined bs (body ++ b) (left - length b) rs full
          (omega (arith, length-append b (joined bs)))
        ∙ ap (λ (x : List ℕ). filled x rs) (append_assoc body b (joined bs)))

take-content :
    (n : ℕ) (content rest : List ℕ) → length content ≡ n → take n (content ++ rest) ≡ content
take-content n content rest e =
    take-append n content rest
    ∙ ground (arith, take-all n content (omega arith), append-nil content, zero_left)
  where
    zero_left : n - length content ≡ 0
    zero_left = omega arith

-- A chunk of which all is held.
pub take_chunk-held :
    (n : ℕ) (body content : List ℕ) (c d : ℕ) (rest : List ℕ) (rs : List Reading)
    → length content ≡ n
    → take_chunk n body (content ++ (c ∷ (d ∷ rest))) rs ≡ taken (body ++ content) rest rs
unfolding take_chunk
take_chunk-held n body content c d rest rs e =
    rw
      (
        le→leb (n + 2) (length (content ++ (c ∷ (d ∷ rest))))
            (omega (arith, length-append content (c ∷ (d ∷ rest)))),
        take-content n content (c ∷ (d ∷ rest)) e,
      )
      (ap (λ (x : List ℕ). taken (body ++ content) x rs) dropped)
  where
    past : n + 2 - length content ≡ 2
    past = omega arith

    dropped : drop (n + 2) (content ++ (c ∷ (d ∷ rest))) ≡ rest
    dropped =
        drop-append (n + 2) content (c ∷ (d ∷ rest))
        ∙ ground (arith, past, drop-all (n + 2) content (omega arith))

-- A chunk of which reads bring the end.
pub take_chunk-read :
    (n : ℕ) (body left content : List ℕ) (c d : ℕ) (bs : List (List ℕ)) (rs : List Reading)
    → length content ≡ n
    → left ++ joined bs ≡ content ++ (c ∷ (d ∷ []))
    → length left < n + 2
    → All IsFull bs
    → take_chunk n body left (all_got bs ++ rs) ≡ taken (body ++ content) [] rs
unfolding take_chunk
take_chunk-read n body left content c d bs rs e parts lt full =
    rw (lt→leb (n + 2) (length left) lt, filling, take_chunk)
      (ap (λ (x : List ℕ). taken x [] rs) cut_off)
  where
    sizes : length left + length (joined bs) ≡ n + 2
    sizes = omega (
      arith,
      length-append left (joined bs),
      length-append content (c ∷ (d ∷ [])),
      ap length parts,
    )

    filling :
        fill (n + 2 - length left) (body ++ left) (all_got bs ++ rs)
        ≡ filled ((body ++ content) ++ (c ∷ (d ∷ []))) rs
    filling =
        fill-joined bs (body ++ left) (n + 2 - length left) rs full (omega (arith, sizes))
        ∙ ap (λ (x : List ℕ). filled x rs)
            (append_assoc body left (joined bs)
              ∙ ap (◌++◌ body) parts
              ∙ sym (append_assoc body content (c ∷ (d ∷ []))))

    cut_off :
        take
          (length ((body ++ content) ++ (c ∷ (d ∷ []))) - 2)
          ((body ++ content) ++ (c ∷ (d ∷ [])))
        ≡ body ++ content
    cut_off =
        take-content (length ((body ++ content) ++ (c ∷ (d ∷ []))) - 2) (body ++ content)
          (c ∷ (d ∷ [])) (omega (arith, length-append (body ++ content) (c ∷ (d ∷ []))))
