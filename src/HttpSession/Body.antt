-- ===== src/HttpSession/Body.antt =====
-- The body of a request is what came after its header.
use ota_new.Common.{
  ℕ, ◌+◌, ◌-◌, ◌%◌, ◌^◌, ◌≤◌, ◌<◌, ◌≡◌, refl, sym, ap, ◌∙◌, subst, List, [], ◌∷◌, ◌++◌, false, leb,
  length, take, drop, replicate, All, arith, append_assoc, append-nil, length-append,
  length-replicate, length-drop, drop-drop, lt→ltb, le→ltb, drop-all,
}
use native.Mathlib.Nat.{mod-eq_of_lt}
use ota_new.Stream.{Reading, Progress, returned, read_fix_size}
use ota_new.Stream.Whole.{joined, placed, all_got, IsFull, read_fix_size-whole, not_zero}
use ota_new.HttpSession.{Parser, request, write_at, paint, with_body, rest_of_body, receive_body}

take-front : (front rest : List ℕ) → take (length front) (front ++ rest) ≡ front
take-front [] rest = refl
take-front (x ∷ front) rest = ap (◌∷◌ x) (take-front front rest)

drop-front : (front rest : List ℕ) → drop (length front) (front ++ rest) ≡ rest
drop-front [] rest = refl
drop-front (x ∷ front) rest = drop-front front rest

-- Over a body of which the front is written already.
write_at-front :
    (front bytes rest : List ℕ) (k : ℕ)
    → length front ≡ k
    → write_at k bytes (front ++ rest) ≡ (front ++ bytes) ++ drop (length bytes) rest
unfolding write_at
write_at-front front bytes rest k e =
    let behind = drop (length bytes) rest in
    subst (λ (j : ℕ). write_at j bytes (front ++ rest) ≡ (front ++ bytes) ++ behind) e
      (ap (λ (l : List ℕ). l ++ bytes ++ drop (length front + length bytes) (front ++ rest))
          (take-front front rest)
        ∙ ap (λ (l : List ℕ). front ++ bytes ++ l)
            (sym (drop-drop (length bytes) (length front) (front ++ rest))
              ∙ ap (drop (length bytes)) (drop-front front rest)))

nothing : (xs : List ℕ) → 0 ≡ length xs → xs ≡ []
nothing [] e = refl
nothing (x ∷ xs) e = absurd (omega (arith, e))

paint-placed :
    (place offset : ℕ) (bs : List (List ℕ)) (front rest : List ℕ)
    → length front ≡ place + offset
    → length (joined bs) ≡ length rest
    → paint place (placed offset bs) (front ++ rest) ≡ front ++ joined bs
unfolding paint
paint-placed place offset [] front rest e len = ap (λ (l : List ℕ). front ++ l) (nothing rest len)
paint-placed place offset (b ∷ bs) front rest e len =
    let sum = length-append b (joined bs) in
    ap (paint place (placed (offset + length b) bs))
      (write_at-front front b rest (place + offset) e)
    ∙ paint-placed place (offset + length b) bs (front ++ b) (drop (length b) rest)
        (omega (arith, length-append front b, e))
        (omega (arith, length-drop (length b) rest, len, sum))
    ∙ append_assoc front b (joined bs)

module _ {P R : Type 0} (parser : Parser P R) where
  started :
      (held : List ℕ) (n : ℕ)
      → length held ≤ n
      → write_at 0 held (replicate {A = ℕ} n 0) ≡ held ++ drop (length held) (replicate {A = ℕ} n 0)
  started held n le = write_at-front [] held (replicate {A = ℕ} n 0) 0 refl

  rest_of_body-whole :
      (p : P) (held : List ℕ) (bs : List (List ℕ)) (body : List ℕ) (n : ℕ) (q : Progress)
      → 1 ≤ n
      → n < 2 ^ 31
      → q.chunks ≡ placed 0 bs
      → paint (length held) (placed 0 bs) body ≡ held ++ joined bs
      → rest_of_body parser p held body (returned (n % 2 ^ 32) q)
        ≡ request (with_body parser p (held ++ joined bs))
  rest_of_body-whole p held bs body n q pos lt c e =
      rw (mod-eq_of_lt {n = n} {m = 2 ^ 32} (omega (arith, lt)), not_zero n pos, small n lt)
        (ap (λ (l : List (ℕ × List ℕ)). request (with_body parser p (paint (length held) l body))) c
          ∙ ap (λ (l : List ℕ). request (with_body parser p l)) e)
    where
      small : (n : ℕ) → n < 2 ^ 31 → leb (2 ^ 31) n ≡ false
      small n lt = ground (arith, lt)

  -- Where a part of the body came with the header, and reads of at least a byte each bring just the rest, the
  -- request has the whole body, in order, whatever is read later.
  pub receive_body-whole :
      (p : P) (held : List ℕ) (bs : List (List ℕ)) (more : List Reading)
      → All IsFull bs
      → 1 ≤ length (joined bs)
      → length (joined bs) < 2 ^ 31
      → parser.content_length p ≡ length held + length (joined bs)
      → parser.content_length p < 2 ^ 32
      → receive_body parser p held (all_got bs ++ more)
        ≡ request (with_body parser p (held ++ joined bs))
  unfolding receive_body
  receive_body-whole p held bs more full pos lt len small =
      let m = length (joined bs) in
      let n = length held + m in
      let empty : List ℕ = replicate n 0 in
      let same : parser.content_length p % 2 ^ 32 ≡ n =
        mod-eq_of_lt {n = parser.content_length p} {m = 2 ^ 32} small ∙ len in
      let rest : n - length held ≡ m = omega arith in
      let body = write_at 0 held empty in
      let front = started held n (omega arith) in
      let painted =
        ap (paint (length held) (placed 0 bs)) front
        ∙ paint-placed (length held) 0 bs held (drop (length held) empty) (omega arith)
            (omega (arith, length-drop (length held) empty, length-replicate {A = ℕ} n 0)) in
      let read = read_fix_size-whole bs more full (omega (arith, lt)) in
      rw
        (
          same,
          not_zero n (omega (arith, pos)),
          lt→ltb (length held) n (omega (arith, pos)),
          receive_body,
        )
        (ap (λ (k : ℕ). rest_of_body parser p held body (read_fix_size k (all_got bs ++ more))) rest
          ∙ ap (rest_of_body parser p held body) read
          ∙ rest_of_body-whole p held bs body m
              (record { offset = m; left = 0; chunks = placed 0 bs }) pos lt refl painted)

  -- Where the whole body came with the header, the request has exactly it: what is behind it in the buffer, as the start
  -- of a next request, is in no request.
  pub receive_body-held :
      (p : P) (body next : List ℕ) (rs : List Reading)
      → 1 ≤ length body
      → parser.content_length p ≡ length body
      → length body < 2 ^ 32
      → receive_body parser p (body ++ next) rs ≡ request (with_body parser p body)
  unfolding receive_body write_at
  receive_body-held p body next rs pos len small =
      let n = length body in
      let same : parser.content_length p % 2 ^ 32 ≡ n =
        ap (λ (k : ℕ). k % 2 ^ 32) len ∙ mod-eq_of_lt {n = n} {m = 2 ^ 32} small in
      let whole = take-front body next in
      let zeros =
        drop-all (0 + n) (replicate {A = ℕ} n 0) (omega (arith, length-replicate {A = ℕ} n 0)) in
      rw
        (
          same,
          not_zero n pos,
          le→ltb (length (body ++ next)) n (omega (arith, length-append body next)),
          receive_body,
        )
        (ap
            (λ (l : List ℕ).
              request (with_body parser p (l ++ drop (0 + length l) (replicate {A = ℕ} n 0))))
            whole
          ∙ ap (λ (l : List ℕ). request (with_body parser p (body ++ l))) zeros
          ∙ ap (λ (l : List ℕ). request (with_body parser p l)) (append-nil body))
