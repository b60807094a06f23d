-- ===== src/Stream/Whole.antt =====
-- The loops on calls that do not fail: every byte, in order.
use ota_new.Common.{
  ℕ, ◌+◌, ◌-◌, ◌%◌, ◌^◌, ◌≤◌, ◌<◌, ◌≡◌, refl, sym, ap, ap₂, ◌∙◌, List, [], ◌∷◌, ◌++◌, false, ◌==◌,
  length, take, drop, All, arith, append_assoc, append-nil, length-append, take-append-drop,
  drop-drop, drop-all,
}
use native.Mathlib.Nat.{mod-eq_of_lt, add-mod_right}
use ota_new.Stream.{
  Reading, got, Progress, returned, read_loop, read_fix_size, Sending, completed, write_loop,
  write_fix_size,
}

-- The bytes that reads bring, and where each read finds its place from `offset` on.
abbrev pub joined : List (List ℕ) → List ℕ
joined [] = []
joined (b ∷ bs) = b ++ joined bs

abbrev pub placed : ℕ → List (List ℕ) → List (ℕ × List ℕ)
placed offset [] = []
placed offset (b ∷ bs) = (offset, b) ∷ placed (offset + length b) bs

abbrev pub all_got : List (List ℕ) → List Reading
all_got [] = []
all_got (b ∷ bs) = got b ∷ all_got bs

abbrev pub IsFull : List ℕ → Type 0
IsFull b = 1 ≤ length b

add_down : (a k : ℕ) → k ≤ a → a < 2 ^ 64 → (a + 2 ^ 64 - k) % 2 ^ 64 ≡ a - k
add_down a k le lt = grind (arith, add-mod_right, mod-eq_of_lt {n = a - k} {m = 2 ^ 64})

pub not_zero : (k : ℕ) → 1 ≤ k → (k == 0) ≡ false
not_zero k h = ground arith

loop-step :
    (n : ℕ) (b : List ℕ) (rs : List Reading) (p : Progress)
    → 1 ≤ length b
    → length b ≤ p.left
    → p.offset + p.left < 2 ^ 64
    → read_loop n (got b ∷ rs) p
      ≡ read_loop n rs (record {
        offset = p.offset + length b;
        left = p.left - length b;
        chunks = p.chunks ++ ((p.offset, b) ∷ []);
      })
unfolding read_loop
loop-step n b rs p pos le lt =
    rw (not_zero p.left (omega (arith, pos, le)), not_zero (length b) pos, read_loop)
      (ap₂
        (λ (o l : ℕ).
          read_loop n rs
            (record { offset = o; left = l; chunks = p.chunks ++ ((p.offset, b) ∷ []) }))
        (mod-eq_of_lt {n = p.offset + length b} {m = 2 ^ 64} (omega (arith, le, lt)))
        (add_down p.left (length b) le (omega (arith, lt))))

loop-ends :
    (n : ℕ) (rs : List Reading) (p : Progress)
    → p.left ≡ 0
    → read_loop n rs p ≡ returned (n % 2 ^ 32) p
unfolding read_loop
loop-ends n [] p z = rw (z, read_loop) refl
loop-ends n (r ∷ rs) p z = rw (z, read_loop) refl

loop-whole :
    (n : ℕ) (bs : List (List ℕ)) (more : List Reading) (p : Progress)
    → All IsFull bs
    → length (joined bs) ≡ p.left
    → p.offset + p.left < 2 ^ 64
    → read_loop n (all_got bs ++ more) p
      ≡ returned
          (n % 2 ^ 32)
          (record { offset = p.offset + p.left; left = 0; chunks = p.chunks ++ placed p.offset bs })
loop-whole n [] more p h e lt =
    let at : p.offset ≡ p.offset + p.left = omega (arith, e) in
    let cs : p.chunks ≡ p.chunks ++ [] = sym (append-nil p.chunks) in
    let z : p.left ≡ 0 = sym e in
    loop-ends n more p z
    ∙ (λ i. returned (n % 2 ^ 32) (record { offset = at i; left = z i; chunks = cs i }))
loop-whole n (b ∷ bs) more p (f, fs) e lt =
    let len = length-append b (joined bs) in
    let q : Progress = record {
      offset = p.offset + length b;
      left = p.left - length b;
      chunks = p.chunks ++ ((p.offset, b) ∷ []);
    } in
    loop-step n b (all_got bs ++ more) p f (omega (arith, e, len)) lt
    ∙ loop-whole n bs more q fs (omega (arith, e, len)) (omega (arith, lt, e, len))
    ∙ ap₂
        (λ (o : ℕ) (c : List (ℕ × List ℕ)).
          returned (n % 2 ^ 32) (record { offset = o; left = 0; chunks = c }))
        (omega (arith, e, len))
        (append_assoc p.chunks ((p.offset, b) ∷ []) (placed (p.offset + length b) bs))

-- Where reads bring at least a byte each and in all as many as were asked for, below 2^64, `readFixSize`
-- returns that number, cut to 32 bits, after the last of them, whatever is read later, and the bytes stand one
-- behind the other from the start of the buffer.
pub read_fix_size-whole :
    (bs : List (List ℕ)) (more : List Reading)
    → All IsFull bs
    → length (joined bs) < 2 ^ 64
    → read_fix_size (length (joined bs)) (all_got bs ++ more)
      ≡ returned
          (length (joined bs) % 2 ^ 32)
          (record { offset = length (joined bs); left = 0; chunks = placed 0 bs })
unfolding read_fix_size
read_fix_size-whole bs more h lt =
    let n = length (joined bs) in
    let zero_n : 0 + n ≡ n = omega arith in
    loop-whole n bs more (record { offset = 0; left = n; chunks = [] }) h refl (omega (arith, lt))
    ∙ ap (λ (o : ℕ). returned (n % 2 ^ 32) (record { offset = o; left = 0; chunks = placed 0 bs }))
        zero_n

abbrev pub total : List ℕ → ℕ
total [] = 0
total (k ∷ ks) = k + total ks

write-step :
    (buffer : List ℕ) (k : ℕ) (ks : List ℕ) (s : Sending)
    → 1 ≤ k
    → k ≤ s.left
    → s.offset + s.left < 2 ^ 64
    → write_loop buffer (k ∷ ks) s
      ≡ write_loop buffer ks (record {
        offset = s.offset + k;
        left = s.left - k;
        sent = s.sent ++ take k (drop s.offset buffer);
      })
unfolding write_loop
write-step buffer k ks s pos le lt =
    rw (not_zero s.left (omega (arith, pos, le)), not_zero k pos, write_loop)
      (ap₂
        (λ (o l : ℕ).
          write_loop buffer ks
            (record { offset = o; left = l; sent = s.sent ++ take k (drop s.offset buffer) }))
        (mod-eq_of_lt {n = s.offset + k} {m = 2 ^ 64} (omega (arith, le, lt)))
        (add_down s.left k le (omega (arith, lt))))

write-ends :
    (buffer ks : List ℕ) (s : Sending)
    → s.left ≡ 0
    → write_loop buffer ks s ≡ completed (length buffer % 2 ^ 32) s
unfolding write_loop
write-ends buffer [] s z = rw (z, write_loop) refl
write-ends buffer (k ∷ ks) s z = rw (z, write_loop) refl

write-whole :
    (buffer ks more : List ℕ) (s : Sending)
    → All (λ k. 1 ≤ k) ks
    → total ks ≡ s.left
    → s.offset + s.left ≡ length buffer
    → length buffer < 2 ^ 64
    → write_loop buffer (ks ++ more) s
      ≡ completed
          (length buffer % 2 ^ 32)
          (record { offset = length buffer; left = 0; sent = s.sent ++ drop s.offset buffer })
write-whole buffer [] more s h e all lt =
    let at : s.offset ≡ length buffer = omega (arith, e, all) in
    let z : s.left ≡ 0 = sym e in
    let out : s.sent ≡ s.sent ++ drop s.offset buffer =
      sym (append-nil s.sent)
      ∙ ap (λ (c : List ℕ). s.sent ++ c) (sym (drop-all s.offset buffer (omega (arith, at)))) in
    write-ends buffer more s z
    ∙ (λ i. completed (length buffer % 2 ^ 32) (record { offset = at i; left = z i; sent = out i }))
write-whole buffer (k ∷ ks) more s (f, fs) e all lt =
    let t : Sending = record {
      offset = s.offset + k;
      left = s.left - k;
      sent = s.sent ++ take k (drop s.offset buffer);
    } in
    write-step buffer k (ks ++ more) s f (omega (arith, e)) (omega (arith, all, lt))
    ∙ write-whole buffer ks more t fs (omega (arith, e)) (omega (arith, e, all)) lt
    ∙ ap
        (λ (c : List ℕ).
          completed (length buffer % 2 ^ 32)
            (record { offset = length buffer; left = 0; sent = c }))
        (append_assoc s.sent (take k (drop s.offset buffer)) (drop (s.offset + k) buffer)
          ∙ ap (λ (c : List ℕ). s.sent ++ (take k (drop s.offset buffer) ++ c))
              (sym (drop-drop k s.offset buffer))
          ∙ ap (λ (c : List ℕ). s.sent ++ c) (take-append-drop k (drop s.offset buffer)))

-- Where writes take at least a byte each and in all as many as the buffer has, below 2^64, `writeFixSize`
-- returns that number, cut to 32 bits, after the last of them, and what was written is the buffer.
pub write_fix_size-whole :
    (buffer ks more : List ℕ)
    → All (λ k. 1 ≤ k) ks
    → total ks ≡ length buffer
    → length buffer < 2 ^ 64
    → write_fix_size buffer (ks ++ more)
      ≡ completed
          (length buffer % 2 ^ 32)
          (record { offset = length buffer; left = 0; sent = buffer })
unfolding write_fix_size
write_fix_size-whole buffer ks more h e lt =
    write-whole buffer ks more (record { offset = 0; left = length buffer; sent = [] }) h e
      (omega arith) lt
