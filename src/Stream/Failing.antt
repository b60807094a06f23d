-- ===== src/Stream/Failing.antt =====
-- The loops on calls that fail, or that bring more than is left.
use ota_new.Common.{
  ℕ, zero, suc, ◌+◌, ◌-◌, ◌%◌, ◌^◌, ◌≤◌, ◌<◌, ◌≡◌, refl, ap, ◌∙◌, List, [], ◌∷◌, arith, replicate,
}
use native.Mathlib.Nat.{mod-eq_of_lt}
use ota_new.Stream.{Reading, failed, Progress, waits, read_loop, read_fix_size, left_after}
use ota_new.Stream.Whole.{not_zero}

one_failure :
    (n : ℕ) (rs : List Reading) (p : Progress)
    → 1 ≤ p.left
    → p.left + 1 < 2 ^ 64
    → read_loop n (failed ∷ rs) p
      ≡ read_loop n rs (record {
        offset = (p.offset + (2 ^ 64 - 1)) % 2 ^ 64;
        left = p.left + 1;
        chunks = p.chunks;
      })
unfolding read_loop
one_failure n rs p pos lt =
    let up : (p.left + 2 ^ 64 - (2 ^ 64 - 1)) % 2 ^ 64 ≡ p.left + 1 =
      ap (λ (k : ℕ). k % 2 ^ 64) (omega arith) ∙ mod-eq_of_lt {n = p.left + 1} {m = 2 ^ 64} lt in
    rw (not_zero p.left pos, read_loop)
      (ap
        (λ (l : ℕ).
          read_loop n rs
            (record { offset = (p.offset + (2 ^ 64 - 1)) % 2 ^ 64; left = l; chunks = p.chunks }))
        up)

failures :
    (n k : ℕ) (p : Progress)
    → 1 ≤ p.left
    → p.left + k < 2 ^ 64
    → (q : Progress) × (read_loop n (replicate k failed) p ≡ waits q)
      × (q.left ≡ p.left + k)
      × (q.chunks ≡ p.chunks)
unfolding read_loop
failures n zero p pos lt = (p, rw (not_zero p.left pos, read_loop) refl, omega arith, refl)
failures n (suc k) p pos lt =
    let (q, e, l, c) =
      failures n k
        (record {
          offset = (p.offset + (2 ^ 64 - 1)) % 2 ^ 64;
          left = p.left + 1;
          chunks = p.chunks;
        })
        (omega arith) (omega (arith, lt)) in
    (q, one_failure n (replicate k failed) p pos (omega (arith, lt)) ∙ e, omega (arith, l), c)

-- Where every `read` fails, as on a socket that is closed, `readFixSize` of at least a byte does not return:
-- after any number of failures, as far as its counter reaches, it reads again, and asks for one
-- byte more after each.
pub read_fix_size-never :
    (n k : ℕ)
    → 1 ≤ n
    → n + k < 2 ^ 64
    → (q : Progress) × (read_fix_size n (replicate k failed) ≡ waits q)
      × (q.left ≡ n + k)
      × (q.chunks ≡ [])
unfolding read_fix_size
read_fix_size-never n k pos lt = failures n k (record { offset = 0; left = n; chunks = [] }) pos lt

-- Where a read into a `ByteArray` brings more than is left, which it may since it is asked for `length` each time, the
-- counter wraps: the loop then waits for about 2^64 bytes more.
pub left_after-wraps :
    (left k : ℕ)
    → 1 ≤ left
    → left < k
    → k ≤ left + 2 ^ 63
    → left_after left (k ∷ []) + k ≡ left + 2 ^ 64
unfolding left_after
left_after-wraps left k pos lt le =
    rw (not_zero left pos, not_zero k (omega (arith, lt)), left_after)
      (omega (arith, mod-eq_of_lt {n = left + 2 ^ 64 - k} {m = 2 ^ 64} (omega (arith, lt, le))))
