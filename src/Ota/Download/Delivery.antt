-- ===== src/Ota/Download/Delivery.antt =====
-- The bytes of a download: each is sent once, in order, and the download is done with the last.
use ota_new.Common.{
  ℕ, ◌+◌, ◌-◌, ◌%◌, ◌^◌, ◌≤◌, ◌<◌, ◌≡◌, refl, ap₂, ◌∙◌, List, [], ◌∷◌, map, if◌then◌else◌, ◌==◌,
  arith, Bool-cases, inl, inr,
}
use native.Mathlib.Nat.{mod-eq_of_lt, add-mod_right}
use ota_new.Ota.Redis.{ℤ, pos}
use ota_new.Ota.Download.{Sending, done, waiting, send_file, send_all}

abbrev pub total : List ℕ → ℕ
total [] = 0
total (n ∷ ns) = n + total ns

wrapped : (left n : ℕ) → n ≤ left → left < 2 ^ 64 → (left + 2 ^ 64 - n) % 2 ^ 64 ≡ left - n
wrapped left n le below = grind (arith, add-mod_right, mod-eq_of_lt {n = left - n} {m = 2 ^ 64})

send_file-pos :
    (n : ℕ) (s : Sending)
    → n ≤ s.left
    → s.left < 2 ^ 64
    → send_file (pos n) s ≡ (
        if s.left - n == 0
        then done
        else waiting (record s { offset = s.offset + n; left = s.left - n }))
unfolding send_file
send_file-pos n s le below = rw (wrapped s.left n le below) refl

send_all-done : (rts : List ℤ) → send_all rts done ≡ done
unfolding send_all
send_all-done [] = refl
send_all-done (rt ∷ rts) = refl

-- Where `sendfile` never fails and never sends more than is left of a file below 2^64 bytes, the
-- download is done exactly when the bytes sent add up to the file; until then the offset has
-- moved by the bytes sent, and what is left is the rest.
pub send_all-delivers :
    (ns : List ℕ) (s : Sending)
    → 0 < s.left
    → s.left < 2 ^ 64
    → total ns ≤ s.left
    → send_all (map pos ns) (waiting s) ≡ (
        if s.left - total ns == 0
        then done
        else waiting (record s { offset = s.offset + total ns; left = s.left - total ns }))
unfolding send_all
send_all-delivers [] s positive below le = ground arith
send_all-delivers (n ∷ ns) s positive below le = elim (Bool-cases (s.left - n == 0)) [
  | inl last ↦
      rw (send_file-pos n s (omega arith) below, last, send_all-done (map pos ns), send_all)
        (ground arith)
  | inr more ↦
      rw (send_file-pos n s (omega arith) below, more, send_all)
        (send_all-delivers ns (record s { offset = s.offset + n; left = s.left - n }) (ground arith)
            (omega arith) (omega arith)
          ∙ ap₂ (λ (o l : ℕ). if l == 0 then done else waiting (record s { offset = o; left = l }))
              (omega arith) (omega arith))
]
