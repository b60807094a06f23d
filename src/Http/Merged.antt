-- ===== src/Http/Merged.antt =====
-- The headers of a printed response: what ends them is no line break.
use ota_new.Common.{
  ◌≡◌, ◌≢◌, refl, sym, ap, ◌∙◌, [], ◌∷◌, ◌++◌, append_assoc, if◌then◌else◌, Text, codes, decimal,
  Without, Bool-cases, All, arith, inl, inr, subst,
}
use ota_new.Http.Statuses.{status_to_string}
use ota_new.Http.{
  MapType, HttpResponse, crlf, lfcr, status_line, print_headers, print_body, dump_response,
  keep_or_close, is_empty, same_case,
}
use ota_new.Http.Printed.{
  Reads, line, Unbroken, IsPlain, cut, cut-Unbroken, cut-line, Without-append, Without-Unbroken,
  absent, absent-Without, prefixed, version-Without, number-Without, status-Without, append-ne_nil,
  keep_or_close-Without, body-Reads, length_lines,
}

-- A text that does not begin with "\n".
abbrev Begins : Text → Type 0
Begins [] = ⊥
Begins (c ∷ cs) = c ≢ 10

Begins-append : (a b : Text) → Without 10 a → Begins b → Begins (a ++ b)
Begins-append [] b w h = h
Begins-append (c ∷ a) b (ne, w) h = ne

-- "\n\r" does not break the text, unless "\n" follows.
Unbroken-append : (a b : Text) → Without 13 a → Unbroken b → Unbroken (a ++ b)
Unbroken-append [] b w u = u
Unbroken-append (c ∷ []) [] (ne, w) u = ne
Unbroken-append (c ∷ []) (d ∷ b) (ne, w) u = (λ e. absurd (ne e), u)
Unbroken-append (c ∷ (d ∷ a)) b (ne, w) u = (λ e. absurd (ne e), Unbroken-append (d ∷ a) b w u)

Unbroken-lfcr : (b : Text) → Begins b → Unbroken b → Unbroken (lfcr ++ b)
Unbroken-lfcr [] h u = absurd h
Unbroken-lfcr (c ∷ cs) h u = (λ e. absurd (omega (arith, e)), (λ e. h, u))

-- All that stands between the first line and the next "\r\n".
abbrev pub merged : HttpResponse → Text
merged r =
    print_headers (codes ": ") lfcr r.headers ++ (codes "connection: " ++ keep_or_close r.close)

block :
    (m : MapType) (t : Text)
    → All IsPlain m
    → Begins t
    → Unbroken t
    → Begins (print_headers (codes ": ") lfcr m ++ t)
      × Unbroken (print_headers (codes ": ") lfcr m ++ t)
unfolding print_headers absent
block [] t ps h u = (h, u)
block ((k, v) ∷ m) t ((pk, lk, pv), ps) h u = elim (Bool-cases (same_case k (codes "connection"))) [
  | inl skip ↦ rw skip (block m t ps h u)
  | inr print ↦
      let rest : Text = print_headers (codes ": ") lfcr m ++ t in
      let (begins, unbroken) = block m t ps h u in
      rw print (
        subst (λ (s : Text). Begins s × Unbroken s)
          (sym (regroup k v (print_headers (codes ": ") lfcr m) t))
          (
            Begins-append k _ lk (λ e. omega (arith, e)),
            Unbroken-append k _ pk (
                Unbroken-append (codes ": " ++ v) _ (prefixed (codes ": ") v refl pv)
                  (Unbroken-lfcr rest begins unbroken)),
          ))
]
  where
    regroup :
        (k v b t : Text)
        → (k ++ (codes ": " ++ (v ++ (lfcr ++ b)))) ++ t
          ≡ k ++ ((codes ": " ++ v) ++ (lfcr ++ (b ++ t)))
    regroup k v b t = simp append_assoc

status_line-Without : (r : HttpResponse) → Without 13 r.reason → Without 13 (status_line r)
unfolding status_line absent
status_line-Without r w = prefixed (codes "HTTP/") _ refl (
    Without-append _ _ (version-Without r.version) (
      prefixed (codes " ") _ refl (
        Without-append (decimal r.status) _ (number-Without r.status)
          (prefixed (codes " ") _ refl (reason r.reason w)))))
  where
    reason :
        (t : Text) → Without 13 t → Without 13 (if is_empty t then status_to_string r.status else t)
    reason [] w = status-Without r.status
    reason (c ∷ cs) w = w

-- A printed response with no line break in its reason and headers is read back with one line behind the
-- first for all of its headers and the connection together, since "\n\r" ends no line: then comes the line
-- for the length of a body that is not empty, and what follows the empty line is the body.
pub dump_response-merges :
    (r : HttpResponse)
    → Without 13 r.reason
    → All IsPlain r.headers
    → Reads
        (dump_response r)
        (status_line r ∷ (merged r ∷ length_lines (codes "content-length: ") r.body))
        r.body
unfolding dump_response absent
dump_response-merges r w ps =
    line (cut-line (status_line r) _ (status_line-Without r w)) (unfold status_line in (λ e. cc)) (
      line (ap cut regroup ∙ cut-Unbroken (merged r) _ (parts.1)) merged_ne (
        body-Reads (codes "content-length: ") r.body
          (absent-Without (codes "content-length: ") refl) (λ e. cc)))
  where
    connection : Without 13 (codes "connection: " ++ keep_or_close r.close)
    connection = prefixed (codes "connection: ") _ refl (keep_or_close-Without r.close)

    parts : Begins (merged r) × Unbroken (merged r)
    parts =
        block r.headers (codes "connection: " ++ keep_or_close r.close) ps (λ e. omega (arith, e))
          (Without-Unbroken (codes "connection: " ++ keep_or_close r.close) connection)

    merged_ne : merged r ≢ []
    merged_ne =
        append-ne_nil (print_headers (codes ": ") lfcr r.headers) b'c'
          (codes "onnection: " ++ keep_or_close r.close)

    regroup :
        print_headers (codes ": ") lfcr r.headers
          ++ ((codes "connection: " ++ keep_or_close r.close)
              ++ (crlf ++ print_body (codes "content-length: ") r.body))
        ≡ merged r ++ (13 ∷ (10 ∷ print_body (codes "content-length: ") r.body))
    regroup = simp append_assoc
