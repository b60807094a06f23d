-- ===== src/HttpSession/Tests.antt =====
-- A parser of headers of two bytes, the second of which is the length of the body.
use ota_new.Common.{
  ℕ, ◌≡◌, refl, List, [], ◌∷◌, ◌++◌, Option, none, some, true, false, if◌then◌else◌, ltb, length,
  arith,
}
use ota_new.Stream.{got}
use ota_new.HttpSession.{Parser, request, closed, recv_request, receive_body}
use ota_new.HttpSession.Body.{receive_body-held}

abbrev second : List ℕ → ℕ
second [] = 0
second (x ∷ []) = 0
second (x ∷ y ∷ ys) = y

-- The parser's state: the length, once it is known.
abbrev two_bytes : Parser (Option ℕ) (Option ℕ × List ℕ)
two_bytes = record {
  start = none;
  execute = λ p bytes. if ltb (length bytes) 2 then (p, 0) else (some (second bytes), 2);
  has_error = λ p. false;
  is_finished = λ p. elim p [ none ↦ false | some n ↦ true ];
  content_length = λ p. elim p [ none ↦ 0 | some n ↦ n ];
  get_data = λ p. (p, []);
  set_body = λ body r. (r.0, body);
  init = λ r. r;
}

peer_closes : recv_request two_bytes 8 (got (7 ∷ []) ∷ got [] ∷ []) ≡ closed
unfolding recv_request
peer_closes = refl

buffer_is_full : recv_request two_bytes 1 (got (7 ∷ []) ∷ got (3 ∷ []) ∷ []) ≡ closed
unfolding recv_request
buffer_is_full = refl

next_request_is_dropped :
    receive_body two_bytes (some 2) ((20 ∷ 21 ∷ []) ++ (7 ∷ 4 ∷ [])) []
    ≡ request (some 2, 20 ∷ 21 ∷ [])
next_request_is_dropped =
    receive_body-held two_bytes (some 2) (20 ∷ 21 ∷ []) (7 ∷ 4 ∷ []) [] (omega arith) refl
      (omega arith)
