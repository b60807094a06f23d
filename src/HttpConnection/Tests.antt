-- ===== src/HttpConnection/Tests.antt =====
-- A parser of headers of two bytes, the second of which tells of chunks, and of chunks with one byte of length.
use ota_new.Common.{
  ℕ, ◌≡◌, refl, List, [], ◌∷◌, ◌++◌, Option, none, some, Bool, true, false, if◌then◌else◌, ltb,
  ◌==◌, length, arith, codes,
}
use ota_new.Stream.{got, failed}
use ota_new.Stream.Whole.{all_got}
use ota_new.Http.{get_value, new_request, set_value}
use ota_new.Http.Methods.{get}
use ota_new.HttpConnection.{Parser, response, closed, recv_response, build_request, with_body}
use ota_new.HttpConnection.Whole.{
  head_end, held_first, read_first, TakesChunk, all_held, end_read, Chunks, last_chunk, next_chunk,
  recv_response-chunked,
}

abbrev State : Type 0
State = Bool × Option ℕ

abbrev second : List ℕ → ℕ
second [] = 0
second (x ∷ []) = 0
second (x ∷ y ∷ ys) = y

abbrev number : State → ℕ
number (b, none) = 0
number (b, some n) = n

abbrev execute : State → List ℕ → State × ℕ
execute (false, v) bytes =
    if ltb (length bytes) 2 then ((false, v), 0) else ((false, some (second bytes)), 2)
execute (true, v) [] = ((true, v), 0)
execute (true, v) (c ∷ cs) = ((true, some c), 1)

abbrev toy : Parser State (List ℕ)
toy = record {
  start = (false, none);
  restart = λ p. (true, none);
  execute = execute;
  has_error = λ p. false;
  is_finished = λ p. elim p.1 [ none ↦ false | some n ↦ true ];
  is_chunked = λ p. number p == 1;
  content_len = number;
  chunks_done = λ p. number p == 0;
  content_length = number;
  encoding = λ p. [];
  get_data = λ p. [];
  set_body = λ body r. body;
  gunzip = λ b. b;
  inflate = λ b. b;
}

fixed_run : recv_response toy 0 8 (got (7 ∷ 2 ∷ 5 ∷ []) ∷ got (6 ∷ []) ∷ []) ≡ response (5 ∷ 6 ∷ [])
unfolding recv_response
fixed_run = refl

lost_run : recv_response toy 3 8 (got (7 ∷ 1 ∷ 2 ∷ []) ∷ got (6 ∷ []) ∷ failed ∷ []) ≡ closed
unfolding recv_response
lost_run = refl

host_run :
    get_value (codes "host") [] (build_request get (codes "/") [] [] (codes "a.b") [] []).headers
    ≡ codes "a.b"
unfolding build_request get_value set_value new_request
host_run = refl

abbrev two : State
two = (true, some 2)

abbrev zero_left : State
zero_left = (true, some 0)

first_chunk :
    TakesChunk toy 8
      (false, some 1)
      (2 ∷ [])
      ((10 ∷ []) ∷ (11 ∷ 13 ∷ 10 ∷ []) ∷ [])
      two
      (10 ∷ 11 ∷ [])
      []
first_chunk =
    end_read (false, some 1) (2 ∷ []) [] ((10 ∷ []) ∷ (11 ∷ 13 ∷ 10 ∷ []) ∷ []) two []
      (10 ∷ 11 ∷ []) 13 10
      (held_first (false, some 1) (2 ∷ []) [] two [] (omega arith)
        (head_end (false, some 1) (2 ∷ []) two 1 refl refl refl refl))
      refl refl (omega arith) (omega arith, (omega arith, tt))

second_chunk : TakesChunk toy 8 two [] ((0 ∷ 13 ∷ 10 ∷ []) ∷ []) zero_left [] []
second_chunk =
    all_held two [] ((0 ∷ 13 ∷ 10 ∷ []) ∷ []) zero_left [] 13 10 []
      (read_first two (0 ∷ 13 ∷ 10 ∷ []) [] zero_left (13 ∷ 10 ∷ []) (omega arith)
        (head_end two (0 ∷ 13 ∷ 10 ∷ []) zero_left 1 refl refl refl refl))
      refl

abbrev reads : List (List ℕ)
reads = (10 ∷ []) ∷ (11 ∷ 13 ∷ 10 ∷ []) ∷ (0 ∷ 13 ∷ 10 ∷ []) ∷ []

toy_parts : Chunks toy 8 2 (false, some 1) (2 ∷ []) reads zero_left (10 ∷ 11 ∷ [])
toy_parts =
    next_chunk 1 (false, some 1) (2 ∷ []) ((10 ∷ []) ∷ (11 ∷ 13 ∷ 10 ∷ []) ∷ [])
      ((0 ∷ 13 ∷ 10 ∷ []) ∷ []) two zero_left (10 ∷ 11 ∷ []) [] [] first_chunk refl
      (last_chunk 0 two [] ((0 ∷ 13 ∷ 10 ∷ []) ∷ []) zero_left [] [] second_chunk refl)

recv_response-chunked_example :
    recv_response toy 2 8 (got (7 ∷ 1 ∷ 2 ∷ []) ∷ (all_got [] ++ (all_got reads ++ [])))
    ≡ response (with_body toy zero_left (10 ∷ 11 ∷ []))
recv_response-chunked_example =
    recv_response-chunked toy 8 2 (7 ∷ 1 ∷ 2 ∷ []) [] reads (false, some 1) zero_left (2 ∷ [])
      (10 ∷ 11 ∷ []) [] (omega arith)
      (head_end (false, none) (7 ∷ 1 ∷ 2 ∷ []) (false, some 1) 2 refl refl refl refl) refl toy_parts
