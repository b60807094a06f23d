-- ===== src/HttpConnection/Whole.antt =====
-- The headers of a response and of its chunks, and the whole response.
use ota_new.Common.{
  ℕ, if◌then◌else◌, suc, ◌+◌, ◌≤◌, ◌≡◌, refl, ap, ◌∙◌, List, [], ◌∷◌, ◌++◌, append_assoc, true,
  false, ◌==◌, length, drop, All, ◌<◌,
}
use ota_new.Stream.{Reading, got}
use ota_new.Stream.Whole.{joined, all_got, IsFull, not_zero}
use ota_new.HttpConnection.{
  Parser, response, header, try_head, read_head, chunk_head, with_body, chunk_loop, recv_response,
}
use ota_new.HttpConnection.Chunks.{all_got-append, take_chunk-held, take_chunk-read}

module _ {P R : Type 0} (parser : Parser P R) (size : ℕ) where
  -- With `held` in the buffer and further reads of `bs` the parser, which `run` prepares each time, takes a
  -- header to its end; `left` is what it did not take. The buffer never is full with what was not taken.
  pub data Heads (run : P → P) : P → List ℕ → List (List ℕ) → P → List ℕ → Type 0 where
    head_end :
        (p : P) (held : List ℕ) (q : P) (n : ℕ)
        → parser.execute (run p) held ≡ (q, n)
        → parser.has_error q ≡ false
        → (length (drop n held) == size) ≡ false
        → parser.is_finished q ≡ true
        → Heads run p held [] q (drop n held)
    head_part :
        (p : P) (held bytes : List ℕ) (bs : List (List ℕ)) (q r : P) (n : ℕ) (left : List ℕ)
        → parser.execute (run p) held ≡ (q, n)
        → parser.has_error q ≡ false
        → (length (drop n held) == size) ≡ false
        → parser.is_finished q ≡ false
        → 1 ≤ length bytes
        → Heads run q (drop n held ++ bytes) bs r left
        → Heads run p held (bytes ∷ bs) r left

  try-Heads :
      (run : P → P) (p : P) (held : List ℕ) (bs : List (List ℕ)) (q : P) (left : List ℕ)
      (rs : List Reading)
      → Heads run p held bs q left
      → try_head parser size run p held
          (all_got bs ++ rs)
          (λ u l. read_head parser size run u l (all_got bs ++ rs))
        ≡ header q left rs
  unfolding read_head
  try-Heads run _ _ _ _ _ rs (head_end p held u n step ok room end) = rw (step, ok, room, end) refl
  try-Heads run _ _ _ _ _ rs (head_part p held bytes cs u r n rest step ok room on full h) =
      rw (step, ok, room, on, read_head, not_zero (length bytes) full)
        (try-Heads run u (drop n held ++ bytes) cs r rest rs h)

  -- The header of a chunk. Where nothing is held it begins with a read.
  pub data ChunkHead : P → List ℕ → List (List ℕ) → P → List ℕ → Type 0 where
    held_first :
        (p : P) (held : List ℕ) (bs : List (List ℕ)) (q : P) (left : List ℕ)
        → 1 ≤ length held
        → Heads parser.restart p held bs q left
        → ChunkHead p held bs q left
    read_first :
        (p : P) (bytes : List ℕ) (bs : List (List ℕ)) (q : P) (left : List ℕ)
        → 1 ≤ length bytes
        → Heads parser.restart p bytes bs q left
        → ChunkHead p [] (bytes ∷ bs) q left

  chunk_head-Head :
      (p : P) (held : List ℕ) (bs : List (List ℕ)) (q : P) (left : List ℕ) (rs : List Reading)
      → ChunkHead p held bs q left
      → chunk_head parser size p held (all_got bs ++ rs) ≡ header q left rs
  unfolding chunk_head
  chunk_head-Head _ _ _ _ _ rs (held_first p held bs q left full h) =
      rw (not_zero (length held) full) (try-Heads parser.restart p held bs q left rs h)
  chunk_head-Head _ _ _ _ _ rs (read_first p bytes bs q left full h) =
      rw (read_head, not_zero (length bytes) full) (try-Heads parser.restart p bytes bs q left rs h)

  -- A chunk with its header: all of it is held, or reads bring the end of it. `c` and `d` are the two bytes
  -- behind its content.
  pub data TakesChunk : P → List ℕ → List (List ℕ) → P → List ℕ → List ℕ → Type 0 where
    all_held :
        (p : P) (held : List ℕ) (bs : List (List ℕ)) (q : P) (content : List ℕ) (c d : ℕ)
        (rest : List ℕ)
        → ChunkHead p held bs q (content ++ (c ∷ (d ∷ rest)))
        → length content ≡ parser.content_len q
        → TakesChunk p held bs q content rest
    end_read :
        (p : P) (held : List ℕ) (hs bs : List (List ℕ)) (q : P) (left content : List ℕ) (c d : ℕ)
        → ChunkHead p held hs q left
        → length content ≡ parser.content_len q
        → left ++ joined bs ≡ content ++ (c ∷ (d ∷ []))
        → length left < parser.content_len q + 2
        → All IsFull bs
        → TakesChunk p held (hs ++ bs) q content []

  -- So many chunks at most, the last of which the parser says is the last, with all their contents.
  pub data Chunks : ℕ → P → List ℕ → List (List ℕ) → P → List ℕ → Type 0 where
    last_chunk :
        (k : ℕ) (p : P) (held : List ℕ) (bs : List (List ℕ)) (q : P) (content rest : List ℕ)
        → TakesChunk p held bs q content rest
        → parser.chunks_done q ≡ true
        → Chunks (suc k) p held bs q content
    next_chunk :
        (k : ℕ) (p : P) (held : List ℕ) (bs cs : List (List ℕ)) (q r : P)
        (content rest contents : List ℕ)
        → TakesChunk p held bs q content rest
        → parser.chunks_done q ≡ false
        → Chunks k q rest cs r contents
        → Chunks (suc k) p held (bs ++ cs) r (content ++ contents)

  step-TakesChunk :
      (fuel : ℕ) (p : P) (body held : List ℕ) (bs : List (List ℕ)) (q : P) (content rest : List ℕ)
      (rs : List Reading)
      → TakesChunk p held bs q content rest
      → chunk_loop parser (suc fuel) size p body held (all_got bs ++ rs) ≡ (
          if parser.chunks_done q
          then response (with_body parser q (body ++ content))
          else chunk_loop parser fuel size q (body ++ content) rest rs)
  unfolding chunk_loop
  step-TakesChunk fuel _ body _ _ _ _ _ rs (all_held p held bs q content c d rest h len) =
      rw
        (
          chunk_head-Head p held bs q (content ++ (c ∷ (d ∷ rest))) rs h,
          chunk_loop,
          take_chunk-held (parser.content_len q) body content c d rest rs len,
        )
        refl
  step-TakesChunk fuel _ body _ _ _ _ _ rs
        (end_read p held hs bs q left content c d h len parts lt full) =
      rw
        (
          all_got-append hs bs,
          append_assoc (all_got hs) (all_got bs) rs,
          chunk_head-Head p held hs q left (all_got bs ++ rs) h,
          chunk_loop,
          take_chunk-read (parser.content_len q) body left content c d bs rs len parts lt full,
        )
        refl

  loop-Chunks :
      (fuel : ℕ) (p : P) (body held : List ℕ) (bs : List (List ℕ)) (r : P) (contents : List ℕ)
      (rs : List Reading)
      → Chunks fuel p held bs r contents
      → chunk_loop parser fuel size p body held (all_got bs ++ rs)
        ≡ response (with_body parser r (body ++ contents))
  loop-Chunks _ _ body _ _ _ _ rs (last_chunk k p held bs q content rest h end) =
      step-TakesChunk k p body held bs q content rest rs h ∙ rw end refl
  loop-Chunks _ _ body _ _ _ _ rs (next_chunk k p held bs cs q r content rest contents h on more) =
      ap (chunk_loop parser (suc k) size p body held) (
        ap (λ (x : List Reading). x ++ rs) (all_got-append bs cs)
        ∙ append_assoc (all_got bs) (all_got cs) rs)
      ∙ step-TakesChunk k p body held bs q content rest (all_got cs ++ rs) h
      ∙ rw on (
          loop-Chunks k q (body ++ content) rest cs r contents rs more
          ∙ ap (λ (x : List ℕ). response (with_body parser r x))
              (append_assoc body content contents))

  -- Where reads of at least a byte each bring the header of a response in chunks and then its chunks, each a
  -- header that the parser takes, as many bytes as that tells and two more, cut anywhere: `recvResponse` returns the
  -- response with the contents of all the chunks, in order, on as much fuel as there are chunks.
  pub recv_response-chunked :
      (fuel : ℕ) (first : List ℕ) (hs bs : List (List ℕ)) (q r : P) (left contents : List ℕ)
      (more : List Reading)
      → 1 ≤ length first
      → Heads (λ p. p) parser.start first hs q left
      → parser.is_chunked q ≡ true
      → Chunks fuel q left bs r contents
      → recv_response parser fuel size (got first ∷ (all_got hs ++ (all_got bs ++ more)))
        ≡ response (with_body parser r contents)
  unfolding recv_response
  recv_response-chunked fuel first hs bs q r left contents more full h chunked cs =
      rw
        (
          recv_response,
          read_head,
          not_zero (length first) full,
          try-Heads (λ p. p) parser.start first hs q left (all_got bs ++ more) h,
          chunked,
        )
        (loop-Chunks fuel q [] left bs r contents more cs)
