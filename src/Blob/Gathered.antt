-- ===== src/Blob/Gathered.antt =====
-- The receiving loop of UploadBlob, and the chunks that were sent.
use goph_keeper.Common.{
  append_assoc, ℕ, ◌+◌, ◌≤◌, ◌≡◌, refl, ap, List, [], ◌∷◌, ◌++◌, length, length-append, arith,
  ==_iff,
}
use goph_keeper.Blob.Chunks.{
  UploadMessage, header, chunk, no_body, receive_error, complete, wrap_u64, receive, receive_chunks,
}

-- the bytes of a stream's chunks
abbrev pub bodies : List UploadMessage → List ℕ
bodies [] = []
bodies (chunk i bytes ∷ rest) = bytes ++ bodies rest
bodies (_ ∷ rest) = bodies rest

-- Chunks only, numbered one after the other, none of them too long.
abbrev pub InOrder : ℕ → ℕ → List UploadMessage → Type 0
InOrder max_chunk n [] = Unit {0}
InOrder max_chunk n (chunk i bytes ∷ rest) =
    (i ≡ n) × (length bytes ≤ max_chunk) × InOrder max_chunk (wrap_u64 (n + 1)) rest
InOrder max_chunk n (header id ∷ rest) = ⊥
InOrder max_chunk n (no_body ∷ rest) = ⊥
InOrder max_chunk n (receive_error ∷ rest) = ⊥

append_nil : (xs : List ℕ) → xs ++ [] ≡ xs
append_nil [] = refl
append_nil (x ∷ xs) = ap (◌∷◌ x) (append_nil xs)

module _ (max_chunk size : ℕ) where
  receive-bodies :
      (total n : ℕ) (buf : List ℕ) (ms : List UploadMessage) (t : ℕ) (b : List ℕ)
      → receive max_chunk size total n buf ms ≡ complete t b
      → b ≡ buf ++ bodies ms
  unfolding receive
  receive-bodies total n buf [] t b h = ground (arith, append_nil buf)
  receive-bodies total n buf (chunk i bytes ∷ ms) t b h = ground (
    arith,
    append_assoc buf bytes (bodies ms),
    receive-bodies (wrap_u64 (total + length bytes)) (wrap_u64 (n + 1)) (buf ++ bytes) ms t b,
  )
  receive-bodies total n buf (header id ∷ ms) t b h = absurd cc
  receive-bodies total n buf (no_body ∷ ms) t b h = absurd cc
  receive-bodies total n buf (receive_error ∷ ms) t b h = absurd cc

  receive-InOrder :
      (total n : ℕ) (buf : List ℕ) (ms : List UploadMessage) (t : ℕ) (b : List ℕ)
      → receive max_chunk size total n buf ms ≡ complete t b
      → InOrder max_chunk n ms
  unfolding receive
  receive-InOrder total n buf [] t b h = tt
  receive-InOrder total n buf (chunk i bytes ∷ ms) t b h = ground (
    arith,
    ==_iff i n,
    receive-InOrder (wrap_u64 (total + length bytes)) (wrap_u64 (n + 1)) (buf ++ bytes) ms t b,
  )
  receive-InOrder total n buf (header id ∷ ms) t b h = absurd cc
  receive-InOrder total n buf (no_body ∷ ms) t b h = absurd cc
  receive-InOrder total n buf (receive_error ∷ ms) t b h = absurd cc

  receive-total :
      (total n : ℕ) (buf : List ℕ) (ms : List UploadMessage) (t : ℕ) (b : List ℕ)
      → total ≡ wrap_u64 (length buf)
      → receive max_chunk size total n buf ms ≡ complete t b
      → t ≡ wrap_u64 (length b)
  unfolding receive
  receive-total total n buf [] t b k h = ground arith
  receive-total total n buf (chunk i bytes ∷ ms) t b k h =
      let next : wrap_u64 (total + length bytes) ≡ wrap_u64 (length (buf ++ bytes)) =
        omega (arith, length-append buf bytes) in
      ground (
        arith,
        receive-total (wrap_u64 (total + length bytes)) (wrap_u64 (n + 1)) (buf ++ bytes) ms t b
            next,
      )
  receive-total total n buf (header id ∷ ms) t b k h = absurd cc
  receive-total total n buf (no_body ∷ ms) t b k h = absurd cc
  receive-total total n buf (receive_error ∷ ms) t b k h = absurd cc

  -- A stream that is received to its end has chunks only, numbered from 0 in their order and none of
  -- them longer than the limit; what is gathered is their bytes in that order, and the count is their
  -- number modulo 2^64.
  pub received_complete :
      (ms : List UploadMessage) (t : ℕ) (b : List ℕ)
      → receive_chunks max_chunk size ms ≡ complete t b
      → InOrder max_chunk 0 ms × (b ≡ bodies ms) × (t ≡ wrap_u64 (length b))
  unfolding receive_chunks
  received_complete ms t b h = (
    receive-InOrder 0 0 [] ms t b h,
    receive-bodies 0 0 [] ms t b h,
    receive-total 0 0 [] ms t b (omega arith) h,
  )
