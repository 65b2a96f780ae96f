-- ===== src/Client/Sent.antt =====
-- The chunks that UploadFile sends, and the server that receives them.
use Prim.Native.Nat.{◌≤◌, ◌<◌}
use native.Mathlib.Nat.{div-eq-sub-div, zero-div}
use goph_keeper.Common.{
  take-append-drop, ℕ, zero, suc, ◌+◌, ◌-◌, ◌/◌, ◌^◌, min, true, false, ◌≡◌, ◌∙◌, refl, sym, ap,
  List, [], ◌∷◌, ◌++◌, arith, leb, ltb, ◌==◌, ==_iff, le→ltb-false, length, take, drop, take-all,
  length-take, length-drop, Bool-cases, inl, inr, append_assoc, append_nil, if◌then◌else◌,
}
use goph_keeper.Blob.Chunks.{UploadMessage, chunk, complete, receive, receive_chunks, wrap_u64}
use goph_keeper.Blob.Gathered.{bodies}
use goph_keeper.Client.Run.{Result, ok, ◌>>=◌}
use goph_keeper.Client.App.{App, remote}
use goph_keeper.Client.Files.{send_chunks, usable_chunk_size}
use goph_keeper.Client.Link.{Link, Handlers, connect}

-- the messages of the loop from index `i`
abbrev pub pieces : ℕ → ℕ → List ℕ → ℕ → List UploadMessage
pieces zero max_chunk bytes i = []
pieces (suc fuel) max_chunk bytes i =
    if leb (length bytes) i
    then []
    else chunk (i / max_chunk) (take max_chunk (drop i bytes))
      ∷ pieces fuel max_chunk bytes (i + max_chunk)

next_index : (m i : ℕ) → 0 < m → (i + m) / m ≡ i / m + 1
next_index m i h =
    div-eq-sub-div {m = m} {n = i + m} h (omega arith) ∙ ap (λ j. j / m + 1) (omega arith)

take_nil : {A : Type 0} (n : ℕ) → take {A = A} n [] ≡ []
take_nil zero = refl
take_nil (suc n) = refl

take-more : {A : Type 0} (n m : ℕ) (xs : List A) → take (n + m) xs ≡ take n xs ++ take m (drop n xs)
take-more zero m xs = ap (λ n. take n xs) (omega arith)
take-more (suc n) m [] = take_nil (suc n + m) ∙ sym (take_nil m)
take-more (suc n) m (x ∷ xs) =
    let e : suc n + m ≡ suc (n + m) = omega arith in
    ap (λ k. take k (x ∷ xs)) e ∙ ap (◌∷◌ x) (take-more n m xs)

pieces_received :
    (m : ℕ) (bytes : List ℕ) (fuel i k total : ℕ) (buf : List ℕ)
    → 0 < m
    → length bytes < 2 ^ 63
    → length bytes ≤ i + fuel
    → i / m ≡ k
    → k ≤ i
    → total ≡ min i (length bytes)
    → buf ≡ take i bytes
    → receive m (length bytes) total k buf (pieces fuel m bytes i) ≡ complete (length bytes) bytes
unfolding receive
pieces_received m bytes zero i k total buf pos small enough at below t b =
    let whole : min i (length bytes) ≡ length bytes = omega (arith, enough) in
    let all : take i bytes ≡ bytes = take-all i bytes (omega (arith, enough)) in
    rw (t, b, whole, all) refl
pieces_received m bytes (suc fuel) i k total buf pos small enough at below t b =
    elim (Bool-cases (leb (length bytes) i)) [
      | inl e ↦
          let past : length bytes ≤ i = ground (arith, e) in
          let whole : min i (length bytes) ≡ length bytes = omega (arith, past) in
          let all : take i bytes ≡ bytes = take-all i bytes past in rw (e, t, b, whole, all) refl
      | inr e ↦
          let inside : i < length bytes = ground (arith, e) in
          let p = take m (drop i bytes) in
          let size : length p ≡ min m (length bytes - i) =
            length-take m (drop i bytes) ∙ ap (min m) (length-drop i bytes) in
          let numbered : (i / m == k) ≡ true = (==_iff (i / m) k).1 at in
          let fits : ltb m (length p) ≡ false = ground (arith, size) in
          let count : wrap_u64 (total + length p) ≡ min (i + m) (length bytes) =
            omega (arith, t, size, small, inside) in
          let counted : ltb (length bytes) (wrap_u64 (total + length p)) ≡ false =
            le→ltb-false (wrap_u64 (total + length p)) (length bytes) (omega (arith, count)) in
          let next : wrap_u64 (k + 1) ≡ k + 1 = omega (arith, below, inside, small) in
          rw (e, numbered, fits, counted, next)
            (pieces_received m bytes fuel (i + m) (k + 1) (wrap_u64 (total + length p)) (buf ++ p)
              pos small (omega (arith, enough, pos)) (next_index m i pos ∙ ap (λ j. j + 1) at)
              (omega (arith, below, pos)) count (rw b (sym (take-more i m bytes))))
    ]

drop_past : {A : Type 0} (n : ℕ) (xs : List A) → length xs ≤ n → drop n xs ≡ []
drop_past zero [] h = refl
drop_past zero (x ∷ xs) h = absurd (omega (arith, h))
drop_past (suc n) [] h = refl
drop_past (suc n) (x ∷ xs) h = drop_past n xs (omega (arith, h))

drop-more : {A : Type 0} (n m : ℕ) (xs : List A) → drop n xs ≡ take m (drop n xs) ++ drop (n + m) xs
drop-more zero m xs = let e : 0 + m ≡ m = omega arith in rw e (sym (take-append-drop m xs))
drop-more {A} (suc n) m [] =
    let e : suc n + m ≡ suc (n + m) = omega arith in rw (e, take_nil {A = A} m) refl
drop-more (suc n) m (x ∷ xs) =
    let e : suc n + m ≡ suc (n + m) = omega arith in rw e (drop-more n m xs)

-- the bytes of all the pieces
pub bodies-pieces :
    (m : ℕ) (bytes : List ℕ)
    → 0 < m
    → (fuel i : ℕ) → length bytes ≤ i + fuel
    → bodies (pieces fuel m bytes i) ≡ drop i bytes
bodies-pieces m bytes pos zero i enough = sym (drop_past i bytes (omega (arith, enough)))
bodies-pieces m bytes pos (suc fuel) i enough = elim (Bool-cases (leb (length bytes) i)) [
  | inl e ↦ rw e (sym (drop_past i bytes (ground (arith, e))))
  | inr e ↦
      rw (e, bodies-pieces m bytes pos fuel (i + m) (omega (arith, enough, pos)))
        (sym (drop-more i m bytes))
]

-- the connection after more messages
abbrev pub streamed : List UploadMessage → App Link → App Link
streamed ps a = record a { client = record a.client { stream = a.client.stream ++ ps } }

pub send_chunks-pieces :
    (h : Handlers) (m : ℕ) (bytes : List ℕ)
    → usable_chunk_size m ≡ true
    → (fuel i : ℕ) (a : App Link)
    → send_chunks (connect h) fuel m bytes i a ≡ (ok tt, streamed (pieces fuel m bytes i) a)
unfolding send_chunks connect remote ◌>>=◌
send_chunks-pieces h m bytes usable zero i a = rw (append_nil a.client.stream) refl
send_chunks-pieces h m bytes usable (suc fuel) i a = elim (Bool-cases (leb (length bytes) i)) [
  | inl e ↦ rw (e, append_nil a.client.stream) refl
  | inr e ↦
      let c = chunk (i / m) (take m (drop i bytes)) in
      rw (e, usable)
        (send_chunks-pieces h m bytes usable fuel (i + m) (streamed (c ∷ []) a)
          ∙ ap {B = Result (Unit {0}) × App Link}
              (λ ms. (ok tt, record a { client = record a.client { stream = ms } }))
              (append_assoc a.client.stream (c ∷ []) (pieces fuel m bytes (i + m))))
]

-- The loop of UploadFile over a connection sends chunks that the server's receiving loop, with the same
-- chunk size and the number of the bytes as the expected size, takes whole: it ends with exactly the
-- bytes; where the chunk size is positive, and it and the number of bytes are below 2^63.
pub sent_received :
    (h : Handlers) (m : ℕ) (bytes : List ℕ) (a : App Link)
    → usable_chunk_size m ≡ true
    → length bytes < 2 ^ 63
    → (ps : List UploadMessage) × ((send_chunks (connect h) (length bytes) m bytes 0 a
          ≡ (ok tt, streamed ps a))
        × (receive_chunks m (length bytes) ps ≡ complete (length bytes) bytes))
unfolding receive_chunks
sent_received h m bytes a usable small =
    let pos : 0 < m = ground (arith, usable) in
    (
      pieces (length bytes) m bytes 0,
      (
        send_chunks-pieces h m bytes usable (length bytes) 0 a,
        pieces_received m bytes (length bytes) 0 0 0 [] pos small (omega arith) (zero-div m)
            (omega arith) (omega arith) refl,
      ),
    )
