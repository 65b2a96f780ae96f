-- ===== src/Blob/Download/Complete.antt =====
-- What the sending loop of a download has sent when it ends without an error.
use goph_keeper.Common.{
  ℕ, ◌+◌, Bool, true, false, ◌≡◌, ◌∙◌, refl, sym, ap, Option, none, some, List, [], ◌∷◌, ◌++◌,
  arith, if◌then◌else◌, ◌==◌, Bool-cases, inl, inr, append_assoc, append_nil,
}
use mathlib.Core.Option
use goph_keeper.Server.Exec.{Exec}
use goph_keeper.Server.Ensures.{Ensures, Any, Ensures-bind, Ensures-Any, Ensures-returns}
use goph_keeper.Blob.Types.{Blob}
use goph_keeper.Blob.Chunks.{wrap_u64}
use goph_keeper.Blob.Download.{
  ReadEnd, more, at_eof, failed, Read, read, DownloadMessage, header, chunk, Download,
  to_proto_blob_info, is_empty, put, next_index, counted, after_read, send_chunks, send_body,
}

-- The parts of an object that a reader delivers up to io.EOF; none if a read fails.
abbrev with_part : List ℕ → List (List ℕ) → List (List ℕ)
with_part bytes ps = if is_empty bytes then ps else bytes ∷ ps

abbrev at_end : ReadEnd → List ℕ → Option (List (List ℕ)) → Option (List (List ℕ))
at_end more bytes later = Option.map (with_part bytes) later
at_end at_eof bytes later = some (with_part bytes [])
at_end failed bytes later = none

unfoldable pub parts : List Read → Option (List (List ℕ))
parts [] = some []
parts (read bytes e ∷ reads) = at_end e bytes (parts reads)

-- the chunks of parts, numbered in order
unfoldable pub numbered : ℕ → List (List ℕ) → List DownloadMessage
numbered n [] = []
numbered n (p ∷ ps) = chunk n p ∷ numbered (wrap_u64 (n + 1)) ps

unfoldable pub joined : List (List ℕ) → List ℕ
joined [] = []
joined (p ∷ ps) = p ++ joined ps

-- A loop that ends without an error has sent the parts of its reads after what was sent before.
abbrev pub Sent : Option (List (List ℕ)) → ℕ → List DownloadMessage → Download → Type 0
Sent ps idx out d =
    d.ended ≡ none → (qs : List (List ℕ)) × (ps ≡ some qs) × (d.sent ≡ out ++ numbered idx qs)

-- One part more in front.
put_numbered :
    (idx : ℕ) (bytes : List ℕ) (out : List DownloadMessage) (qs : List (List ℕ))
    → put out idx bytes ++ numbered (next_index idx bytes) qs
      ≡ out ++ numbered idx (with_part bytes qs)
unfolding numbered
put_numbered idx bytes out qs = elim (Bool-cases (is_empty bytes)) [
  | inl e ↦ rw e refl
  | inr e ↦ rw e (append_assoc out (chunk idx bytes ∷ []) _)
]

after_read-Sent :
    (sent : Bool) (e : ReadEnd) (size total idx : ℕ) (bytes : List ℕ) (out : List DownloadMessage)
    (rest : Exec Download) (later : Option (List (List ℕ)))
    → Ensures Any rest (λ d _. Sent later (next_index idx bytes) (put out idx bytes) d)
    → Ensures Any
        (after_read sent e size total out (put out idx bytes) rest)
        (λ d _. Sent (at_end e bytes later) idx out d)
unfolding numbered
after_read-Sent false e size total idx bytes out rest later k = Ensures-returns _ λ s p h. absurd cc
after_read-Sent true more size total idx bytes out rest later k = record {
  after = λ s p d ran h.
      let (qs, e, sent) = k.after s p d ran h in
      (
        with_part bytes qs,
        ap (Option.map (with_part bytes)) e,
        sent ∙ put_numbered idx bytes out qs,
      );
}
after_read-Sent true at_eof size total idx bytes out rest later k = Ensures-returns _ λ s p h.
    (with_part bytes [], refl, sym (append_nil (put out idx bytes)) ∙ put_numbered idx bytes out [])
after_read-Sent true failed size total idx bytes out rest later k =
    Ensures-returns _ λ s p h. absurd cc

send_chunks-Sent :
    (size : ℕ) (reads : List Read) (idx total : ℕ) (out : List DownloadMessage)
    → Ensures Any (send_chunks size reads idx total out) (λ d _. Sent (parts reads) idx out d)
unfolding send_chunks parts numbered
send_chunks-Sent size [] idx total out = Ensures-returns _ λ s p h. ([], refl, sym (append_nil out))
send_chunks-Sent size (read bytes e ∷ reads) idx total out =
    Ensures-bind _ _ (Ensures-Any _) λ sent.
      after_read-Sent sent e size (counted total bytes) idx bytes out _ (parts reads) (
        send_chunks-Sent size reads (next_index idx bytes) (counted total bytes)
          (put out idx bytes))

-- A body that ends without an error: the header, and the chunks of the parts.
pub send_body-Sent :
    (started : Bool) (max_chunk : ℕ) (b : Blob) (reads : List Read)
    → Ensures Any
        (send_body started max_chunk b reads)
        (λ d _. Sent (parts reads) 0 (header (to_proto_blob_info b) ∷ []) d)
send_body-Sent false max_chunk b reads = Ensures-returns _ λ s p h. absurd cc
send_body-Sent true max_chunk b reads = record {
  after = λ s p d ran h. elim (Bool-cases (max_chunk == 0)) [
    | inl e ↦ absurd (ground (arith, ran, h, e))
    | inr e ↦
        (send_chunks-Sent b.size_bytes reads 0 0 (header (to_proto_blob_info b) ∷ [])).after s tt d
          (ground (arith, ran, e)) h
  ];
}
