-- ===== src/Examples/Blobs.antt =====
-- Uploads: calls that meet a committed blob.
use goph_keeper.Common.{ℕ, length, ◌≡◌, refl, some, [], ◌∷◌}
use goph_keeper.Common.Table.{find?}
use goph_keeper.Blob.Repository.{blob_key}
use goph_keeper.Blob.Chunks.{header, chunk, wrap_u64, receive, receive_chunks}
use goph_keeper.Blob.Gathered.{InOrder, bodies, received_complete}
use goph_keeper.Blob.Committed.Runs.{starts, uploads, commits, serve_all, serve_all-HasRow}
use goph_keeper.Examples.Data.{photo, photo_server, blob_handler, scan_request}

serve_all-HasRow_example :
    find?
      (blob_key "ann" "photo")
      (serve_all blob_handler
        (starts (some "bob") (some scan_request)
          ∷ (uploads (some "bob") (header "1" ∷ (chunk 0 (5 ∷ (6 ∷ [])) ∷ (chunk 1 (7 ∷ []) ∷ [])))
              ∷ (commits (some "bob") (some "1") ∷ [])))
        photo_server).blobs
    ≡ some photo
unfolding find?
serve_all-HasRow_example =
    serve_all-HasRow "ann" "photo" photo refl blob_handler
      (starts (some "bob") (some scan_request)
        ∷ (uploads (some "bob") (header "1" ∷ (chunk 0 (5 ∷ (6 ∷ [])) ∷ (chunk 1 (7 ∷ []) ∷ [])))
            ∷ (commits (some "bob") (some "1") ∷ [])))
      photo_server refl

received_complete_example :
    InOrder 2 0 (chunk 0 (5 ∷ (6 ∷ [])) ∷ (chunk 1 (7 ∷ []) ∷ []))
    × (5 ∷ (6 ∷ (7 ∷ [])) ≡ bodies (chunk 0 (5 ∷ (6 ∷ [])) ∷ (chunk 1 (7 ∷ []) ∷ [])))
    × (3 ≡ wrap_u64 (length {A = ℕ} (5 ∷ (6 ∷ (7 ∷ [])))))
unfolding receive_chunks receive
received_complete_example =
    received_complete 2 3 (chunk 0 (5 ∷ (6 ∷ [])) ∷ (chunk 1 (7 ∷ []) ∷ [])) 3 (5 ∷ (6 ∷ (7 ∷ [])))
      refl
