-- ===== src/Client/Uploaded.antt =====
-- UploadFile over a connection to the server, and DownloadFile after it.
use goph_keeper.Common.{
  ℕ, ◌<◌, String, ◌≡◌, ◌∙◌, sym, ap, some, List, ◌++◌, arith, length, length-append,
}
use goph_keeper.Blob.Stored.{IsUploaded, object_key_of}
use goph_keeper.Blob.Stored.Starts.{IsTrimmed, AreTrimmed}
use goph_keeper.Client.Run.{ok, found, file_failure}
use goph_keeper.Client.Steps.{Returns, in_steps, found-some}
use goph_keeper.Client.App.{App, remote}
use goph_keeper.Client.Crypto.{Library, encrypt}
use goph_keeper.Client.Vault.{unlocked}
use goph_keeper.Client.Files.{download_file, upload_file, upload_request}
use goph_keeper.Client.Sealed.{AeadLaw, FillsSlices, IsSealed, encrypt-IsSealed}
use goph_keeper.Client.Added.{unlocked_key}
use goph_keeper.Client.Link.{Link, Handlers, connect}
use goph_keeper.Client.Account.{some_injective}
use goph_keeper.Client.Fetched.{download_file-Sealed}
use goph_keeper.Blob.Download.Complete.{parts, joined}
use goph_keeper.Client.Uploads.{IsSame, then_same, started, streamed_Uploaded}

module _ (h : Handlers) (user : String) where
  -- What UploadFile leaves when it succeeds.
  pub record Uploaded (lib : Library) (file : List ℕ) (id : String) (a a' : App Link) : Type 0 where
    pub nonce : List ℕ
    pub ciphertext : List ℕ
    pub sealed : IsSealed lib a.dek file nonce ciphertext
    pub trimmed : IsTrimmed id
    pub same : IsSame a' a
    pub held : IsUploaded user id (object_key_of user id) (nonce ++ ciphertext) a'.client.server

  upload_file-Uploaded :
      (lib : Library) (a a' : App Link) (file : List ℕ) (file_name id : String)
      → FillsSlices a.random
      → a.client.user ≡ some user
      → AreTrimmed a.client.server
      → Returns (upload_file (connect h) lib (some file) file_name) a id a'
      → Uploaded lib file id a a'
  unfolding upload_file
  upload_file-Uploaded lib a a' file file_name id fills who trimmed ran =
      in_steps unlocked _ a id a' ran λ dek a1 h1 k1.
        in_steps (found (some file) file_failure) _ a1 id a' k1 λ bytes a2 h2 k2.
          in_steps (encrypt lib dek bytes) _ a2 id a' k2 λ r a3 h3 k3.
            in_steps
              (remote ((connect h).start_blob_upload (upload_request lib file_name (r.0 ++ r.1)))) _
              a3 id a' k3
              λ resp a4 h4 k4.
                let (_, key, d1) = unlocked_key a dek a1 h1 in
                let (is, d2) = found-some (some file) file_failure a1 bytes a2 h2 in
                let before : a2 ≡ a = d2 ∙ d1 in
                let (sealed, d3) = encrypt-IsSealed lib dek bytes a2 r a3 (rw before fills) h3 in
                let client : a3.client ≡ a.client =
                  ap (λ (b : App Link). b.client) d3 ∙ ap (λ (b : App Link). b.client) before in
                let (same4, (held4, (session_trimmed, blob_trimmed))) =
                  started h user (upload_request lib file_name (r.0 ++ r.1)) a3 resp a4 h4
                    (rw client who) (rw client trimmed) in
                let filled : 0 < length (r.0 ++ r.1) =
                  omega (arith, length-append r.0 r.1, sealed.nonce_sized) in
                let (id_is, (same9, held9)) =
                  streamed_Uploaded h user resp.blob_id (object_key_of user resp.blob_id)
                    resp.upload_session_id id resp.max_chunk_size (r.0 ++ r.1) a4 a' filled
                    (same4.1 ∙ ap (λ (l : Link). l.user) client ∙ who) session_trimmed held4 k4 in
                let first : IsSame a3 a = (
                  ap (λ (b : App Link). b.dek) d3 ∙ ap (λ (b : App Link). b.dek) before,
                  ap (λ (l : Link). l.user) client,
                ) in
                record {
                  nonce = r.0;
                  ciphertext = r.1;
                  sealed = rw (key, sym (some_injective is)) at sealed;
                  trimmed = rw id_is at blob_trimmed;
                  same = then_same a a4 a' (then_same a a3 a4 first same4) same9;
                  held = rw id_is at held9;
                }

  -- A file that UploadFile has uploaded is what DownloadFile returns for its blob, to any client of the
  -- same user with the same key and a connection to that server, if both succeed; where the library's
  -- AEAD opens what it sealed, the generator fills its slices, the server's identifiers have no space
  -- around them, and the reader of the storage, once it is at io.EOF, has delivered the content.
  pub upload_file-download_file :
      (lib : Library)
      → AeadLaw lib
      → ((n : ℕ) (content : List ℕ) (ps : List (List ℕ))
          → parts (h.reader n content) ≡ some ps
          → joined ps ≡ content)
      → (a a' b b' : App Link) (file v : List ℕ) (file_name id : String) → FillsSlices a.random
      → AreTrimmed a.client.server
      → a.client.user ≡ some user
      → Returns (upload_file (connect h) lib (some file) file_name) a id a'
      → b.client.server ≡ a'.client.server
      → b.client.user ≡ some user
      → b.dek ≡ a.dek
      → Returns (download_file (connect h) lib id) b v b'
      → (download_file (connect h) lib id b).0 ≡ ok file
  upload_file-download_file lib law reads a a' b b' file v file_name id fills uuids who uploaded
        server user_b key downloaded =
      let up = upload_file-Uploaded lib a a' file file_name id fills who uuids uploaded in
      let ((blob, (row, keyed)), (o, (object, content))) = up.held in
      download_file-Sealed h lib law reads b b' user id v file up.nonce up.ciphertext blob o user_b
        (rw (up.trimmed, server) row) (rw (keyed, server) object) content (rw key up.sealed)
        downloaded
