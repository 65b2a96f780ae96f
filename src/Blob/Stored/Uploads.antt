-- ===== src/Blob/Stored/Uploads.antt =====
-- An upload that succeeds: the bytes of its chunks are the object of its blob.
use goph_keeper.Common.{
  ℕ, String, Bool, true, false, ◌≡◌, ◌∙◌, refl, sym, ap, Option, some, List, ◌∷◌, arith, str_eq,
}
use goph_keeper.Common.Table.{find?}
use goph_keeper.Common.Text.{trim_space}
use goph_keeper.Server.Error.{
  Error, status, unauthenticated, invalid_argument, err_upload_session_not_open,
}
use goph_keeper.Server.State.{Server}
use goph_keeper.Server.Exec.{◌>>=◌, call}
use goph_keeper.Server.Keeps.{Keeps-guard}
use goph_keeper.Server.Frame.{IsFramed, Keeps-call, Keeps-now}
use goph_keeper.Server.Ensures.{
  Ensures, Ensures-bind, Ensures-Keeps, Ensures-on_error, Ensures-found, Ensures-returns,
}
use goph_keeper.Blob.Types.{Blob, UploadSession}
use goph_keeper.Blob.Repository.{blob_key, get_by_id}
use goph_keeper.Blob.UploadStore.{session_key, get_session}
use goph_keeper.Blob.Storage.{put_object}
use goph_keeper.Blob.Chunks.{
  UploadMessage, header, Received, complete, broken, not_a_chunk, rejected, receive_chunks,
}
use goph_keeper.Blob.Gathered.{bodies, received_complete}
use goph_keeper.Blob.Handler.{BlobHandler, abort_if, abort_upload, session_error, blob_error}
use goph_keeper.Blob.Upload.{
  upload_blob, with_header, upload_to_session, receive_blob, end_of_loop, finalize_failed,
}
use goph_keeper.Server.Fails.{
  Fails, Fails-bind, Fails-raise, Ensures-Fails, Ensures-catch, Ensures-if, Ensures-from,
}
use goph_keeper.Blob.Stored.{
  IsKeyed, IsHeld, IsUploaded, framed, put_object-IsUploaded, complete-IsUploaded,
  get_session-Spares, get_by_id-Spares,
}

module _ {P : Server → Type 0} where
  -- A test that ends in abortUpload passed.
  abort_passes :
      (c : Bool) (v i j k : String) (e : Error) → Ensures P (abort_if c v i j k e) (λ _. P)
  unfolding abort_if
  abort_passes true v i j k e =
      Ensures-Fails _ (Fails-bind (abort_upload v i j k) _ (λ _. Fails-raise e))
  abort_passes false v i j k e = Ensures-returns _ (λ s p. p)

  loop_passes :
      (r : Received) (v i j k : String)
      → Ensures P (end_of_loop r v i j k) (λ p s. P s × (r ≡ complete p.0 p.1))
  unfolding end_of_loop
  loop_passes (complete t b) v i j k = Ensures-returns _ (λ s p. (p, refl))
  loop_passes broken v i j k = Ensures-Fails _ (Fails-raise _)
  loop_passes not_a_chunk v i j k = Ensures-Fails _ (Fails-raise _)
  loop_passes rejected v i j k =
      Ensures-Fails _ (Fails-bind (abort_upload v i j k) _ (λ _. Fails-raise _))

finalize_failed-Fails : (v i j k : String) (e : Error) → Fails (finalize_failed v i j k e)
unfolding finalize_failed
finalize_failed-Fails v i j k err_upload_session_not_open = Fails-raise _
finalize_failed-Fails v i j k _ =
    Fails-bind _ _ λ _. Fails-bind (abort_upload v i j "") _ λ _. Fails-raise _

some_eq : {A : Type 0} {a b : A} → ◌≡◌ {A = Option A} (some a) (some b) → a ≡ b
some_eq h = cc

module _ (user bid key : String) (content : List ℕ) where
  abbrev HasKey : Server → Type 0
  HasKey = IsKeyed user bid key

  abbrev HasContent : Server → Type 0
  HasContent = IsUploaded user bid key content

  session_got :
      (sid : String)
      → Ensures
          (λ s. HasKey s × IsHeld user bid sid s)
          (get_session user sid)
          (λ w s. HasKey s × (w.blob_id ≡ bid))
  unfolding get_session call ◌>>=◌
  session_got sid = record {
    after = λ s (k, (w, (row, of_blob))) v e.
        let there : find? (session_key user sid) s.upload_sessions ≡ some v = ground (arith, e) in
        let same : w ≡ v = some_eq (sym row ∙ there) in
        let (blobs, _) = get_session-Spares user sid s in
        (rw blobs k, ap (λ (x : UploadSession). x.blob_id) (sym same) ∙ of_blob);
  }

  known_framed : (F : Type 0) → IsFramed (λ s. HasKey s × F)
  known_framed F = record { env = λ s e h. h; back = λ s t h k. h }

  blob_got :
      (id : String)
      → Ensures
          (λ s. HasKey s × (id ≡ bid))
          (get_by_id user id)
          (λ b s. HasKey s × (b.object_key ≡ key))
  unfolding get_by_id call ◌>>=◌
  blob_got id = record {
    after = λ s ((c, (row, keyed)), same) v e.
        let there : find? (blob_key user id) s.blobs ≡ some v = ground (arith, e) in
        let is : c ≡ v = some_eq (sym row ∙ rw same at there) in
        let (blobs, _) = get_by_id-Spares user id s in
        ((c, (rw blobs row, keyed)), ap (λ (x : Blob). x.object_key) (sym is) ∙ keyed);
  }

  put_known :
      (k t : String) (bytes : List ℕ)
      → Ensures
          (λ s. HasKey s × ((k ≡ key) × (bytes ≡ content)))
          (put_object k bytes t)
          (λ _. HasContent)
  put_known k t bytes = record {
    after = λ s (h, (same, all)) a e.
        rw (same, all)
          ((put_object-IsUploaded user bid key content t).after s h a (rw (same, all) at e));
  }

  receive_blob-IsUploaded :
      (h : BlobHandler) (v i : String) (w : UploadSession) (b : Blob) (ms : List UploadMessage)
      → bodies ms ≡ content
      → Ensures (λ s. HasKey s × (b.object_key ≡ key)) (receive_blob h v i w b ms) (λ _. HasContent)
  unfolding receive_blob
  receive_blob-IsUploaded h v i w b ms is =
      Ensures-bind _ _
        (loop_passes (receive_chunks h.max_chunk_size_bytes w.expected_size ms) v i w.blob_id
          b.object_key)
        λ p.
          Ensures-from
            (λ s ((k, keyed), r).
              let (_, all, _) =
                received_complete h.max_chunk_size_bytes w.expected_size ms p.0 p.1 r in
              (k, (keyed, all ∙ is)))
            (Ensures-bind _ _ (abort_passes _ v i w.blob_id b.object_key _) λ _.
              Ensures-bind _ _ (abort_passes _ v i w.blob_id b.object_key _) λ _.
                Ensures-bind _ _ (Ensures-Keeps _ (Keeps-now (known_framed _))) λ later.
                  Ensures-bind _ _ (abort_passes _ v i w.blob_id b.object_key _) λ _.
                    Ensures-bind _ _
                      (Ensures-catch _ _
                        (λ e.
                          Fails-bind (abort_upload v i w.blob_id b.object_key) _ λ _. Fails-raise _)
                        (put_known b.object_key _ p.1))
                      λ _.
                        Ensures-bind _ _
                          (Ensures-catch _ _ (finalize_failed-Fails v i w.blob_id b.object_key)
                            (Ensures-Keeps _ (complete-IsUploaded user bid key content v i p.0)))
                          λ _.
                            Ensures-bind _ _
                              (Ensures-Keeps _ (Keeps-call (framed user bid key content) _))
                              λ _. Ensures-returns _ (λ s q. q))

  upload_to_session-IsUploaded :
      (h : BlobHandler) (sid : String) (ms : List UploadMessage)
      → bodies ms ≡ content
      → Ensures
          (λ s. HasKey s × IsHeld user bid sid s)
          (upload_to_session h user sid ms)
          (λ _. HasContent)
  unfolding upload_to_session
  upload_to_session-IsUploaded h sid ms is =
      Ensures-bind _ _ (Ensures-on_error _ session_error (session_got sid)) λ w.
        Ensures-bind _ _ (Ensures-Keeps _ (Keeps-now (known_framed _))) λ at.
          Ensures-bind _ _ (abort_passes _ user sid w.blob_id "" _) λ _.
            Ensures-bind _ _ (Ensures-Keeps _ (Keeps-guard _ _)) λ _.
              Ensures-bind _ _ (Ensures-on_error _ blob_error (blob_got w.blob_id)) λ b.
                Ensures-bind _ _ (Ensures-Keeps _ (Keeps-guard _ _))
                  λ _. receive_blob-IsUploaded h user sid w b ms is

  -- An upload that succeeds, on a session of the blob, leaves the bytes of its chunks as the blob's object.
  pub upload_blob-IsUploaded :
      (h : BlobHandler) (sid : String) (ms : List UploadMessage)
      → trim_space sid ≡ sid
      → bodies ms ≡ content
      → Ensures
          (λ s. HasKey s × IsHeld user bid sid s)
          (upload_blob h (some user) (header sid ∷ ms))
          (λ _. HasContent)
  unfolding upload_blob with_header upload_to_session
  upload_blob-IsUploaded h sid ms trimmed is = Ensures-found user (status unauthenticated) _ (
      Ensures-bind _ _ (Ensures-Keeps _ (Keeps-guard h.configured _)) λ _.
        Ensures-if (str_eq (trim_space sid) "") _ _ (Fails-raise (status invalid_argument))
          (rw trimmed (upload_to_session-IsUploaded h sid ms is)))
