-- ===== src/Blob/Stored.antt =====
-- What the upload calls leave of a blob: its row, with the key of its object, and the object; and
-- that CompleteClientUpload and CommitBlobUpload keep them.
pub mod Uploads
pub mod Starts
use goph_keeper.Common.{
  ℕ, String, Bool, true, false, ◌≡◌, ◌∙◌, refl, sym, ap, subst, Option, none, some, List, [], ◌∷◌,
  arith, str_eq, eq_iff, eq_refl, not, Bool-cases, inl, inr, if◌then◌else◌, ◌==◌, ltb,
}
use goph_keeper.Common.Table.{find?, exists?, update_where, delete_where}
use goph_keeper.Common.Rows.{find?-update_where}
use mathlib.Core.Option
use goph_keeper.Server.Steps.{called}
use goph_keeper.Common.Text.{trim_space}
use goph_keeper.Common.Bytes.{bytes_equal}
use goph_keeper.Server.Error.{
  Error, Result, ok, err, status, internal, driver_failure, unauthenticated, invalid_argument,
  err_upload_session_not_open,
}
use goph_keeper.Server.State.{Server, Object}
use goph_keeper.Server.Exec.{
  new_uuid, Exec, ◌>>=◌, ◌>>◌, call, catch, continue, handle, raise, now, guard, found,
}
use goph_keeper.Server.Keeps.{Keeps, Keeps-bind, Keeps-found, Keeps-guard, Keeps-catch, Keeps-raise}
use goph_keeper.Server.Frame.{IsFramed, Keeps-call, Keeps-now, Keeps-transaction}
use goph_keeper.Server.Ensures.{
  Ensures, Any, Ensures-bind, Ensures-Keeps, Ensures-Any, Ensures-on_error, Ensures-found,
  Ensures-transaction, Ensures-returns, Ensures-fact,
}
use goph_keeper.Blob.Types.{Blob, UploadSession}
use goph_keeper.Blob.Repository.{exec_insert_blob, blob_key, get_by_id, update_blobs}
use goph_keeper.Blob.UploadStore.{
  awaits_bytes, session_key, get_session, complete_client_upload, close_stream,
  commit_uploaded_blob,
}
use goph_keeper.Common.Text.{concat}
use goph_keeper.Blob.Start.{
  StartBlobUploadRequest, StartBlobUploadResponse, start_blob_upload, pending_blob, open_session,
}
use goph_keeper.Blob.UploadStore.{start_session, set_sessions}
use goph_keeper.Blob.Storage.{at_key, put_object, get_object}
use goph_keeper.Blob.Chunks.{
  UploadMessage, header, Received, complete, broken, not_a_chunk, rejected, receive_chunks,
}
use goph_keeper.Blob.Gathered.{bodies, received_complete}
use goph_keeper.Blob.Handler.{BlobHandler, abort_if, abort_upload, session_error, blob_error}
use goph_keeper.Blob.Commit.{commit_blob_upload, commit_session}
use goph_keeper.Blob.Upload.{
  upload_blob, with_header, upload_to_session, receive_blob, end_of_loop, finalize_failed,
}

-- The row of the user's blob is there, with the key of its object.
abbrev pub IsKeyed : String → String → String → Server → Type 0
IsKeyed user bid key s =
    (b : Blob) × ((find? (blob_key user bid) s.blobs ≡ some b) × (b.object_key ≡ key))

-- The object under the key has the content.
abbrev pub IsStored : String → List ℕ → Server → Type 0
IsStored key content s =
    (o : Object) × ((find? (at_key key) s.objects ≡ some o) × (o.content ≡ content))

abbrev pub IsUploaded : String → String → String → List ℕ → Server → Type 0
IsUploaded user bid key content s = IsKeyed user bid key s × IsStored key content s

-- The session of the upload is there, and is of the blob.
abbrev pub IsHeld : String → String → String → Server → Type 0
IsHeld user bid sid s =
    (w : UploadSession) × ((find? (session_key user sid) s.upload_sessions ≡ some w)
      × (w.blob_id ≡ bid))

abbrev pub object_key_of : String → String → String
object_key_of user bid = concat "users/" (concat user (concat "/blobs/" bid))

-- A method that changes no blob and no object.
abbrev Spares : {A : Type 0} → Exec A → Type 0
Spares m = (s : Server) → ((m s).1.db.blobs ≡ s.db.blobs) × ((m s).1.objects ≡ s.objects)

pub get_session-Spares : (v i : String) → Spares (get_session v i)
unfolding get_session call ◌>>=◌
get_session-Spares v i s = ground arith

pub get_by_id-Spares : (v i : String) → Spares (get_by_id v i)
unfolding get_by_id call ◌>>=◌
get_by_id-Spares v i s = ground arith

get_object-Spares : (k : String) → Spares (get_object k)
unfolding get_object call ◌>>=◌
get_object-Spares k s = ground arith

close_stream-Spares :
    (v i : String) (n at : ℕ) (o : Option UploadSession) → Spares (close_stream v i n at o)
unfolding complete_client_upload call ◌>>=◌
close_stream-Spares v i n at o s = ground arith

module _ (user bid key : String) (content : List ℕ) where
  abbrev HasKey : Server → Type 0
  HasKey = IsKeyed user bid key

  abbrev HasContent : Server → Type 0
  HasContent = IsUploaded user bid key content

  pub framed : IsFramed HasContent
  framed = record { env = λ s e h. h; back = λ s t h k. (h.0, k.1) }

  keyed_choice :
      (p : Bool) (b c : Blob)
      → c.object_key ≡ b.object_key
      → (if p then c else b).object_key ≡ b.object_key
  keyed_choice true b c e = e
  keyed_choice false b c e = refl

  update_blobs-IsKeyed :
      (p : Blob → Bool) (f : Blob → Blob)
      → ((r : Blob) → blob_key user bid (f r) ≡ blob_key user bid r)
      → ((r : Blob) → (f r).object_key ≡ r.object_key)
      → Keeps HasKey (update_blobs p f)
  unfolding update_blobs
  update_blobs-IsKeyed p f same keys = record {
    at = λ s (b, (row, keyed)). elim (Bool-cases (exists? p s.blobs)) [
      | inl e ↦ rw e (
        if p b then f b else b,
        (
          find?-update_where (blob_key user bid) p f same s.blobs ∙ rw row refl,
          keyed_choice (p b) b (f b) (keys b) ∙ keyed,
        ),
      )
      | inr e ↦ rw e (b, (row, keyed))
    ];
  }

  pub put_object-IsUploaded :
      (t : String) → Ensures HasKey (put_object key content t) (λ _. HasContent)
  unfolding put_object call ◌>>=◌ find?
  put_object-IsUploaded t = record {
    after = λ s h a e.
        let o : Object = record { object_key = key; content = content; content_type = t } in
        let left : (put_object key content t s).1
            ≡ record (called s) { objects = o ∷ delete_where (at_key key) s.objects } =
          ground (arith, e) in
        subst HasContent (sym left) (h, (o, (rw (eq_refl key) refl, refl)));
  }

  Keeps-Spares : {A : Type 0} (m : Exec A) → Spares m → Keeps HasContent m
  Keeps-Spares m k = record { at = λ s h. let (b, o) = k s in rw (b, o) h }

  update_blobs-IsUploaded :
      (p : Blob → Bool) (f : Blob → Blob)
      → ((r : Blob) → blob_key user bid (f r) ≡ blob_key user bid r)
      → ((r : Blob) → (f r).object_key ≡ r.object_key)
      → Keeps HasContent (update_blobs p f)
  unfolding update_blobs
  update_blobs-IsUploaded p f same keys = record {
    at = λ s (k, o).
        let objects : (update_blobs p f s).1.objects ≡ s.objects = ground arith in
        ((update_blobs-IsKeyed p f same keys).at s k, rw objects o);
  }

  pub complete-IsUploaded : (v i : String) (n : ℕ) → Keeps HasContent (complete_client_upload v i n)
  unfolding complete_client_upload
  complete-IsUploaded v i n = Keeps-transaction framed _ (
      Keeps-bind _ _ (Keeps-now framed) λ at. Keeps-bind _ _ (Keeps-call framed _) λ _.
        Keeps-bind _ _
          (record {
            at = λ s h.
                (Keeps-Spares (close_stream v i n at (find? (awaits_bytes v i n) s.upload_sessions))
                    (close_stream-Spares v i n at
                      (find? (awaits_bytes v i n) s.upload_sessions))).at
                  s h;
          })
          λ id.
            Keeps-bind _ _ (Keeps-call framed _)
              λ _. update_blobs-IsUploaded _ _ (λ r. refl) (λ r. refl))

  commit_uploaded_blob-IsUploaded :
      (v i : String) (at : ℕ) → Keeps HasContent (commit_uploaded_blob v i at)
  unfolding commit_uploaded_blob
  commit_uploaded_blob-IsUploaded v i at = Keeps-transaction framed _ (
      Keeps-bind _ _ (Keeps-Spares _ (get_session-Spares v i)) λ row.
        Keeps-bind _ _ (Keeps-now framed) λ t. Keeps-bind _ _ (Keeps-guard _ _) λ _.
          Keeps-bind _ _ (Keeps-guard _ _) λ _. Keeps-bind _ _ (Keeps-call framed _) λ _.
            Keeps-bind _ _ (record { at = λ s h. h })
              λ _.
                Keeps-bind _ _ (Keeps-call framed _)
                  λ _. update_blobs-IsUploaded _ _ (λ r. refl) (λ r. refl))

  -- A commit leaves the object of a blob and the key in its row, whether it succeeds or not.
  pub commit-IsUploaded :
      (h : BlobHandler) (auth req : Option String)
      → Keeps HasContent (commit_blob_upload h auth req)
  unfolding commit_blob_upload commit_session
  commit-IsUploaded h auth req = Keeps-bind _ _ (Keeps-found _ _) λ u.
      Keeps-bind _ _ (Keeps-found _ _) λ id. Keeps-bind _ _ (Keeps-guard _ _) λ _.
        Keeps-bind _ _ (Keeps-guard _ _) λ _.
          Keeps-bind _ _
            (Keeps-catch _ _ (Keeps-Spares _ (get_session-Spares _ _)) λ e. Keeps-raise _)
            λ w. Keeps-bind _ _ (Keeps-now framed) λ at. Keeps-bind _ _ (Keeps-guard _ _) λ _.
              Keeps-bind _ _ (Keeps-guard _ _) λ _.
                Keeps-bind _ _
                  (Keeps-catch _ _ (Keeps-Spares _ (get_by_id-Spares _ _)) λ e. Keeps-raise _)
                  λ b. Keeps-bind _ _ (Keeps-guard _ _) λ _.
                    Keeps-bind _ _
                      (Keeps-catch _ _ (Keeps-Spares _ (get_object-Spares _)) λ e. Keeps-raise _)
                      λ o. Keeps-bind _ _ (Keeps-guard _ _) λ _.
                        Keeps-bind _ _ (Keeps-now framed) λ t.
                          Keeps-bind _ _
                            (Keeps-catch _ _ (commit_uploaded_blob-IsUploaded _ _ _)
                              λ e. Keeps-raise _)
                            λ _.
                              Keeps-catch _ _ (Keeps-Spares _ (get_by_id-Spares _ _))
                                λ e. Keeps-raise _
