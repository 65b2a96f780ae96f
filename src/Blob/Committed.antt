-- ===== src/Blob/Committed.antt =====
-- No call of the upload API changes the row of a committed blob, whether the call succeeds or fails.
pub mod Runs
use goph_keeper.Common.{
  ℕ, String, Bool, true, false, ◌&&◌, ◌||◌, not, ◌≡◌, refl, ap, ◌∙◌, Option, none, some, List, [],
  ◌∷◌, arith, str_eq, eq_iff, Bool-cases, inl, inr, if◌then◌else◌,
}
use goph_keeper.Common.Table.{find?, exists?, update_where}
use goph_keeper.Common.Rows.{find?-holds}
use goph_keeper.Server.Error.{Error, Result, ok, err}
use goph_keeper.Server.State.{Server}
use goph_keeper.Server.Exec.{Exec, ◌>>=◌, call, now, new_uuid}
use goph_keeper.Server.Steps.{called}
use goph_keeper.Server.Transaction.{transaction}
use goph_keeper.Server.Keeps.{
  Keeps, Keeps-pure, Keeps-raise, Keeps-found, Keeps-guard, Keeps-bind, Keeps-catch, Keeps-if,
  Keeps-ignore,
}
use goph_keeper.Blob.Types.{Blob, UploadSession, Status, committed, pending, uploading, status_eq}
use goph_keeper.Blob.Repository.{
  blob_key, exec_insert_blob, get_by_id, mark_failed, update_blobs, in_flight,
}
use goph_keeper.Blob.UploadStore.{
  start_session, get_session, delete_session, complete_client_upload, commit_uploaded_blob,
  close_stream,
}
use goph_keeper.Blob.Storage.{put_object, get_object, delete_object}
use goph_keeper.Server.Error.{err_upload_session_not_open}
use goph_keeper.Blob.Chunks.{UploadMessage, Received, complete}
use goph_keeper.Blob.Start.{StartBlobUploadRequest, start_blob_upload}
use goph_keeper.Blob.Upload.{end_of_loop, finalize_failed, receive_blob, upload_to_session}
use goph_keeper.Blob.Handler.{BlobHandler, abort_upload, abort_if}

abbrev pub HasRow : String → String → Blob → Server → Type 0
HasRow u id b s = find? (blob_key u id) s.blobs ≡ some b

-- An update of rows that are not committed.
update_other :
    (u id : String) (b : Blob) (p : Blob → Bool) (f : Blob → Blob) (bs : List Blob)
    → ((r : Blob) → blob_key u id (f r) ≡ blob_key u id r)
    → p b ≡ false
    → find? (blob_key u id) bs ≡ some b
    → find? (blob_key u id) (update_where p f bs) ≡ some b
unfolding find? update_where
update_other u id b p f [] keep other h = h
update_other u id b p f (r ∷ bs) keep other h =
    ground (arith, keep r, update_other u id b p f bs keep other)

-- The key of a row that is there is taken.
key_taken :
    (u id : String) (b r : Blob) (bs : List Blob)
    → find? (blob_key u id) bs ≡ some b
    → str_eq r.blob_id id ≡ true
    → exists? (λ x. str_eq x.blob_id r.blob_id || str_eq x.object_key r.object_key) bs ≡ true
unfolding find? exists?
key_taken u id b r [] h e = cc
key_taken u id b r (x ∷ bs) h e = ground (
  arith,
  key_taken u id b r bs,
  eq_iff x.blob_id id,
  eq_iff r.blob_id id,
  eq_iff x.blob_id r.blob_id,
)

module _ (u id : String) (b : Blob) (done : b.status ≡ committed) where
  insert-HasRow : (r : Blob) → Keeps (HasRow u id b) (exec_insert_blob r)
  unfolding exec_insert_blob call ◌>>=◌ find?
  insert-HasRow r = record { at = λ s h. ground (arith, key_taken u id b r s.blobs) }

  call-HasRow : (e : Error) → Keeps (HasRow u id b) (call e)
  unfolding call
  call-HasRow e = record { at = λ s h. h }

  now-HasRow : Keeps (HasRow u id b) now
  unfolding now
  now-HasRow = record { at = λ s h. h }

  new_uuid-HasRow : Keeps (HasRow u id b) new_uuid
  unfolding new_uuid
  new_uuid-HasRow = record { at = λ s h. h }

  get_by_id-HasRow : (v i : String) → Keeps (HasRow u id b) (get_by_id v i)
  unfolding get_by_id call ◌>>=◌
  get_by_id-HasRow v i = record { at = λ s h. ground arith }

  get_session-HasRow : (v i : String) → Keeps (HasRow u id b) (get_session v i)
  unfolding get_session call ◌>>=◌
  get_session-HasRow v i = record { at = λ s h. ground arith }

  delete_session-HasRow : (v i : String) → Keeps (HasRow u id b) (delete_session v i)
  unfolding delete_session call ◌>>=◌
  delete_session-HasRow v i = record { at = λ s h. ground arith }

  put_object-HasRow :
      (k : String) (c : List ℕ) (t : String) → Keeps (HasRow u id b) (put_object k c t)
  unfolding put_object call ◌>>=◌
  put_object-HasRow k c t = record { at = λ s h. ground arith }

  get_object-HasRow : (k : String) → Keeps (HasRow u id b) (get_object k)
  unfolding get_object call ◌>>=◌
  get_object-HasRow k = record { at = λ s h. ground arith }

  delete_object-HasRow : (k : String) → Keeps (HasRow u id b) (delete_object k)
  unfolding delete_object call ◌>>=◌
  delete_object-HasRow k = record { at = λ s h. ground arith }

  update_blobs-HasRow :
      (p : Blob → Bool) (f : Blob → Blob)
      → ((r : Blob) → blob_key u id (f r) ≡ blob_key u id r)
      → p b ≡ false
      → Keeps (HasRow u id b) (update_blobs p f)
  unfolding update_blobs
  update_blobs-HasRow p f keep other = record {
    at = λ s h. ground (arith, update_other u id b p f s.blobs keep other h);
  }

  mark_failed-HasRow : (v i : String) (at : ℕ) → Keeps (HasRow u id b) (mark_failed v i at)
  unfolding mark_failed
  mark_failed-HasRow v i t =
      Keeps-bind _ _ (call-HasRow _) λ _. update_blobs-HasRow _ _ (λ r. refl) (ground arith)

  -- A transaction whose statements keep the row, or whose ROLLBACK brings it back.
  transaction-HasRow :
      {A : Type 0} (m : Exec A) → Keeps (HasRow u id b) m → Keeps (HasRow u id b) (transaction m)
  unfolding transaction call ◌>>=◌
  transaction-HasRow m k = record { at = λ s h. ground (arith, k.at (called s) h) }

  ruleset row_rules = (
    Keeps-pure, Keeps-raise, Keeps-found, Keeps-guard, Keeps-bind, Keeps-catch, Keeps-if,
    Keeps-ignore, call-HasRow, now-HasRow, new_uuid-HasRow, get_by_id-HasRow, get_session-HasRow,
    delete_session-HasRow, put_object-HasRow, get_object-HasRow, delete_object-HasRow,
    mark_failed-HasRow, insert-HasRow,
  )

  abort_upload-HasRow : (v i j k : String) → Keeps (HasRow u id b) (abort_upload v i j k)
  unfolding abort_upload
  abort_upload-HasRow v i j k = search row_rules depth 12

  start_session-HasRow : (r : Blob) (w : UploadSession) → Keeps (HasRow u id b) (start_session r w)
  unfolding start_session
  start_session-HasRow r w = transaction-HasRow _ (
      Keeps-bind _ _ (insert-HasRow r)
        λ _. Keeps-bind _ _ (call-HasRow _) λ _. record { at = λ s h. ground arith })

  close_stream-HasRow :
      (v i : String) (n at : ℕ) (o : Option UploadSession)
      → Keeps (HasRow u id b) (close_stream v i n at o)
  unfolding complete_client_upload call ◌>>=◌
  close_stream-HasRow v i n t o = record { at = λ s h. ground arith }

  complete_client_upload-HasRow :
      (v i : String) (n : ℕ) → Keeps (HasRow u id b) (complete_client_upload v i n)
  unfolding complete_client_upload
  complete_client_upload-HasRow v i n = transaction-HasRow _ (
      Keeps-bind _ _ now-HasRow λ at. Keeps-bind _ _ (call-HasRow _) λ _.
        Keeps-bind _ _ (record { at = λ s h. (close_stream-HasRow v i n at _).at s h })
          λ blob_id.
            Keeps-bind _ _ (call-HasRow _) λ _. update_blobs-HasRow _ _ (λ r. refl) (ground arith))

  commit_uploaded_blob-HasRow :
      (v i : String) (at : ℕ) → Keeps (HasRow u id b) (commit_uploaded_blob v i at)
  unfolding commit_uploaded_blob
  commit_uploaded_blob-HasRow v i t = transaction-HasRow _ (
      Keeps-bind _ _ (get_session-HasRow v i) λ row. Keeps-bind _ _ now-HasRow λ at.
        Keeps-bind _ _ (Keeps-guard _ _) λ _. Keeps-bind _ _ (Keeps-guard _ _) λ _.
          Keeps-bind _ _ (call-HasRow _) λ _.
            Keeps-bind _ _ (record { at = λ s h. h })
              λ _.
                Keeps-bind _ _ (call-HasRow _)
                  λ _. update_blobs-HasRow _ _ (λ r. refl) (ground arith))

  ruleset store_rules = (
    row_rules, abort_upload-HasRow, start_session-HasRow, complete_client_upload-HasRow,
    commit_uploaded_blob-HasRow,
  )

  start_blob_upload-HasRow :
      (h : BlobHandler) (auth : Option String) (req : Option StartBlobUploadRequest)
      → Keeps (HasRow u id b) (start_blob_upload h auth req)
  unfolding start_blob_upload
  start_blob_upload-HasRow h auth req = search store_rules depth 30

  abort_if-HasRow :
      (c : Bool) (v i j k : String) (e : Error) → Keeps (HasRow u id b) (abort_if c v i j k e)
  unfolding abort_if
  abort_if-HasRow c v i j k e = search store_rules depth 12

  end_of_loop-HasRow :
      (r : Received) (v i j k : String) → Keeps (HasRow u id b) (end_of_loop r v i j k)
  unfolding end_of_loop
  end_of_loop-HasRow (complete total buf) v i j k = search store_rules depth 12
  end_of_loop-HasRow _ v i j k = search store_rules depth 12

  finalize_failed-HasRow :
      (v i j k : String) (e : Error) → Keeps (HasRow u id b) (finalize_failed v i j k e)
  unfolding finalize_failed
  finalize_failed-HasRow v i j k err_upload_session_not_open = search store_rules depth 12
  finalize_failed-HasRow v i j k _ = search store_rules depth 12

  receive_blob-HasRow :
      (h : BlobHandler) (v i : String) (sess : UploadSession) (r : Blob)
      (stream : List UploadMessage)
      → Keeps (HasRow u id b) (receive_blob h v i sess r stream)
  unfolding receive_blob
  receive_blob-HasRow h v i sess r stream =
      search (store_rules, end_of_loop-HasRow, abort_if-HasRow, finalize_failed-HasRow) depth 40

  upload_to_session-HasRow :
      (h : BlobHandler) (v i : String) (stream : List UploadMessage)
      → Keeps (HasRow u id b) (upload_to_session h v i stream)
  unfolding upload_to_session
  upload_to_session-HasRow h v i stream =
      search (store_rules, abort_if-HasRow, receive_blob-HasRow) depth 40
