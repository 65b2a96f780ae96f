-- ===== src/Blob/Cleanup/Survives.antt =====
-- The clean-up and committed blobs: whatever fails, and however often it runs, it removes none.
use goph_keeper.Common.{
  ℕ, zero, suc, String, Bool, true, false, ◌&&◌, ◌≡◌, some, List, [], ◌∷◌, arith, str_eq, eq_iff,
  ltb, length,
}
use goph_keeper.Common.Table.{find?, exists?}
use goph_keeper.Common.Rows.{find?-delete_other, exists?-delete_where, exists?-none}
use goph_keeper.Server.Error.{Error}
use goph_keeper.Server.State.{Server}
use goph_keeper.Server.Exec.{Exec, ◌>>=◌, call, now}
use goph_keeper.Server.Keeps.{Keeps, Keeps-pure, Keeps-bind, Keeps-catch, Keeps-ignore}
use goph_keeper.Server.Ensures.{Ensures, Keeps-knowing}
use goph_keeper.Blob.Types.{Blob}
use goph_keeper.Blob.Repository.{in_flight}
use goph_keeper.Blob.Storage.{delete_object}
use goph_keeper.Blob.Cleanup.Listed.{expired_refs-none}
use goph_keeper.Blob.Cleanup.{
  Collation, ExpiredUploadBlobRef, is_id, expired_refs, list_expired_upload_blob_refs,
  delete_blob_by_id, remove_one, remove_all, cleanup_loop, cleanup_expired_upload_sessions_once,
  passes, run_upload_session_cleanup, batch_size,
}

-- The row of a blob is there, and no row with its identifier is in flight.
abbrev IsSettled : String → Blob → Server → Type 0
IsSettled id b s =
    (find? (is_id id) s.blobs ≡ some b) × (exists? (λ r. is_id id r && in_flight r) s.blobs ≡ false)

-- references to other blobs
abbrev AreOthers : String → List ExpiredUploadBlobRef → Type 0
AreOthers id refs = exists? (λ r. str_eq r.blob_id id) refs ≡ false

module _ (id : String) (b : Blob) where
  call_kept : (e : Error) → Keeps (IsSettled id b) (call e)
  unfolding call
  call_kept e = record { at = λ s k. k }

  object_kept : (key : String) → Keeps (IsSettled id b) (delete_object key)
  unfolding delete_object call ◌>>=◌
  object_kept key = record { at = λ s k. ground arith }

  other_id :
      (rid : String) → str_eq rid id ≡ false → (r : Blob) → is_id rid r ≡ true → is_id id r ≡ false
  other_id rid ne r e = ground (arith, eq_iff r.blob_id rid, eq_iff r.blob_id id, eq_iff rid id)

  row_kept : (rid : String) → str_eq rid id ≡ false → Keeps (IsSettled id b) (delete_blob_by_id rid)
  unfolding delete_blob_by_id call ◌>>=◌
  row_kept rid ne = record {
    at = λ s k. ground (
      arith,
      find?-delete_other (is_id id) (is_id rid) (other_id rid ne) s.blobs,
      exists?-delete_where (λ r. is_id id r && in_flight r) (is_id rid) s.blobs,
    );
  }

  one_kept :
      (ref : ExpiredUploadBlobRef) (n : ℕ)
      → str_eq ref.blob_id id ≡ false
      → Keeps (IsSettled id b) (remove_one ref n)
  unfolding remove_all
  one_kept ref n ne = Keeps-bind _ _ (Keeps-ignore _ (object_kept ref.object_key)) λ _.
      Keeps-catch _ _ (Keeps-bind _ _ (row_kept ref.blob_id ne) λ _. Keeps-pure _) λ e. Keeps-pure _

  all_kept :
      (refs : List ExpiredUploadBlobRef) (n : ℕ)
      → AreOthers id refs
      → Keeps (IsSettled id b) (remove_all refs n)
  unfolding remove_all exists?
  all_kept [] n o = Keeps-pure _
  all_kept (r ∷ refs) n o =
      Keeps-bind _ _ (one_kept r n (ground arith)) λ m. all_kept refs m (ground arith)

  listed :
      (leq : Collation) (cutoff limit : ℕ) (s : Server)
      → IsSettled id b s
      → AreOthers id (expired_refs leq cutoff limit s)
  listed leq cutoff limit s (there, settled) =
      expired_refs-none (λ r. str_eq r.blob_id id) leq cutoff limit s
        (exists?-none (λ r. is_id id r && in_flight r) _ (λ r e. ground arith) s.blobs settled)

  list_kept :
      (leq : Collation) (cutoff limit : ℕ)
      → Keeps (IsSettled id b) (list_expired_upload_blob_refs leq cutoff limit)
  unfolding list_expired_upload_blob_refs call ◌>>=◌
  list_kept leq cutoff limit = record { at = λ s k. ground arith }

  list_knows :
      (leq : Collation) (cutoff limit : ℕ)
      → Ensures
          (IsSettled id b)
          (list_expired_upload_blob_refs leq cutoff limit)
          (λ refs _. AreOthers id refs)
  unfolding list_expired_upload_blob_refs call ◌>>=◌ exists?
  list_knows leq cutoff limit = record {
    after = λ s k refs e. ground (arith, listed leq cutoff limit s k);
  }

  more_kept :
      {A : Type 0} (c : Bool) (m k : Exec A)
      → Keeps (IsSettled id b) m
      → Keeps (IsSettled id b) k
      → Keeps (IsSettled id b) (elim c [ true ↦ m | false ↦ k ])
  more_kept true m k km kk = km
  more_kept false m k km kk = kk

  loop_kept :
      (fuel : ℕ) (leq : Collation) (cutoff batch removed : ℕ)
      → Keeps (IsSettled id b) (cleanup_loop fuel leq cutoff batch removed)
  unfolding cleanup_loop
  loop_kept zero leq cutoff batch removed = Keeps-pure _
  loop_kept (suc fuel) leq cutoff batch removed =
      Keeps-knowing (AreOthers id) _ _ (list_kept leq cutoff batch) (list_knows leq cutoff batch)
        λ refs others. Keeps-bind _ _ (all_kept refs removed others) λ n.
          more_kept (ltb (length refs) batch) _ _ (Keeps-pure _) (loop_kept fuel leq cutoff batch n)

  once_kept :
      (fuel : ℕ) (leq : Collation) (n : ℕ)
      → Keeps (IsSettled id b) (cleanup_expired_upload_sessions_once fuel leq n)
  unfolding cleanup_expired_upload_sessions_once now ◌>>=◌
  once_kept fuel leq n = record {
    at = λ s k. (loop_kept fuel leq (s.env.times s.env.reads) (batch_size n) 0).at _ k;
  }

  passes_kept :
      (n fuel : ℕ) (leq : Collation) (s : Server)
      → IsSettled id b s
      → IsSettled id b (passes n fuel leq s)
  unfolding passes
  passes_kept zero fuel leq s k = k
  passes_kept (suc n) fuel leq s k = passes_kept n fuel leq _ ((once_kept fuel leq _).at s k)

-- A blob of whose identifier no row is in flight keeps its row, as it is, however often the clean-up
-- runs and whatever call of the driver or of the storage fails.
pub cleanup_spares :
    (id : String) (b : Blob) (interval n fuel : ℕ) (leq : Collation) (s : Server)
    → find? (is_id id) s.blobs ≡ some b
    → exists? (λ r. is_id id r && in_flight r) s.blobs ≡ false
    → find? (is_id id) (run_upload_session_cleanup interval n fuel leq s).blobs ≡ some b
unfolding run_upload_session_cleanup
cleanup_spares id b interval n fuel leq s there settled =
    ground (arith, passes_kept id b n fuel leq s (there, settled))
