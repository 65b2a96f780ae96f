-- ===== src/Blob/Cleanup/Finishes.antt =====
-- A pass of the clean-up ends, and leaves no upload that was due.
use goph_keeper.Common.{
  ℕ, zero, suc, ◌<◌, Bool, false, ◌≡◌, ◌∙◌, refl, ap, Option, some, List, arith, Bool-cases, inl,
  inr, ◌+◌, ltb, length,
}
use goph_keeper.Common.Table.{delete_where, exists?}
use goph_keeper.Server.Error.{Result, ok}
use goph_keeper.Server.State.{Server, Db, IsReliable}
use goph_keeper.Server.Exec.{◌>>=◌, call, now}
use goph_keeper.Server.Steps.{bind_ok, read_clock}
use goph_keeper.Blob.Cleanup.{
  Collation, ExpiredUploadBlobRef, expired, expired_refs, list_expired_upload_blob_refs, remove_all,
  cleanup_loop, cleanup_expired_upload_sessions_once, batch_size,
}
use goph_keeper.Blob.Cleanup.Batch.{named, Removed, all_removed, nothing_due, fewer_rows}

-- A loop that ended, and what it left.
abbrev Finished : ℕ → Result (Option ℕ) × Server → Type 0
Finished cutoff r =
    ((n : ℕ) × (r.0 ≡ ok (some n)))
    × (exists? (expired cutoff r.1.upload_sessions) r.1.blobs ≡ false)

-- The listing changes no table.
from_same :
    (refs : List ExpiredUploadBlobRef) (s u t : Server)
    → u.db ≡ s.db
    → Removed refs u t
    → Removed refs s t
from_same refs s u t same r = record {
  rows = r.rows ∙ ap (λ (d : Db). delete_where (named refs) d.blobs) same;
  reliable = r.reliable;
  sessions = λ p e. r.sessions p (ap (λ (d : Db). exists? p d.upload_sessions) same ∙ e);
}

module _ (leq : Collation) (cutoff batch : ℕ) (some_batch : 0 < batch) where
  listed :
      (s : Server)
      → IsReliable s
      → let r = list_expired_upload_blob_refs leq cutoff batch s in
        (r.0 ≡ ok (expired_refs leq cutoff batch s))
        × (r.1.db ≡ s.db)
        × (r.1.env.fault ≡ s.env.fault)
  unfolding list_expired_upload_blob_refs call ◌>>=◌
  listed s reliable = ground (arith, reliable s.env.calls, reliable (s.env.calls + 1))

  loop_ends :
      (fuel removed : ℕ) (s : Server)
      → IsReliable s
      → length s.blobs < fuel
      → Finished cutoff (cleanup_loop fuel leq cutoff batch removed s)
  unfolding cleanup_loop
  loop_ends zero removed s reliable enough = absurd (ground arith)
  loop_ends (suc fuel) removed s reliable enough =
      let (ran, same, faults) = listed s reliable in
      let u = (list_expired_upload_blob_refs leq cutoff batch s).1 in
      let refs = expired_refs leq cutoff batch s in
      let ((n, done), cleaned) =
        all_removed refs removed u (λ k. ap (λ (f : ℕ → Bool). f k) faults ∙ reliable k) in
      let t = (remove_all refs removed u).1 in
      let gone = from_same refs s u t same cleaned in
      rw (bind_ok (list_expired_upload_blob_refs leq cutoff batch) _ s ran) (
        rw (bind_ok (remove_all refs removed) _ u done)
          (elim (Bool-cases (ltb (length refs) batch)) [
            | inl e ↦ rw e ((n, refl), nothing_due leq cutoff batch s t gone (ground (arith, e)))
            | inr e ↦
                let fewer = fewer_rows leq cutoff batch s t gone (ground (arith, e)) in
                rw e (loop_ends fuel n t gone.reliable (ground (arith, fewer, enough)))
          ]))

pos_batch_size : (n : ℕ) → 0 < batch_size n
pos_batch_size n = ground arith

-- A pass in which no call of the driver or of the storage fails ends, within one round more than there
-- are blobs, and then no blob that is in flight has an upload session that expired before the pass
-- began.
pub cleanup_ends :
    (fuel : ℕ) (leq : Collation) (list_batch_size : ℕ) (s : Server)
    → IsReliable s
    → length s.blobs < fuel
    → let r = cleanup_expired_upload_sessions_once fuel leq list_batch_size s in
      ((n : ℕ) × (r.0 ≡ ok (some n)))
      × (exists? (expired (s.env.times s.env.reads) r.1.upload_sessions) r.1.blobs ≡ false)
unfolding cleanup_expired_upload_sessions_once now ◌>>=◌
cleanup_ends fuel leq list_batch_size s reliable enough =
    loop_ends leq (s.env.times s.env.reads) (batch_size list_batch_size)
      (pos_batch_size list_batch_size) fuel 0 (read_clock s) reliable enough
