-- ===== src/Blob/Cleanup/Batch.antt =====
-- One batch of the clean-up, where no call of the driver or of the storage fails.
use goph_keeper.Common.{
  ℕ, ◌<◌, Bool, true, false, ◌≡◌, ◌∙◌, refl, sym, ap, List, [], ◌∷◌, arith, str_eq, eq_iff,
  if◌then◌else◌, Bool-cases, inl, inr, length, ◌+◌,
}
use goph_keeper.Common.Table.{exists?, delete_where}
use goph_keeper.Common.Rows.{
  exists?-delete_where, exists?-none, length-delete_where, delete_where-delete_where,
  delete_where-covers,
}
use goph_keeper.Server.Error.{Result, ok}
use goph_keeper.Server.State.{Server, IsReliable}
use goph_keeper.Server.Exec.{◌>>=◌, call, catch}
use goph_keeper.Server.Steps.{bind_ok}
use goph_keeper.Blob.Types.{Blob, UploadSession}
use goph_keeper.Blob.Storage.{delete_object}
use goph_keeper.Blob.Cleanup.Listed.{expired_refs-none, expired_refs-all}
use goph_keeper.Blob.Cleanup.{
  Collation, ExpiredUploadBlobRef, is_id, is_of, expired, expired_refs, session_past,
  delete_blob_by_id, remove_one, remove_all,
}

-- the rows that references name
abbrev pub named : List ExpiredUploadBlobRef → Blob → Bool
named refs b = exists? (λ r. is_id r.blob_id b) refs

-- The state after a deletion: the rows that are left, no call that fails, and no new session.
pub record Removed (refs : List ExpiredUploadBlobRef) (s t : Server) : Type 0 where
  pub rows : t.blobs ≡ delete_where (named refs) s.blobs
  pub reliable : IsReliable t
  pub sessions :
      (p : UploadSession → Bool)
      → exists? p s.upload_sessions ≡ false
      → exists? p t.upload_sessions ≡ false

-- A deletion of rows that are not there.
delete_none : (p : Blob → Bool) (bs : List Blob) → exists? p bs ≡ false → delete_where p bs ≡ bs
unfolding exists? delete_where
delete_none p [] e = refl
delete_none p (b ∷ bs) e = ground (arith, delete_none p bs)

none_false : (bs : List Blob) → exists? (λ b. false) bs ≡ false
unfolding exists?
none_false [] = refl
none_false (b ∷ bs) = none_false bs

one_removed :
    (r : ExpiredUploadBlobRef) (n : ℕ) (s : Server)
    → IsReliable s
    → let there = exists? (is_id r.blob_id) s.blobs in
      let t = (remove_one r n s).1 in
      ((remove_one r n s).0 ≡ ok (if there then n + 1 else n))
      × (t.blobs ≡ delete_where (is_id r.blob_id) s.blobs)
      × (t.upload_sessions
          ≡ (if there then delete_where (is_of r.blob_id) s.upload_sessions else s.upload_sessions))
      × (t.env.fault ≡ s.env.fault)
unfolding remove_all delete_object delete_blob_by_id call catch ◌>>=◌
one_removed r n s reliable =
    ground (
      arith,
      reliable s.env.calls,
      reliable (s.env.calls + 1),
      delete_none (is_id r.blob_id) s.blobs,
    )

-- A deletion that returned.
abbrev pub Cleans : List ExpiredUploadBlobRef → Server → Result ℕ × Server → Type 0
Cleans refs s r = ((m : ℕ) × (r.0 ≡ ok m)) × Removed refs s r.1

-- the first reference, and then the others
rest_gone :
    (r : ExpiredUploadBlobRef) (refs : List ExpiredUploadBlobRef) (c : Bool) (s t u : Server)
    → t.blobs ≡ delete_where (is_id r.blob_id) s.blobs
    → t.upload_sessions
      ≡ (if c then delete_where (is_of r.blob_id) s.upload_sessions else s.upload_sessions)
    → Removed refs t u
    → Removed (r ∷ refs) s u
unfolding exists?
rest_gone r refs c s t u rows sessions rest = record {
  rows =
      rest.rows
      ∙ ap (delete_where (named refs)) rows
      ∙ delete_where-delete_where (is_id r.blob_id) (named refs) s.blobs;
  reliable = rest.reliable;
  sessions = λ p e.
      rest.sessions p
        (ground (arith, sessions, exists?-delete_where p (is_of r.blob_id) s.upload_sessions e));
}

pub all_removed :
    (refs : List ExpiredUploadBlobRef) (n : ℕ) (s : Server)
    → IsReliable s
    → Cleans refs s (remove_all refs n s)
unfolding remove_all exists?
all_removed [] n s reliable = (
  (n, refl),
  record {
    rows = sym (delete_none (λ b. false) s.blobs (none_false s.blobs));
    reliable = reliable;
    sessions = λ p e. e;
  },
)
all_removed (r ∷ refs) n s reliable =
    let (ran, rows, sessions, same) = one_removed r n s reliable in
    let there = exists? (is_id r.blob_id) s.blobs in
    let t = (remove_one r n s).1 in
    let (m, rest) =
      all_removed refs (if there then n + 1 else n) t
        (λ k. ap (λ (f : ℕ → Bool). f k) same ∙ reliable k) in
    rw (bind_ok (remove_one r n) (remove_all refs) s ran)
      (m, rest_gone r refs there s t _ rows sessions rest)

non_empty :
    (xs : List ExpiredUploadBlobRef)
    → 0 < length xs
    → (r : ExpiredUploadBlobRef) × (rest : List ExpiredUploadBlobRef) × (xs ≡ r ∷ rest)
non_empty [] h = absurd (ground arith)
non_empty (r ∷ rest) h = (r, rest, refl)

module _ (leq : Collation) (cutoff batch : ℕ) (s t : Server) where
  abbrev refs : List ExpiredUploadBlobRef
  refs = expired_refs leq cutoff batch s

  -- A deletion of all that is due leaves nothing that is due.
  pub nothing_due :
      Removed refs s t
      → length refs < batch
      → exists? (expired cutoff t.upload_sessions) t.blobs ≡ false
  nothing_due removed short =
      let due : Blob → Bool = expired cutoff s.upload_sessions in
      exists?-none due (expired cutoff t.upload_sessions)
        (λ b e. ground (arith, removed.sessions (session_past cutoff b.blob_id))) t.blobs
        (ap (exists? due) removed.rows
          ∙ delete_where-covers (named refs) due (λ c b. is_id c.blob_id b)
              (λ b. (eq_iff b.blob_id b.blob_id).1 refl) s.blobs
              (λ b e. expired_refs-all (λ r. is_id r.blob_id b) leq cutoff batch s short ∙ e))

  -- A reference names a row.
  names :
      (r : ExpiredUploadBlobRef) (rest : List ExpiredUploadBlobRef)
      → refs ≡ r ∷ rest
      → exists? (named refs) s.blobs ≡ true
  unfolding exists?
  names r rest e = elim (Bool-cases (exists? (named refs) s.blobs)) [
    | inl h ↦ h
    | inr h ↦
        let no_row =
          exists?-none (named refs) (is_id r.blob_id) (λ b k. rw e (ground arith)) s.blobs h in
        let no_ref : exists? (λ x. str_eq x.blob_id r.blob_id) refs ≡ false =
          expired_refs-none (λ x. str_eq x.blob_id r.blob_id) leq cutoff batch s
            (exists?-none (is_id r.blob_id) _ (λ b k. ground arith) s.blobs no_row) in
        absurd (ground (arith, e, no_ref, (eq_iff r.blob_id r.blob_id).1 refl))
  ]

  -- A deletion of a batch that is not empty leaves fewer rows.
  pub fewer_rows : Removed refs s t → 0 < length refs → length t.blobs < length s.blobs
  fewer_rows removed some_ref =
      let (r, rest, e) = non_empty refs some_ref in
      ground
        (arith, length-delete_where (named refs) s.blobs, names r rest e, ap length removed.rows)
