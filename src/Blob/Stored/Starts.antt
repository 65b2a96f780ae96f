-- ===== src/Blob/Stored/Starts.antt =====
-- What StartBlobUpload leaves: the row of the blob, with the key of its object, and the session of it.
use goph_keeper.Common.{
  ℕ, String, Bool, true, false, ◌≡◌, refl, sym, subst, none, some, ◌∷◌, eq_refl, if◌then◌else◌,
}
use goph_keeper.Common.Table.{find?}
use goph_keeper.Common.Text.{trim_space}
use goph_keeper.Server.Error.{
  Error, Result, ok, err, status, internal, driver_failure, unauthenticated, invalid_argument,
}
use goph_keeper.Server.State.{Server}
use goph_keeper.Server.Exec.{new_uuid, now, guard}
use goph_keeper.Server.Keeps.{Keeps-guard}
use goph_keeper.Server.Frame.{Keeps-call}
use goph_keeper.Server.Ensures.{
  Ensures, Any, Ensures-bind, Ensures-Keeps, Ensures-Any, Ensures-on_error, Ensures-found,
  Ensures-transaction, Ensures-returns, Ensures-fact,
}
use goph_keeper.Blob.Types.{Blob}
use goph_keeper.Blob.Repository.{exec_insert_blob, blob_key}
use goph_keeper.Blob.UploadStore.{session_key}
use goph_keeper.Blob.Start.{StartBlobUploadRequest, start_blob_upload, pending_blob, open_session}
use goph_keeper.Blob.UploadStore.{start_session, set_sessions}
use goph_keeper.Blob.Handler.{BlobHandler}
use goph_keeper.Server.Fails.{Ensures-from, Ensures-carrying}
use goph_keeper.Blob.Stored.{IsKeyed, IsHeld, object_key_of}

-- Identifiers that uuid makes have no space around them.
abbrev pub AreTrimmed : Server → Type 0
AreTrimmed s = (n : ℕ) → trim_space (s.env.uuid n) ≡ s.env.uuid n

abbrev pub IsTrimmed : String → Type 0
IsTrimmed x = trim_space x ≡ x

uuid_trimmed : Ensures AreTrimmed new_uuid (λ x s. AreTrimmed s × IsTrimmed x)
unfolding new_uuid
uuid_trimmed = record {
  after = λ s k x e.
      let same : s.env.uuid s.env.ids ≡ x = cc in
      (k, subst (λ y. trim_space y ≡ y) same (k s.env.ids));
}

-- a statement that fails unless its test passes
abbrev statement : Bool → Server → Server → Result (Unit {0}) × Server
statement c s t = if c then (ok tt, t) else (err driver_failure, s)

tested :
    (c : Bool) (s t : Server) (a : Unit {0}) → (statement c s t).0 ≡ ok a → (statement c s t).1 ≡ t
tested true s t a h = refl
tested false s t a h = absurd cc

module _ (user bid : String) (b : Blob) where
  -- the row of the blob
  abbrev HasBlob : Server → Type 0
  HasBlob s = find? (blob_key user bid) s.blobs ≡ some b

  blob_inserted :
      blob_key user bid b ≡ true
      → b.failed_at ≡ none
      → Ensures Any (exec_insert_blob b) (λ _. HasBlob)
  unfolding exec_insert_blob find?
  blob_inserted is live =
      Ensures-bind _ _ (Ensures-Any _)
        λ _. record { after = λ s p a h. rw (tested _ s _ a h, is, sym live) refl }

session_started :
    (user bid sid : String) (req : StartBlobUploadRequest) (at expires : ℕ)
    → Ensures Any
        (start_session (pending_blob user bid req at) (open_session user bid sid req at expires))
        (λ _ s. IsKeyed user bid (object_key_of user bid) s × IsHeld user bid sid s)
unfolding start_session find?
session_started user bid sid req at expires =
    let b = pending_blob user bid req at in
    let u = open_session user bid sid req at expires in
    let own : blob_key user bid b ≡ true = rw (eq_refl user, eq_refl bid) refl in
    let its : session_key user sid u ≡ true = rw (eq_refl sid, eq_refl user) refl in
    Ensures-transaction _ (λ s p. tt) (λ a s t same k. rw same k)
      (Ensures-bind _ _ (blob_inserted user bid b own refl) λ _.
        Ensures-bind _ _
          (Ensures-Keeps _ (Keeps-call (record { env = λ s e h. h; back = λ s t h k. h }) _))
          λ _. record {
            after = λ s p a h.
                subst (λ t. IsKeyed user bid (object_key_of user bid) t × IsHeld user bid sid t)
                  (sym (tested _ s (set_sessions s (u ∷ s.upload_sessions)) a h))
                  ((b, (p, refl)), (u, (rw its refl, refl)));
          })

guarded : (c : Bool) (e : Error) → Ensures AreTrimmed (guard c e) (λ _. AreTrimmed)
guarded c e = Ensures-Keeps _ (Keeps-guard c e)

-- A StartBlobUpload that succeeds leaves the row of the blob and the session that it answers with.
pub start_blob_upload-IsHeld :
    (h : BlobHandler) (user : String) (req : StartBlobUploadRequest)
    → Ensures AreTrimmed (start_blob_upload h (some user) (some req)) λ r s.
      (IsKeyed user r.blob_id (object_key_of user r.blob_id) s
        × IsHeld user r.blob_id r.upload_session_id s)
      × (IsTrimmed r.upload_session_id × IsTrimmed r.blob_id)
unfolding start_blob_upload
start_blob_upload-IsHeld h user req = Ensures-found user (status unauthenticated) _ (
    Ensures-found req (status invalid_argument) _ (
      Ensures-bind _ _ (guarded _ _) λ _. Ensures-bind _ _ (guarded _ _) λ _.
        Ensures-bind _ _ (guarded _ _) λ _. Ensures-bind _ _ (guarded _ _) λ _.
          Ensures-bind _ _ (guarded _ _) λ _. Ensures-bind _ _ (guarded _ _) λ _.
            Ensures-bind _ _ uuid_trimmed λ bid.
              Ensures-bind _ _ (Ensures-carrying _ uuid_trimmed) λ sid.
                Ensures-bind _ _
                  (Ensures-from {P' = λ _. Unit × (IsTrimmed sid × IsTrimmed bid)}
                    (λ s ((_, t), u). (tt, (t, u))) (Ensures-fact now))
                  λ at.
                    Ensures-bind _ _
                      (Ensures-carrying _ (
                        Ensures-on_error _ (λ _. status internal)
                          (session_started user bid sid req at _)))
                      λ _. Ensures-returns _ (λ s p. p)))
