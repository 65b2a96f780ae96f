-- ===== src/Examples/Cleanups.antt =====
-- The clean-up of expired uploads, on a committed blob and an upload that was left.
use goph_keeper.Common.{ℕ, true, false, ◌≡◌, refl, none, some, [], ◌∷◌, arith}
use goph_keeper.Common.Table.{find?, exists?}
use goph_keeper.Server.Error.{ok}
use goph_keeper.Server.State.{Server}
use goph_keeper.Blob.Types.{Blob, UploadSession, pending, session_open}
use goph_keeper.Blob.Cleanup.{
  Collation, is_id, expired, cleanup_expired_upload_sessions_once, run_upload_session_cleanup,
}
use goph_keeper.Blob.Cleanup.Survives.{cleanup_spares}
use goph_keeper.Blob.Cleanup.Finishes.{cleanup_ends}
use goph_keeper.Examples.Data.{empty_server, empty_db, photo}

abbrev as_read : Collation
as_read a b = true

abbrev left_upload : Blob
left_upload = record photo {
  blob_id = "left";
  object_key = "users/ann/blobs/left";
  status = pending;
  committed_at = none;
}

abbrev left_session : UploadSession
left_session = record {
  upload_session_id = "1";
  blob_id = "left";
  user_id = "ann";
  expected_size = 3;
  expected_checksum = 1 ∷ [];
  received_size = 0;
  status = session_open;
  expires_at = 20;
  created_at = 10;
  updated_at = 10;
}

abbrev uploads_server : Server
uploads_server = record empty_server {
  db = record empty_db { blobs = left_upload ∷ (photo ∷ []); upload_sessions = left_session ∷ [] };
}

cleanup_spares_example :
    find? (is_id "photo") (run_upload_session_cleanup 60 2 3 as_read uploads_server).blobs
    ≡ some photo
unfolding find? exists?
cleanup_spares_example = cleanup_spares "photo" photo 60 2 3 as_read uploads_server refl refl

cleanup_ends_example :
    ((n : ℕ) × ((cleanup_expired_upload_sessions_once 3 as_read 1 uploads_server).0 ≡ ok (some n)))
    × (exists?
          (expired 1000
            (cleanup_expired_upload_sessions_once 3 as_read 1 uploads_server).1.upload_sessions)
          (cleanup_expired_upload_sessions_once 3 as_read 1 uploads_server).1.blobs
        ≡ false)
cleanup_ends_example = cleanup_ends 3 as_read 1 uploads_server (λ n. refl) (ground arith)
