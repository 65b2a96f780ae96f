-- ===== src/Blob/Storage.antt =====
-- The object storage of internal/server/blob/storage.go, as its comments describe it: Put stores an
-- object under its key, Stat and Get find it there, and Delete of a missing key is no error. The size
-- that Get returns is known, as the storage of internal/server/storage/s3minio takes it from Stat.
use goph_keeper.Common.{ℕ, String, Bool, List, ◌∷◌, str_eq}
use goph_keeper.Common.Table.{find?, delete_where}
use goph_keeper.Server.Error.{ok, err_object_not_found, storage_failure}
use goph_keeper.Server.State.{Object}
use goph_keeper.Server.Exec.{Exec, ◌>>◌, call, found}

abbrev pub at_key : String → Object → Bool
at_key key o = str_eq o.object_key key

unfoldable pub put_object : String → List ℕ → String → Exec (Unit {0})
put_object key content content_type = do
  call storage_failure
  λ s. (
    ok tt,
    record s {
      objects =
          record { object_key = key; content = content; content_type = content_type }
          ∷ delete_where (at_key key) s.objects;
    },
  )

-- Stat and Get
unfoldable pub get_object : String → Exec Object
get_object key = do
  call storage_failure
  λ s. found (find? (at_key key) s.objects) err_object_not_found s

unfoldable pub delete_object : String → Exec (Unit {0})
delete_object key = do
  call storage_failure
  λ s. (ok tt, record s { objects = delete_where (at_key key) s.objects })
