-- ===== src/Examples/Files.antt =====
-- A file that is uploaded by one client and downloaded by another.
use goph_keeper.Common.{ℕ, zero, suc, String, ◌≡◌, refl, some, [], ◌∷◌}
use goph_keeper.Common.Table.{find?, exists?, update_where, delete_where}
use goph_keeper.Common.Text.{trim_space}
use goph_keeper.Server.State.{Server}
use goph_keeper.Server.Exec as Server_exec
use goph_keeper.Server.Transaction.{transaction}
use goph_keeper.Blob.Repository.{exec_insert_blob, get_by_id, update_blobs}
use goph_keeper.Blob.UploadStore.{
  start_session, get_session, complete_client_upload, commit_uploaded_blob,
}
use goph_keeper.Blob.Storage.{put_object, get_object}
use goph_keeper.Blob.Handler.{abort_if}
use goph_keeper.Blob.Chunks.{receive, receive_chunks}
use goph_keeper.Blob.Start.{start_blob_upload}
use goph_keeper.Blob.Upload.{upload_blob, with_header, upload_to_session, receive_blob, end_of_loop}
use goph_keeper.Blob.Commit.{commit_blob_upload, commit_session}
use goph_keeper.Blob.Download.{download_blob, send, send_if, send_chunks, to_proto_blob_info}
use goph_keeper.Blob.Stored.Starts.{IsTrimmed}
use goph_keeper.Client.Run.{◌>>=◌, ok}
use goph_keeper.Client.Steps.{Returns}
use goph_keeper.Client.App.{App, remote, read_random}
use goph_keeper.Client.Crypto.{encrypt, decrypt}
use goph_keeper.Client.Files
use goph_keeper.Client.Files.{upload_file, commit_upload, chunk_data, received, download_file}
use goph_keeper.Client.Link.{Link, connect, rpc_call}
use goph_keeper.Client.Uploaded.{upload_file-download_file}
use goph_keeper.Examples.Data.{empty_server}
use goph_keeper.Examples.Downloads.{whole_law}
use goph_keeper.Examples.Accounts.{handlers, link}
use goph_keeper.Examples.Clients.{library, library-AeadLaw, application, zeros, draw-FillsSlices}

-- a server whose identifiers are "a" and then "b"
abbrev name_of : ℕ → String
name_of n = elim n [ zero ↦ "a" | _ ↦ "b" ]

name_of-IsTrimmed : (n : ℕ) → IsTrimmed (name_of n)
unfolding trim_space
name_of-IsTrimmed zero = refl
name_of-IsTrimmed (suc n) = refl

abbrev named_server : Server
named_server = record empty_server { env = record empty_server.env { uuid = name_of } }

abbrev uploader : App Link
uploader = application (link named_server) (zeros 32)

abbrev uploaded : App Link
uploaded = (upload_file (connect handlers) library (some (5 ∷ (6 ∷ []))) "photo.png" uploader).1

uploads :
    Returns
      (upload_file (connect handlers) library (some (5 ∷ (6 ∷ []))) "photo.png")
      uploader
      "a"
      uploaded
unfolding upload_file remote connect rpc_call ◌>>=◌ encrypt read_random commit_upload
    Files.send_chunks start_blob_upload start_session exec_insert_blob transaction Server_exec.call
    Server_exec.catch Server_exec.◌>>=◌ Server_exec.now Server_exec.new_uuid find? exists?
    update_where delete_where trim_space upload_blob with_header upload_to_session receive_blob
    end_of_loop receive_chunks receive abort_if get_session get_by_id put_object
    complete_client_upload update_blobs commit_blob_upload commit_session commit_uploaded_blob
    get_object
uploads = refl

-- another client of the user, with the same key
abbrev reader : App Link
reader = application (link uploaded.client.server) (zeros 32)

abbrev read_back : App Link
read_back = (download_file (connect handlers) library "a" reader).1

reads_back : Returns (download_file (connect handlers) library "a") reader (5 ∷ (6 ∷ [])) read_back
unfolding upload_file remote connect rpc_call ◌>>=◌ encrypt read_random commit_upload
    Files.send_chunks start_blob_upload start_session exec_insert_blob transaction Server_exec.call
    Server_exec.catch Server_exec.◌>>=◌ Server_exec.now Server_exec.new_uuid find? exists?
    update_where delete_where trim_space upload_blob with_header upload_to_session receive_blob
    end_of_loop receive_chunks receive abort_if get_session get_by_id put_object
    complete_client_upload update_blobs commit_blob_upload commit_session commit_uploaded_blob
    get_object download_file download_blob send send_if send_chunks to_proto_blob_info received
    chunk_data decrypt
reads_back = refl

upload_file-download_file_example :
    (download_file (connect handlers) library "a" reader).0 ≡ ok (5 ∷ (6 ∷ []))
upload_file-download_file_example =
    upload_file-download_file handlers "ann" library library-AeadLaw whole_law uploader uploaded
      reader read_back (5 ∷ (6 ∷ [])) (5 ∷ (6 ∷ [])) "photo.png" "a" draw-FillsSlices
      name_of-IsTrimmed refl uploads refl refl refl reads_back
