-- ===== src/Examples/Downloads.antt =====
-- A download of a stored blob.
use goph_keeper.Common.{
  ℕ, length, ◌≡◌, ◌∙◌, refl, sym, ap, true, none, some, List, [], ◌∷◌, arith, append_nil,
}
use goph_keeper.Common.Table.{find?, is_null}
use goph_keeper.Blob.Types.{Blob, committed, status_eq}
use goph_keeper.Server.Error.{ok}
use goph_keeper.Server.State.{Server, Object}
use goph_keeper.Server.Exec.{call, catch, ◌>>=◌}
use goph_keeper.Common.Text.{trim_space}
use goph_keeper.Blob.Repository.{blob_key, get_by_id}
use goph_keeper.Blob.Storage.{at_key, get_object}
use goph_keeper.Blob.Download.{
  Reader, read, at_eof, Download, header, chunk, to_proto_blob_info, download_blob, send, send_if,
  send_chunks,
}
use goph_keeper.Blob.Download.Complete.{parts, numbered, joined}
use goph_keeper.Blob.Download.Delivered.{download_complete}
use goph_keeper.Examples.Data.{photo, photo_server, blob_handler}

-- the photo and its object, and a reader that returns all of the content in one read
abbrev stored_server : Server
stored_server = record photo_server {
  objects =
      record {
        object_key = "users/ann/blobs/photo";
        content = 5 ∷ (6 ∷ (7 ∷ []));
        content_type = "image/png";
      }
      ∷ [];
}

abbrev pub whole : Reader
whole n content = read content at_eof ∷ []

pub whole_law :
    (n : ℕ) (content : List ℕ) (ps : List (List ℕ))
    → parts (whole n content) ≡ some ps
    → joined ps ≡ content
unfolding parts joined
whole_law n [] ps e = let k : [] ≡ ps = cc in ap joined (sym k)
whole_law n (x ∷ xs) ps e =
    let k : (x ∷ xs) ∷ [] ≡ ps = ground (arith, e) in ap joined (sym k) ∙ append_nil (x ∷ xs)

abbrev photo_sent : Download
photo_sent = record {
  sent = header (to_proto_blob_info photo) ∷ (chunk 0 (5 ∷ (6 ∷ (7 ∷ []))) ∷ []);
  ended = none;
}

downloads : (download_blob blob_handler whole (some "ann") "photo" stored_server).0 ≡ ok photo_sent
unfolding download_blob to_proto_blob_info send_chunks send_if send get_by_id get_object find?
    trim_space call catch ◌>>=◌
downloads = refl

download_complete_example :
    (b : Blob) × (o : Object) × (ps : List (List ℕ)) × ((find?
          (blob_key "ann" (trim_space "photo"))
          stored_server.blobs
        ≡ some b)
      × (status_eq b.status committed ≡ true)
      × (is_null b.deleted_at ≡ true)
      × (find? (at_key b.object_key) stored_server.objects ≡ some o)
      × (photo_sent.sent ≡ header (to_proto_blob_info b) ∷ numbered 0 ps)
      × (joined ps ≡ o.content)
      × (length (joined ps) ≡ b.size_bytes))
download_complete_example =
    download_complete blob_handler whole whole_law "ann" "photo" stored_server photo_sent downloads
      refl
