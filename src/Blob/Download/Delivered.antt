-- ===== src/Blob/Download/Delivered.antt =====
-- What a download that succeeds has sent.
use goph_keeper.Common.{
  ℕ, String, Bool, true, ◌≡◌, ◌∙◌, refl, ap, none, some, List, ◌∷◌, arith, ◌==◌, length, ==_iff,
}
use goph_keeper.Common.Table.{find?, is_null}
use goph_keeper.Common.Text.{trim_space}
use goph_keeper.Server.Error.{Error, ok, status, unauthenticated, internal}
use goph_keeper.Server.State.{Server, Object}
use goph_keeper.Server.Exec.{Exec, ◌>>=◌, call, guard, found}
use goph_keeper.Server.Ensures.{Ensures, Ensures-bind, Ensures-on_error, Ensures-found}
use goph_keeper.Blob.Types.{Blob, committed, status_eq}
use goph_keeper.Blob.Repository.{blob_key, get_by_id}
use goph_keeper.Blob.Storage.{at_key, get_object}
use goph_keeper.Blob.Handler.{BlobHandler, blob_error}
use goph_keeper.Blob.Download.Complete.{parts, numbered, joined, send_body-Sent}
use goph_keeper.Blob.Download.{
  Reader, header, Download, to_proto_blob_info, send_body, download_blob,
}

module _ (h : BlobHandler) (reader : Reader) (user_id id : String) (at : Server) where
  -- the tables and the objects of the start
  abbrev Same : Server → Type 0
  Same s = (s.blobs ≡ at.blobs) × (s.objects ≡ at.objects)

  abbrev Chosen : Blob → Type 0
  Chosen b = find? (blob_key user_id id) at.blobs ≡ some b

  loaded : Ensures Same (get_by_id user_id id) (λ b s. Same s × Chosen b)
  unfolding get_by_id call ◌>>=◌
  loaded = record { after = λ s p b e. ground (arith, p) }

  passed :
      {F : Type 0} (c : Bool) (e : Error)
      → Ensures (λ s. Same s × F) (guard c e) (λ _ s. Same s × (F × (c ≡ true)))
  passed c e = record { after = λ s (same, f) a k. (same, (f, ground arith)) }

  opened :
      {F : Type 0} (key : String)
      → Ensures
          (λ s. Same s × F)
          (get_object key)
          (λ o s. Same s × (F × (find? (at_key key) at.objects ≡ some o)))
  unfolding get_object call ◌>>=◌
  opened key = record {
    after = λ s (same, f) o e.
        ((ground (arith, same), ground (arith, same)), (f, ground (arith, same)));
  }

  -- what a download that ended without an error has sent
  abbrev Delivered : Download → Type 0
  Delivered d =
      d.ended ≡ none
      → (b : Blob) × (o : Object) × (ps : List (List ℕ)) × (Chosen b
          × (status_eq b.status committed ≡ true)
          × (is_null b.deleted_at ≡ true)
          × (find? (at_key b.object_key) at.objects ≡ some o)
          × ((length o.content == b.size_bytes) ≡ true)
          × (parts (reader h.max_chunk_size_bytes o.content) ≡ some ps)
          × (d.sent ≡ header (to_proto_blob_info b) ∷ numbered 0 ps))

  fact_kept : {A : Type 0} {F : Type 0} (m : Exec A) → Ensures (λ s. Same s × F) m (λ _ _. F)
  fact_kept m = record { after = λ s (same, f) a k. f }

  guard-Same : (c : Bool) (e : Error) → Ensures Same (guard c e) (λ _. Same)
  guard-Same c e = record { after = λ s k a r. k }

  send_body-Delivered :
      (started : Bool) (b : Blob) (o : Object)
      → Ensures
          (λ _.
            (((Chosen b × (status_eq b.status committed ≡ true)) × (is_null b.deleted_at ≡ true))
              × (find? (at_key b.object_key) at.objects ≡ some o))
            × ((length o.content == b.size_bytes) ≡ true))
          (send_body started h.max_chunk_size_bytes b (reader h.max_chunk_size_bytes o.content))
          (λ d _. Delivered d)
  send_body-Delivered started b o = record {
    after = λ s ((((chosen, done), live), there), size) d ran ended.
        let (ps, all, sent) =
          (send_body-Sent started h.max_chunk_size_bytes b _).after s tt d ran ended in
        (b, o, ps, (chosen, done, live, there, size, all, sent));
  }

download_blob-Delivered :
    (h : BlobHandler) (reader : Reader) (user_id blob_id : String) (s : Server)
    → Ensures
        (Same h reader user_id (trim_space blob_id) s)
        (download_blob h reader (some user_id) blob_id)
        (λ d _. Delivered h reader user_id (trim_space blob_id) s d)
unfolding download_blob
download_blob-Delivered h reader user_id blob_id s =
    let id = trim_space blob_id in
    Ensures-found user_id (status unauthenticated) _ (
      Ensures-bind _ _ (guard-Same h reader user_id id s _ _) λ _.
        Ensures-bind _ _ (guard-Same h reader user_id id s _ _) λ _.
          Ensures-bind _ _ (Ensures-on_error _ blob_error (loaded h reader user_id id s)) λ b.
            Ensures-bind _ _ (passed h reader user_id id s _ _) λ _.
              Ensures-bind _ _ (passed h reader user_id id s _ _) λ _.
                Ensures-bind _ _
                  (Ensures-on_error _ (λ _. status internal) (opened h reader user_id id s _))
                  λ o. Ensures-bind _ _ (passed h reader user_id id s _ _) λ _.
                    Ensures-bind _ _ (fact_kept h reader user_id id s _)
                      λ started. send_body-Delivered h reader user_id id s started b o)

-- A download that ends without an error has sent the header of the user's committed blob, that is not
-- deleted, and then chunks numbered from 0 whose bytes together are the stored object, as many as the
-- blob says; where the reader of the storage, once it is at io.EOF, has delivered the content.
pub download_complete :
    (h : BlobHandler) (reader : Reader)
    → ((n : ℕ) (content : List ℕ) (ps : List (List ℕ))
        → parts (reader n content) ≡ some ps
        → joined ps ≡ content)
    → (user_id blob_id : String) (s : Server) (d : Download)
    → (download_blob h reader (some user_id) blob_id s).0 ≡ ok d
    → d.ended ≡ none
    → (b : Blob) × (o : Object) × (ps : List (List ℕ)) × ((find?
            (blob_key user_id (trim_space blob_id))
            s.blobs
          ≡ some b)
        × (status_eq b.status committed ≡ true)
        × (is_null b.deleted_at ≡ true)
        × (find? (at_key b.object_key) s.objects ≡ some o)
        × (d.sent ≡ header (to_proto_blob_info b) ∷ numbered 0 ps)
        × (joined ps ≡ o.content)
        × (length (joined ps) ≡ b.size_bytes))
download_complete h reader law user_id blob_id s d ran ended =
    let (b, o, ps, (found, done, live, there, size, all, sent)) =
      (download_blob-Delivered h reader user_id blob_id s).after s (refl, refl) d ran ended in
    let whole = law h.max_chunk_size_bytes o.content ps all in
    (
      b,
      o,
      ps,
      (
        found,
        done,
        live,
        there,
        sent,
        whole,
        ap length whole ∙ (==_iff (length o.content) b.size_bytes).0 size,
      ),
    )
