-- ===== src/Blob/Cleanup/Listed.antt =====
-- Which references a listing of the clean-up returns.
use goph_keeper.Common.{
  ℕ, ◌≤◌, ◌<◌, Bool, false, ◌&&◌, ◌≡◌, ◌∙◌, ap, arith, take, length, length-map, length-take,
  take-all,
}
use goph_keeper.Common.Table.{exists?, select, sort_by}
use goph_keeper.Common.Rows.{exists?-select, exists?-take, exists?-sort_by, exists?-map}
use goph_keeper.Server.State.{Server}
use goph_keeper.Blob.Types.{Blob}
use goph_keeper.Blob.Cleanup.{
  Collation, ExpiredUploadBlobRef, expired, expired_refs, ref_of, by_blob_id,
}

module _ (q : ExpiredUploadBlobRef → Bool) (leq : Collation) (cutoff limit : ℕ) (s : Server) where
  abbrev due : Blob → Bool
  due b = expired cutoff s.upload_sessions b && q (ref_of b)

  sorted :
      exists?
        (λ b. q (ref_of b))
        (sort_by (by_blob_id leq) (select (expired cutoff s.upload_sessions) s.blobs))
      ≡ exists? due s.blobs
  sorted =
      exists?-sort_by _ (by_blob_id leq) _
      ∙ exists?-select (λ b. q (ref_of b)) (expired cutoff s.upload_sessions) s.blobs

  -- Only references of rows that are due.
  pub expired_refs-none :
      exists? due s.blobs ≡ false → exists? q (expired_refs leq cutoff limit s) ≡ false
  expired_refs-none none_due =
      exists?-map ref_of q _ ∙ exists?-take (λ b. q (ref_of b)) limit _ (sorted ∙ none_due)

  -- All of them, where the limit is not met.
  pub expired_refs-all :
      length (expired_refs leq cutoff limit s) < limit
      → exists? q (expired_refs leq cutoff limit s) ≡ exists? due s.blobs
  expired_refs-all short =
      let rows = sort_by (by_blob_id leq) (select (expired cutoff s.upload_sessions) s.blobs) in
      let fits : length rows ≤ limit =
        ground (arith, short, length-map ref_of (take limit rows), length-take limit rows) in
      exists?-map ref_of q _ ∙ ap (exists? (λ b. q (ref_of b))) (take-all limit rows fits) ∙ sorted
