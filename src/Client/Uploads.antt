-- ===== src/Client/Uploads.antt =====
-- The steps of UploadFile over a connection to the server, and what they leave there.
use goph_keeper.Common.{
  ℕ, suc, ◌<◌, String, true, false, not, ◌≡◌, ◌∙◌, refl, sym, ap, subst, Option, some, List, [],
  ◌∷◌, arith, Bool-cases, inl, inr, leb, length,
}
use goph_keeper.Common.Table.{is_null}
use goph_keeper.Server.Error.{ok as server_ok}
use goph_keeper.Blob.Types.{Blob, Status, committed, status_eq}
use goph_keeper.Blob.Chunks.{UploadMessage, header}
use goph_keeper.Blob.Gathered.{bodies}
use goph_keeper.Blob.Start.{StartBlobUploadRequest, StartBlobUploadResponse, start_blob_upload}
use goph_keeper.Blob.Upload.{UploadBlobResponse, upload_blob}
use goph_keeper.Blob.Commit.{commit_blob_upload}
use goph_keeper.Blob.Stored.{IsKeyed, IsHeld, IsUploaded, object_key_of}
use goph_keeper.Blob.Stored.Starts.{IsTrimmed, AreTrimmed, start_blob_upload-IsHeld}
use goph_keeper.Blob.Stored.Uploads.{upload_blob-IsUploaded}
use goph_keeper.Blob.Stored.{commit-IsUploaded}
use goph_keeper.Client.Run.{pure, Result, ok, ◌>>=◌, ◌>>◌, guard, commit_failed, panic}
use goph_keeper.Client.Steps.{Returns, in_steps, guard_passed}
use goph_keeper.Client.App.{App, remote}
use goph_keeper.Client.Files.{send_chunks, commit_upload, usable_chunk_size}
use goph_keeper.Client.Unlocked.{remote_Returns}
use goph_keeper.Client.Link.{Link, Handlers, connect}
use goph_keeper.Client.Account.{rpc_call-Answered}
use goph_keeper.Client.Sent.{bodies-pieces, pieces, streamed, send_chunks-pieces}

-- the same key and user
abbrev pub IsSame : App Link → App Link → Type 0
IsSame a b = (a.dek ≡ b.dek) × (a.client.user ≡ b.client.user)

pub then_same : (a b c : App Link) → IsSame b a → IsSame c b → IsSame c a
then_same a b c p q = (q.0 ∙ p.0, q.1 ∙ p.1)

ok_text : {x y : String} → ◌≡◌ {A = Result String} (ok x) (ok y) → x ≡ y
ok_text h = cc

module _ (h : Handlers) (user : String) where
  pub started :
      (req : StartBlobUploadRequest) (a : App Link) (r : StartBlobUploadResponse) (a' : App Link)
      → Returns (remote ((connect h).start_blob_upload req)) a r a'
      → a.client.user ≡ some user
      → AreTrimmed a.client.server
      → IsSame a' a
        × ((IsKeyed user r.blob_id (object_key_of user r.blob_id) a'.client.server
              × IsHeld user r.blob_id r.upload_session_id a'.client.server)
            × (IsTrimmed r.upload_session_id × IsTrimmed r.blob_id))
  unfolding connect
  started req a r a' ran who trimmed =
      let (sent, left) = remote_Returns ((connect h).start_blob_upload req) a r a' ran in
      let (answered, next) =
        rpc_call-Answered (λ user. start_blob_upload h.blob user (some req)) (λ r. r) a.client r
          a'.client sent in
      let m = λ (o : Option String). start_blob_upload h.blob o (some req) a.client.server in
      let was = subst (λ o. (m o).0 ≡ server_ok answered.value) who answered.was in
      let all =
        (start_blob_upload-IsHeld h.blob user req).after a.client.server trimmed answered.value
          was in
      let server : a'.client.server ≡ (m (some user)).1 =
        ap (λ (l : Link). l.server) next ∙ ap (λ o. (m o).1) who in
      (
        (ap (λ (b : App Link). b.dek) left, ap (λ (l : Link). l.user) next),
        rw (answered.is, server) all,
      )

  closed :
      (bid key sid : String) (content : List ℕ) (ms : List UploadMessage) (a : App Link)
      (st : Status) (a' : App Link)
      → Returns (remote (connect h).close_and_recv) a st a'
      → a.client.user ≡ some user
      → a.client.stream ≡ header sid ∷ ms
      → IsTrimmed sid
      → bodies ms ≡ content
      → IsKeyed user bid key a.client.server × IsHeld user bid sid a.client.server
      → IsSame a' a × IsUploaded user bid key content a'.client.server
  unfolding connect
  closed bid key sid content ms a st a' ran who streams trimmed is held =
      let (sent, left) = remote_Returns (connect h).close_and_recv a st a' ran in
      let (answered, next) =
        rpc_call-Answered (λ user. upload_blob h.blob user a.client.stream)
          (λ (r : UploadBlobResponse). r.status) a.client st a'.client sent in
      let m =
        λ (o : Option String) (q : List UploadMessage). upload_blob h.blob o q a.client.server in
      let was =
        subst (λ q. (m (some user) q).0 ≡ server_ok answered.value) streams
          (subst (λ o. (m o a.client.stream).0 ≡ server_ok answered.value) who answered.was) in
      let all =
        (upload_blob-IsUploaded user bid key content h.blob sid ms trimmed is).after a.client.server
          held answered.value was in
      let server : a'.client.server ≡ (m (some user) (header sid ∷ ms)).1 =
        ap (λ (l : Link). l.server) next
        ∙ ap (λ o. (m o a.client.stream).1) who
        ∙ ap (λ q. (m (some user) q).1) streams in
      ((ap (λ (b : App Link). b.dek) left, ap (λ (l : Link). l.user) next), rw server all)

  commit_called :
      (bid key sid : String) (content : List ℕ) (a : App Link) (u : Unit {0}) (a' : App Link)
      → Returns
          (do
            blob ← remote ((connect h).commit_blob_upload sid)
            guard (not (is_null blob)) commit_failed)
          a
          u
          a'
      → IsUploaded user bid key content a.client.server
      → IsSame a' a × IsUploaded user bid key content a'.client.server
  unfolding connect
  commit_called bid key sid content a u a' ran held =
      in_steps (remote ((connect h).commit_blob_upload sid)) _ a u a' ran λ blob a1 h1 k1.
        let (sent, left) = remote_Returns ((connect h).commit_blob_upload sid) a blob a1 h1 in
        let (answered, next) =
          rpc_call-Answered (λ user. commit_blob_upload h.blob user (some sid))
            (λ (b : Blob). some b.blob_id) a.client blob a1.client sent in
        let (_, same) = guard_passed (not (is_null blob)) commit_failed a1 u a' k1 in
        let all =
          (commit-IsUploaded user bid key content h.blob a.client.user (some sid)).at
            a.client.server held in
        let server : a1.client.server
            ≡ (commit_blob_upload h.blob a.client.user (some sid) a.client.server).1 =
          ap (λ (l : Link). l.server) next in
        subst (λ b. IsSame b a × IsUploaded user bid key content b.client.server) (sym same)
          ((ap (λ (b : App Link). b.dek) left, ap (λ (l : Link). l.user) next), rw server all)

  committed_after :
      (bid key sid : String) (content : List ℕ) (st : Status) (a : App Link) (u : Unit {0})
      (a' : App Link)
      → Returns (commit_upload (connect h) st sid) a u a'
      → IsUploaded user bid key content a.client.server
      → IsSame a' a × IsUploaded user bid key content a'.client.server
  unfolding commit_upload
  committed_after bid key sid content st a u a' ran held =
      elim (Bool-cases (status_eq st committed)) [
        | inl e ↦
            let same : a ≡ a' = ap (λ (r : Result (Unit {0}) × App Link). r.1) (rw e at ran) in
            subst (λ b. IsSame b a × IsUploaded user bid key content b.client.server) same
              ((refl, refl), held)
        | inr e ↦ commit_called bid key sid content a u a' (rw e at ran) held
      ]

  usable_chunks :
      (fuel m : ℕ) (bytes : List ℕ) (a : App Link) (u : Unit {0}) (a' : App Link)
      → 0 < length bytes
      → Returns (send_chunks (connect h) (suc fuel) m bytes 0) a u a'
      → usable_chunk_size m ≡ true
  unfolding send_chunks
  usable_chunks fuel m bytes a u a' filled ran =
      let more : leb (length bytes) 0 ≡ false = ground (arith, filled) in
      in_steps (guard (usable_chunk_size m) panic) _ a u a' (rw more at ran)
        λ t a1 h1 k1. let (usable, _) = guard_passed (usable_chunk_size m) panic a t a1 h1 in usable

  filled_usable :
      (m : ℕ) (bytes : List ℕ) (a : App Link) (u : Unit {0}) (a' : App Link)
      → 0 < length bytes
      → Returns (send_chunks (connect h) (length bytes) m bytes 0) a u a'
      → usable_chunk_size m ≡ true
  filled_usable m [] a u a' filled ran = absurd (omega (arith, filled))
  filled_usable m (x ∷ xs) a u a' filled ran =
      usable_chunks (length xs) m (x ∷ xs) a u a' filled ran

  -- The stream after it is opened, and the header and the chunks are sent.
  streams_sent :
      (sid : String) (m : ℕ) (bytes : List ℕ) (a a1 a2 a3 : App Link) (u v w : Unit {0})
      → 0 < length bytes
      → Returns (remote (connect h).upload_blob) a u a1
      → Returns (remote ((connect h).send (header sid))) a1 v a2
      → Returns (send_chunks (connect h) (length bytes) m bytes 0) a2 w a3
      → (ms : List UploadMessage) × ((bodies ms ≡ bytes)
          × (a3 ≡ record a { client = record a.client { stream = header sid ∷ ms } }))
  unfolding remote connect
  streams_sent sid m bytes a a1 a2 a3 u v w filled opens first rest =
      let usable = filled_usable m bytes a2 w a3 filled rest in
      let pos : 0 < m = ground (arith, usable) in
      let opened : record a { client = record a.client { stream = [] } } ≡ a1 =
        ap (λ (r : Result (Unit {0}) × App Link). r.1) opens in
      let headed : streamed (header sid ∷ []) a1 ≡ a2 =
        ap (λ (r : Result (Unit {0}) × App Link). r.1) first in
      let chunks : streamed (pieces (length bytes) m bytes 0) a2 ≡ a3 =
        ap (λ (r : Result (Unit {0}) × App Link). r.1)
          (sym (send_chunks-pieces h m bytes usable (length bytes) 0 a2) ∙ rest) in
      (
        pieces (length bytes) m bytes 0,
        (
          bodies-pieces m bytes pos (length bytes) 0 (omega arith),
          sym chunks
              ∙ ap (streamed (pieces (length bytes) m bytes 0))
                  (sym headed ∙ ap (streamed (header sid ∷ [])) (sym opened)),
        ),
      )

  -- What UploadFile does after StartBlobUpload leaves the bytes as the object of the blob.
  pub streamed_Uploaded :
      (bid key sid id : String) (m : ℕ) (bytes : List ℕ) (a a' : App Link)
      → 0 < length bytes
      → a.client.user ≡ some user
      → IsTrimmed sid
      → IsKeyed user bid key a.client.server × IsHeld user bid sid a.client.server
      → Returns
          (do
            remote (connect h).upload_blob
            remote ((connect h).send (header sid))
            send_chunks (connect h) (length bytes) m bytes 0
            status ← remote (connect h).close_and_recv
            commit_upload (connect h) status sid
            pure bid)
          a
          id
          a'
      → (bid ≡ id) × (IsSame a' a × IsUploaded user bid key bytes a'.client.server)
  streamed_Uploaded bid key sid id m bytes a a' filled who trimmed held ran =
      in_steps (remote (connect h).upload_blob) _ a id a' ran λ u1 a1 h1 k1.
        in_steps (remote ((connect h).send (header sid))) _ a1 id a' k1 λ u2 a2 h2 k2.
          in_steps (send_chunks (connect h) (length bytes) m bytes 0) _ a2 id a' k2 λ u3 a3 h3 k3.
            in_steps (remote (connect h).close_and_recv) _ a3 id a' k3 λ st a4 h4 k4.
              in_steps (commit_upload (connect h) st sid) _ a4 id a' k4 λ u5 a5 h5 k5.
                let (ms, (sent, stream)) =
                  streams_sent sid m bytes a a1 a2 a3 u1 u2 u3 filled h1 h2 h3 in
                let link : a3.client ≡ record a.client { stream = header sid ∷ ms } =
                  ap (λ (b : App Link). b.client) stream in
                let same3 : IsSame a3 a =
                  (ap (λ (b : App Link). b.dek) stream, ap (λ (l : Link). l.user) link) in
                let (same4, held4) =
                  closed bid key sid bytes ms a3 st a4 h4 (same3.1 ∙ who)
                    (ap (λ (l : Link). l.stream) link) trimmed sent
                    (rw (ap (λ (l : Link). l.server) link) held) in
                let (same5, held5) = committed_after bid key sid bytes st a4 u5 a5 h5 held4 in
                let end : a5 ≡ a' = ap (λ (x : Result String × App Link). x.1) k5 in
                let same = then_same a a4 a5 (then_same a a3 a4 same3 same4) same5 in
                (
                  ok_text (ap (λ (x : Result String × App Link). x.0) k5),
                  subst (λ b. IsSame b a × IsUploaded user bid key bytes b.client.server) end
                      (same, held5),
                )
