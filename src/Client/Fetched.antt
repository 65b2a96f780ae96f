-- ===== src/Client/Fetched.antt =====
-- DownloadFile over a connection to the server, and the file whose encryption the server has.
use goph_keeper.Common.{
  ℕ, ◌+◌, String, ◌≡◌, ◌∙◌, refl, sym, ap, subst, Option, none, some, List, [], ◌∷◌, ◌++◌, length,
  take, drop, leb,
}
use goph_keeper.Common.Table.{find?}
use goph_keeper.Common.Text.{trim_space}
use goph_keeper.Server.Error.{Error as ServerError, ok as server_ok}
use goph_keeper.Server.State.{Object}
use goph_keeper.Blob.Types.{Blob}
use goph_keeper.Blob.Repository.{blob_key}
use goph_keeper.Blob.Storage.{at_key}
use goph_keeper.Blob.Chunks.{wrap_u64}
use goph_keeper.Blob.Download
use goph_keeper.Blob.Download.{Download, DownloadMessage, download_blob}
use goph_keeper.Blob.Download.Complete.{parts, numbered, joined}
use goph_keeper.Blob.Download.Delivered.{download_complete}
use goph_keeper.Client.Run.{Result, ok, guard, too_short}
use goph_keeper.Client.Steps.{Returns, in_steps}
use goph_keeper.Client.App.{App, remote}
use goph_keeper.Client.Crypto.{Library, decrypt, nonce_size}
use goph_keeper.Client.Vault.{unlocked}
use goph_keeper.Client.Files.{chunk_data, received, download_file}
use goph_keeper.Client.Sealed.{AeadLaw, IsSealed, decrypt-IsSealed}
use goph_keeper.Client.Added.{unlocked_key}
use goph_keeper.Client.Unlocked.{remote_Returns}
use goph_keeper.Client.Link.{Link, Handlers, connect}
use goph_keeper.Client.Account.{rpc_call-Answered, some_injective}

chunk_data-numbered : (n : ℕ) (ps : List (List ℕ)) → chunk_data (numbered n ps) ≡ joined ps
unfolding chunk_data numbered joined
chunk_data-numbered n [] = refl
chunk_data-numbered n (p ∷ ps) = ap (λ qs. p ++ qs) (chunk_data-numbered (wrap_u64 (n + 1)) ps)

received_data :
    {S : Type 0} (sent : List DownloadMessage) (ended : Option ServerError) (s : S) (bytes : List ℕ)
    (s' : S)
    → Returns (received (record { sent = sent; ended = ended })) s bytes s'
    → (ended ≡ none) × (bytes ≡ chunk_data sent)
unfolding received chunk_data
received_data [] none s bytes s' h = absurd cc
received_data [] (some e) s bytes s' h = absurd cc
received_data (Download.chunk i b ∷ rest) ended s bytes s' h = absurd cc
received_data (Download.header i ∷ rest) none s bytes s' h = (refl, cc)
received_data (Download.header i ∷ rest) (some e) s bytes s' h = absurd cc

ok_value : (v w : List ℕ) → ◌≡◌ {A = Result (List ℕ)} (ok v) (ok w) → v ≡ w
ok_value v w h = cc

take-append : {A : Type 0} (xs ys : List A) → take (length xs) (xs ++ ys) ≡ xs
take-append [] ys = refl
take-append (x ∷ xs) ys = ap (◌∷◌ x) (take-append xs ys)

drop-append : {A : Type 0} (xs ys : List A) → drop (length xs) (xs ++ ys) ≡ ys
drop-append [] ys = refl
drop-append (x ∷ xs) ys = drop-append xs ys

-- A nonce and a ciphertext, one after the other, decrypt to what was sealed.
opened_whole :
    {S : Type 0} (lib : Library) (key plaintext nonce ciphertext bytes : List ℕ)
    → AeadLaw lib
    → bytes ≡ nonce ++ ciphertext
    → IsSealed lib key plaintext nonce ciphertext
    → (s : S) (v : List ℕ) (s' : S)
    → Returns (decrypt lib key (take nonce_size bytes) (drop nonce_size bytes)) s v s'
    → v ≡ plaintext
opened_whole {S} lib key plaintext nonce ciphertext bytes law e sealed s v s' h =
    let front : take nonce_size bytes ≡ nonce =
      ap (take nonce_size) e
      ∙ subst (λ n. take n (nonce ++ ciphertext) ≡ nonce) sealed.nonce_sized
          (take-append nonce ciphertext) in
    let back : drop nonce_size bytes ≡ ciphertext =
      ap (drop nonce_size) e
      ∙ subst (λ n. drop n (nonce ++ ciphertext) ≡ ciphertext) sealed.nonce_sized
          (drop-append nonce ciphertext) in
    let opened = decrypt-IsSealed lib key plaintext nonce ciphertext s law sealed in
    let again : Returns (decrypt lib key (take nonce_size bytes) (drop nonce_size bytes)) s
        plaintext s =
      rw (front, back) opened in
    ok_value v plaintext (ap (λ (r : Result (List ℕ) × S). r.0) (sym h ∙ again))

-- DownloadFile that succeeds returns the plaintext of the object that the server has for the user's blob
-- of that identifier: where the object is the nonce and the ciphertext that this key makes of the
-- plaintext, the library's AEAD opens what it sealed, and the reader of the storage, once it is at
-- io.EOF, has delivered the content.
pub download_file-Sealed :
    (h : Handlers) (lib : Library)
    → AeadLaw lib
    → ((n : ℕ) (content : List ℕ) (ps : List (List ℕ))
        → parts (h.reader n content) ≡ some ps
        → joined ps ≡ content)
    → (a a' : App Link) (user id : String) (v plaintext nonce ciphertext : List ℕ) (b : Blob)
      (o : Object)
    → a.client.user ≡ some user
    → find? (blob_key user (trim_space id)) a.client.server.blobs ≡ some b
    → find? (at_key b.object_key) a.client.server.objects ≡ some o
    → o.content ≡ nonce ++ ciphertext
    → IsSealed lib a.dek plaintext nonce ciphertext
    → Returns (download_file (connect h) lib id) a v a'
    → (download_file (connect h) lib id a).0 ≡ ok plaintext
unfolding download_file connect
download_file-Sealed h lib law reads a a' user id v plaintext nonce ciphertext b o who row object
      content sealed ran =
    in_steps unlocked _ a v a' ran λ dek a1 h1 k1.
      in_steps (remote ((connect h).download_blob id)) _ a1 v a' k1 λ d a2 h2 k2.
        in_steps (received d) _ a2 v a' k2 λ bytes a3 h3 k3.
          in_steps (guard (leb nonce_size (length bytes)) too_short) _ a3 v a' k3 λ u a4 h4 k4.
            let (_, key, same) = unlocked_key a dek a1 h1 in
            let (sent, _) = remote_Returns ((connect h).download_blob id) a1 d a2 h2 in
            let (answered, _) =
              rpc_call-Answered (λ user. download_blob h.blob h.reader user id) (λ d. d) a1.client d
                a2.client sent in
            let (ended, data_is) = received_data d.sent d.ended a2 bytes a3 h3 in
            let was =
              subst
                (λ q.
                  (download_blob h.blob h.reader q id a.client.server).0 ≡ server_ok answered.value)
                who
                (subst
                  (λ (c : App Link).
                    (download_blob h.blob h.reader c.client.user id c.client.server).0
                    ≡ server_ok answered.value)
                  same answered.was) in
            let (b', o', ps, (found, _, _, there, delivered, whole, _)) =
              download_complete h.blob h.reader reads user id a.client.server answered.value was
                (ap (λ (x : Download). x.ended) (sym answered.is) ∙ ended) in
            let same_object : o' ≡ o = some_injective (
              sym (
                subst (λ (x : Blob). find? (at_key x.object_key) a.client.server.objects ≡ some o')
                  (some_injective (sym found ∙ row)) there)
              ∙ object) in
            let gathered : bytes ≡ nonce ++ ciphertext =
              data_is
              ∙ ap (λ (x : Download). chunk_data x.sent) answered.is
              ∙ ap chunk_data delivered
              ∙ chunk_data-numbered 0 ps
              ∙ whole
              ∙ ap (λ (x : Object). x.content) same_object
              ∙ content in
            let value =
              opened_whole lib dek plaintext nonce ciphertext bytes law gathered
                (subst (λ k. IsSealed lib k plaintext nonce ciphertext) (sym key) sealed) a4 v a'
                k4 in
            ap (λ (r : Result (List ℕ) × App Link). r.0) ran ∙ ap ok value
