-- ===== src/Client/Added.antt =====
-- AddItem, and what GetItem and DecryptItem return after it.
use goph_keeper.Common.{
  ℕ, String, true, false, ◌≡◌, ◌∙◌, refl, sym, ap, Option, some, List, [], ◌∷◌, ◌++◌, arith,
}
use goph_keeper.Common.Bytes.{is_filled}
use goph_keeper.Vault.Payload.{EncryptedField}
use goph_keeper.Client.Types.{Item, PendingOperation, SyncState}
use goph_keeper.Client.Run.{Result, ok, Exec, ◌>>=◌}
use goph_keeper.Client.Steps.{Returns, in_steps}
use goph_keeper.Client.Storage.{Storage, upsert, save_sync}
use goph_keeper.Client.App.{App, stored, read_random}
use goph_keeper.Client.Crypto.{Library}
use goph_keeper.Client.Vault.{
  unlocked, encrypt_field, generate_id, enqueue, add_item, new_item, create_operation, get_item,
  decrypt_item,
}
use goph_keeper.Client.Items.{get_reads, kept, upsert_reads, save_sync_items}
use goph_keeper.Client.Sealed.{
  AeadLaw, FillsSlices, Holds, drew, sealed_filled, encrypt_field-Holds, decrypt_field-Holds,
}

-- the state with one more operation
abbrev pub queued : PendingOperation → SyncState → SyncState
queued op st = record st { pending_operations = st.pending_operations ++ op ∷ [] }

module _ {R : Type 0} where
  pub stored_Returns :
      {A : Type 0} (m : Exec Storage A) (a : App R) (v : A) (a' : App R)
      → Returns (stored m) a v a'
      → Returns m a.local_storage v a'.local_storage
        × (a' ≡ record a { local_storage = a'.local_storage })
  unfolding stored
  stored_Returns {A = A} m a v a' h =
      let e = ap (λ (r : Result A × App R). r.0) h in
      let k = ap (λ (r : Result A × App R). r.1) h in
      let left = ap (λ (b : App R). b.local_storage) k in
      (cc, sym k ∙ ap (λ t. record a { local_storage = t }) left)

  pub unlocked_key :
      (a : App R) (dek : List ℕ) (a' : App R)
      → Returns unlocked a dek a'
      → (is_filled a.dek ≡ true) × (dek ≡ a.dek) × (a' ≡ a)
  unfolding ◌>>=◌
  unlocked_key a dek a' h = ground arith

  generate_id_draws :
      (prefix : String) (a : App R) (id : String) (a' : App R)
      → Returns (generate_id prefix) a id a'
      → a' ≡ drew a
  unfolding generate_id read_random
  generate_id_draws prefix a id a' h = cc

  enqueue_Returns :
      (op : PendingOperation) (a : App R) (u : Unit {0}) (a' : App R)
      → Returns (enqueue op) a u a'
      → Returns (save_sync (queued op a.sync_state)) a.local_storage u a'.local_storage
        × (a' ≡ record a { sync_state = queued op a.sync_state; local_storage = a'.local_storage })
  unfolding enqueue ◌>>=◌
  enqueue_Returns op a u a' h =
      stored_Returns (save_sync (queued op a.sync_state))
        (record a { sync_state = queued op a.sync_state }) u a' h

  -- What AddItem leaves when it succeeds.
  pub record Added (lib : Library) (a : App R) (item_type : ℕ) (title metadata payload : List ℕ)
      (blob_id : String) (a' : App R) : Type 0 where
    pub item_id : String
    pub op_id : String
    pub enc_title : EncryptedField
    pub enc_meta : EncryptedField
    pub enc_payload : EncryptedField
    pub title_held : Holds lib a.dek title enc_title
    pub meta_held : Holds lib a.dek metadata enc_meta
    pub payload_held : Holds lib a.dek payload enc_payload
    pub key : is_filled a.dek ≡ true
    pub dek_kept : a'.dek ≡ a.dek
    pub between : Storage
    pub put_in :
        Returns
          (upsert (new_item item_id item_type enc_title enc_meta enc_payload blob_id))
          a.local_storage
          tt
          between
    pub queue :
        a'.sync_state
        ≡ queued
            (create_operation op_id
              (new_item item_id item_type enc_title enc_meta enc_payload blob_id))
            a.sync_state
    pub saved : Returns (save_sync a'.sync_state) between tt a'.local_storage

  add_item-Added :
      (lib : Library) (a : App R) (item_type : ℕ) (title metadata payload : List ℕ)
      (blob_id : String) (a' : App R)
      → FillsSlices a.random
      → Returns (add_item lib item_type title metadata payload blob_id) a tt a'
      → Added lib a item_type title metadata payload blob_id a'
  unfolding add_item
  add_item-Added lib a item_type title metadata payload blob_id a' law h =
      in_steps unlocked _ a tt a' h λ dek a0 h0 k0.
        in_steps (encrypt_field lib dek title) _ a0 tt a' k0 λ t a1 h1 k1.
          in_steps (encrypt_field lib dek metadata) _ a1 tt a' k1 λ m a2 h2 k2.
            in_steps (encrypt_field lib dek payload) _ a2 tt a' k2 λ p a3 h3 k3.
              in_steps (generate_id "item") _ a3 tt a' k3 λ item_id a4 h4 k4.
                in_steps (generate_id "op") _ a4 tt a' k4 λ op_id a5 h5 k5.
                  in_steps (stored (upsert _)) _ a5 tt a' k5 λ u a6 h6 k6.
                    let (key, is_dek, same) = unlocked_key a dek a0 h0 in
                    let (t_held, d1) = encrypt_field-Holds lib dek title a0 t a1 (rw same law) h1 in
                    let (m_held, d2) =
                      encrypt_field-Holds lib dek metadata a1 m a2 (rw (d1, same) law) h2 in
                    let (p_held, d3) =
                      encrypt_field-Holds lib dek payload a2 p a3 (rw (d2, d1, same) law) h3 in
                    let d4 = generate_id_draws "item" a3 item_id a4 h4 in
                    let d5 = generate_id_draws "op" a4 op_id a5 h5 in
                    let before =
                      d5
                      ∙ ap drew (d4 ∙ ap drew (d3 ∙ ap drew (d2 ∙ ap drew (d1 ∙ ap drew same)))) in
                    let (put6, d6) = stored_Returns (upsert _) a5 u a6 h6 in
                    let left =
                      d6
                      ∙ ap {B = App R}
                          (λ (b : App R). record b { local_storage = a6.local_storage }) before in
                    let (saved, d7) = enqueue_Returns _ a6 tt a' k6 in
                    record {
                      item_id = item_id;
                      op_id = op_id;
                      enc_title = t;
                      enc_meta = m;
                      enc_payload = p;
                      title_held = rw is_dek at t_held;
                      meta_held = rw is_dek at m_held;
                      payload_held = rw is_dek at p_held;
                      key = key;
                      dek_kept = ap (λ (b : App R). b.dek) d7 ∙ ap (λ (b : App R). b.dek) left;
                      between = a6.local_storage;
                      put_in = rw (ap (λ (b : App R). b.local_storage) before) at put6;
                      queue =
                          ap (λ (b : App R). b.sync_state) d7
                          ∙ ap
                              (λ (b : App R).
                                queued
                                  (create_operation op_id
                                    (new_item item_id item_type t m p blob_id))
                                  b.sync_state)
                              left;
                      saved = rw (ap (λ (b : App R). b.sync_state) d7) saved;
                    }

module _ (lib : Library) (key title metadata payload : List ℕ) (item_id : String) (item_type : ℕ)
    (t m p : EncryptedField) (blob_id : String) where
  kept_whole :
      AeadLaw lib
      → Holds lib key title t
      → Holds lib key metadata m
      → Holds lib key payload p
      → kept (new_item item_id item_type t m p blob_id) ≡ new_item item_id item_type t m p blob_id
  unfolding kept
  kept_whole law ht hm hp =
      rw
        (
          sealed_filled lib key title t law ht,
          sealed_filled lib key metadata m law hm,
          sealed_filled lib key payload p law hp,
        )
        refl

  decrypt_item-Holds :
      AeadLaw lib
      → {R : Type 0} (a : App R) → is_filled a.dek ≡ true
      → Holds lib a.dek title t
      → Holds lib a.dek metadata m
      → Holds lib a.dek payload p
      → (decrypt_item lib (new_item item_id item_type t m p blob_id) a).0
        ≡ ok (title, metadata, payload)
  unfolding decrypt_item ◌>>=◌
  decrypt_item-Holds law a filled ht hm hp =
      rw
        (
          filled,
          decrypt_field-Holds lib a.dek title t a law ht,
          decrypt_field-Holds lib a.dek metadata m a law hm,
          decrypt_field-Holds lib a.dek payload p a law hp,
        )
        refl

module _ {R : Type 0} where
  -- An item that AddItem has stored under a new identifier, with an operation queued for it, is the one
  -- that GetItem returns under it, at version 1 and with its type and blob, and DecryptItem makes its
  -- title, metadata and payload of it; where the library's AEAD opens what it sealed, the generator
  -- fills its slices, AddItem succeeds, and the query of GetItem does not fail.
  pub add_item-decrypt_item :
      (lib : Library)
      → AeadLaw lib
      → (a : App R) → FillsSlices a.random
      → (item_type : ℕ) (title metadata payload : List ℕ) (blob_id : String) (a' : App R)
      → Returns (add_item lib item_type title metadata payload blob_id) a tt a'
      → a'.local_storage.fault a'.local_storage.calls ≡ false
      → (op : PendingOperation) × (it : Item) × ((a'.sync_state.pending_operations
            ≡ a.sync_state.pending_operations ++ op ∷ [])
          × ((get_item op.item_id a').0 ≡ some it)
          × ((decrypt_item lib it a').0 ≡ ok (title, metadata, payload))
          × (it.version ≡ 1)
          × (it.item_type ≡ item_type)
          × (it.blob_id ≡ blob_id)
          × (it.deleted ≡ false))
  unfolding get_item
  add_item-decrypt_item lib law a fills item_type title metadata payload blob_id a' h quiet =
      let added = add_item-Added lib a item_type title metadata payload blob_id a' fills h in
      let item =
        new_item added.item_id item_type added.enc_title added.enc_meta added.enc_payload blob_id in
      let there = upsert_reads item a.local_storage tt added.between added.put_in in
      let here = save_sync_items a'.sync_state added.between tt a'.local_storage added.saved in
      (
        create_operation added.op_id item,
        item,
        (
          ap (λ (st : SyncState). st.pending_operations) added.queue,
          get_reads a'.local_storage added.item_id quiet
              ∙ ap (λ (m : String → Option Item). m added.item_id) here
              ∙ there
              ∙ ap some (
                  kept_whole lib a.dek title metadata payload added.item_id item_type
                    added.enc_title added.enc_meta added.enc_payload blob_id law added.title_held
                    added.meta_held added.payload_held),
          decrypt_item-Holds lib a.dek title metadata payload added.item_id item_type
              added.enc_title added.enc_meta added.enc_payload blob_id law a'
              (rw added.dek_kept added.key) (rw added.dek_kept added.title_held)
              (rw added.dek_kept added.meta_held) (rw added.dek_kept added.payload_held),
          refl,
          refl,
          refl,
          refl,
        ),
      )
