-- ===== src/Client/Vault.antt =====
-- The items of internal/client/app/vault.go: AddItem, UpdateItem, DeleteItem, ListItems, GetItem,
-- DecryptItem and Unlock.
use goph_keeper.Common.{
  ℕ, ◌+◌, ◌-◌, ◌/◌, ◌%◌, String, Option, none, some, List, [], ◌∷◌, ◌++◌, false,
}
use goph_keeper.Common.Bytes.{is_filled}
use goph_keeper.Common.Text.{concat}
use Prim.Native.String.{char_at}
use goph_keeper.Vault.Payload.{EncryptedField}
use goph_keeper.Sync.Push.{ItemSnapshot, type_create, type_update, type_delete}
use goph_keeper.Client.Types.{Item, PendingOperation}
use goph_keeper.Client.Run.{
  Result, ok, err, Exec, ◌>>=◌, ◌>>◌, pure, guard, found, on_error, login_required, item_not_found,
  invalid_password, panic,
}
use goph_keeper.Client.Storage.{upsert, get, delete, list, load, save_sync}
use goph_keeper.Client.App.{App, stored, field, assign, read_random}
use goph_keeper.Client.Crypto.{Library, encrypt, decrypt, derive_key}

-- %x of a byte slice
unfoldable pub hex : List ℕ → String
hex [] = String.[]
hex (b ∷ bs) =
    String.◌∷◌ (char_at "0123456789abcdef" (b / 16))
      (String.◌∷◌ (char_at "0123456789abcdef" (b % 16)) (hex bs))

-- The bytes of an identifier; the slice stays zero if the generator fails.
abbrev drawn : Result (List ℕ) → List ℕ
drawn (ok b) = b
drawn (err e) = 0 ∷ (0 ∷ (0 ∷ (0 ∷ [])))

-- the snapshot of an operation, without the blob
abbrev pub snapshot_of : Item → ItemSnapshot
snapshot_of item = record {
  item_type = item.item_type;
  title = item.title;
  metadata = item.metadata;
  payload = item.payload;
  blob_id = "";
}

-- the item that AddItem stores, and the operation that it queues
abbrev pub new_item : String → ℕ → EncryptedField → EncryptedField → EncryptedField → String → Item
new_item item_id item_type title metadata payload blob_id = record {
  id = item_id;
  version = 1;
  item_type = item_type;
  title = some title;
  metadata = some metadata;
  payload = some payload;
  blob_id = blob_id;
  deleted = false;
}

abbrev pub create_operation : String → Item → PendingOperation
create_operation op_id item = record {
  operation_id = op_id;
  operation_type = type_create;
  item_id = item.id;
  expected_version = 0;
  snapshot = some (snapshot_of item);
}

module _ {R : Type 0} where
  unfoldable pub generate_id : String → Exec (App R) String
  unfolding read_random hex
  generate_id prefix a =
      let (r, a') = read_random 4 a in (ok (concat prefix (concat "-" (hex (drawn r)))), a')

  unfoldable pub encrypt_field : Library → List ℕ → List ℕ → Exec (App R) EncryptedField
  unfolding encrypt
  encrypt_field lib dek bytes = do
    r ← encrypt lib dek bytes
    pure (record { ciphertext = r.1; nonce = r.0 })

  -- len(a.DEK) == 0
  abbrev pub unlocked : Exec (App R) (List ℕ)
  unlocked a = (guard (is_filled a.dek) login_required >> pure a.dek) a

  -- append(a.SyncState.PendingOperations, op), and SaveSync
  unfoldable pub enqueue : PendingOperation → Exec (App R) (Unit {0})
  unfolding stored
  enqueue op = do
    assign λ a. record a {
      sync_state = record a.sync_state {
        pending_operations = a.sync_state.pending_operations ++ op ∷ [];
      };
    }
    st ← field λ a. a.sync_state
    stored (save_sync st)

  unfoldable pub add_item :
      Library → ℕ → List ℕ → List ℕ → List ℕ → String → Exec (App R) (Unit {0})
  unfolding encrypt_field generate_id enqueue stored
  add_item lib item_type title metadata payload blob_id = do
    dek ← unlocked
    enc_title ← encrypt_field lib dek title
    enc_meta ← encrypt_field lib dek metadata
    enc_payload ← encrypt_field lib dek payload
    item_id ← generate_id "item"
    op_id ← generate_id "op"
    let item = new_item item_id item_type enc_title enc_meta enc_payload blob_id
    stored (upsert item)
    enqueue (create_operation op_id item)

  unfoldable pub list_items : Exec (App R) (List Item)
  unfolding stored
  list_items = stored list

  unfoldable pub get_item : String → App R → Option Item × App R
  get_item item_id a =
      let (o, s) = get item_id a.local_storage in (o, record a { local_storage = s })

  -- the item, or the error of a missing one
  unfoldable pub local_item : String → Exec (App R) Item
  unfolding get_item
  local_item item_id a = let (o, a') = get_item item_id a in found o item_not_found a'

  unfoldable pub update_item :
      Library → String → ℕ → List ℕ → List ℕ → List ℕ → Exec (App R) (Unit {0})
  unfolding encrypt_field generate_id enqueue stored local_item
  update_item lib item_id item_type title metadata payload = do
    dek ← unlocked
    old ← local_item item_id
    enc_title ← encrypt_field lib dek title
    enc_meta ← encrypt_field lib dek metadata
    enc_payload ← encrypt_field lib dek payload
    op_id ← generate_id "op"
    let item : Item = record old {
      item_type = item_type;
      title = some enc_title;
      metadata = some enc_meta;
      payload = some enc_payload;
      version = old.version + 1;
    }
    stored (upsert item)
    enqueue (record {
      operation_id = op_id;
      operation_type = type_update;
      item_id = item_id;
      expected_version = item.version - 1;
      snapshot = some (snapshot_of item);
    })

  unfoldable pub delete_item : String → Exec (App R) (Unit {0})
  unfolding generate_id enqueue stored local_item
  delete_item item_id = do
    unlocked
    item ← local_item item_id
    op_id ← generate_id "op"
    stored (delete item_id)
    enqueue (record {
      operation_id = op_id;
      operation_type = type_delete;
      item_id = item_id;
      expected_version = item.version;
      snapshot = none;
    })

  -- A field that is nil is dereferenced.
  unfoldable pub decrypt_field : Library → List ℕ → Option EncryptedField → Exec (App R) (List ℕ)
  unfolding decrypt
  decrypt_field lib dek field = do f ← found field panic; decrypt lib dek f.nonce f.ciphertext

  unfoldable pub decrypt_item : Library → Item → Exec (App R) (List ℕ × List ℕ × List ℕ)
  unfolding decrypt_field
  decrypt_item lib it = do
    dek ← unlocked
    title ← decrypt_field lib dek it.title
    meta ← decrypt_field lib dek it.metadata
    payload ← decrypt_field lib dek it.payload
    pure (title, meta, payload)

  unfoldable pub unlock : Library → String → Exec (App R) (Unit {0})
  unfolding decrypt derive_key stored
  unlock lib password = do
    auth ← stored load
    dek ←
        on_error
          (decrypt lib (derive_key lib password auth.password_salt) auth.encrypted_dek_nonce
            auth.encrypted_dek)
          invalid_password
    assign λ a. record a { dek = dek; auth_state = auth }
