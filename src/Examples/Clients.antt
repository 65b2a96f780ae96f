-- ===== src/Examples/Clients.antt =====
-- A client with its local storage, and its operations on it.
use goph_keeper.Common.{
  ℕ, zero, suc, String, Bool, true, false, ◌≡◌, ◌∙◌, refl, sym, ap, Option, none, some, ◌⊎◌, List,
  [], ◌∷◌, ◌++◌, length, map, arith,
}
use goph_keeper.Common.Table.{exists?}
use goph_keeper.Vault.Payload.{EncryptedField}
use goph_keeper.Sync.Push.{type_create}
use goph_keeper.Client.Types.{Item, PendingOperation, SyncState}
use goph_keeper.Client.Run.{Error, err, ok, ◌>>=◌}
use goph_keeper.Client.Storage.{
  insert_all, pending_row, read, Storage, Tables, empty_auth_state, get, save_sync, load_sync,
  upsert, delete, call,
}
use goph_keeper.Client.App.{App, read_random, stored}
use goph_keeper.Client.Crypto.{Library, encrypt}
use goph_keeper.Client.Vault.{
  add_item, encrypt_field, generate_id, hex, enqueue, get_item, decrypt_item,
}
use goph_keeper.Client.Steps.{Returns}
use goph_keeper.Client.Added.{add_item-decrypt_item}
use goph_keeper.Client.Sealed.{AeadLaw, FillsSlices}
use goph_keeper.Client.Items.{Action, put, drop_item, run, replay, items_of, run_refines}
use goph_keeper.Client.Saves.{save_sync_succeeds}
use goph_keeper.Client.Saved.{save_sync_atomic, save_sync-load_sync, with_sync_state}

abbrev empty_tables : Tables
empty_tables = record {
  auth_state = none;
  sync_state = none;
  pending_operations = [];
  vault_items = [];
}

-- a new database, whose second call of the driver fails if `broken`
abbrev pub database : Bool → Storage
database broken = record {
  tables = empty_tables;
  fault = λ n. elim n [ suc zero ↦ broken | _ ↦ false ];
  times = λ n. n;
  calls = 0;
}

abbrev field : ℕ → EncryptedField
field n = record { ciphertext = n ∷ []; nonce = 1 ∷ [] }

abbrev note : String → Item
note id = record {
  id = id;
  version = 1;
  item_type = 1;
  title = some (field 7);
  metadata = none;
  payload = some (field 9);
  blob_id = "";
  deleted = false;
}

-- two items, of which the second statement fails, and a deletion
abbrev changes : List Action
changes = put (note "a") ∷ put (note "b") ∷ drop_item "a" ∷ put (note "c") ∷ []

run_refines_example :
    (get "c" (run changes (database true))).0
    ≡ replay changes (database true) (items_of (database true)) "c"
unfolding upsert delete call ◌>>=◌
run_refines_example = run_refines changes (database true) "c" refl

abbrev queue : SyncState
queue = record {
  last_revision = 3;
  pending_operations =
      record {
        operation_id = "op-1";
        operation_type = type_create;
        item_id = "a";
        expected_version = 0;
        snapshot = some (record {
          item_type = 1;
          title = some (field 7);
          metadata = some (field 8);
          payload = some (field 9);
          blob_id = "";
        });
      }
      ∷ [];
}

save_sync_atomic_example :
    (((save_sync queue (database true)).0 ≡ ok tt)
      × ((save_sync queue (database true)).1.tables ≡ with_sync_state queue empty_tables))
    ⊎ ((e : Error) × ((save_sync queue (database true)).0 ≡ err e)
        × ((save_sync queue (database true)).1.tables ≡ empty_tables))
save_sync_atomic_example = save_sync_atomic queue (database true)

save_sync-load_sync_example : (load_sync (save_sync queue (database false)).1).0 ≡ ok queue
unfolding save_sync ◌>>=◌ call exists?
save_sync-load_sync_example =
    save_sync-load_sync queue (database false) ((refl, refl, refl, refl), tt) refl refl refl
      (refl, tt)

-- a database without failures, which holds the first operation already
abbrev queued_once : Storage
queued_once = record (database false) {
  tables = record empty_tables { pending_operations = map pending_row queue.pending_operations };
  fault = λ n. false;
}

abbrev queued_twice : SyncState
queued_twice = record queue {
  pending_operations =
      queue.pending_operations
      ++ record {
        operation_id = "op-2";
        operation_type = type_create;
        item_id = "b";
        expected_version = 4;
        snapshot = none;
      }
        ∷ [];
}

save_sync_succeeds_example : (save_sync queued_twice queued_once).0 ≡ ok tt
unfolding exists?
save_sync_succeeds_example =
    save_sync_succeeds queued_twice queued_once (λ n. refl) (omega arith) (refl, (refl, tt))
      (omega arith, (omega arith, tt))

-- A library that seals by a mark in front of the plaintext.
abbrev unsealed : List ℕ → Option (List ℕ)
unsealed [] = none
unsealed (x ∷ xs) = some xs

abbrev pub zeros : ℕ → List ℕ
zeros zero = []
zeros (suc n) = 0 ∷ zeros n

abbrev pub library : Library
library = record {
  seal = λ key nonce plaintext. 0 ∷ plaintext;
  open_sealed = λ key nonce ciphertext. unsealed ciphertext;
  id_key = λ password salt. zeros 32;
  sha256 = λ bytes. bytes;
}

pub library-AeadLaw : AeadLaw library
library-AeadLaw = record {
  opens = λ key nonce plaintext k n. refl;
  tagged = λ key nonce plaintext. ground arith;
}

-- a generator that draws zeros
abbrev pub draw : ℕ → ℕ → Option (List ℕ)
draw k n = some (zeros n)

length-zeros : (n : ℕ) → length (zeros n) ≡ n
length-zeros zero = refl
length-zeros (suc n) = omega (arith, length-zeros n)

pub draw-FillsSlices : FillsSlices draw
draw-FillsSlices k n b e = let same : zeros n ≡ b = cc in ap length (sym same) ∙ length-zeros n

-- an application whose key is given, over a new database and some server
abbrev pub application : {R : Type 0} → R → List ℕ → App R
application server dek = record {
  client = server;
  dek = dek;
  auth_state = empty_auth_state;
  sync_state = record { last_revision = 0; pending_operations = [] };
  local_storage = database false;
  random = draw;
  reads = 0;
}

abbrev added : App (Unit {0})
added = (add_item library 1 (7 ∷ []) (8 ∷ []) (9 ∷ []) "" (application tt (zeros 32))).1

adds :
    Returns (add_item library 1 (7 ∷ []) (8 ∷ []) (9 ∷ []) "") (application tt (zeros 32)) tt added
unfolding add_item encrypt_field encrypt generate_id hex read_random stored enqueue save_sync
    insert_all upsert call read exists? ◌>>=◌
adds = refl

quiet : added.local_storage.fault added.local_storage.calls ≡ false
unfolding add_item encrypt_field encrypt generate_id hex read_random stored enqueue save_sync
    insert_all upsert call read exists? ◌>>=◌
quiet = refl

add_item-decrypt_item_example :
    (op : PendingOperation) × (it : Item) × ((added.sync_state.pending_operations ≡ [] ++ op ∷ [])
      × ((get_item op.item_id added).0 ≡ some it)
      × ((decrypt_item library it added).0 ≡ ok (7 ∷ [], 8 ∷ [], 9 ∷ []))
      × (it.version ≡ 1)
      × (it.item_type ≡ 1)
      × (it.blob_id ≡ "")
      × (it.deleted ≡ false))
add_item-decrypt_item_example =
    add_item-decrypt_item library library-AeadLaw (application tt (zeros 32)) draw-FillsSlices 1
      (7 ∷ []) (8 ∷ []) (9 ∷ []) "" added adds quiet
