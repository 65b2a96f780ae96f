-- ===== src/Vault/Atomic/Creates.antt =====
-- A create in a transaction.
use goph_keeper.Common.{
  ◌+◌, String, ◌≡◌, ◌∙◌, refl, sym, none, some, ◌∷◌, inl, inr, Bool-cases, str_eq, eq_refl, eq_iff,
}
use goph_keeper.Common.Table.{find?}
use goph_keeper.Server.Error.{ok}
use goph_keeper.Server.State.{Server, Db}
use goph_keeper.Server.Steps.{called}
use goph_keeper.Vault.Types.{Item, created, CreateInput, CreateOutput}
use goph_keeper.Vault.Repository.{op_key, item_key}
use goph_keeper.Vault.Engine.{create}
use goph_keeper.Vault.Tx.{with_vault_engine_tx}
use goph_keeper.Vault.Outcome.{create_fresh, fresh_item}
use goph_keeper.Vault.Needs.{create_again}
use goph_keeper.Vault.Atomic.{IsAtomic, Recorded, AreOthersKept, tx-IsAtomic}

-- What a create that succeeds leaves: the user's item with the fields that were given, at version 1.
pub record IsCreated (u o : String) (input : CreateInput) (s : Server) (out : CreateOutput)
    (after : Db) : Type 0 where
  pub answer :
      out
      ≡ record { item_id = s.env.uuid s.env.ids; version = 1; server_revision = s.next_revision }
  pub there :
      find? (item_key u out.item_id) after.vault_items
      ≡ some (record {
        item_id = out.item_id;
        user_id = u;
        item_type = input.item_type;
        title_ciphertext = input.title_ciphertext;
        title_nonce = input.title_nonce;
        metadata_ciphertext = input.metadata_ciphertext;
        metadata_nonce = input.metadata_nonce;
        payload_ciphertext = input.payload_ciphertext;
        payload_nonce = input.payload_nonce;
        blob_id = input.blob_id;
        version = 1;
        checksum = input.checksum;
        created_at = s.env.times s.env.reads;
        updated_at = s.env.times s.env.reads;
        deleted_at = none;
      })
  pub others : AreOthersKept u out.item_id s.vault_items after.vault_items
  pub recorded : Recorded u o out.item_id created 1 (s.env.times (s.env.reads + 1)) s.db after

others_before :
    (u id : String) (it : Item)
    → it.user_id ≡ u
    → it.item_id ≡ id
    → (s : Server) → AreOthersKept u id s.vault_items (it ∷ s.vault_items)
unfolding find?
others_before u id it own named s w j = elim (Bool-cases (str_eq it.user_id w)) [
  | inr e ↦ inr (rw e refl)
  | inl e ↦ elim (Bool-cases (str_eq it.item_id j)) [
    | inr f ↦ inr (rw (e, f) refl)
    | inl f ↦ inl (sym ((eq_iff it.user_id w).0 e) ∙ own, sym ((eq_iff it.item_id j).0 f) ∙ named)
  ]
]

create-IsCreated :
    (u o : String) (input : CreateInput) (s : Server) (out : CreateOutput)
    → find? (op_key u o) s.processed_operations ≡ none
    → (create u o input (called s)).0 ≡ ok out
    → IsCreated u o input s out (create u o input (called s)).1.db
unfolding find?
create-IsCreated u o input s out new ran =
    let id = s.env.uuid s.env.ids in
    let run = create_fresh u o (called s) new input out ran in
    let is : record { item_id = id; version = 1; server_revision = s.next_revision } ≡ out = cc in
    rw (run, sym is)
      (record {
        answer = refl;
        there = rw (eq_refl u, eq_refl id) refl;
        others = others_before u id (fresh_item u input (called s)) refl refl s;
        recorded = record {
          log = refl;
          sequence = refl;
          operations = refl;
          others = (refl, refl, refl, refl, refl);
        };
      })

-- A create in a transaction is atomic: if it fails, or its operation was processed, every table is as it
-- was; else its answer is the item's new identifier, version 1 and the next revision, the item is there
-- with the fields that were given, every other row is found as it was, and one row of revision_log and
-- one processed operation are added.
pub create-IsAtomic :
    (u o : String) (input : CreateInput) (s : Server)
    → IsAtomic u o
        (IsCreated u o input s)
        s.db
        (with_vault_engine_tx (create u o input) s).0
        (with_vault_engine_tx (create u o input) s).1.db
create-IsAtomic u o input s =
    tx-IsAtomic u o s (create u o input) (IsCreated u o input s)
      (λ a p done. create_again u o (called s) p done input)
      (λ out new ran. create-IsCreated u o input s out new ran)
