-- ===== src/Vault/Atomic/Updates.antt =====
-- An update in a transaction.
use goph_keeper.Common.{
  ℕ, ◌+◌, ◌<◌, ◌^◌, String, true, ◌≡◌, ◌∙◌, refl, sym, ap, none, some, arith, eq_refl,
}
use goph_keeper.Common.Table.{find?}
use goph_keeper.Common.Rows.{find?-update_where, find?-holds}
use goph_keeper.Server.Error.{ok}
use goph_keeper.Server.State.{Server, Db}
use goph_keeper.Server.Exec.{◌>>=◌, call}
use goph_keeper.Server.Steps.{called, advance, first, guard-Yields, now-Yields}
use goph_keeper.Vault.Types.{Item, updated, UpdateInput, UpdateOutput}
use goph_keeper.Vault.Repository.{op_key, item_key, live_at, overwrite, update_item}
use goph_keeper.Vault.Repository.Yields.{get_item-Yields, lookup-none-Yields}
use goph_keeper.Vault.Engine.{update, apply_update, next_version}
use goph_keeper.Vault.Tx.{with_vault_engine_tx}
use goph_keeper.Vault.Outcome.{update_fresh}
use goph_keeper.Vault.Needs.{update_needs, update_again}
use goph_keeper.Vault.Atomic.{
  IsAtomic, Recorded, AreOthersKept, tx-IsAtomic, update_where-AreOthersKept, item_key_parts,
  live_at-item_key,
}

-- What an update that succeeds found and leaves: the user's item at the version that was expected, not
-- deleted, and then with the fields that were given, at the next version.
pub record IsUpdated (u o id : String) (v : ℕ) (input : UpdateInput) (s : Server)
    (out : UpdateOutput) (after : Db) : Type 0 where
  pub current : Item
  pub was : find? (item_key u id) s.vault_items ≡ some current
  pub expected : current.version ≡ v
  pub live : current.deleted_at ≡ none
  pub answer : out ≡ record { new_version = v + 1; server_revision = s.next_revision }
  pub there :
      find? (item_key u id) after.vault_items
      ≡ some (record {
        item_id = current.item_id;
        user_id = current.user_id;
        item_type = current.item_type;
        title_ciphertext = input.title_ciphertext;
        title_nonce = input.title_nonce;
        metadata_ciphertext = input.metadata_ciphertext;
        metadata_nonce = input.metadata_nonce;
        payload_ciphertext = input.payload_ciphertext;
        payload_nonce = input.payload_nonce;
        blob_id = input.blob_id;
        version = v + 1;
        checksum = input.checksum;
        created_at = current.created_at;
        updated_at = s.env.times s.env.reads;
        deleted_at = none;
      })
  pub others : AreOthersKept u id s.vault_items after.vault_items
  pub recorded : Recorded u o id updated (v + 1) (s.env.times (s.env.reads + 1)) s.db after

update_item-fits : (it : Item) (v : ℕ) (s : Server) → (update_item it v s).0 ≡ ok tt → v < 2 ^ 63
unfolding update_item call ◌>>=◌
update_item-fits it v s h = ground arith

-- The expected version fits the column.
update_fits :
    (u o id : String) (v : ℕ) (input : UpdateInput) (s : Server) (current : Item)
    (out : UpdateOutput)
    → find? (op_key u o) s.processed_operations ≡ none
    → find? (item_key u id) s.vault_items ≡ some current
    → (update u o id v input s).0 ≡ ok out
    → v < 2 ^ 63
unfolding update
update_fits u o id v input s current out new c h =
    let (e1, h1) = advance _ _ s (guard-Yields _ _ s) h in
    let (e2, h2) = advance _ _ s (lookup-none-Yields u o s new) h1 in
    let (e4, h4) = advance _ _ _ (get_item-Yields u id _ current c) h2 in
    let (e5, h5) = advance _ _ _ (guard-Yields _ _ _) h4 in
    let (e6, h6) = advance _ _ _ (guard-Yields _ _ _) h5 in
    let (e7, h7) = advance _ _ _ (now-Yields _) h6 in
    let (d, g) = first _ _ _ h7 in update_item-fits _ v _ g

update-IsUpdated :
    (u o id : String) (v : ℕ) (input : UpdateInput) (s : Server) (out : UpdateOutput)
    → find? (op_key u o) s.processed_operations ≡ none
    → (update u o id v input (called s)).0 ≡ ok out
    → IsUpdated u o id v input s out (update u o id v input (called s)).1.db
update-IsUpdated u o id v input s out new ran =
    let (current, found, same, live, hit) = update_needs u o (called s) new id v input out ran in
    let run = update_fresh u o (called s) new id v input current out found ran in
    let small = update_fits u o id v input (called s) current out new found ran in
    let next = next_version current.version in
    let stepped : next ≡ v + 1 = omega (arith, same, small) in
    let is : record { new_version = next; server_revision = s.next_revision } ≡ out = cc in
    let (own, named) =
      item_key_parts u id current (find?-holds (item_key u id) s.vault_items current found) in
    let at = s.env.times s.env.reads in
    let met : live_at current.user_id current.item_id v current ≡ true =
      ground (arith, eq_refl current.user_id, eq_refl current.item_id, same, live) in
    let written =
      find?-update_where (item_key u id) (live_at current.user_id current.item_id v)
        (overwrite (apply_update input at current)) (λ it. refl) s.vault_items in
    rw (run, sym is)
      (record {
        current = current;
        was = found;
        expected = same;
        live = live;
        answer =
            ap {B = UpdateOutput}
              (λ n. record { new_version = n; server_revision = s.next_revision }) stepped;
        there = written ∙ rw (found, met, stepped, live) refl;
        others =
            update_where-AreOthersKept u id (live_at current.user_id current.item_id v)
              (overwrite (apply_update input at current))
              (λ it hit.
                rw (own, named) at (live_at-item_key current.user_id current.item_id v it hit))
              (λ w j it. refl) s.vault_items;
        recorded = record {
          log = rw stepped refl;
          sequence = refl;
          operations = refl;
          others = (refl, refl, refl, refl, refl);
        };
      })

-- An update in a transaction is atomic: if it fails, or its operation was processed, every table is as
-- it was; else it found the user's item at the expected version and not deleted, its answer is the next
-- version and the next revision, the item is found with the fields that were given, its type and its time
-- of creation kept, every other row is found as it was, and one row of revision_log and one processed
-- operation are added.
pub update-IsAtomic :
    (u o id : String) (v : ℕ) (input : UpdateInput) (s : Server)
    → IsAtomic u o
        (IsUpdated u o id v input s)
        s.db
        (with_vault_engine_tx (update u o id v input) s).0
        (with_vault_engine_tx (update u o id v input) s).1.db
update-IsAtomic u o id v input s =
    tx-IsAtomic u o s (update u o id v input) (IsUpdated u o id v input s)
      (λ a p done. update_again u o (called s) p done id v input)
      (λ out new ran. update-IsUpdated u o id v input s out new ran)
