-- ===== src/Vault/Isolation.antt =====
-- A user's item and the engine's calls of other users.
pub mod Runs
use goph_keeper.Common.{
  ℕ, String, Bool, true, false, ◌&&◌, ◌||◌, not, ◌≡◌, refl, Option, none, some, List, [], ◌∷◌,
  arith, str_eq, eq_iff, if◌then◌else◌,
}
use goph_keeper.Common.Table.{find?, exists?, update_where}
use goph_keeper.Common.Rows.{find?-holds, find?-update_other}
use goph_keeper.Server.Error.{Error, ok, driver_failure, err_not_found}
use goph_keeper.Server.State.{Server}
use goph_keeper.Server.Exec.{Exec, ◌>>=◌, call, now, new_uuid}
use goph_keeper.Server.Keeps.{
  Keeps, Keeps-pure, Keeps-raise, Keeps-found, Keeps-guard, Keeps-bind, Keeps-catch, Keeps-if,
  Keeps-ignore,
}
use goph_keeper.Server.Frame.{IsFramed, Keeps-call, Keeps-now, Keeps-new_uuid}
use goph_keeper.Server.Ensures.{Ensures, Keeps-knowing}
use goph_keeper.Blob.Types.{Blob}
use goph_keeper.Blob.Repository.{exec_insert_blob, get_by_id}
use goph_keeper.Blob.Storage.{put_object, get_object, delete_object}
use goph_keeper.Vault.Types.{Item, CreateInput, UpdateInput, RevisionLogEntry, ProcessedOperation}
use goph_keeper.Vault.Repository.{
  item_key, live_at, create_item, get_item, update_item, delete_item, append_revision,
  mark_processed, lookup, overwrite, mark_deleted,
}
use goph_keeper.Vault.Engine.{
  create, update, delete, create_unless_processed, update_unless_processed, delete_unless_processed,
  new_item, apply_update,
}
use goph_keeper.Vault.Payload.{EncryptedField, PayloadConfig, resolve_vault_payload}

abbrev pub Holds : String → String → Item → Server → Type 0
Holds v id it s = find? (item_key v id) s.vault_items ≡ some it

module _ (v id : String) (it : Item) where
  framed : IsFramed (Holds v id it)
  framed = record { env = λ s e k. k; back = λ s t k l. k }

  get_by_id-Holds : (u i : String) → Keeps (Holds v id it) (get_by_id u i)
  unfolding get_by_id call ◌>>=◌
  get_by_id-Holds u i = record { at = λ s k. ground arith }

  get_item-Holds : (u i : String) → Keeps (Holds v id it) (get_item u i)
  unfolding get_item call ◌>>=◌
  get_item-Holds u i = record { at = λ s k. ground arith }

  put_object-Holds :
      (k : String) (c : List ℕ) (t : String) → Keeps (Holds v id it) (put_object k c t)
  unfolding put_object call ◌>>=◌
  put_object-Holds k c t = record { at = λ s h. ground arith }

  get_object-Holds : (k : String) → Keeps (Holds v id it) (get_object k)
  unfolding get_object call ◌>>=◌
  get_object-Holds k = record { at = λ s h. ground arith }

  delete_object-Holds : (k : String) → Keeps (Holds v id it) (delete_object k)
  unfolding delete_object call ◌>>=◌
  delete_object-Holds k = record { at = λ s h. ground arith }

  exec_insert_blob-Holds : (b : Blob) → Keeps (Holds v id it) (exec_insert_blob b)
  unfolding exec_insert_blob call ◌>>=◌
  exec_insert_blob-Holds b = record { at = λ s h. ground arith }

  append_revision-Holds : (e : RevisionLogEntry) → Keeps (Holds v id it) (append_revision e)
  unfolding append_revision call ◌>>=◌
  append_revision-Holds e = record { at = λ s h. ground arith }

  mark_processed-Holds : (u o i : String) (n : ℕ) → Keeps (Holds v id it) (mark_processed u o i n)
  unfolding mark_processed call ◌>>=◌
  mark_processed-Holds u o i n = record { at = λ s h. ground arith }

  lookup-Holds : (u o : String) → Keeps (Holds v id it) (lookup u o)
  unfolding lookup call ◌>>=◌
  lookup-Holds u o = record { at = λ s h. ground arith }

  create_item-Holds :
      (i : Item) → str_eq i.user_id v ≡ false → Keeps (Holds v id it) (create_item i)
  unfolding create_item call ◌>>=◌ find?
  create_item-Holds i other = record { at = λ s h. ground (arith, other) }

  -- the rows of another user's item
  not_mine :
      (u i : String) (n : ℕ)
      → str_eq u v ≡ false
      → (r : Item) → live_at u i n r ≡ true
      → item_key v id r ≡ false
  not_mine u i n other r e = ground (arith, eq_iff r.user_id u, eq_iff r.user_id v, eq_iff u v)

  update_item-Holds :
      (i : Item) (n : ℕ) → str_eq i.user_id v ≡ false → Keeps (Holds v id it) (update_item i n)
  unfolding update_item call ◌>>=◌
  update_item-Holds i n other = record {
    at = λ s h. ground (
      arith,
      find?-update_other (item_key v id) (live_at i.user_id i.item_id n) (overwrite i)
          (not_mine i.user_id i.item_id n other) (not_mine i.user_id i.item_id n other)
          s.vault_items,
    );
  }

  delete_item-Holds :
      (u i : String) (n at : ℕ) → str_eq u v ≡ false → Keeps (Holds v id it) (delete_item u i n at)
  unfolding delete_item call ◌>>=◌
  delete_item-Holds u i n t other = record {
    at = λ s h. ground (
      arith,
      find?-update_other (item_key v id) (live_at u i n) (mark_deleted t) (not_mine u i n other)
          (not_mine u i n other) s.vault_items,
    );
  }

  ruleset row_rules = (
    Keeps-pure, Keeps-raise, Keeps-found, Keeps-guard, Keeps-bind, Keeps-catch, Keeps-if,
    Keeps-ignore, Keeps-call, Keeps-now, Keeps-new_uuid, framed, get_by_id-Holds, get_item-Holds,
    put_object-Holds, get_object-Holds, delete_object-Holds, exec_insert_blob-Holds,
    append_revision-Holds, mark_processed-Holds, lookup-Holds,
  )

  resolve-Holds :
      (cfg : PayloadConfig) (u : String) (p : Option EncryptedField) (b : String)
      → Keeps (Holds v id it) (resolve_vault_payload cfg u p b)
  unfolding resolve_vault_payload
  resolve-Holds cfg u p b = search row_rules depth 24

  module _ (u : String) (other : str_eq u v ≡ false) where
    create_unless-Holds :
        (op : Option ProcessedOperation) (o : String) (i : CreateInput)
        → Keeps (Holds v id it) (create_unless_processed op u o i)
    unfolding create
    create_unless-Holds (some op) o i = search row_rules depth 24
    create_unless-Holds none o i = Keeps-bind _ _ (Keeps-now framed) λ at.
        Keeps-bind _ _ (Keeps-new_uuid framed) λ item_id.
          Keeps-bind _ _ (create_item-Holds (new_item item_id u i at) other)
            λ _. search row_rules depth 24

    owned :
        (i : String) → Ensures (Holds v id it) (get_item u i) (λ r _. str_eq r.user_id v ≡ false)
    unfolding get_item call ◌>>=◌
    owned i = record {
      after =
          λ s h r e. ground (arith, find?-holds (item_key u i) s.vault_items r, eq_iff r.user_id u);
    }

    update_unless-Holds :
        (op : Option ProcessedOperation) (o i : String) (n : ℕ) (input : UpdateInput)
        → Keeps (Holds v id it) (update_unless_processed op u o i n input)
    unfolding update
    update_unless-Holds (some op) o i n input = search row_rules depth 24
    update_unless-Holds none o i n input =
        Keeps-knowing (λ r. str_eq r.user_id v ≡ false) _ _ (get_item-Holds u i) (owned i)
          λ r not_his. Keeps-bind _ _ (Keeps-guard _ _) λ _. Keeps-bind _ _ (Keeps-guard _ _) λ _.
            Keeps-bind _ _ (Keeps-now framed) λ at.
              Keeps-bind _ _ (update_item-Holds (apply_update input at r) n not_his)
                λ _. search row_rules depth 24

    delete_unless-Holds :
        (op : Option ProcessedOperation) (o i : String) (n : ℕ)
        → Keeps (Holds v id it) (delete_unless_processed op u o i n)
    unfolding delete
    delete_unless-Holds (some op) o i n = search row_rules depth 24
    delete_unless-Holds none o i n =
        Keeps-bind _ _ (Keeps-now framed)
          λ at. Keeps-bind _ _ (delete_item-Holds u i n at other) λ m. search row_rules depth 24

    create-Holds : (o : String) (i : CreateInput) → Keeps (Holds v id it) (create u o i)
    unfolding create
    create-Holds o i = search (row_rules, create_unless-Holds) depth 24

    update-Holds :
        (o i : String) (n : ℕ) (input : UpdateInput) → Keeps (Holds v id it) (update u o i n input)
    unfolding update
    update-Holds o i n input = search (row_rules, update_unless-Holds) depth 24

    delete-Holds : (o i : String) (n : ℕ) → Keeps (Holds v id it) (delete u o i n)
    unfolding delete
    delete-Holds o i n = search (row_rules, delete_unless-Holds) depth 24

    ruleset engine_rules = (row_rules, create-Holds, update-Holds, delete-Holds, resolve-Holds)
