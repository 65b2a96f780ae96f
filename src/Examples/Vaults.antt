-- ===== src/Examples/Vaults.antt =====
-- The vault: engine calls on a small server.
use goph_keeper.Common.{true, ◌≡◌, refl, none, some, [], ◌∷◌}
use goph_keeper.Common.Table.{find?, update_where}
use goph_keeper.Server.Error.{ok, err, err_conflict}
use goph_keeper.Server.Exec.{◌>>=◌, call, now, new_uuid}
use goph_keeper.Vault.Types.{Item}
use goph_keeper.Vault.Repository.{
  op_key, item_key, live_at, blob_ref_valid, create_item, get_item, update_item, delete_item,
  append_revision, mark_processed, lookup,
}
use goph_keeper.Common.Text.{trim_space, format_uint}
use goph_keeper.Common.Table.{exists?}
use goph_keeper.Vault.Engine.{create, update, delete}
use goph_keeper.Vault.Tx.{with_vault_engine_tx}
use goph_keeper.Vault.Atomic.{IsAtomic}
use goph_keeper.Vault.Atomic.Creates.{IsCreated, create-IsAtomic}
use goph_keeper.Vault.Atomic.Updates.{IsUpdated, update-IsAtomic}
use goph_keeper.Vault.Atomic.Deletes.{IsDeleted, delete-IsAtomic}
use goph_keeper.Vault.Needs.{update_needs, create_again, update_again, delete_again}
use goph_keeper.Vault.Races.{no_lost_update, create_twice}
use goph_keeper.Vault.Consistency.{IsConsistent}
use goph_keeper.Vault.Consistency.Calls.{creates, updates, deletes, run, run-IsConsistent}
use goph_keeper.Examples.Data.{
  empty_server, empty-IsConsistent, login_input, new_password, login_server,
}

run-IsConsistent_example :
    IsConsistent
      (run
        (creates "ann" "first" login_input
          ∷ (updates "ann" "second" "0" 1 new_password ∷ (deletes "ann" "third" "0" 2 ∷ [])))
        empty_server).db
run-IsConsistent_example =
    run-IsConsistent
      (creates "ann" "first" login_input
        ∷ (updates "ann" "second" "0" 1 new_password ∷ (deletes "ann" "third" "0" 2 ∷ [])))
      empty_server empty-IsConsistent

first_create :
    (create "ann" "first" login_input empty_server).0
    ≡ ok (record { item_id = "0"; version = 1; server_revision = 1 })
unfolding create lookup create_item append_revision mark_processed call now new_uuid ◌>>=◌ find?
    format_uint exists? blob_ref_valid trim_space update_where
first_create = refl

new_update :
    (update "ann" "new" "login" 4 new_password login_server).0
    ≡ ok (record { new_version = 5; server_revision = 9 })
unfolding update lookup get_item update_item append_revision mark_processed call now new_uuid ◌>>=◌
    find? exists? blob_ref_valid trim_space update_where
new_update = refl

update_needs_example :
    (current : Item) × (find? (item_key "ann" "login") login_server.vault_items ≡ some current)
    × (current.version ≡ 4)
    × (current.deleted_at ≡ none)
    × (exists? (live_at current.user_id current.item_id 4) login_server.vault_items ≡ true)
unfolding find?
update_needs_example =
    update_needs "ann" "new" login_server refl "login" 4 new_password _ new_update

new_delete :
    (delete "ann" "new" "login" 4 login_server).0
    ≡ ok (record { new_version = 5; server_revision = 9 })
unfolding delete lookup delete_item append_revision mark_processed call now new_uuid ◌>>=◌ find?
    exists? blob_ref_valid trim_space update_where
new_delete = refl

create_again_example : (create "ann" "old" login_input login_server).1.db ≡ login_server.db
unfolding find?
create_again_example = create_again "ann" "old" login_server _ refl login_input

update_again_example :
    (update "ann" "old" "login" 4 new_password login_server).1.db ≡ login_server.db
unfolding find?
update_again_example = update_again "ann" "old" login_server _ refl "login" 4 new_password

delete_again_example : (delete "ann" "old" "login" 4 login_server).1.db ≡ login_server.db
unfolding find?
delete_again_example = delete_again "ann" "old" login_server _ refl "login" 4

create-IsAtomic_example :
    IsAtomic "ann" "first"
      (IsCreated "ann" "first" login_input empty_server)
      empty_server.db
      (ok (record { item_id = "0"; version = 1; server_revision = 1 }))
      (with_vault_engine_tx (create "ann" "first" login_input) empty_server).1.db
unfolding with_vault_engine_tx create lookup create_item append_revision mark_processed call now
    new_uuid ◌>>=◌ find? format_uint exists? blob_ref_valid trim_space update_where
create-IsAtomic_example = create-IsAtomic "ann" "first" login_input empty_server

update-IsAtomic_example :
    IsAtomic "ann" "new"
      (IsUpdated "ann" "new" "login" 4 new_password login_server)
      login_server.db
      (ok (record { new_version = 5; server_revision = 9 }))
      (with_vault_engine_tx (update "ann" "new" "login" 4 new_password) login_server).1.db
unfolding with_vault_engine_tx update lookup get_item update_item append_revision mark_processed
    call now new_uuid ◌>>=◌ find? exists? blob_ref_valid trim_space update_where
update-IsAtomic_example = update-IsAtomic "ann" "new" "login" 4 new_password login_server

-- A delete that expects an older version.
delete-IsAtomic_example :
    IsAtomic "ann" "new"
      (IsDeleted "ann" "new" "login" 3 login_server)
      login_server.db
      (err err_conflict)
      (with_vault_engine_tx (delete "ann" "new" "login" 3) login_server).1.db
unfolding with_vault_engine_tx delete lookup delete_item append_revision mark_processed call now
    new_uuid ◌>>=◌ find? exists? blob_ref_valid trim_space update_where
delete-IsAtomic_example = delete-IsAtomic "ann" "new" "login" 3 login_server

late_is_new :
    find?
      (op_key "ann" "late")
      (update "ann" "new" "login" 4 new_password login_server).1.processed_operations
    ≡ none
unfolding update lookup get_item update_item append_revision mark_processed call now new_uuid ◌>>=◌
    find? exists? blob_ref_valid trim_space update_where
late_is_new = refl

no_lost_update_example : ¬ (
    (update "ann" "late" "login" 4 new_password
      (update "ann" "new" "login" 4 new_password login_server).1).0
    ≡ ok (record { new_version = 5; server_revision = 10 }))
unfolding find?
no_lost_update_example =
    no_lost_update "ann" "login" 4 login_server "new" new_password _ refl new_update "late"
      new_password (record { new_version = 5; server_revision = 10 }) late_is_new

create_twice_example :
    (create "ann" "first" login_input (create "ann" "first" login_input empty_server).1).0
    ≡ ok (record { item_id = "0"; version = 1; server_revision = 1 })
unfolding find?
create_twice_example =
    create_twice "ann" "first" empty_server (λ n. refl) login_input _ refl first_create login_input
