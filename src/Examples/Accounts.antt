-- ===== src/Examples/Accounts.antt =====
-- An account on two machines, a synchronisation and an upload, over a connection to a server.
use goph_keeper.Common.{◌≡◌, refl, some, List, [], ◌∷◌, map, false, arith}
use goph_keeper.Common.Table.{find?, exists?, update_where, select}
use goph_keeper.Common.Text.{trim_space, format_uint}
use goph_keeper.Server.State.{Server}
use goph_keeper.Server.Transaction.{transaction}
use goph_keeper.Server.Exec as Server_exec
use goph_keeper.Auth.Repository.{
  insert_user, upsert_device, insert_session, get_by_login, register_with_session,
  login_with_device_and_session, list_devices_by_user,
}
use goph_keeper.Auth.Access.{issue_access_token}
use goph_keeper.Auth.Service as Service
use goph_keeper.Auth.Service.{AuthService, new_refresh_token, given_or_new, new_session}
use goph_keeper.Auth.Handler.{handle_register, handle_login}
use goph_keeper.Auth.Frame.{lists_devices, serve, serve_all}
use goph_keeper.Auth.Devices.{list_devices}
use goph_keeper.Vault.Handler.{to_proto_item}
use goph_keeper.Sync.Handler
use goph_keeper.Sync.Handler.{read_events}
use goph_keeper.Sync.Push.{run_push_operations}
use goph_keeper.Sync.Revisions.{
  with_revision_snapshot_read, list_revision_events_after, user_max_revision, entries_after,
  order_by_revision, insert_by_revision, event_row, max_revision,
}
use goph_keeper.Blob.Chunks.{UploadMessage, header, complete, receive_chunks}
use goph_keeper.Client.Files.{send_chunks}
use goph_keeper.Client.Sent.{streamed, sent_received}
use goph_keeper.Client.Items.{items_of}
use goph_keeper.Client.Sync.{sync, apply_events, apply_event}
use goph_keeper.Client.Applied.{asked, changed_by_all, IsLeft, sync_applies}
use goph_keeper.Client.Run.{◌>>=◌, err, invalid_password, ok, on_error}
use goph_keeper.Client.Steps.{Returns}
use goph_keeper.Client.Storage.{
  save, call, upsert, save_sync, insert_all, item_row, put_row, pending_row,
}
use goph_keeper.Client.App.{App, SyncResponse, revision_event, stored, remote, read_random}
use goph_keeper.Client.Crypto.{encrypt, decrypt, derive_key, generate_salt}
use goph_keeper.Client.Auth.{Machine, register, login}
use goph_keeper.Client.Vault.{unlock}
use goph_keeper.Client.Link.{Link, Handlers, connect, rpc_call}
use goph_keeper.Client.Unlocked.{login-unlock, register-unlock}
use goph_keeper.Client.Account.{register-login}
use goph_keeper.Examples.Data.{empty_server, logged_server, blob_handler, payload_config}
use goph_keeper.Examples.Auths.{service, jwt}
use goph_keeper.Examples.Downloads.{whole}
use goph_keeper.Examples.Clients.{library, library-AeadLaw, application, draw-FillsSlices}

abbrev pub handlers : Handlers
handlers = record {
  auth = record service { jwt = record jwt { sign = λ c. some "signed" } };
  payload = payload_config;
  blob = blob_handler;
  reader = whole;
}

abbrev pub link : Server → Link
link s = record { server = s; user = some "ann"; stream = [] }

abbrev laptop : Machine
laptop = record { device_name = "Laptop"; platform = 1; client_version = "1.0" }

abbrev fresh : App Link
fresh = application (link empty_server) []

abbrev registered : App Link
registered = (register library (connect handlers) laptop "ann" "secret" fresh).1

registers : Returns (register library (connect handlers) laptop "ann" "secret") fresh tt registered
unfolding register generate_salt read_random encrypt derive_key remote stored save call connect
    rpc_call ◌>>=◌ handle_register Service.register register_with_session insert_user upsert_device
    insert_session issue_access_token new_refresh_token given_or_new new_session transaction
    Server_exec.catch Server_exec.call Server_exec.now Server_exec.new_uuid Server_exec.◌>>=◌ find?
    exists? trim_space format_uint
registers = refl

registered_quiet : registered.local_storage.fault registered.local_storage.calls ≡ false
unfolding register generate_salt read_random encrypt derive_key remote stored save call connect
    rpc_call ◌>>=◌ handle_register Service.register register_with_session insert_user upsert_device
    insert_session issue_access_token new_refresh_token given_or_new new_session transaction
    Server_exec.catch Server_exec.call Server_exec.now Server_exec.new_uuid Server_exec.◌>>=◌ find?
    exists? trim_space format_uint
registered_quiet = refl

register-unlock_example : (unlock library "secret" registered).0 ≡ err invalid_password
register-unlock_example =
    register-unlock library (connect handlers) laptop "ann" "secret" "secret" fresh registered
      registered draw-FillsSlices registers refl registered_quiet

-- The other machine, after a list of the devices was asked for.
abbrev other : App Link
other =
    application
      (link (serve_all handlers.auth (lists_devices (some "0") ∷ []) registered.client.server)) []

abbrev logged_in : App Link
logged_in = (login library (connect handlers) laptop "ann" "secret" other).1

logs_in : Returns (login library (connect handlers) laptop "ann" "secret") other tt logged_in
unfolding register generate_salt read_random encrypt derive_key remote stored save call connect
    rpc_call ◌>>=◌ handle_register Service.register register_with_session insert_user upsert_device
    insert_session issue_access_token new_refresh_token given_or_new new_session transaction
    Server_exec.catch Server_exec.call Server_exec.now Server_exec.new_uuid Server_exec.◌>>=◌ find?
    exists? trim_space format_uint login decrypt handle_login Service.login get_by_login
    login_with_device_and_session serve serve_all list_devices list_devices_by_user update_where
    on_error
logs_in = refl

logged_in_quiet : logged_in.local_storage.fault logged_in.local_storage.calls ≡ false
unfolding register generate_salt read_random encrypt derive_key remote stored save call connect
    rpc_call ◌>>=◌ handle_register Service.register register_with_session insert_user upsert_device
    insert_session issue_access_token new_refresh_token given_or_new new_session transaction
    Server_exec.catch Server_exec.call Server_exec.now Server_exec.new_uuid Server_exec.◌>>=◌ find?
    exists? trim_space format_uint login decrypt handle_login Service.login get_by_login
    login_with_device_and_session serve serve_all list_devices list_devices_by_user update_where
    on_error
logged_in_quiet = refl

login-unlock_example :
    ((unlock library "secret" logged_in).0 ≡ ok tt)
    × ((unlock library "secret" logged_in).1.dek ≡ logged_in.dek)
login-unlock_example =
    login-unlock library (connect handlers) laptop "ann" "secret" other logged_in logged_in logs_in
      refl logged_in_quiet

register-login_example :
    (logged_in.dek ≡ registered.dek)
    × (logged_in.auth_state.user_id ≡ registered.auth_state.user_id)
register-login_example =
    register-login handlers library library-AeadLaw laptop laptop "ann" "secret" fresh registered
      other logged_in draw-FillsSlices registers (lists_devices (some "0") ∷ []) refl logs_in

abbrev uploading : App Link
uploading =
    application (record { server = empty_server; user = some "ann"; stream = header "s" ∷ [] }) []

sent_received_example :
    (ps : List UploadMessage) × ((send_chunks
          (connect handlers)
          3
          2
          (5 ∷ (6 ∷ (7 ∷ [])))
          0
          uploading
        ≡ (ok tt, streamed ps uploading))
      × (receive_chunks 2 3 ps ≡ complete 3 (5 ∷ (6 ∷ (7 ∷ [])))))
sent_received_example = sent_received handlers 2 (5 ∷ (6 ∷ (7 ∷ []))) uploading refl (omega arith)

-- a client that is at the second of four revisions
abbrev behind : App Link
behind = record (application (link logged_server) []) {
  sync_state = record { last_revision = 2; pending_operations = [] };
}

abbrev up_to_date : App Link
up_to_date = (sync (connect handlers) behind).1

syncs : Returns (sync (connect handlers)) behind tt up_to_date
unfolding sync apply_events apply_event stored remote connect rpc_call ◌>>=◌ upsert save_sync
    insert_all call Handler.sync with_revision_snapshot_read read_events list_revision_events_after
    user_max_revision run_push_operations transaction Server_exec.◌>>=◌ Server_exec.call
    Server_exec.catch find? exists? update_where item_row put_row revision_event to_proto_item
    entries_after order_by_revision select insert_by_revision event_row max_revision
syncs = refl

sync_applies_example :
    (resp : SyncResponse) × (Returns
        ((connect handlers).sync (asked behind.sync_state))
        behind.client
        resp
        up_to_date.client
      × (items_of up_to_date.local_storage
          ≡ changed_by_all resp.remote_changes (items_of behind.local_storage))
      × (up_to_date.sync_state.last_revision ≡ resp.new_server_revision)
      × IsLeft resp.conflicts behind.sync_state.pending_operations
          up_to_date.sync_state.pending_operations
      × (up_to_date.local_storage.tables.sync_state ≡ some resp.new_server_revision)
      × (up_to_date.local_storage.tables.pending_operations
          ≡ map pending_row up_to_date.sync_state.pending_operations)
      × (up_to_date.dek ≡ behind.dek)
      × (up_to_date.auth_state ≡ behind.auth_state))
sync_applies_example = sync_applies (connect handlers) behind up_to_date syncs
