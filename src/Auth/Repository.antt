-- ===== src/Auth/Repository.antt =====
-- internal/server/storage/postgres/auth_repositories.go, over the tables of migrations/server.
use goph_keeper.Common.{
  ℕ, String, Bool, ◌&&◌, ◌||◌, not, none, some, List, ◌∷◌, if◌then◌else◌, str_eq, ltb, ◌==◌,
}
use goph_keeper.Common.Table.{is_null, find?, exists?, select, update_where, count_where, order_by}
use goph_keeper.Common.Bytes.{bytes_equal, is_filled}
use goph_keeper.Server.Error.{
  ok, err, err_unauthorized, err_already_exists, err_device_not_found, driver_failure,
}
use goph_keeper.Server.State.{Server}
use goph_keeper.Server.Exec.{Exec, ◌>>=◌, ◌>>◌, call, found, guard, pure, now}
use goph_keeper.Server.Transaction.{transaction}
use goph_keeper.Auth.Types.{User, Device, DeviceRecord, Session, RefreshRow}

abbrev pub set_users : Server → List User → Server
set_users s users = record s { db = record s.db { users = users } }

abbrev pub set_devices : Server → List DeviceRecord → Server
set_devices s devices = record s { db = record s.db { devices = devices } }

abbrev pub set_tokens : Server → List RefreshRow → Server
set_tokens s tokens = record s { db = record s.db { refresh_tokens = tokens } }

-- the NOT NULL columns of bytes
abbrev columns_filled : User → Bool
columns_filled u =
    is_filled u.password_hash
    && is_filled u.password_salt
    && is_filled u.encrypted_vault_key
    && is_filled u.encrypted_vault_key_nonce

-- The primary key and the unique login.
unfoldable pub insert_user : User → Exec (Unit {0})
insert_user u = do
  call driver_failure
  λ s.
      if not (columns_filled u)
      then (err driver_failure, s)
      else if exists? (λ r. str_eq r.user_id u.user_id || str_eq r.login u.login) s.users
      then (err err_already_exists, s)
      else (ok tt, set_users s (u ∷ s.users))

unfoldable pub get_by_login : String → Exec User
get_by_login login = do
  call driver_failure
  λ s. found (find? (λ u. str_eq u.login login) s.users) err_unauthorized s

abbrev pub device_key : String → DeviceRecord → Bool
device_key device_id d = str_eq d.device_id device_id

-- WHERE user_id = $1 AND device_id = $2
abbrev pub user_device : String → String → DeviceRecord → Bool
user_device user_id device_id d = str_eq d.user_id user_id && str_eq d.device_id device_id

abbrev new_device_row : Device → ℕ → DeviceRecord
new_device_row d at = record {
  device_id = d.device_id;
  user_id = d.user_id;
  device_name = d.device_name;
  platform = d.platform;
  client_version = d.client_version;
  created_at = at;
  last_seen_at = at;
  revoked_at = none;
}

abbrev seen_again : Device → ℕ → DeviceRecord → DeviceRecord
seen_again d at row = record row {
  device_name = d.device_name;
  platform = d.platform;
  client_version = d.client_version;
  last_seen_at = at;
  revoked_at = none;
}

-- INSERT, or UPDATE of the row with that device_id if it is the same user's. The insertion wants the
-- user.
upsert_row : Device → ℕ → Exec (Unit {0})
upsert_row d at s =
    if exists? (device_key d.device_id) s.devices
    then (if exists? (user_device d.user_id d.device_id) s.devices
        then (
          ok tt,
          set_devices s
              (update_where (user_device d.user_id d.device_id) (seen_again d at) s.devices),
        )
        else (err err_unauthorized, s))
    else if exists? (λ u. str_eq u.user_id d.user_id) s.users
    then (ok tt, set_devices s (new_device_row d at ∷ s.devices))
    else (err driver_failure, s)

unfoldable pub upsert_device : Device → Exec (Unit {0})
unfolding upsert_row
upsert_device d = do call driver_failure; at ← now; upsert_row d at

abbrev pub new_token_row : Session → ℕ → RefreshRow
new_token_row n at = record {
  token_id = n.token_id;
  user_id = n.user_id;
  device_id = n.device_id;
  token_hash = n.token_hash;
  issued_at = at;
  expires_at = n.expires_at;
  revoked_at = none;
}

-- The primary key, the unique token_hash, and the references to the user and the device.
insert_row : Session → ℕ → Exec (Unit {0})
insert_row n at s =
    if is_filled n.token_hash
      && not (
          exists? (λ r. str_eq r.token_id n.token_id || bytes_equal r.token_hash n.token_hash)
            s.refresh_tokens)
      && exists? (λ u. str_eq u.user_id n.user_id) s.users
      && exists? (device_key n.device_id) s.devices
    then (ok tt, set_tokens s (new_token_row n at ∷ s.refresh_tokens))
    else (err driver_failure, s)

unfoldable pub insert_session : Session → Exec (Unit {0})
unfolding insert_row
insert_session n = do call driver_failure; at ← now; insert_row n at

-- WHERE token_hash = $1
abbrev pub has_hash : List ℕ → RefreshRow → Bool
has_hash hash r = bytes_equal r.token_hash hash

-- WHERE token_hash = $1 AND revoked_at IS NULL
abbrev pub live_hash : List ℕ → RefreshRow → Bool
live_hash hash r = has_hash hash r && is_null r.revoked_at

abbrev pub revoke_row : ℕ → RefreshRow → RefreshRow
revoke_row at r = record r { revoked_at = some at }

-- UPDATE refresh_tokens SET revoked_at = NOW() WHERE ..., and the number of rows
unfoldable pub revoke_where : (RefreshRow → Bool) → Exec ℕ
revoke_where p = do
  call driver_failure
  at ← now
  λ s. (
    ok (count_where p s.refresh_tokens),
    set_tokens s (update_where p (revoke_row at) s.refresh_tokens),
  )

unfoldable pub revoke_by_hash : List ℕ → Exec (Unit {0})
revoke_by_hash hash = do
  affected ← revoke_where (live_hash hash)
  guard (not (affected == 0)) err_unauthorized

unfoldable pub register_with_session : User → Device → Session → Exec (Unit {0})
unfolding transaction
register_with_session user device session =
    transaction do insert_user user; upsert_device device; insert_session session

unfoldable pub login_with_device_and_session : Device → Session → Exec (Unit {0})
unfolding transaction
login_with_device_and_session device session =
    transaction do upsert_device device; insert_session session

-- the row that RotateRefresh selects, with the device that it is joined to
abbrev pub rotatable : List ℕ → String → ℕ → List DeviceRecord → RefreshRow → Bool
rotatable old_hash device_id at devices r =
    has_hash old_hash r
    && str_eq r.device_id device_id
    && is_null r.revoked_at
    && ltb at r.expires_at
    && exists? (λ d. user_device r.user_id r.device_id d && is_null d.revoked_at) devices

-- the user and the device of the old token
unfoldable pub rotate_refresh : List ℕ → String → ℕ → Session → Exec (String × String)
unfolding transaction
rotate_refresh old_hash device_id at session = transaction do
  call driver_failure
  row ← λ s.
      found (find? (rotatable old_hash device_id at s.devices) s.refresh_tokens) err_unauthorized s
  revoked ← revoke_where (live_hash old_hash)
  guard (revoked == 1) err_unauthorized
  insert_session (record session { user_id = row.user_id; device_id = row.device_id })
  pure (row.user_id, row.device_id)

-- The query fails before the first row, or at a row.
unfoldable pub list_devices_by_user : String → Exec (List DeviceRecord)
list_devices_by_user user_id = do
  call driver_failure
  call driver_failure
  λ s. (ok (order_by (λ d. d.created_at) (select (λ d. str_eq d.user_id user_id) s.devices)), s)

-- SELECT 1 FROM devices, where no live device was met
abbrev pub device_known : String → String → Bool → Exec (Unit {0})
device_known user_id device_id met = if met then pure tt else (do
  call driver_failure
  λ s. guard (exists? (user_device user_id device_id) s.devices) err_device_not_found s)

abbrev pub live_device : String → String → DeviceRecord → Bool
live_device user_id device_id d = user_device user_id device_id d && is_null d.revoked_at

-- UPDATE devices SET revoked_at = NOW(), and whether a row was met
unfoldable pub revoke_device_row : String → String → Exec Bool
revoke_device_row user_id device_id = do
  call driver_failure
  at ← now
  λ s. (
    ok (exists? (live_device user_id device_id) s.devices),
    set_devices s (
        update_where (live_device user_id device_id) (λ d. record d { revoked_at = some at })
          s.devices),
  )

-- WHERE user_id = $1 AND device_id = $2 AND revoked_at IS NULL
abbrev pub live_token_of : String → String → RefreshRow → Bool
live_token_of user_id device_id r =
    str_eq r.user_id user_id && str_eq r.device_id device_id && is_null r.revoked_at

unfoldable pub revoke_device_for_user : String → String → Exec (Unit {0})
unfolding transaction
revoke_device_for_user user_id device_id = transaction do
  met ← revoke_device_row user_id device_id
  device_known user_id device_id met
  revoke_where (live_token_of user_id device_id)
  pure tt
