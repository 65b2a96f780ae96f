-- ===== src/Examples/Auths.antt =====
-- Authentication: a registration, a login, a rotation, a logout and a device that is revoked.
use goph_keeper.Common.{
  ℕ, ◌<◌, ◌&&◌, String, Bool, true, false, ◌≡◌, refl, ap, Option, none, some, [], ◌∷◌, List, ◌⊎◌,
  str_eq, eq_iff, if◌then◌else◌, ltb, ◌==◌, arith,
}
use goph_keeper.Common.Table.{find?, exists?, update_where, count_where}
use goph_keeper.Common.Text.{trim_space, format_uint}
use goph_keeper.Server.Error.{ok, err, status, unauthenticated}
use goph_keeper.Server.State.{Server}
use goph_keeper.Server.Exec.{◌>>=◌, call, now, new_uuid, catch, pure}
use goph_keeper.Server.Transaction.{transaction, in_tx}
use goph_keeper.Auth.Types.{
  RegisterInput, RegisterOutput, LoginInput, LoginOutput, RefreshInput, RefreshOutput,
}
use goph_keeper.Auth.Repository.{
  insert_user, upsert_device, insert_session, revoke_where, revoke_by_hash, get_by_login,
  register_with_session, login_with_device_and_session, rotate_refresh, revoke_device_row, has_hash,
  list_devices_by_user, revoke_device_for_user, user_device, live_device, live_token_of,
}
use goph_keeper.Auth.Access.{
  Claims, Jwt, unix, issue_access_token, parse_access_token, is_hs256, bearer_token_from_metadata,
  authenticated, context_user,
}
use goph_keeper.Auth.Service.{
  AuthService, new_refresh_token, given_or_new, new_session, register, login, refresh, logout,
  login_output, new_user,
}
use goph_keeper.Auth.Handler.{handle_register, handle_login, handle_refresh, handle_logout}
use goph_keeper.Auth.Devices.{list_devices, revoke_device}
use goph_keeper.Auth.Frame.{logs_in, lists_devices, serve, serve_all}
use goph_keeper.Auth.Spent.Runs.{token_used_once}
use goph_keeper.Auth.Registered.{login_returns}
use goph_keeper.Auth.Revoked.{revoke_device_revokes, logged_out_refused}
use goph_keeper.Auth.Gate.{authenticated_needs_token, issued-parse_access_token}
use goph_keeper.Examples.Data.{empty_server}

-- A library that signs one pair of identifiers, for tokens that expire after two seconds.
abbrev ann_claims : Claims
ann_claims = record { sub = some "0"; device_id = some "laptop"; iat = 0; exp = 2 }

abbrev is_text : String → Option String → Bool
is_text t none = false
is_text t (some u) = str_eq u t

abbrev is_ann : Claims → Bool
is_ann c = is_text "0" c.sub && is_text "laptop" c.device_id && c.iat == 0 && c.exp == 2

abbrev pub jwt : Jwt
jwt = record {
  sign = λ c. if is_ann c then some "signed" else none;
  parse = λ key at t.
      if key "HS256" && str_eq t "signed" && ltb (unix at) 2 then some (ann_claims, true) else none;
}

abbrev pub service : AuthService
service = record {
  hash = λ password. some (9 ∷ []);
  compare = λ hash password. str_eq password "secret";
  hash_token = λ t. if str_eq t "0" then 1 ∷ [] else 2 ∷ [];
  jwt = jwt;
  access_ttl = 2000000;
  refresh_ttl = 9000000;
}

abbrev registration : RegisterInput
registration = record {
  login = " ann ";
  password = "secret";
  password_salt = 1 ∷ [];
  kdf_algorithm = "argon2id";
  kdf_memory_kib = 65536;
  kdf_iterations = 3;
  kdf_parallelism = 4;
  kdf_key_length = 32;
  encrypted_vault_key = 2 ∷ [];
  encrypted_vault_key_nonce = 3 ∷ [];
  device_id = "laptop";
  device_name = "Laptop";
  platform = 1;
  client_version = "1.0";
}

abbrev ann_login : LoginInput
ann_login = record {
  login = "ann";
  password = "secret";
  device_id = "laptop";
  device_name = "Laptop";
  platform = 1;
  client_version = "1.1";
}

abbrev first_refresh : RefreshInput
first_refresh = record { refresh_token = "0"; device_id = "laptop" }

registration_out : RegisterOutput
registration_out = record {
  user_id = "0";
  login = "ann";
  device_id = "laptop";
  access_token = "signed";
  refresh_token = "0";
}

abbrev registered_server : Server
registered_server = (handle_register service registration empty_server).1

registers : (handle_register service registration empty_server).0 ≡ ok registration_out
unfolding handle_register register register_with_session insert_user upsert_device insert_session
    issue_access_token new_refresh_token given_or_new new_session transaction in_tx catch call now
    new_uuid ◌>>=◌ find? exists? trim_space format_uint registration_out
registers = refl

-- The login after another device list.
ann_returned : LoginOutput
ann_returned = record {
  user_id = "0";
  login = "ann";
  device_id = "laptop";
  access_token = "signed";
  refresh_token = "1";
  password_salt = 1 ∷ [];
  kdf_algorithm = "argon2id";
  kdf_memory_kib = 65536;
  kdf_iterations = 3;
  kdf_parallelism = 4;
  kdf_key_length = 32;
  encrypted_vault_key = 2 ∷ [];
  encrypted_vault_key_nonce = 3 ∷ [];
}

logs_in_again :
    (handle_login service ann_login
      (serve_all service (lists_devices (some "0") ∷ []) registered_server)).0
    ≡ ok ann_returned
unfolding handle_register register register_with_session insert_user upsert_device insert_session
    issue_access_token new_refresh_token given_or_new new_session transaction in_tx catch call now
    new_uuid ◌>>=◌ find? exists? trim_space format_uint serve serve_all list_devices handle_login
    list_devices_by_user update_where login get_by_login login_with_device_and_session ann_returned
logs_in_again = refl

login_returns_example :
    (hash : List ℕ) × (service.hash "secret" ≡ some hash)
    × (service.compare hash "secret" ≡ true)
    × (ann_returned
        ≡ login_output
            (new_user "0" (trim_space " ann ") hash registration)
            ann_returned.device_id
            ann_returned.access_token
            ann_returned.refresh_token)
unfolding registration_out trim_space
login_returns_example =
    login_returns service registration empty_server registration_out registers
      (lists_devices (some "0") ∷ []) ann_login ann_returned refl logs_in_again

refreshed : RefreshOutput
refreshed = record { access_token = "signed"; refresh_token = "1" }

refreshes : (handle_refresh service first_refresh registered_server).0 ≡ ok refreshed
unfolding handle_register register register_with_session insert_user upsert_device insert_session
    issue_access_token new_refresh_token given_or_new new_session transaction in_tx catch call now
    new_uuid ◌>>=◌ find? exists? trim_space format_uint handle_refresh refresh rotate_refresh
    revoke_where count_where update_where refreshed
refreshes = refl

token_used_once_example : ¬ (
    (handle_refresh service first_refresh (
      serve_all service
        (logs_in ann_login ∷ [])
        (handle_refresh service first_refresh registered_server).1)).0
    ≡ ok refreshed)
token_used_once_example =
    token_used_once service first_refresh registered_server refreshed refreshes
      (logs_in ann_login ∷ []) "laptop" refreshed

logs_out : (handle_logout service "0" registered_server).0 ≡ ok true
unfolding handle_register register register_with_session insert_user upsert_device insert_session
    issue_access_token new_refresh_token given_or_new new_session transaction in_tx catch call now
    new_uuid ◌>>=◌ find? exists? trim_space format_uint handle_logout logout revoke_by_hash
    revoke_where count_where update_where
logs_out = refl

token_stored : exists? (has_hash (1 ∷ [])) registered_server.refresh_tokens ≡ true
unfolding handle_register register register_with_session insert_user upsert_device insert_session
    issue_access_token new_refresh_token given_or_new new_session transaction in_tx catch call now
    new_uuid ◌>>=◌ find? exists? trim_space format_uint
token_stored = refl

logged_out_refused_example : ¬ (
    (handle_refresh service first_refresh (
      serve_all service (logs_in ann_login ∷ []) (handle_logout service "0" registered_server).1)).0
    ≡ ok refreshed)
logged_out_refused_example =
    logged_out_refused service first_refresh registered_server token_stored true logs_out
      (logs_in ann_login ∷ []) refreshed

device_removed : (revoke_device (some "0") " laptop" registered_server).0 ≡ ok true
unfolding handle_register register register_with_session insert_user upsert_device insert_session
    issue_access_token new_refresh_token given_or_new new_session transaction in_tx catch call now
    new_uuid ◌>>=◌ find? exists? trim_space format_uint revoke_device revoke_device_for_user
    revoke_device_row revoke_where count_where update_where
device_removed = refl

abbrev without_laptop : Server
without_laptop = (revoke_device (some "0") " laptop" registered_server).1

revoke_device_revokes_example :
    (exists? (user_device "0" (trim_space " laptop")) without_laptop.devices ≡ true)
    × (exists? (live_device "0" (trim_space " laptop")) without_laptop.devices ≡ false)
    × (exists? (live_token_of "0" (trim_space " laptop")) without_laptop.refresh_tokens ≡ false)
revoke_device_revokes_example =
    revoke_device_revokes "0" " laptop" registered_server true device_removed

abbrev sync_method : String
sync_method = "/gophkeeper.v1.SyncService/Sync"

abbrev bearer : Option (List String)
bearer = some ("BEARER signed" ∷ [])

authenticated_needs_token_example :
    ((token : String) × (ids : String × String) × (bearer_token_from_metadata bearer ≡ some token)
      × (parse_access_token jwt 1000 token ≡ some ids)
      × (authenticated jwt sync_method bearer (λ user. pure user) empty_server
          ≡ (ok (context_user (some ids)), (now empty_server).1)))
    ⊎ (((authenticated jwt sync_method bearer (λ user. pure user) empty_server).0
          ≡ err (status unauthenticated))
        × ((authenticated jwt sync_method bearer (λ user. pure user) empty_server).1.db
            ≡ empty_server.db))
authenticated_needs_token_example =
    authenticated_needs_token jwt sync_method bearer (λ user. pure user) empty_server refl

is_text-some : (t : String) (o : Option String) → is_text t o ≡ true → o ≡ some t
is_text-some t none h = absurd cc
is_text-some t (some u) h = ap some ((eq_iff u t).0 h)

jwt_law :
    (c : Claims) (token : String) (at : ℕ)
    → jwt.sign c ≡ some token
    → unix at < c.exp
    → jwt.parse is_hs256 at token ≡ some (c, true)
jwt_law c token at signed early =
    ground (arith, is_text-some "0" c.sub, is_text-some "laptop" c.device_id, eq_iff token "signed")

issued-parse_access_token_example : parse_access_token jwt 5000 "signed" ≡ some ("0", "laptop")
unfolding trim_space issue_access_token now ◌>>=◌
issued-parse_access_token_example =
    issued-parse_access_token jwt jwt_law "0" "laptop" 2000000 empty_server "signed" refl refl refl
      5000 (ground arith)
