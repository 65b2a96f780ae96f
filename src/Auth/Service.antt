-- ===== src/Auth/Service.antt =====
-- internal/server/auth/service.go.
use goph_keeper.Common.{
  ℕ, ◌+◌, String, Bool, true, false, ◌||◌, not, Option, List, if◌then◌else◌, str_eq,
}
use goph_keeper.Common.Text.{trim_space}
use goph_keeper.Server.Error.{
  Error, err_invalid_argument, err_unauthorized, random_failure, hash_failure, ok,
}
use goph_keeper.Server.Exec.{
  Exec, ◌>>=◌, ◌>>◌, pure, raise, guard, found, catch, now, new_uuid, call,
}
use goph_keeper.Auth.Types.{
  User, Device, Session, RegisterInput, RegisterOutput, LoginInput, LoginOutput, RefreshInput,
  RefreshOutput,
}
use goph_keeper.Auth.Repository.{
  get_by_login, revoke_by_hash, register_with_session, login_with_device_and_session,
  rotate_refresh,
}
use goph_keeper.Auth.Access.{Jwt, issue_access_token}

-- The fields of the service: bcrypt's two functions (its salt is in the function), sha256.Sum256 of a text, the JWT library and the
-- configured durations, in microseconds.
pub record AuthService : Type 0 where
  pub hash : String → Option (List ℕ)
  pub compare : List ℕ → String → Bool
  pub hash_token : String → List ℕ
  pub jwt : Jwt
  pub access_ttl : ℕ
  pub refresh_ttl : ℕ

unfoldable pub new_refresh_token : Exec String
new_refresh_token = do
  call random_failure
  λ s.
      (ok (s.env.token s.env.tokens), record s { env = record s.env { tokens = s.env.tokens + 1 } })

-- the device id of the input, or a new one
unfoldable pub given_or_new : String → Exec String
given_or_new id = if str_eq (trim_space id) "" then new_uuid else pure (trim_space id)

unfoldable pub new_session : AuthService → String → String → String → Exec Session
new_session svc user_id device_id refresh = do
  token_id ← new_uuid
  at ← now
  pure (record {
    token_id = token_id;
    user_id = user_id;
    device_id = device_id;
    token_hash = svc.hash_token refresh;
    expires_at = at + svc.refresh_ttl;
  })

abbrev pub new_user : String → String → List ℕ → RegisterInput → User
new_user user_id login password_hash input = record {
  user_id = user_id;
  login = login;
  password_hash = password_hash;
  password_salt = input.password_salt;
  kdf_algorithm = input.kdf_algorithm;
  kdf_memory_kib = input.kdf_memory_kib;
  kdf_iterations = input.kdf_iterations;
  kdf_parallelism = input.kdf_parallelism;
  kdf_key_length = input.kdf_key_length;
  encrypted_vault_key = input.encrypted_vault_key;
  encrypted_vault_key_nonce = input.encrypted_vault_key_nonce;
}

abbrev pub new_device : String → String → String → ℕ → String → Device
new_device device_id user_id device_name platform client_version = record {
  device_id = device_id;
  user_id = user_id;
  device_name = device_name;
  platform = platform;
  client_version = client_version;
}

unfoldable pub register : AuthService → RegisterInput → Exec RegisterOutput
unfolding new_refresh_token given_or_new new_session
register svc input = do
  let login = trim_space input.login
  guard (not (str_eq login "" || str_eq input.password "")) err_invalid_argument
  password_hash ← found (svc.hash input.password) hash_failure
  user_id ← new_uuid
  device_id ← given_or_new input.device_id
  refresh ← new_refresh_token
  session ← new_session svc user_id device_id refresh
  register_with_session (new_user user_id login password_hash input)
      (new_device device_id user_id input.device_name input.platform input.client_version) session
  access ← issue_access_token svc.jwt user_id device_id svc.access_ttl
  pure (record {
    user_id = user_id;
    login = login;
    device_id = device_id;
    access_token = access;
    refresh_token = refresh;
  })

abbrev pub login_output : User → String → String → String → LoginOutput
login_output user device_id access refresh = record {
  user_id = user.user_id;
  login = user.login;
  device_id = device_id;
  access_token = access;
  refresh_token = refresh;
  password_salt = user.password_salt;
  kdf_algorithm = user.kdf_algorithm;
  kdf_memory_kib = user.kdf_memory_kib;
  kdf_iterations = user.kdf_iterations;
  kdf_parallelism = user.kdf_parallelism;
  kdf_key_length = user.kdf_key_length;
  encrypted_vault_key = user.encrypted_vault_key;
  encrypted_vault_key_nonce = user.encrypted_vault_key_nonce;
}

unfoldable pub login : AuthService → LoginInput → Exec LoginOutput
unfolding new_refresh_token given_or_new new_session
login svc input = do
  let name = trim_space input.login
  guard (not (str_eq name "" || str_eq input.password "")) err_invalid_argument
  user ← get_by_login name
  guard (svc.compare user.password_hash input.password) err_unauthorized
  device_id ← given_or_new input.device_id
  refresh ← new_refresh_token
  session ← new_session svc user.user_id device_id refresh
  login_with_device_and_session
      (new_device device_id user.user_id input.device_name input.platform input.client_version)
      session
  access ← issue_access_token svc.jwt user.user_id device_id svc.access_ttl
  pure (login_output user device_id access refresh)

-- The user of the new session is the one that RotateRefresh finds.
abbrev pub rotated_session : AuthService → String → String → String → ℕ → Session
rotated_session svc token_id refresh device_id at = record {
  token_id = token_id;
  user_id = "";
  device_id = device_id;
  token_hash = svc.hash_token refresh;
  expires_at = at + svc.refresh_ttl;
}

unfoldable pub refresh : AuthService → RefreshInput → Exec RefreshOutput
unfolding new_refresh_token
refresh svc input = do
  guard (not (str_eq (trim_space input.refresh_token) "" || str_eq (trim_space input.device_id) ""))
      err_invalid_argument
  at ← now
  fresh ← new_refresh_token
  token_id ← new_uuid
  ids ←
      rotate_refresh (svc.hash_token input.refresh_token) (trim_space input.device_id) at
        (rotated_session svc token_id fresh (trim_space input.device_id) at)
  access ← issue_access_token svc.jwt ids.0 ids.1 svc.access_ttl
  pure (record { access_token = access; refresh_token = fresh })

-- errors.Is(err, ErrUnauthorized)
abbrev pub is_unauthorized : Error → Bool
is_unauthorized err_unauthorized = true
is_unauthorized _ = false

unfoldable pub logout : AuthService → String → Exec (Unit {0})
logout svc refresh_token = do
  guard (not (str_eq (trim_space refresh_token) "")) err_invalid_argument
  catch (revoke_by_hash (svc.hash_token refresh_token))
      λ e. if is_unauthorized e then pure tt else raise e
