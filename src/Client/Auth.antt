-- ===== src/Client/Auth.antt =====
-- internal/client/app/auth.go.
use goph_keeper.Common.{ℕ, ◌*◌, String, List, []}
use goph_keeper.Auth.Types.{RegisterInput, LoginInput}
use goph_keeper.Client.Types.{AuthState}
use goph_keeper.Client.Run.{Exec, ◌>>=◌, ◌>>◌, found, on_error, invalid_password, invalid_response}
use goph_keeper.Client.Storage.{save}
use goph_keeper.Client.App.{
  App, Remote, RegisterResponse, LoginResponse, stored, remote, assign, read_random,
}
use goph_keeper.Client.Crypto.{Library, encrypt, decrypt, derive_key, generate_salt}

-- What the process knows of its machine and its build: os.Hostname, or an empty name if it fails,
-- detectPlatform and version.Version.
pub record Machine : Type 0 where
  pub device_name : String
  pub platform : ℕ
  pub client_version : String

abbrev pub register_request : Machine → String → String → List ℕ → List ℕ → List ℕ → RegisterInput
register_request m login password salt enc_dek nonce = record {
  login = login;
  password = password;
  password_salt = salt;
  kdf_algorithm = "argon2id";
  kdf_memory_kib = 64 * 1024;
  kdf_iterations = 3;
  kdf_parallelism = 4;
  kdf_key_length = 32;
  encrypted_vault_key = enc_dek;
  encrypted_vault_key_nonce = nonce;
  device_id = "";
  device_name = m.device_name;
  platform = m.platform;
  client_version = m.client_version;
}

abbrev pub login_request : Machine → String → String → LoginInput
login_request m login password = record {
  login = login;
  password = password;
  device_id = "";
  device_name = m.device_name;
  platform = m.platform;
  client_version = m.client_version;
}

abbrev pub registered_state : String → RegisterResponse → AuthState
registered_state user_id resp = record {
  user_id = user_id;
  access_token = resp.access_token;
  refresh_token = resp.refresh_token;
  device_id = resp.device_id;
  password_salt = [];
  encrypted_dek = [];
  encrypted_dek_nonce = [];
}

abbrev pub login_state : String → LoginResponse → AuthState
login_state user_id resp = record {
  user_id = user_id;
  access_token = resp.access_token;
  refresh_token = resp.refresh_token;
  device_id = resp.device_id;
  password_salt = resp.password_salt;
  encrypted_dek = resp.encrypted_vault_key;
  encrypted_dek_nonce = resp.encrypted_vault_key_nonce;
}

module _ {R : Type 0} (lib : Library) (server : Remote R) (m : Machine) where
  -- the assignments to the application's fields, and Save
  abbrev pub signed_in : List ℕ → AuthState → Exec (App R) (Unit {0})
  signed_in dek auth = do assign λ a. record a { dek = dek; auth_state = auth }; stored (save auth)

  unfoldable pub register : String → String → Exec (App R) (Unit {0})
  unfolding encrypt generate_salt read_random derive_key remote stored
  register login password = do
    salt ← generate_salt
    dek ← read_random 32
    sealed ← encrypt lib (derive_key lib password salt) dek
    resp ← remote (server.register (register_request m login password salt sealed.1 sealed.0))
    user_id ← found resp.user invalid_response
    signed_in dek (registered_state user_id resp)

  unfoldable pub login : String → String → Exec (App R) (Unit {0})
  unfolding decrypt derive_key remote stored
  login name password = do
    resp ← remote (server.login (login_request m name password))
    dek ←
        on_error
          (decrypt lib (derive_key lib password resp.password_salt) resp.encrypted_vault_key_nonce
            resp.encrypted_vault_key)
          invalid_password
    user_id ← found resp.user invalid_response
    signed_in dek (login_state user_id resp)
