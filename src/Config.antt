-- ===== src/Config.antt =====
-- internal/server/config: Load, over the environment as a function that returns an empty text for a
-- variable that is not set.
pub mod Valid
use Prim.Native.Char.{code}
use goph_keeper.Common.{
  ℕ, ◌+◌, ◌*◌, ◌-◌, ◌^◌, String, Bool, true, false, not, ◌||◌, ◌&&◌, Option, none, some, List, [],
  ◌∷◌, if◌then◌else◌, str_eq, ltb, leb, ◌==◌,
}
use goph_keeper.Common.Text.{trim_space, parse_uint, lower}
use goph_keeper.Vault.Listing.{Signed, positive, negative, parse_int}

-- The settings; the numbers that Load accepts are not negative.
pub record Config : Type 0 where
  pub grpc_addr : String
  pub grpc_tls_cert_path : String
  pub grpc_tls_key_path : String
  pub log_level : String
  pub database_url : String
  pub minio_endpoint : String
  pub minio_access_key : String
  pub minio_secret_key : String
  pub minio_bucket : String
  pub minio_use_ssl : Bool
  pub jwt_secret : String
  pub access_ttl_sec : ℕ
  pub refresh_ttl_sec : ℕ
  pub inline_threshold_bytes : ℕ
  pub max_blob_size_bytes : ℕ
  pub max_chunk_size_bytes : ℕ
  pub grpc_max_message_bytes : ℕ
  pub upload_session_ttl_hours : ℕ
  pub upload_session_cleanup_interval_minutes : ℕ

-- A result, or the variable that is refused.
pub data Checked (A : Type 0) : Type 0 where
  accepted : A → Checked A
  refused : String → Checked A

infixl 5 ◌>>=◌ ◌>>◌
unfoldable pub ◌>>=◌ : {A B : Type 0} → Checked A → (A → Checked B) → Checked B
accepted a >>= f = f a
refused v >>= f = refused v

abbrev pub ◌>>◌ : {A B : Type 0} → Checked A → Checked B → Checked B
m >> n = m >>= λ _. n

unfoldable pub require : Bool → String → Checked (Unit {0})
require true v = accepted tt
require false v = refused v

-- len of a text, in bytes of UTF-8
abbrev char_bytes : ℕ → ℕ
char_bytes c = if ltb c 0x80 then 1 else if ltb c 0x800 then 2 else if ltb c 0x10000 then 3 else 4

unfoldable pub byte_length : String → ℕ
byte_length String.[] = 0
byte_length (String.◌∷◌ c s) = char_bytes (code c) + byte_length s

-- strings.ToLower of a character, where the result is an ASCII one: two others have an ASCII small
-- letter, i and k.
abbrev lower_code : ℕ → ℕ
lower_code c = if c == 0x130 then 105 else if c == 0x212a then 107 else lower c

-- strings.ToLower(s) == word, for an ASCII word of small letters and digits
unfoldable pub lowers_to : String → String → Bool
lowers_to String.[] String.[] = true
lowers_to (String.◌∷◌ c s) (String.◌∷◌ w word) =
    let rest = lowers_to s word in if lower_code (code c) == code w then rest else false
lowers_to _ _ = false

unfoldable pub get_env : (String → String) → String → String → String
get_env env key def = if str_eq (env key) "" then def else env key

-- the word among these that a text lowers to
unfoldable pub one_of : List String → String → Option String
unfolding lowers_to
one_of [] s = none
one_of (w ∷ ws) s = let rest = one_of ws s in if lowers_to s w then some w else rest

abbrev is_some : Option String → Bool
is_some none = false
is_some (some w) = true

abbrev truth : Bool → Bool → Option Bool
truth true falsity = some true
truth false true = some false
truth false false = none

unfoldable pub parse_bool : String → Option Bool
unfolding one_of
parse_bool s =
    truth (is_some (one_of ("1" ∷ "true" ∷ "yes" ∷ "on" ∷ []) (trim_space s)))
      (is_some (one_of ("0" ∷ "false" ∷ "no" ∷ "off" ∷ "" ∷ []) (trim_space s)))

abbrev or_refused : {A : Type 0} → Option A → String → Checked A
or_refused none v = refused v
or_refused (some a) v = accepted a

abbrev positive_only : Option ℕ → Option ℕ
positive_only none = none
positive_only (some n) = if n == 0 then none else some n

abbrev not_negative : Option Signed → Option ℕ
not_negative none = none
not_negative (some (positive n)) = some n
not_negative (some (negative n)) = if n == 0 then some 0 else none

-- strconv.Atoi with n > 0, strconv.ParseUint with n > 0, and strconv.Atoi with n >= 0
unfoldable pub positive_int : String → Option ℕ
positive_int v = positive_only (not_negative (parse_int v))

unfoldable pub positive_uint : String → Option ℕ
positive_uint v = positive_only (parse_uint v)

unfoldable pub natural_int : String → Option ℕ
natural_int v = not_negative (parse_int v)

-- if v := strings.TrimSpace(os.Getenv(key)); v != "" { ... }
unfoldable pub setting : (String → Option ℕ) → (String → String) → String → ℕ → Checked ℕ
setting parse env key def =
    let v = trim_space (env key) in if str_eq v "" then accepted def else or_refused (parse v) key

abbrev not_empty : String → Bool
not_empty s = not (str_eq s "")

abbrev pub min_jwt_secret_len : ℕ
min_jwt_secret_len = 32

-- uint64(math.MaxInt)
abbrev pub max_int : ℕ
max_int = 2 ^ 63 - 1

unfoldable pub load : (String → String) → Checked Config
unfolding get_env parse_bool setting positive_int positive_uint natural_int byte_length one_of
load env = do
  let cert = trim_space (get_env env "GOPHKEEPER_GRPC_TLS_CERT_PATH" "certs/server.crt")
  let key = trim_space (get_env env "GOPHKEEPER_GRPC_TLS_KEY_PATH" "certs/server.key")
  let database_url = trim_space (env "GOPHKEEPER_DATABASE_URL")
  let endpoint = trim_space (get_env env "GOPHKEEPER_MINIO_ENDPOINT" "127.0.0.1:9000")
  let access_key = trim_space (env "GOPHKEEPER_MINIO_ACCESS_KEY")
  let secret_key = trim_space (env "GOPHKEEPER_MINIO_SECRET_KEY")
  let secret = trim_space (env "GOPHKEEPER_JWT_SECRET")
  use_ssl ←
      or_refused (parse_bool (get_env env "GOPHKEEPER_MINIO_USE_SSL" "false"))
        "GOPHKEEPER_MINIO_USE_SSL"
  log_level ←
      or_refused
        (one_of ("debug" ∷ "info" ∷ "warn" ∷ "error" ∷ [])
          (get_env env "GOPHKEEPER_LOG_LEVEL" "info"))
        "GOPHKEEPER_LOG_LEVEL"
  require (not_empty cert) "GOPHKEEPER_GRPC_TLS_CERT_PATH"
  require (not_empty key) "GOPHKEEPER_GRPC_TLS_KEY_PATH"
  require (not_empty database_url) "GOPHKEEPER_DATABASE_URL"
  require (not_empty endpoint) "GOPHKEEPER_MINIO_ENDPOINT"
  require (not_empty access_key && not_empty secret_key) "GOPHKEEPER_MINIO_ACCESS_KEY"
  require (not_empty secret) "GOPHKEEPER_JWT_SECRET"
  require (leb min_jwt_secret_len (byte_length secret)) "GOPHKEEPER_JWT_SECRET"
  access_ttl ← setting positive_int env "GOPHKEEPER_ACCESS_TOKEN_TTL_SECONDS" 900
  refresh_ttl ← setting positive_int env "GOPHKEEPER_REFRESH_TOKEN_TTL_SECONDS" 2592000
  inline ← setting positive_uint env "GOPHKEEPER_INLINE_THRESHOLD_BYTES" (256 * 1024)
  max_blob ← setting positive_uint env "GOPHKEEPER_MAX_BLOB_SIZE_BYTES" 104857600
  max_chunk ← setting positive_uint env "GOPHKEEPER_MAX_CHUNK_SIZE_BYTES" 8388608
  max_message ← setting positive_uint env "GOPHKEEPER_GRPC_MAX_MESSAGE_BYTES" 104857600
  session_ttl ← setting positive_int env "GOPHKEEPER_UPLOAD_SESSION_TTL_HOURS" 24
  interval ← setting natural_int env "GOPHKEEPER_UPLOAD_SESSION_CLEANUP_INTERVAL_MINUTES" 15
  require (leb max_message max_int) "GOPHKEEPER_GRPC_MAX_MESSAGE_BYTES"
  require (leb inline max_blob) "GOPHKEEPER_INLINE_THRESHOLD_BYTES"
  accepted (record {
    grpc_addr = get_env env "GOPHKEEPER_GRPC_ADDR" "127.0.0.1:50051";
    grpc_tls_cert_path = cert;
    grpc_tls_key_path = key;
    log_level = log_level;
    database_url = database_url;
    minio_endpoint = endpoint;
    minio_access_key = access_key;
    minio_secret_key = secret_key;
    minio_bucket = get_env env "GOPHKEEPER_MINIO_BUCKET" "gophkeeper";
    minio_use_ssl = use_ssl;
    jwt_secret = secret;
    access_ttl_sec = access_ttl;
    refresh_ttl_sec = refresh_ttl;
    inline_threshold_bytes = inline;
    max_blob_size_bytes = max_blob;
    max_chunk_size_bytes = max_chunk;
    grpc_max_message_bytes = max_message;
    upload_session_ttl_hours = session_ttl;
    upload_session_cleanup_interval_minutes = interval;
  })
