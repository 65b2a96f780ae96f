-- ===== src/Examples/Configs.antt =====
-- A configuration of the variables that have no default.
use goph_keeper.Common.{String, ◌≡◌, refl, false, if◌then◌else◌, str_eq, ◌||◌}
use goph_keeper.Common.Text.{trim_space}
use goph_keeper.Config.{
  Config, load, accepted, require, ◌>>=◌, get_env, parse_bool, setting, byte_length, one_of,
  lowers_to,
}
use goph_keeper.Config.Valid.{IsValid, load-IsValid}

abbrev environment : String → String
environment key =
    if str_eq key "GOPHKEEPER_DATABASE_URL"
      || str_eq key "GOPHKEEPER_MINIO_ACCESS_KEY"
      || str_eq key "GOPHKEEPER_MINIO_SECRET_KEY"
    then "given"
    else if str_eq key "GOPHKEEPER_JWT_SECRET"
    then " 0123456789abcdef0123456789abcdef "
    else if str_eq key "GOPHKEEPER_LOG_LEVEL"
    then "WARN"
    else ""

abbrev defaults : Config
defaults = record {
  grpc_addr = "127.0.0.1:50051";
  grpc_tls_cert_path = "certs/server.crt";
  grpc_tls_key_path = "certs/server.key";
  log_level = "warn";
  database_url = "given";
  minio_endpoint = "127.0.0.1:9000";
  minio_access_key = "given";
  minio_secret_key = "given";
  minio_bucket = "gophkeeper";
  minio_use_ssl = false;
  jwt_secret = "0123456789abcdef0123456789abcdef";
  access_ttl_sec = 900;
  refresh_ttl_sec = 2592000;
  inline_threshold_bytes = 262144;
  max_blob_size_bytes = 104857600;
  max_chunk_size_bytes = 8388608;
  grpc_max_message_bytes = 104857600;
  upload_session_ttl_hours = 24;
  upload_session_cleanup_interval_minutes = 15;
}

loads : load environment ≡ accepted defaults
unfolding load require ◌>>=◌ get_env parse_bool setting byte_length one_of lowers_to trim_space
loads = refl

load-IsValid_example : IsValid defaults
load-IsValid_example = load-IsValid environment defaults loads
