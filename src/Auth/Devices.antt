-- ===== src/Auth/Devices.antt =====
-- internal/server/grpcserver/device_handler.go and device_platform.go.
use goph_keeper.Common.{ℕ, String, Bool, true, not, Option, List, map, if◌then◌else◌, str_eq, ◌==◌}
use goph_keeper.Common.Text.{trim_space}
use goph_keeper.Server.Error.{
  Error, status, unauthenticated, invalid_argument, not_found, internal, err_device_not_found,
}
use goph_keeper.Server.Exec.{Exec, ◌>>=◌, ◌>>◌, pure, found, guard, on_error}
use goph_keeper.Auth.Types.{DeviceRecord}
use goph_keeper.Auth.Repository.{list_devices_by_user, revoke_device_for_user}

pub data DevicePlatform : Type 0 where
  platform_unspecified platform_linux platform_windows platform_macos : DevicePlatform

unfoldable pub proto_device_platform : ℕ → DevicePlatform
proto_device_platform p =
    if p == 1
    then platform_linux
    else if p == 2
    then platform_windows
    else if p == 3
    then platform_macos
    else platform_unspecified

pub record ListedDevice : Type 0 where
  pub device_id : String
  pub user_id : String
  pub device_name : String
  pub platform : DevicePlatform
  pub client_version : String
  pub created_at : ℕ
  pub last_seen_at : ℕ
  pub revoked_at : Option ℕ

unfoldable pub device_record_to_proto : DeviceRecord → ListedDevice
unfolding proto_device_platform
device_record_to_proto r = record {
  device_id = r.device_id;
  user_id = r.user_id;
  device_name = r.device_name;
  platform = proto_device_platform r.platform;
  client_version = r.client_version;
  created_at = r.created_at;
  last_seen_at = r.last_seen_at;
  revoked_at = r.revoked_at;
}

unfoldable pub list_devices : Option String → Exec (List ListedDevice)
unfolding device_record_to_proto
list_devices auth = do
  user_id ← found auth (status unauthenticated)
  rows ← on_error (list_devices_by_user user_id) (λ _. status internal)
  pure (map device_record_to_proto rows)

abbrev pub revoke_error : Error → Error
revoke_error err_device_not_found = status not_found
revoke_error _ = status internal

-- A missing request reads as one without a device id.
unfoldable pub revoke_device : Option String → String → Exec Bool
revoke_device auth device_id = do
  user_id ← found auth (status unauthenticated)
  guard (not (str_eq (trim_space device_id) "")) (status invalid_argument)
  on_error (revoke_device_for_user user_id (trim_space device_id)) revoke_error
  pure true
