-- ===== src/Auth/Handler.antt =====
-- internal/server/grpcserver/auth_handler.go. A message that is missing reads as an empty one.
use goph_keeper.Common.{ℕ, ◌%◌, ◌^◌, String, Bool, true}
use goph_keeper.Server.Error.{
  Error, status, invalid_argument, already_exists, unauthenticated, internal, err_invalid_argument,
  err_already_exists, err_unauthorized,
}
use goph_keeper.Server.Exec.{Exec, ◌>>◌, pure, on_error}
use goph_keeper.Auth.Types.{
  RegisterInput, RegisterOutput, LoginInput, LoginOutput, RefreshInput, RefreshOutput,
}
use goph_keeper.Auth.Service.{AuthService, register, login, refresh, logout}

unfoldable pub to_status_error : Error → Error
to_status_error err_invalid_argument = status invalid_argument
to_status_error err_already_exists = status already_exists
to_status_error err_unauthorized = status unauthenticated
to_status_error _ = status internal

-- int16(x) of an enum, as its 16 bits
abbrev pub to_int16 : ℕ → ℕ
to_int16 x = x % 2 ^ 16

-- The requests carry a platform as the 32 bits of an enum; the other fields are those of the inputs.
-- The limits of the responses are constants of the configuration, and left out.
unfoldable pub handle_register : AuthService → RegisterInput → Exec RegisterOutput
unfolding to_status_error
handle_register svc req =
    on_error (register svc (record req { platform = to_int16 req.platform })) to_status_error

unfoldable pub handle_login : AuthService → LoginInput → Exec LoginOutput
unfolding to_status_error
handle_login svc req =
    on_error (login svc (record req { platform = to_int16 req.platform })) to_status_error

unfoldable pub handle_refresh : AuthService → RefreshInput → Exec RefreshOutput
unfolding to_status_error
handle_refresh svc req = on_error (refresh svc req) to_status_error

unfoldable pub handle_logout : AuthService → String → Exec Bool
unfolding to_status_error
handle_logout svc refresh_token = do on_error (logout svc refresh_token) to_status_error; pure true
