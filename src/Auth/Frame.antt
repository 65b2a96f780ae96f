-- ===== src/Auth/Frame.antt =====
-- An invariant that the statements on the authentication tables keep is kept by every call of the
-- authentication and device APIs, and by any sequence of them.
use goph_keeper.Common.{ℕ, String, Bool, Option, List, [], ◌∷◌}
use goph_keeper.Server.Error.{Error, ok}
use goph_keeper.Server.State.{Server}
use goph_keeper.Server.Exec.{found, guard, call}
use goph_keeper.Server.Keeps.{
  Keeps, Keeps-pure, Keeps-raise, Keeps-found, Keeps-guard, Keeps-bind, Keeps-catch, Keeps-if,
  Keeps-ignore,
}
use goph_keeper.Server.Frame.{IsFramed, Keeps-call, Keeps-now, Keeps-new_uuid, Keeps-transaction}
use goph_keeper.Auth.Types.{
  User, Device, Session, RefreshRow, RegisterInput, LoginInput, RefreshInput,
}
use goph_keeper.Auth.Repository.{
  insert_user, upsert_device, insert_session, revoke_where, revoke_by_hash, get_by_login,
  register_with_session, login_with_device_and_session, rotate_refresh, list_devices_by_user,
  revoke_device_row, revoke_device_for_user,
}
use goph_keeper.Auth.Access.{Jwt, issue_access_token}
use goph_keeper.Auth.Service.{
  AuthService, new_refresh_token, given_or_new, new_session, register, login, refresh, logout,
}
use goph_keeper.Auth.Handler.{handle_register, handle_login, handle_refresh, handle_logout}
use goph_keeper.Auth.Devices.{list_devices, revoke_device}

-- A call of the APIs; a device call has the user that the interceptor knows.
pub data AuthCall : Type 0 where
  registers : RegisterInput → AuthCall
  logs_in : LoginInput → AuthCall
  refreshes : RefreshInput → AuthCall
  logs_out : String → AuthCall
  lists_devices : Option String → AuthCall
  revokes_device : Option String → String → AuthCall

unfoldable pub serve : AuthService → AuthCall → Server → Server
serve svc (registers req) s = (handle_register svc req s).1
serve svc (logs_in req) s = (handle_login svc req s).1
serve svc (refreshes req) s = (handle_refresh svc req s).1
serve svc (logs_out token) s = (handle_logout svc token s).1
serve svc (lists_devices auth) s = (list_devices auth s).1
serve svc (revokes_device auth id) s = (revoke_device auth id s).1

unfoldable pub serve_all : AuthService → List AuthCall → Server → Server
serve_all svc [] s = s
serve_all svc (c ∷ cs) s = serve_all svc cs (serve svc c s)

-- The statements that write.
pub record KeptByStatements (P : Server → Type 0) : Type 0 where
  pub framed : IsFramed P
  pub inserts_user : (u : User) → Keeps P (insert_user u)
  pub upserts_device : (d : Device) → Keeps P (upsert_device d)
  pub inserts_session : (n : Session) → Keeps P (insert_session n)
  pub revokes : (p : RefreshRow → Bool) → Keeps P (revoke_where p)
  pub revokes_row : (u d : String) → Keeps P (revoke_device_row u d)

module _ {P : Server → Type 0} (k : KeptByStatements P) where
  called_kept : (e : Error) → Keeps P (call e)
  called_kept = Keeps-call k.framed

  found_kept : {A : Type 0} (q : Server → Option A) (e : Error) → Keeps P (λ s. found (q s) e s)
  found_kept q e = record { at = λ s h. h }

  guard_kept : (q : Server → Bool) (e : Error) → Keeps P (λ s. guard (q s) e s)
  guard_kept q e = record { at = λ s h. h }

  read_kept : {A : Type 0} (q : Server → A) → Keeps P (λ s. (ok (q s), s))
  read_kept q = record { at = λ s h. h }

  new_refresh_token_kept : Keeps P new_refresh_token
  unfolding new_refresh_token
  new_refresh_token_kept =
      Keeps-bind _ _ (Keeps-call k.framed _) λ _. record { at = λ s h. k.framed.env s _ h }

  env_kept : IsFramed P
  env_kept = k.framed

  user_kept : (u : User) → Keeps P (insert_user u)
  user_kept = k.inserts_user

  device_kept : (d : Device) → Keeps P (upsert_device d)
  device_kept = k.upserts_device

  session_kept : (n : Session) → Keeps P (insert_session n)
  session_kept = k.inserts_session

  revoke_kept : (p : RefreshRow → Bool) → Keeps P (revoke_where p)
  revoke_kept = k.revokes

  revoke_row_kept : (u d : String) → Keeps P (revoke_device_row u d)
  revoke_row_kept = k.revokes_row

  ruleset statement_rules = (
    Keeps-pure, Keeps-raise, Keeps-found, Keeps-guard, Keeps-bind, Keeps-catch, Keeps-if,
    Keeps-ignore, Keeps-call, Keeps-now, Keeps-new_uuid, Keeps-transaction, env_kept, user_kept,
    device_kept, session_kept, revoke_kept, revoke_row_kept, found_kept, guard_kept, read_kept,
    new_refresh_token_kept,
  )

  by_login_kept : (l : String) → Keeps P (get_by_login l)
  unfolding get_by_login
  by_login_kept l = search statement_rules depth 12

  by_user_kept : (u : String) → Keeps P (list_devices_by_user u)
  unfolding list_devices_by_user
  by_user_kept u = search statement_rules depth 12

  by_hash_kept : (g : List ℕ) → Keeps P (revoke_by_hash g)
  unfolding revoke_by_hash
  by_hash_kept g = search statement_rules depth 12

  pair_kept : (d : Device) (n : Session) → Keeps P (login_with_device_and_session d n)
  unfolding login_with_device_and_session
  pair_kept d n = search statement_rules depth 12

  triple_kept : (u : User) (d : Device) (n : Session) → Keeps P (register_with_session u d n)
  unfolding register_with_session
  triple_kept u d n = search statement_rules depth 12

  rotate_kept : (g : List ℕ) (d : String) (at : ℕ) (n : Session) → Keeps P (rotate_refresh g d at n)
  unfolding rotate_refresh
  rotate_kept g d at n = search statement_rules depth 20

  device_revoked_kept : (u d : String) → Keeps P (revoke_device_for_user u d)
  unfolding revoke_device_for_user
  device_revoked_kept u d = search statement_rules depth 24

  issue_kept : (jwt : Jwt) (u d : String) (ttl : ℕ) → Keeps P (issue_access_token jwt u d ttl)
  unfolding issue_access_token
  issue_kept jwt u d ttl = search statement_rules depth 12

  given_kept : (d : String) → Keeps P (given_or_new d)
  unfolding given_or_new
  given_kept d = search statement_rules depth 12

  new_session_kept : (svc : AuthService) (u d t : String) → Keeps P (new_session svc u d t)
  unfolding new_session
  new_session_kept svc u d t = search statement_rules depth 12

  ruleset service_rules = (
    statement_rules, by_login_kept, by_user_kept, by_hash_kept, pair_kept, triple_kept, rotate_kept,
    device_revoked_kept, issue_kept, given_kept, new_session_kept,
  )

  pub Keeps-issue : (jwt : Jwt) (u d : String) (ttl : ℕ) → Keeps P (issue_access_token jwt u d ttl)
  Keeps-issue = issue_kept

  pub Keeps-new_refresh_token : Keeps P new_refresh_token
  Keeps-new_refresh_token = new_refresh_token_kept

  module _ (svc : AuthService) where
    pub Keeps-register : (req : RegisterInput) → Keeps P (register svc req)
    unfolding register
    Keeps-register req = search service_rules depth 40

    pub Keeps-login : (req : LoginInput) → Keeps P (login svc req)
    unfolding login
    Keeps-login req = search service_rules depth 40

    pub Keeps-refresh : (req : RefreshInput) → Keeps P (refresh svc req)
    unfolding refresh
    Keeps-refresh req = search service_rules depth 40

    pub Keeps-logout : (token : String) → Keeps P (logout svc token)
    unfolding logout
    Keeps-logout token = search service_rules depth 40

    ruleset call_rules = (service_rules, Keeps-register, Keeps-login, Keeps-refresh, Keeps-logout)

    register_served : (req : RegisterInput) → Keeps P (handle_register svc req)
    unfolding handle_register
    register_served req = search call_rules depth 20

    login_served : (req : LoginInput) → Keeps P (handle_login svc req)
    unfolding handle_login
    login_served req = search call_rules depth 20

    refresh_served : (req : RefreshInput) → Keeps P (handle_refresh svc req)
    unfolding handle_refresh
    refresh_served req = search call_rules depth 20

    logout_served : (token : String) → Keeps P (handle_logout svc token)
    unfolding handle_logout
    logout_served token = search call_rules depth 20

    list_served : (auth : Option String) → Keeps P (list_devices auth)
    unfolding list_devices
    list_served auth = search call_rules depth 20

    revoke_served : (auth : Option String) (id : String) → Keeps P (revoke_device auth id)
    unfolding revoke_device
    revoke_served auth id = search call_rules depth 20

    serve_kept : (c : AuthCall) (s : Server) → P s → P (serve svc c s)
    unfolding serve
    serve_kept (registers req) s h = (register_served req).at s h
    serve_kept (logs_in req) s h = (login_served req).at s h
    serve_kept (refreshes req) s h = (refresh_served req).at s h
    serve_kept (logs_out token) s h = (logout_served token).at s h
    serve_kept (lists_devices auth) s h = (list_served auth).at s h
    serve_kept (revokes_device auth id) s h = (revoke_served auth id).at s h

    pub serve_all_kept : (cs : List AuthCall) (s : Server) → P s → P (serve_all svc cs s)
    unfolding serve_all
    serve_all_kept [] s h = h
    serve_all_kept (c ∷ cs) s h = serve_all_kept cs (serve svc c s) (serve_kept c s h)
