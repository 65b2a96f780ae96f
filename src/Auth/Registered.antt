-- ===== src/Auth/Registered.antt =====
-- What a login returns of the user that registered: the round trip of a user's row through the table.
use goph_keeper.Common.{
  ℕ, String, Bool, true, ◌||◌, ◌≡◌, refl, some, List, [], ◌∷◌, arith, str_eq, eq_iff,
}
use goph_keeper.Common.Table.{find?, exists?}
use goph_keeper.Common.Text.{trim_space}
use goph_keeper.Server.Error.{Error, ok}
use goph_keeper.Server.State.{Server}
use goph_keeper.Server.Exec.{found, guard, ◌>>=◌, call, now}
use goph_keeper.Server.Keeps.{Keeps, Keeps-bind, Keeps-guard}
use goph_keeper.Server.Frame.{IsFramed}
use goph_keeper.Server.Ensures.{
  Ensures, Any, Ensures-bind, Ensures-Keeps, Ensures-Any, Ensures-fact, Ensures-returns,
  Ensures-on_error, Ensures-transaction,
}
use goph_keeper.Auth.Types.{
  User, Device, Session, RefreshRow, RegisterInput, RegisterOutput, LoginInput, LoginOutput,
}
use goph_keeper.Auth.Repository.{
  insert_user, upsert_device, insert_session, revoke_where, get_by_login, revoke_device_row,
  register_with_session,
}
use goph_keeper.Auth.Access.{issue_access_token}
use goph_keeper.Auth.Service.{AuthService, register, login, new_user, login_output}
use goph_keeper.Auth.Handler.{handle_register, handle_login, to_int16}
use goph_keeper.Auth.Frame.{AuthCall, serve_all, serve_all_kept, KeptByStatements, Keeps-issue}

abbrev by_login : String → User → Bool
by_login l u = str_eq u.login l

-- The row of a login.
abbrev HasUser : String → User → Server → Type 0
HasUser l u s = find? (by_login l) s.users ≡ some u

-- A login that is found is taken.
login_taken :
    (l : String) (u v : User) (users : List User)
    → find? (by_login l) users ≡ some u
    → str_eq v.login l ≡ true
    → exists? (λ r. str_eq r.user_id v.user_id || str_eq r.login v.login) users ≡ true
unfolding find? exists?
login_taken l u v [] e k = absurd cc
login_taken l u v (x ∷ users) e k =
    rw ((eq_iff v.login l).0 k) (ground (arith, login_taken l u v users))

module _ (l : String) (u : User) where
  framed : IsFramed (HasUser l u)
  framed = record { env = λ s e k. k; back = λ s t k m. k }

  insert_user-HasUser : (v : User) → Keeps (HasUser l u) (insert_user v)
  unfolding insert_user call ◌>>=◌ find?
  insert_user-HasUser v = record { at = λ s k. ground (arith, login_taken l u v s.users k) }

  upsert_device-HasUser : (d : Device) → Keeps (HasUser l u) (upsert_device d)
  unfolding upsert_device call now ◌>>=◌
  upsert_device-HasUser d = record { at = λ s k. ground arith }

  insert_session-HasUser : (n : Session) → Keeps (HasUser l u) (insert_session n)
  unfolding insert_session call now ◌>>=◌
  insert_session-HasUser n = record { at = λ s k. ground arith }

  revoke_where-HasUser : (p : RefreshRow → Bool) → Keeps (HasUser l u) (revoke_where p)
  unfolding revoke_where call now ◌>>=◌
  revoke_where-HasUser p = record { at = λ s k. ground arith }

  revoke_device_row-HasUser : (v d : String) → Keeps (HasUser l u) (revoke_device_row v d)
  unfolding revoke_device_row call now ◌>>=◌
  revoke_device_row-HasUser v d = record { at = λ s k. ground arith }

  kept : KeptByStatements (HasUser l u)
  kept = record {
    framed = framed;
    inserts_user = insert_user-HasUser;
    upserts_device = upsert_device-HasUser;
    inserts_session = insert_session-HasUser;
    revokes = revoke_where-HasUser;
    revokes_row = revoke_device_row-HasUser;
  }

inserted : (u : User) → Ensures Any (insert_user u) (λ _. HasUser u.login u)
unfolding insert_user call ◌>>=◌ find?
inserted u = record { after = λ s p a e. ground (arith, (eq_iff u.login u.login).1 refl) }

registered :
    (u : User) (d : Device) (n : Session)
    → Ensures Any (register_with_session u d n) (λ _. HasUser u.login u)
unfolding register_with_session
registered u d n =
    Ensures-transaction _ (λ s p. tt) (λ a s t same k. rw same k)
      (Ensures-bind _ _ (inserted u) λ _. Ensures-Keeps _ (
        Keeps-bind _ _ (upsert_device-HasUser u.login u d) λ _. insert_session-HasUser u.login u n))

module _ (svc : AuthService) where
  -- The row that a registration leaves: its password hash is the one of the given password.
  abbrev IsHash : RegisterInput → List ℕ → Type 0
  IsHash req hash = svc.hash req.password ≡ some hash

  abbrev row_of : RegisterInput → List ℕ → String → User
  row_of req hash user_id = new_user user_id (trim_space req.login) hash req

  abbrev HasRow : RegisterInput → String → Server → Type 0
  HasRow req user_id s =
      (hash : List ℕ) × IsHash req hash × HasUser (trim_space req.login) (row_of req hash user_id) s

  hashed :
      (req : RegisterInput) (e : Error)
      → Ensures Any (found (svc.hash req.password) e) (λ hash _. IsHash req hash)
  hashed req e = record { after = λ s p a k. ground arith }

  stored :
      (req : RegisterInput) (hash : List ℕ) (user_id : String) (d : Device) (n : Session)
      → Ensures
          (λ _. IsHash req hash)
          (register_with_session (row_of req hash user_id) d n)
          (λ _. HasRow req user_id)
  stored req hash user_id d n = record {
    after = λ s p a e. (hash, p, (registered (row_of req hash user_id) d n).after s tt a e);
  }

  issued :
      (req : RegisterInput) (user_id device_id : String)
      → Keeps (HasRow req user_id) (issue_access_token svc.jwt user_id device_id svc.access_ttl)
  issued req user_id device_id = record {
    at = λ s (hash, p, k).
        (hash, p, (Keeps-issue (kept _ (row_of req hash user_id)) svc.jwt _ _ _).at s k);
  }

  register-HasRow :
      (req : RegisterInput) → Ensures Any (register svc req) (λ out. HasRow req out.user_id)
  unfolding register
  register-HasRow req = Ensures-bind _ _ (Ensures-Any _) λ _.
      Ensures-bind _ _ (hashed req _) λ hash. Ensures-bind _ _ (Ensures-fact _) λ user_id.
        Ensures-bind _ _ (Ensures-fact _) λ device_id. Ensures-bind _ _ (Ensures-fact _) λ token.
          Ensures-bind _ _ (Ensures-fact _) λ session.
            Ensures-bind _ _ (stored req hash user_id _ _) λ _.
              Ensures-bind _ _ (Ensures-Keeps _ (issued req user_id _))
                λ access. Ensures-returns _ (λ s k. k)

  queried : (l : String) (u : User) → Ensures (HasUser l u) (get_by_login l) (λ v _. u ≡ v)
  unfolding get_by_login call ◌>>=◌
  queried l u = record { after = λ s p v e. ground arith }

  -- What a login returns of a user: all but its own tokens is of the row.
  abbrev Returned : LoginInput → User → LoginOutput → Type 0
  Returned input u out =
      (svc.compare u.password_hash input.password ≡ true)
      × (out ≡ login_output u out.device_id out.access_token out.refresh_token)

  compared :
      (input : LoginInput) (u v : User) (e : Error)
      → Ensures
          (λ _. u ≡ v)
          (guard (svc.compare v.password_hash input.password) e)
          (λ _ _. (u ≡ v) × (svc.compare v.password_hash input.password ≡ true))
  compared input u v e = record { after = λ s p a k. (p, ground arith) }

  returned :
      (input : LoginInput) (u v : User) (d access refresh : String)
      → (u ≡ v) × (svc.compare v.password_hash input.password ≡ true)
      → Returned input u (login_output v d access refresh)
  returned input u v d access refresh (same, right) = rw same (right, refl)

  login-Returned :
      (input : LoginInput) (u : User)
      → Ensures
          (HasUser (trim_space input.login) u)
          (login svc input)
          (λ out _. Returned input u out)
  unfolding login
  login-Returned input u = Ensures-bind _ _ (Ensures-Keeps _ (Keeps-guard _ _)) λ _.
      Ensures-bind _ _ (queried (trim_space input.login) u) λ v.
        Ensures-bind _ _ (compared input u v _) λ _. Ensures-bind _ _ (Ensures-fact _) λ device_id.
          Ensures-bind _ _ (Ensures-fact _) λ token. Ensures-bind _ _ (Ensures-fact _) λ session.
            Ensures-bind _ _ (Ensures-fact _) λ _.
              Ensures-bind _ _ (Ensures-fact _)
                λ access. Ensures-returns _ (λ s. returned input u v device_id access token)

  register_served :
      (req : RegisterInput) → Ensures Any (handle_register svc req) (λ out. HasRow req out.user_id)
  unfolding handle_register
  register_served req =
      Ensures-on_error _ _ (register-HasRow (record req { platform = to_int16 req.platform }))

  login_served :
      (req : LoginInput) (u : User)
      → Ensures
          (HasUser (trim_space req.login) u)
          (handle_login svc req)
          (λ back _. Returned req u back)
  unfolding handle_login
  login_served req u =
      Ensures-on_error _ _ (login-Returned (record req { platform = to_int16 req.platform }) u)

  -- After a registration that succeeded, and any calls of the authentication and device APIs, a login
  -- with that login succeeds only with a password that the stored hash of the registered one matches,
  -- and returns the registered user's identifier, key parameters and wrapped vault key as they were
  -- given.
  pub login_returns :
      (req : RegisterInput) (s : Server) (out : RegisterOutput)
      → (handle_register svc req s).0 ≡ ok out
      → (cs : List AuthCall) (again : LoginInput) (back : LoginOutput)
      → trim_space again.login ≡ trim_space req.login
      → (handle_login svc again (serve_all svc cs (handle_register svc req s).1)).0 ≡ ok back
      → (hash : List ℕ) × (svc.hash req.password ≡ some hash)
        × (svc.compare hash again.password ≡ true)
        × (back
            ≡ login_output
                (new_user out.user_id (trim_space req.login) hash req)
                back.device_id
                back.access_token
                back.refresh_token)
  login_returns req s out ran cs again back same h =
      let (hash, hashed_to, row) = (register_served req).after s tt out ran in
      let l = trim_space req.login in
      let u = row_of req hash out.user_id in
      let still = serve_all_kept (kept l u) svc cs (handle_register svc req s).1 row in
      let (right, returns) = (login_served again u).after _ (rw same still) back h in
      (hash, hashed_to, right, returns)
