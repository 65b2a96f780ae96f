-- ===== src/Client/Unlocked.antt =====
-- The key of the user's data: what Register, Login and Unlock make of it.
use goph_keeper.Common.{
  ℕ, String, true, false, ◌≡◌, ◌∙◌, refl, sym, ap, subst, some, List, [], Bool-cases, inl, inr,
  arith, length, ◌==◌, ==_iff,
}
use goph_keeper.Client.Types.{AuthState}
use goph_keeper.Client.Run.{
  Result, ok, err, Exec, ◌>>=◌, guard, invalid_key_size, invalid_nonce_size, invalid_password,
  on_error,
}
use goph_keeper.Client.Steps.{Returns, guard_passed, in_steps, found-some, on_error_inner}
use goph_keeper.Client.Storage.{Storage, save, load, call, read}
use goph_keeper.Client.App.{
  App, Remote, RegisterResponse, LoginResponse, stored, remote, read_random,
}
use goph_keeper.Client.Crypto.{
  key_size, nonce_size, Library, encrypt, decrypt, derive_key, generate_salt,
}
use goph_keeper.Client.Vault.{unlock}
use goph_keeper.Client.Auth.{
  Machine, register, login, register_request, login_request, registered_state, login_state,
  signed_in,
}
use goph_keeper.Client.Sealed.{FillsSlices, IsSealed, drew, read_random_drawn, encrypt-IsSealed}
use goph_keeper.Client.Added.{stored_Returns}

save_leaves :
    (auth : AuthState) (s : Storage) (u : Unit {0}) (s' : Storage)
    → Returns (save auth) s u s'
    → s'.tables ≡ record s.tables { auth_state = some auth }
unfolding save call ◌>>=◌
save_leaves auth s u s' h = ground arith

saved_from :
    (s t s' : Storage) (x y : AuthState)
    → s ≡ t
    → y ≡ x
    → s'.tables ≡ record s.tables { auth_state = some x }
    → s'.tables ≡ record t.tables { auth_state = some y }
saved_from s t s' x y e f h = rw f (rw e at h)

module _ (lib : Library) (key nonce ciphertext dek : List ℕ) where
  -- A ciphertext decrypts to a key.
  abbrev pub Opens : Type 0
  Opens =
      (length key ≡ key_size)
      × (length nonce ≡ nonce_size)
      × (lib.open_sealed key nonce ciphertext ≡ some dek)

  decrypt-Opens :
      {S : Type 0} (s s' : S)
      → Returns (decrypt lib key nonce ciphertext) s dek s'
      → Opens × (s' ≡ s)
  unfolding decrypt
  decrypt-Opens s s' h =
      in_steps (guard (length key == key_size) invalid_key_size) _ s dek s' h λ u a h1 k1.
        in_steps (guard (length nonce == nonce_size) invalid_nonce_size) _ a dek s' k1 λ v b h2 k2.
          let (c1, e1) = guard_passed _ _ s u a h1 in
          let (c2, e2) = guard_passed _ _ a v b h2 in
          let (found, e3) = found-some _ _ b dek s' k2 in
          (
            ((==_iff (length key) key_size).0 c1, (==_iff (length nonce) nonce_size).0 c2, found),
            e3 ∙ e2 ∙ e1,
          )

  Opens-decrypt : {S : Type 0} (s : S) → Opens → decrypt lib key nonce ciphertext s ≡ (ok dek, s)
  unfolding decrypt ◌>>=◌
  Opens-decrypt s (a, b, c) =
      let d : (length key == key_size) ≡ true = ground (arith, a) in
      let e : (length nonce == nonce_size) ≡ true = ground (arith, b) in rw (d, e, c) refl

module _ {R : Type 0} where
  pub remote_Returns :
      {A : Type 0} (m : Exec R A) (a : App R) (v : A) (a' : App R)
      → Returns (remote m) a v a'
      → Returns m a.client v a'.client × (a' ≡ record a { client = a'.client })
  unfolding remote
  remote_Returns {A = A} m a v a' h =
      let e = ap (λ (r : Result A × App R). r.0) h in
      let k = ap (λ (r : Result A × App R). r.1) h in
      let left = ap (λ (b : App R). b.client) k in
      (cc, sym k ∙ ap (λ t. record a { client = t }) left)

  signed_in_Returns :
      (lib : Library) (server : Remote R) (m : Machine) (dek : List ℕ) (auth : AuthState)
      (a : App R) (u : Unit {0}) (a' : App R)
      → Returns (signed_in lib server m dek auth) a u a'
      → Returns (save auth) a.local_storage u a'.local_storage
        × (a' ≡ record a { dek = dek; auth_state = auth; local_storage = a'.local_storage })
  unfolding ◌>>=◌
  signed_in_Returns lib server m dek auth a u a' h =
      stored_Returns (save auth) (record a { dek = dek; auth_state = auth }) u a' h

  -- What a Register that succeeds has sent and left.
  pub record Registered (lib : Library) (server : Remote R) (m : Machine) (name password : String)
      (a a' : App R) : Type 0 where
    pub salt : List ℕ
    pub nonce : List ℕ
    pub enc_dek : List ℕ
    pub user_id : String
    pub resp : RegisterResponse
    pub named : resp.user ≡ some user_id
    pub sealed : IsSealed lib (derive_key lib password salt) a'.dek nonce enc_dek
    pub sent :
        Returns
          (server.register (register_request m name password salt enc_dek nonce))
          a.client
          resp
          a'.client
    pub state : a'.auth_state ≡ registered_state user_id resp
    pub saved :
        a'.local_storage.tables ≡ record a.local_storage.tables { auth_state = some a'.auth_state }

  pub register-Registered :
      (lib : Library) (server : Remote R) (m : Machine) (name password : String) (a a' : App R)
      → FillsSlices a.random
      → Returns (register lib server m name password) a tt a'
      → Registered lib server m name password a a'
  unfolding register generate_salt
  register-Registered lib server m name password a a' fills h =
      in_steps (read_random 16) _ a tt a' h λ salt a1 h1 k1.
        in_steps (read_random 32) _ a1 tt a' k1 λ dek a2 h2 k2.
          in_steps (encrypt lib (derive_key lib password salt) dek) _ a2 tt a' k2 λ sealed a3 h3 k3.
            in_steps
              (remote (server.register (register_request m name password salt sealed.1 sealed.0))) _
              a3 tt a' k3
              λ resp a4 h4 k4. in_steps _ _ a4 tt a' k4 λ user_id a5 h5 k5.
                let (_, d1) = read_random_drawn 16 a salt a1 h1 in
                let (_, d2) = read_random_drawn 32 a1 dek a2 h2 in
                let (is_sealed, d3) =
                  encrypt-IsSealed lib (derive_key lib password salt) dek a2 sealed a3
                    (rw (d2, d1) fills) h3 in
                let (sent, d4) = remote_Returns (server.register _) a3 resp a4 h4 in
                let (named, d5) = found-some resp.user _ a4 user_id a5 h5 in
                let (kept, d6) =
                  signed_in_Returns lib server m dek (registered_state user_id resp) a5 tt a' k5 in
                let before : a3 ≡ drew (drew (drew a)) = d3 ∙ ap drew (d2 ∙ ap drew d1) in
                let client : a4.client ≡ a'.client =
                  sym (ap (λ (b : App R). b.client) d6 ∙ ap (λ (b : App R). b.client) d5) in
                let from : a3.client ≡ a.client = ap (λ (b : App R). b.client) before in
                let storage : a5.local_storage ≡ a.local_storage =
                  ap (λ (b : App R). b.local_storage) d5
                  ∙ ap (λ (b : App R). b.local_storage) d4
                  ∙ ap (λ (b : App R). b.local_storage) before in
                let key : dek ≡ a'.dek = sym (ap (λ (b : App R). b.dek) d6) in
                record {
                  salt = salt;
                  nonce = sealed.0;
                  enc_dek = sealed.1;
                  user_id = user_id;
                  resp = resp;
                  named = named;
                  sealed =
                      subst (λ k. IsSealed lib (derive_key lib password salt) k sealed.0 sealed.1)
                        key is_sealed;
                  sent =
                      subst
                        (λ c.
                          Returns
                            (server.register
                              (register_request m name password salt sealed.1 sealed.0))
                            c resp a'.client)
                        from
                        (subst
                          (λ c.
                            Returns
                              (server.register
                                (register_request m name password salt sealed.1 sealed.0))
                              a3.client resp c)
                          client sent);
                  state = ap (λ (b : App R). b.auth_state) d6;
                  saved =
                      saved_from a5.local_storage a.local_storage a'.local_storage _ _ storage
                        (ap (λ (b : App R). b.auth_state) d6)
                        (save_leaves _ a5.local_storage tt a'.local_storage kept);
                }

  -- What a Login that succeeds has received and left.
  pub record LoggedIn (lib : Library) (server : Remote R) (m : Machine) (name password : String)
      (a a' : App R) : Type 0 where
    pub user_id : String
    pub resp : LoginResponse
    pub named : resp.user ≡ some user_id
    pub sent : Returns (server.login (login_request m name password)) a.client resp a'.client
    pub opened :
        Opens lib
          (derive_key lib password resp.password_salt)
          resp.encrypted_vault_key_nonce
          resp.encrypted_vault_key
          a'.dek
    pub state : a'.auth_state ≡ login_state user_id resp
    pub saved :
        a'.local_storage.tables ≡ record a.local_storage.tables { auth_state = some a'.auth_state }

  pub login-LoggedIn :
      (lib : Library) (server : Remote R) (m : Machine) (name password : String) (a a' : App R)
      → Returns (login lib server m name password) a tt a'
      → LoggedIn lib server m name password a a'
  unfolding login
  login-LoggedIn lib server m name password a a' h =
      in_steps (remote (server.login (login_request m name password))) _ a tt a' h λ resp a1 h1 k1.
        in_steps (on_error _ _) _ a1 tt a' k1 λ dek a2 h2 k2.
          in_steps _ _ a2 tt a' k2 λ user_id a3 h3 k3.
            let (sent, d1) = remote_Returns (server.login _) a resp a1 h1 in
            let opened = on_error_inner _ invalid_password a1 dek a2 h2 in
            let (named, d3) = found-some resp.user _ a2 user_id a3 h3 in
            let (kept, d4) =
              signed_in_Returns lib server m dek (login_state user_id resp) a3 tt a' k3 in
            let (opens, d2) = decrypt-Opens lib _ _ _ dek a1 a2 opened in
            let client : a1.client ≡ a'.client = sym (
              ap (λ (b : App R). b.client) d4
              ∙ ap (λ (b : App R). b.client) d3
              ∙ ap (λ (b : App R). b.client) d2) in
            let storage : a3.local_storage ≡ a.local_storage =
              ap (λ (b : App R). b.local_storage) d3
              ∙ ap (λ (b : App R). b.local_storage) d2
              ∙ ap (λ (b : App R). b.local_storage) d1 in
            record {
              user_id = user_id;
              resp = resp;
              named = named;
              sent =
                  subst
                    (λ c. Returns (server.login (login_request m name password)) a.client resp c)
                    client sent;
              opened =
                  subst
                    (Opens lib (derive_key lib password resp.password_salt)
                      resp.encrypted_vault_key_nonce resp.encrypted_vault_key)
                    (sym (ap (λ (b : App R). b.dek) d4)) opens;
              state = ap (λ (b : App R). b.auth_state) d4;
              saved =
                  saved_from a3.local_storage a.local_storage a'.local_storage _ _ storage
                    (ap (λ (b : App R). b.auth_state) d4)
                    (save_leaves _ a3.local_storage tt a'.local_storage kept);
            }

  unlock_tries :
      (lib : Library) (password : String) (b : App R) (auth : AuthState)
      → b.local_storage.fault b.local_storage.calls ≡ false
      → b.local_storage.tables.auth_state ≡ some auth
      → (dek : List ℕ)
      → Opens lib
          (derive_key lib password auth.password_salt)
          auth.encrypted_dek_nonce
          auth.encrypted_dek
          dek
      → ((unlock lib password b).0 ≡ ok tt) × ((unlock lib password b).1.dek ≡ dek)
  unfolding unlock ◌>>=◌ stored load call read on_error decrypt
  unlock_tries lib password b auth quiet there dek (sized, nonce_sized, opens) =
      let key = derive_key lib password auth.password_salt in
      let d : (length key == key_size) ≡ true = ground (arith, sized) in
      let e : (length auth.encrypted_dek_nonce == nonce_size) ≡ true =
        ground (arith, nonce_sized) in
      rw (quiet, there, d, e, opens) (refl, refl)

-- After a Login that succeeded, an Unlock with the same password, by any later process on the storage that
-- it left, succeeds and has the same key, where its query does not fail.
pub login-unlock :
    {R : Type 0} (lib : Library) (server : Remote R) (m : Machine) (name password : String)
    (a a' b : App R)
    → Returns (login lib server m name password) a tt a'
    → b.local_storage ≡ a'.local_storage
    → b.local_storage.fault b.local_storage.calls ≡ false
    → ((unlock lib password b).0 ≡ ok tt) × ((unlock lib password b).1.dek ≡ a'.dek)
login-unlock lib server m name password a a' b h same quiet =
    let l = login-LoggedIn lib server m name password a a' h in
    let there : b.local_storage.tables.auth_state ≡ some (login_state l.user_id l.resp) =
      rw (same, l.saved, l.state) refl in
    unlock_tries lib password b (login_state l.user_id l.resp) quiet there a'.dek l.opened

-- After a Register that succeeded, an Unlock on the storage that it left fails, whatever the password.
pub register-unlock :
    {R : Type 0} (lib : Library) (server : Remote R) (m : Machine) (name password guess : String)
    (a a' b : App R)
    → FillsSlices a.random
    → Returns (register lib server m name password) a tt a'
    → b.local_storage ≡ a'.local_storage
    → b.local_storage.fault b.local_storage.calls ≡ false
    → (unlock lib guess b).0 ≡ err invalid_password
unfolding unlock ◌>>=◌ stored load call read on_error decrypt
register-unlock lib server m name password guess a a' b fills h same quiet =
    let r = register-Registered lib server m name password a a' fills h in
    let there : b.local_storage.tables.auth_state ≡ some (registered_state r.user_id r.resp) =
      rw (same, r.saved, r.state) refl in
    elim (Bool-cases (length (derive_key lib guess []) == key_size)) [
      | inl c ↦ rw (quiet, there, c) refl
      | inr c ↦ rw (quiet, there, c) refl
    ]
