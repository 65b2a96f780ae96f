-- ===== src/Client/Account.antt =====
-- An account on two machines, through one server.
use goph_keeper.Common.{ℕ, String, ◌≡◌, ◌∙◌, refl, sym, ap, subst, Option, some, List}
use goph_keeper.Server.Error.{Result as ServerResult, ok as server_ok, err as server_err}
use goph_keeper.Server.Exec.{Exec as ServerExec}
use goph_keeper.Auth.Handler.{handle_register, handle_login}
use goph_keeper.Auth.Frame.{AuthCall, serve_all}
use goph_keeper.Auth.Registered.{login_returns}
use goph_keeper.Client.Types.{AuthState}
use goph_keeper.Client.Run.{Result, ok}
use goph_keeper.Client.Steps.{Returns}
use goph_keeper.Client.App.{App, RegisterResponse, LoginResponse}
use goph_keeper.Client.Crypto.{Library, derive_key}
use goph_keeper.Client.Auth.{Machine, register, login, register_request, login_request}
use goph_keeper.Client.Sealed.{AeadLaw, FillsSlices, IsSealed}
use goph_keeper.Client.Link.{
  Handlers, Link, answer, rpc_call, register_response, login_response, connect,
}
use goph_keeper.Client.Unlocked.{register-Registered, login-LoggedIn, Opens}

-- What a call that succeeded was answered.
pub record Answered {A B : Type 0} (r : ServerResult A) (f : A → B) (v : B) : Type 0 where
  pub value : A
  pub was : r ≡ server_ok value
  pub is : v ≡ f value

answer_ok :
    {A B : Type 0} (r : ServerResult A) (f : A → B) (v : B) → answer f r ≡ ok v → Answered r f v
answer_ok (server_ok a) f v h = record { value = a; was = refl; is = cc }
answer_ok (server_err e) f v h = absurd cc

pub rpc_call-Answered :
    {A B : Type 0} (m : Option String → ServerExec A) (f : A → B) (l : Link) (v : B) (l' : Link)
    → Returns (rpc_call m f) l v l'
    → Answered (m l.user l.server).0 f v × (l' ≡ record l { server = (m l.user l.server).1 })
unfolding rpc_call
rpc_call-Answered {A} {B} m f l v l' h = (
  answer_ok (m l.user l.server).0 f v (ap (λ (r : Result B × Link). r.0) h),
  sym (ap (λ (r : Result B × Link). r.1) h),
)

pub some_injective : {A : Type 0} {a b : A} → ◌≡◌ {A = Option A} (some a) (some b) → a ≡ b
some_injective h = cc

Opens_same :
    (lib : Library) (password : String) {salt salt' nonce nonce' ct ct' dek : List ℕ}
    → salt ≡ salt'
    → nonce ≡ nonce'
    → ct ≡ ct'
    → Opens lib (derive_key lib password salt) nonce ct dek
    → Opens lib (derive_key lib password salt') nonce' ct' dek
Opens_same lib password e f g h = rw (e, f, g) at h

-- What was sealed opens to what was sealed.
opened_key :
    (lib : Library) (key nonce ct : List ℕ) {dek dek' : List ℕ}
    → AeadLaw lib
    → IsSealed lib key dek nonce ct
    → Opens lib key nonce ct dek'
    → dek' ≡ dek
opened_key lib key nonce ct law sealed (k, n, opens) =
    some_injective (sym (rw sealed.is_seal at opens) ∙ law.opens key nonce _ k n)

-- A user who has registered on one machine, and logs in on another with the same login and password,
-- after any authentication and device calls in between, has there the key and the user id of the first
-- machine, if the login succeeds; where the library's AEAD opens what it sealed and the generator fills
-- its slices.
pub register-login :
    (h : Handlers) (lib : Library)
    → AeadLaw lib
    → (m n : Machine) (name password : String) (a a' b b' : App Link) → FillsSlices a.random
    → Returns (register lib (connect h) m name password) a tt a'
    → (cs : List AuthCall) → b.client.server ≡ serve_all h.auth cs a'.client.server
    → Returns (login lib (connect h) n name password) b tt b'
    → (b'.dek ≡ a'.dek) × (b'.auth_state.user_id ≡ a'.auth_state.user_id)
unfolding connect
register-login h lib law m n name password a a' b b' fills first cs between second =
    let r = register-Registered lib (connect h) m name password a a' fills first in
    let l = login-LoggedIn lib (connect h) n name password b b' second in
    let req = register_request m name password r.salt r.enc_dek r.nonce in
    let (out, after) =
      rpc_call-Answered (λ _. handle_register h.auth req) register_response a.client r.resp
        a'.client r.sent in
    let (back, _) =
      rpc_call-Answered (λ _. handle_login h.auth (login_request n name password)) login_response
        b.client l.resp b'.client l.sent in
    let left : serve_all h.auth cs a'.client.server
        ≡ serve_all h.auth cs (handle_register h.auth req a.client.server).1 =
      ap (λ (k : Link). serve_all h.auth cs k.server) after in
    let again : (handle_login h.auth (login_request n name password)
          (serve_all h.auth cs (handle_register h.auth req a.client.server).1)).0
        ≡ server_ok back.value =
      subst (λ s. (handle_login h.auth (login_request n name password) s).0 ≡ server_ok back.value)
        (between ∙ left) back.was in
    let (hash, _, _, returned) =
      login_returns h.auth req a.client.server out.value out.was cs (login_request n name password)
        back.value refl again in
    let same = back.is ∙ ap login_response returned in
    let opened =
      Opens_same lib password (ap (λ (x : LoginResponse). x.password_salt) same)
        (ap (λ (x : LoginResponse). x.encrypted_vault_key_nonce) same)
        (ap (λ (x : LoginResponse). x.encrypted_vault_key) same) l.opened in
    let user : some l.user_id ≡ some r.user_id =
      sym l.named
      ∙ ap (λ (x : LoginResponse). x.user) same
      ∙ sym (ap (λ (x : RegisterResponse). x.user) out.is)
      ∙ r.named in
    (
      opened_key lib _ _ _ law r.sealed opened,
      ap (λ (x : AuthState). x.user_id) l.state
          ∙ some_injective user
          ∙ sym (ap (λ (x : AuthState). x.user_id) r.state),
    )
