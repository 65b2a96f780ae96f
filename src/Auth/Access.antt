-- ===== src/Auth/Access.antt =====
-- Access tokens: IssueAccessToken of internal/server/auth/jwt.go, and interceptor_auth.go of
-- internal/server/grpcserver. The JWT library is the signer and the parser of `Jwt`.
use goph_keeper.Common.{
  ℕ, ◌+◌, ◌/◌, String, Bool, true, false, ◌||◌, Option, none, some, List, [], ◌∷◌, if◌then◌else◌,
  str_eq,
}
use goph_keeper.Common.Text.{trim_space, drop_prefix_fold}
use goph_keeper.Server.Error.{status, unauthenticated, signing_failure}
use goph_keeper.Server.Exec.{Exec, ◌>>=◌, raise, found, now}

-- The claims that the code writes and reads; a claim that is no text is missing.
pub record Claims : Type 0 where
  pub sub : Option String
  pub device_id : Option String
  pub iat : ℕ
  pub exp : ℕ

-- The library: `sign` is SignedString with HS256 and the secret; `parse` is jwt.Parse, with the methods
-- for which the key function returns the secret, at a time in microseconds, and gives the claims and
-- whether the token is valid.
pub record Jwt : Type 0 where
  pub sign : Claims → Option String
  pub parse : (String → Bool) → ℕ → String → Option (Claims × Bool)

-- t.Unix(), of a time in microseconds
abbrev pub unix : ℕ → ℕ
unix at = at / 1000000

unfoldable pub issue_access_token : Jwt → String → String → ℕ → Exec String
issue_access_token jwt user_id device_id ttl = do
  at ← now
  found
      (jwt.sign (record {
        sub = some user_id;
        device_id = some device_id;
        iat = unix at;
        exp = unix (at + ttl);
      }))
      signing_failure

-- the two claims, both not blank
abbrev text_or_empty : Option String → String
text_or_empty none = ""
text_or_empty (some t) = t

abbrev required_claims : String → String → Option (String × String)
required_claims user_id device_id =
    if str_eq (trim_space user_id) "" || str_eq (trim_space device_id) ""
    then none
    else some (user_id, device_id)

abbrev claims_of : Option (Claims × Bool) → Option (String × String)
claims_of none = none
claims_of (some (c, valid)) =
    if valid then required_claims (text_or_empty c.sub) (text_or_empty c.device_id) else none

-- t.Method.Alg() == jwt.SigningMethodHS256.Alg()
abbrev pub is_hs256 : String → Bool
is_hs256 alg = str_eq alg "HS256"

unfoldable pub parse_access_token : Jwt → ℕ → String → Option (String × String)
parse_access_token jwt at token = claims_of (jwt.parse is_hs256 at token)

-- strings.HasPrefix(strings.ToLower(raw), "bearer "), and what follows those seven bytes
abbrev not_blank : String → Option String
not_blank t = if str_eq t "" then none else some t

abbrev after_scheme : Option String → Option String
after_scheme none = none
after_scheme (some rest) = not_blank (trim_space rest)

-- The values of the header "authorization"; `none` is a call without metadata.
unfoldable pub bearer_token_from_metadata : Option (List String) → Option String
bearer_token_from_metadata none = none
bearer_token_from_metadata (some []) = none
bearer_token_from_metadata (some (value ∷ values)) =
    after_scheme (drop_prefix_fold "bearer " (trim_space value))

abbrev pub public_methods : List String
public_methods =
    "/gophkeeper.v1.AuthService/Register" ∷ "/gophkeeper.v1.AuthService/Login"
    ∷ "/gophkeeper.v1.AuthService/Refresh" ∷ "/gophkeeper.v1.HealthService/Check"
    ∷ "/grpc.health.v1.Health/Check" ∷ []

abbrev pub contains : List String → String → Bool
contains [] t = false
contains (x ∷ xs) t = if str_eq x t then true else contains xs t

-- UserIDFromContext, after WithAuthContext
abbrev pub context_user : Option (String × String) → Option String
context_user none = none
context_user (some (user_id, device_id)) = if str_eq user_id "" then none else some user_id

-- What the unary and the stream interceptor do with the token, before the handler gets the user of
-- the context. `jwt.Parse` reads the clock.
enter : {A : Type 0} → Option (String × String) → (Option String → Exec A) → Exec A
enter none handler = raise (status unauthenticated)
enter (some ids) handler = handler (context_user (some ids))

with_token : {A : Type 0} → Jwt → Option String → (Option String → Exec A) → Exec A
with_token jwt none handler s = raise (status unauthenticated) s
with_token jwt (some token) handler s =
    enter (parse_access_token jwt (s.env.times s.env.reads) token) handler (now s).1

unfoldable pub authenticated :
    {A : Type 0} → Jwt → String → Option (List String) → (Option String → Exec A) → Exec A
unfolding with_token enter bearer_token_from_metadata parse_access_token now
authenticated jwt method metadata handler =
    if contains public_methods method
    then handler none
    else with_token jwt (bearer_token_from_metadata metadata) handler
