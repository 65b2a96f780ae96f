-- ===== src/Auth/Gate.antt =====
-- What the authentication interceptor lets through: a handler of a method that is not public runs only
-- for a bearer token that parses, and gets its user; a token that the server issued is such a token.
use goph_keeper.Common.{
  ℕ, ◌+◌, ◌<◌, String, true, false, ◌≡◌, refl, Option, some, List, arith, str_eq, ◌⊎◌, inl, inr,
  Option-cases,
}
use goph_keeper.Common.Text.{trim_space}
use goph_keeper.Server.Error.{ok, err, status, unauthenticated}
use goph_keeper.Server.State.{Server}
use goph_keeper.Server.Exec.{Exec, ◌>>=◌, now}
use goph_keeper.Auth.Access.{
  Claims, Jwt, unix, issue_access_token, parse_access_token, bearer_token_from_metadata,
  public_methods, contains, is_hs256, context_user, authenticated,
}

-- A handler of a method that is not public runs only on a call that brings a bearer token that parses
-- at the time of the call, and then with the user of the token's claims; every other call of such a
-- method is refused as unauthenticated, with no handler run and no table changed.
pub authenticated_needs_token :
    {A : Type 0} (jwt : Jwt) (method : String) (metadata : Option (List String))
    (handler : Option String → Exec A) (s : Server)
    → contains public_methods method ≡ false
    → ((token : String) × (ids : String × String) × (bearer_token_from_metadata metadata
          ≡ some token)
        × (parse_access_token jwt (s.env.times s.env.reads) token ≡ some ids)
        × (authenticated jwt method metadata handler s
            ≡ handler (context_user (some ids)) (now s).1))
      ⊎ (((authenticated jwt method metadata handler s).0 ≡ err (status unauthenticated))
          × ((authenticated jwt method metadata handler s).1.db ≡ s.db))
unfolding authenticated
authenticated_needs_token jwt method metadata handler s private =
    elim (Option-cases (bearer_token_from_metadata metadata)) [
      | inl e ↦ inr (rw (private, e) (refl, refl))
      | inr (token, e) ↦
          elim (Option-cases (parse_access_token jwt (s.env.times s.env.reads) token)) [
            | inl p ↦ inr (rw (private, e) (rw p (refl, refl)))
            | inr (ids, p) ↦ inl (token, ids, e, p, rw (private, e) (rw p refl))
          ]
    ]

-- A token that IssueAccessToken returned parses to its user and its device at every time before its
-- expiry, where the two identifiers are not blank and the library accepts, until then, the tokens that
-- it signed.
pub issued-parse_access_token :
    (jwt : Jwt)
    → ((c : Claims) (token : String) (at : ℕ)
        → jwt.sign c ≡ some token
        → unix at < c.exp
        → jwt.parse is_hs256 at token ≡ some (c, true))
    → (user_id device_id : String) (ttl : ℕ) (s : Server) (token : String)
    → str_eq (trim_space user_id) "" ≡ false
    → str_eq (trim_space device_id) "" ≡ false
    → (issue_access_token jwt user_id device_id ttl s).0 ≡ ok token
    → (at : ℕ) → unix at < unix (s.env.times s.env.reads + ttl)
    → parse_access_token jwt at token ≡ some (user_id, device_id)
unfolding issue_access_token parse_access_token now ◌>>=◌
issued-parse_access_token jwt law user_id device_id ttl s token u d signed at early =
    let issued_at = s.env.times s.env.reads in
    let claims : Claims = record {
      sub = some user_id;
      device_id = some device_id;
      iat = unix issued_at;
      exp = unix (issued_at + ttl);
    } in
    rw (law claims token at (ground (arith, signed)) early, u, d) refl
