-- ===== src/Auth/Spent.antt =====
-- A refresh token that has been revoked, by a rotation, a logout or the revocation of its device,
-- keeps its row, and is never accepted again.
pub mod Rotation
pub mod Runs
use goph_keeper.Common.{
  ℕ, ◌+◌, String, Bool, true, false, ◌&&◌, ◌||◌, not, ◌≡◌, refl, sym, ap, ◌∙◌, ◌≢◌, Option, none,
  some, List, [], ◌∷◌, arith, str_eq, eq_iff, if◌then◌else◌, Bool-cases, inl, inr, and-left,
  and-right,
}
use goph_keeper.Common.Table.{is_null, find?, exists?, update_where}
use goph_keeper.Common.Rows.{exists?-update_where}
use goph_keeper.Common.Bytes.{bytes_equal, bytes_equal_refl, bytes_equal_eq}
use goph_keeper.Server.Error.{Error, Result, ok, err, err_unauthorized}
use goph_keeper.Server.State.{Server}
use goph_keeper.Server.Exec.{Exec, found, guard, ◌>>=◌, call, now, new_uuid}
use goph_keeper.Server.Keeps.{
  Keeps, Keeps-pure, Keeps-raise, Keeps-found, Keeps-guard, Keeps-bind, Keeps-catch, Keeps-if,
  Keeps-ignore,
}
use goph_keeper.Server.Ensures.{
  Ensures, Any, Ensures-bind, Ensures-Keeps, Ensures-Any, Ensures-transaction,
}
use goph_keeper.Server.Frame.{IsFramed, Keeps-call, Keeps-now, Keeps-new_uuid, Keeps-transaction}
use goph_keeper.Auth.Types.{
  DeviceRecord, User, Device, Session, RefreshRow, RegisterInput, LoginInput, RefreshInput,
}
use goph_keeper.Auth.Repository.{
  has_hash, rotatable, revoke_row, insert_user, upsert_device, insert_session, revoke_where,
  revoke_by_hash, get_by_login, register_with_session, login_with_device_and_session,
  rotate_refresh, list_devices_by_user, revoke_device_row, revoke_device_for_user, live_hash,
  live_token_of,
}
use goph_keeper.Auth.Frame.{KeptByStatements}
use goph_keeper.Auth.Access.{Jwt, issue_access_token}
use goph_keeper.Auth.Service.{
  AuthService, new_refresh_token, given_or_new, new_session, register, login, refresh, logout,
}

-- A token's hash is stored, and no row of it is live.
abbrev pub Spent : List ℕ → Server → Type 0
Spent h s =
    (exists? (live_hash h) s.refresh_tokens ≡ false)
    × (exists? (has_hash h) s.refresh_tokens ≡ true)

-- A hash that is stored is taken.
hash_taken :
    (h : List ℕ) (n : Session) (rows : List RefreshRow)
    → exists? (has_hash h) rows ≡ true
    → bytes_equal n.token_hash h ≡ true
    → exists? (λ x. str_eq x.token_id n.token_id || bytes_equal x.token_hash n.token_hash) rows
      ≡ true
unfolding exists?
hash_taken h n [] e k = absurd cc
hash_taken h n (x ∷ rows) e k =
    rw (bytes_equal_eq n.token_hash h k) (ground (arith, hash_taken h n rows))

-- A revocation leaves no more live rows of a hash, and none of those that it is about.
revoked-live :
    (h : List ℕ) (p : RefreshRow → Bool) (at : ℕ) (rows : List RefreshRow)
    → exists? (live_hash h) rows ≡ false
    → exists? (live_hash h) (update_where p (revoke_row at) rows) ≡ false
unfolding exists? update_where
revoked-live h p at [] e = refl
revoked-live h p at (x ∷ rows) e = ground (arith, revoked-live h p at rows)

pub revoked-none_live :
    (h : List ℕ) (at : ℕ) (rows : List RefreshRow)
    → exists? (live_hash h) (update_where (live_hash h) (revoke_row at) rows) ≡ false
unfolding exists? update_where
revoked-none_live h at [] = refl
revoked-none_live h at (x ∷ rows) = ground (arith, revoked-none_live h at rows)

module _ (h : List ℕ) where
  pub framed : IsFramed (Spent h)
  framed = record { env = λ s e k. k; back = λ s t k l. k }

  pub insert_session-Spent : (n : Session) → Keeps (Spent h) (insert_session n)
  unfolding insert_session call now ◌>>=◌ exists?
  insert_session-Spent n = record {
    at = λ s k. ground (arith, hash_taken h n s.refresh_tokens k.1);
  }

  insert_user-Spent : (u : User) → Keeps (Spent h) (insert_user u)
  unfolding insert_user call ◌>>=◌
  insert_user-Spent u = record { at = λ s k. ground arith }

  upsert_device-Spent : (d : Device) → Keeps (Spent h) (upsert_device d)
  unfolding upsert_device call now ◌>>=◌
  upsert_device-Spent d = record { at = λ s k. ground arith }

  revoke_where-Spent : (p : RefreshRow → Bool) → Keeps (Spent h) (revoke_where p)
  unfolding revoke_where call now ◌>>=◌
  revoke_where-Spent p = record {
    at = λ s k. ground (
      arith,
      revoked-live h p (s.env.times s.env.reads) s.refresh_tokens,
      exists?-update_where (has_hash h) p (revoke_row (s.env.times s.env.reads)) (λ x. refl)
          s.refresh_tokens,
    );
  }

  revoke_device_row-Spent : (v d : String) → Keeps (Spent h) (revoke_device_row v d)
  unfolding revoke_device_row call now ◌>>=◌
  revoke_device_row-Spent v d = record { at = λ s k. ground arith }

  pub KeptByStatements-Spent : KeptByStatements (Spent h)
  KeptByStatements-Spent = record {
    framed = framed;
    inserts_user = insert_user-Spent;
    upserts_device = upsert_device-Spent;
    inserts_session = insert_session-Spent;
    revokes = revoke_where-Spent;
    revokes_row = revoke_device_row-Spent;
  }
