-- ===== src/Auth/Revoked.antt =====
-- Logout and the revocation of a device: what a success leaves.
use goph_keeper.Common.{
  ℕ, String, Bool, true, false, ◌≡◌, refl, some, List, [], ◌∷◌, arith, if◌then◌else◌,
}
use goph_keeper.Common.Table.{exists?}
use goph_keeper.Common.Rows.{exists?-update_where, exists?-update_none}
use goph_keeper.Common.Text.{trim_space}
use goph_keeper.Server.Error.{ok, status, unauthenticated}
use goph_keeper.Server.State.{Server}
use goph_keeper.Server.Exec.{◌>>=◌, call, now, catch, pure, raise}
use goph_keeper.Server.Keeps.{Keeps-guard}
use goph_keeper.Server.Ensures.{
  Ensures, Any, Ensures-bind, Ensures-found, Ensures-Keeps, Ensures-Any, Ensures-transaction,
  Ensures-on_error, Ensures-returns,
}
use goph_keeper.Auth.Types.{DeviceRecord, RefreshInput, RefreshOutput}
use goph_keeper.Auth.Repository.{
  has_hash, live_hash, revoke_row, revoke_where, revoke_by_hash, revoke_device_row,
  revoke_device_for_user, device_known, user_device, live_device, live_token_of,
}
use goph_keeper.Auth.Service.{AuthService, logout, is_unauthorized}
use goph_keeper.Auth.Handler.{handle_logout, handle_refresh}
use goph_keeper.Auth.Devices.{revoke_device, revoke_error}
use goph_keeper.Auth.Frame.{AuthCall, serve_all}
use goph_keeper.Auth.Spent.{Spent, revoked-none_live}
use goph_keeper.Auth.Spent.Rotation.{HasHash}
use goph_keeper.Auth.Spent.Runs.{stays_refused}

-- A device that is revoked: its row is there and not live.
abbrev IsRevoked : String → String → Server → Type 0
IsRevoked user_id device_id s =
    (exists? (user_device user_id device_id) s.devices ≡ true)
    × (exists? (live_device user_id device_id) s.devices ≡ false)

-- A live device is a device.
live-user_device :
    (u d : String) (rows : List DeviceRecord)
    → exists? (live_device u d) rows ≡ true
    → exists? (user_device u d) rows ≡ true
unfolding exists?
live-user_device u d [] e = absurd cc
live-user_device u d (x ∷ rows) e = ground (arith, live-user_device u d rows)

module _ (u d : String) where
  -- what the first statement leaves
  abbrev RowRevoked : Bool → Server → Type 0
  RowRevoked met s =
      (exists? (live_device u d) s.devices ≡ false)
      × (met ≡ true → exists? (user_device u d) s.devices ≡ true)

  row_revoked : Ensures Any (revoke_device_row u d) RowRevoked
  unfolding revoke_device_row call now ◌>>=◌
  row_revoked = record {
    after = λ s p met e.
        let change : DeviceRecord → DeviceRecord =
          λ r. record r { revoked_at = some (s.env.times s.env.reads) } in
        ground (
          arith,
          exists?-update_none (live_device u d) change (λ r. ground arith) s.devices,
          exists?-update_where (user_device u d) (live_device u d) change (λ r. refl) s.devices,
          live-user_device u d s.devices,
        );
  }

  -- and no refresh token of it is live
  abbrev DeviceRevoked : Server → Type 0
  DeviceRevoked s = IsRevoked u d s × (exists? (live_token_of u d) s.refresh_tokens ≡ false)

  revoke_where-DeviceRevoked :
      Ensures (IsRevoked u d) (revoke_where (live_token_of u d)) (λ _. DeviceRevoked)
  unfolding revoke_where call now ◌>>=◌
  revoke_where-DeviceRevoked = record {
    after = λ s p n e. ground (
      arith,
      p,
      exists?-update_none (live_token_of u d) (revoke_row (s.env.times s.env.reads))
          (λ r. ground arith) s.refresh_tokens,
    );
  }

  known : (met : Bool) → Ensures (RowRevoked met) (device_known u d met) (λ _. IsRevoked u d)
  unfolding call ◌>>=◌
  known met = record { after = λ s p a e. ground (arith, p) }

  revoked : Ensures Any (revoke_device_for_user u d) (λ _. DeviceRevoked)
  unfolding revoke_device_for_user
  revoked =
      Ensures-transaction _ (λ s p. tt) (λ a s t same k. rw same k)
        (Ensures-bind _ _ row_revoked λ met.
          Ensures-bind _ _ (known met) λ _.
            Ensures-bind _ _ revoke_where-DeviceRevoked λ affected. Ensures-returns _ (λ s k. k))

device_revoked :
    (user_id device_id : String)
    → Ensures Any
        (revoke_device (some user_id) device_id)
        (λ _. DeviceRevoked user_id (trim_space device_id))
unfolding revoke_device
device_revoked user_id device_id = Ensures-found user_id (status unauthenticated) _ (
    Ensures-bind _ _ (Ensures-Any _) λ _.
      Ensures-bind _ _ (Ensures-on_error _ revoke_error (revoked user_id (trim_space device_id)))
        λ _. Ensures-returns true (λ s k. k))

-- A device revocation that succeeds found the device with this user, and leaves it revoked, with no
-- refresh token of it live.
pub revoke_device_revokes :
    (user_id device_id : String) (s : Server) (b : Bool)
    → (revoke_device (some user_id) device_id s).0 ≡ ok b
    → let after = (revoke_device (some user_id) device_id s).1 in
      let d = trim_space device_id in
      (exists? (user_device user_id d) after.devices ≡ true)
      × (exists? (live_device user_id d) after.devices ≡ false)
      × (exists? (live_token_of user_id d) after.refresh_tokens ≡ false)
revoke_device_revokes user_id device_id s b ran =
    let ((there, dead), tokens) = (device_revoked user_id device_id).after s tt b ran in
    (there, dead, tokens)

module _ (svc : AuthService) where
  revoked_by_hash :
      (h : List ℕ)
      → Ensures
          (HasHash h)
          (catch (revoke_by_hash h) λ e. if is_unauthorized e then pure tt else raise e)
          (λ _. Spent h)
  unfolding revoke_by_hash revoke_where call now ◌>>=◌ catch
  revoked_by_hash h = record {
    after = λ s p a e. ground (
      arith,
      revoked-none_live h (s.env.times s.env.reads) s.refresh_tokens,
      exists?-update_where (has_hash h) (live_hash h) (revoke_row (s.env.times s.env.reads))
          (λ x. refl) s.refresh_tokens,
    );
  }

  logged_out :
      (token : String)
      → Ensures
          (HasHash (svc.hash_token token))
          (handle_logout svc token)
          (λ _. Spent (svc.hash_token token))
  unfolding handle_logout logout
  logged_out token =
      Ensures-bind _ _
        (Ensures-on_error _ _
          (Ensures-bind _ _ (Ensures-Keeps _ (Keeps-guard _ _)) λ _. revoked_by_hash _))
        λ _. Ensures-returns _ (λ s k. k)

  -- After a logout that succeeded with a token that was stored, and any calls of the authentication and
  -- device APIs, no refresh with that token succeeds.
  pub logged_out_refused :
      (input : RefreshInput) (s : Server)
      → exists? (has_hash (svc.hash_token input.refresh_token)) s.refresh_tokens ≡ true
      → (b : Bool) → (handle_logout svc input.refresh_token s).0 ≡ ok b
      → (cs : List AuthCall) (out : RefreshOutput)
      → ¬ (
          (handle_refresh svc input
            (serve_all svc cs (handle_logout svc input.refresh_token s).1)).0
          ≡ ok out)
  logged_out_refused input s has b ran =
      stays_refused svc input _ ((logged_out input.refresh_token).after s has b ran)
