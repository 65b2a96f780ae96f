-- ===== src/Auth/Spent/Runs.antt =====
-- A refresh token is used once: what a refresh that succeeded leaves, after any calls of the
-- authentication and device APIs.
use goph_keeper.Common.{String, ◌≡◌, List}
use goph_keeper.Server.Error.{ok}
use goph_keeper.Server.State.{Server}
use goph_keeper.Server.Keeps.{Keeps-bind, Keeps-pure, Keeps-guard}
use goph_keeper.Server.Frame.{Keeps-now, Keeps-new_uuid}
use goph_keeper.Server.Ensures.{
  Ensures, Any, Ensures-bind, Ensures-Keeps, Ensures-on_error, Ensures-Any,
}
use goph_keeper.Auth.Types.{RefreshInput, RefreshOutput}
use goph_keeper.Auth.Service.{AuthService, refresh}
use goph_keeper.Auth.Handler.{handle_refresh}
use goph_keeper.Auth.Frame.{
  AuthCall, serve_all, serve_all_kept, Keeps-issue, Keeps-new_refresh_token,
}
use goph_keeper.Auth.Spent.{Spent, framed, KeptByStatements-Spent}
use goph_keeper.Auth.Spent.Rotation.{rotate-spends, rotate-refused}

module _ (svc : AuthService) where
  -- A refresh that succeeds spends the token that it is given.
  refresh-spends :
      (input : RefreshInput)
      → Ensures Any (refresh svc input) (λ _. Spent (svc.hash_token input.refresh_token))
  unfolding refresh
  refresh-spends input =
      let h = svc.hash_token input.refresh_token in
      Ensures-bind _ _ (Ensures-Any _) λ _. Ensures-bind _ _ (Ensures-Any _) λ at.
        Ensures-bind _ _ (Ensures-Any _) λ fresh. Ensures-bind _ _ (Ensures-Any _) λ token_id.
          Ensures-bind _ _ (rotate-spends h _ at _) λ ids. Ensures-Keeps _ (
            Keeps-bind _ _ (Keeps-issue (KeptByStatements-Spent h) svc.jwt _ _ _) λ _. Keeps-pure _)

  -- A refresh with a spent token does not succeed.
  refresh-refused :
      (input : RefreshInput)
      → Ensures (Spent (svc.hash_token input.refresh_token)) (refresh svc input) (λ _ _. ⊥)
  unfolding refresh
  refresh-refused input =
      let h = svc.hash_token input.refresh_token in
      Ensures-bind _ _ (Ensures-Keeps _ (Keeps-guard _ _)) λ _.
        Ensures-bind _ _ (Ensures-Keeps _ (Keeps-now (framed h))) λ at.
          Ensures-bind _ _ (Ensures-Keeps _ (Keeps-new_refresh_token (KeptByStatements-Spent h)))
            λ fresh. Ensures-bind _ _ (Ensures-Keeps _ (Keeps-new_uuid (framed h))) λ token_id.
              Ensures-bind _ _ (rotate-refused h _ at _) λ ids. record { after = λ s p a k. p }

  handled :
      (input : RefreshInput) (P : Server → Type 0) (Q : Server → Type 0)
      → Ensures P (refresh svc input) (λ _. Q)
      → Ensures P (handle_refresh svc input) (λ _. Q)
  unfolding handle_refresh
  handled input P Q k = Ensures-on_error _ _ k

  -- A spent token stays refused.
  pub stays_refused :
      (input : RefreshInput) (s : Server)
      → Spent (svc.hash_token input.refresh_token) s
      → (cs : List AuthCall) (out : RefreshOutput)
      → ¬ ((handle_refresh svc input (serve_all svc cs s)).0 ≡ ok out)
  stays_refused input s spent cs out h =
      let token = svc.hash_token input.refresh_token in
      (handled input (Spent token) (λ _. ⊥) (refresh-refused input)).after _
        (serve_all_kept (KeptByStatements-Spent token) svc cs s spent) out h

  -- After a refresh that succeeded, and any calls of the authentication and device APIs, no refresh
  -- with the same token succeeds, from whatever device.
  pub token_used_once :
      (input : RefreshInput) (s : Server) (out : RefreshOutput)
      → (handle_refresh svc input s).0 ≡ ok out
      → (cs : List AuthCall) (device : String) (again : RefreshOutput)
      → ¬ (
          (handle_refresh svc
            (record input { device_id = device })
            (serve_all svc cs (handle_refresh svc input s).1)).0
          ≡ ok again)
  token_used_once input s out ran cs device again =
      let token = svc.hash_token input.refresh_token in
      let spent = (handled input Any (Spent token) (refresh-spends input)).after s tt out ran in
      stays_refused (record input { device_id = device }) (handle_refresh svc input s).1 spent cs
        again
