-- ===== src/Server/Frame.antt =====
-- Invariants that do not look at the environment, and that ROLLBACK keeps: the rules for the driver's
-- calls, the clock, the identifiers and transactions, once for all such invariants.
use goph_keeper.Common.{◌≡◌, arith}
use goph_keeper.Server.Error.{Error, Result, ok, err}
use goph_keeper.Server.State.{Server, Env}
use goph_keeper.Server.Exec.{Exec, ◌>>=◌, call, now, new_uuid}
use goph_keeper.Server.Steps.{called}
use goph_keeper.Server.Transaction.{rollback, finish, then_commit, in_tx, transaction}
use goph_keeper.Server.Keeps.{Keeps, Keeps-bind}

pub record IsFramed {κ} (P : Server → Type κ) : Type κ where
  pub env : (s : Server) (e : Env) → P s → P (record s { env = e })
  pub back : (s t : Server) → P s → P t → P (rollback s t)

module _ {κ} {P : Server → Type κ} (f : IsFramed P) where
  pub Keeps-call : (e : Error) → Keeps P (call e)
  unfolding call
  Keeps-call e = record { at = λ s h. f.env s _ h }

  pub Keeps-now : Keeps P now
  unfolding now
  Keeps-now = record { at = λ s h. f.env s _ h }

  pub Keeps-new_uuid : Keeps P new_uuid
  unfolding new_uuid
  Keeps-new_uuid = record { at = λ s h. f.env s _ h }

  finish_keeps :
      {A : Type 0} (before : Server) (r : Result A × Server)
      → P before
      → P r.1
      → P (finish before r).1
  finish_keeps before (ok a, s) b h = h
  finish_keeps before (err e, s) b h = f.back before s b h

  in_tx-Keeps : {A : Type 0} (m : Exec A) → Keeps P m → Keeps P (in_tx m)
  unfolding in_tx
  in_tx-Keeps m k =
      let commits : Keeps P (then_commit m) =
        Keeps-bind _ _ k (λ a. Keeps-bind _ _ (Keeps-call _) λ _. record { at = λ s h. h }) in
      record { at = λ s h. finish_keeps s (then_commit m s) h (commits.at s h) }

  pub Keeps-transaction : {A : Type 0} (m : Exec A) → Keeps P m → Keeps P (transaction m)
  unfolding transaction
  Keeps-transaction m k = Keeps-bind _ _ (Keeps-call _) λ _. in_tx-Keeps m k

-- A transaction that succeeds ran its function after BEGIN, and leaves the tables as it did.
pub transaction-ok :
    {A : Type 0} (m : Exec A) (s : Server) (a : A)
    → (transaction m s).0 ≡ ok a
    → ((m (called s)).0 ≡ ok a) × ((transaction m s).1.db ≡ (m (called s)).1.db)
unfolding transaction call ◌>>=◌
transaction-ok m s a h = ground arith
