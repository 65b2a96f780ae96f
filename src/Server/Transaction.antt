-- ===== src/Server/Transaction.antt =====
-- A transaction of database/sql: BEGIN, the statements, COMMIT. The statements act on the transaction's
-- tables, which are the database's once COMMIT has succeeded. An error of any of them rolls back.
use goph_keeper.Server.Error.{Result, ok, err, driver_failure}
use goph_keeper.Server.State.{Server}
use goph_keeper.Server.Exec.{Exec, ◌>>◌, ◌>>=◌, call}

-- What ROLLBACK leaves: the tables as they were, but a sequence does not go back.
abbrev pub rollback : Server → Server → Server
rollback before after = record after {
  db = record before.db { next_revision = after.next_revision };
}

-- What COMMIT leaves: the tables as the transaction has made them.
abbrev pub commit : Server → Server → Server
commit before after = after

abbrev pub finish {ℓ} : {A : Type ℓ} → Server → Result A × Server → Result A × Server
finish before (ok a, s) = (ok a, commit before s)
finish before (err e, s) = (err e, rollback before s)

abbrev pub then_commit : {A : Type 0} → Exec A → Exec A
then_commit m = do a ← m; call driver_failure; λ s. (ok a, s)

-- from BEGIN on
unfoldable pub in_tx : {A : Type 0} → Exec A → Exec A
in_tx m s = finish s (then_commit m s)

unfoldable pub transaction : {A : Type 0} → Exec A → Exec A
unfolding in_tx
transaction m = do call driver_failure; in_tx m
