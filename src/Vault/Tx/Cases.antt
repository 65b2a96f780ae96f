-- ===== src/Vault/Tx/Cases.antt =====
-- The outcomes of a transaction: an error leaves every table as it was, with only the sequence
-- moved on; a success leaves what the function did.
use goph_keeper.Common.{ℕ, ◌≤◌, ◌≡◌, arith}
use goph_keeper.Server.Error.{Error, ok, err}
use goph_keeper.Server.State.{Server, Db}
use goph_keeper.Server.Exec.{Exec, ◌>>=◌, call}
use goph_keeper.Server.Steps.{called}
use goph_keeper.Server.Keeps.{Keeps}
use goph_keeper.Vault.Sequence.{Above}
use goph_keeper.Vault.Tx.{with_vault_engine_tx}

-- the tables, and any sequence from `n` on
abbrev pub with_sequence : Db → ℕ → Db
with_sequence d n = record d { next_revision = n }

module _ {A : Type 0} (m : Exec A) (s : Server) where
  -- If a transaction returns an error, of BEGIN, of its function or of COMMIT, the tables are as they
  -- were, and only the sequence of revisions may have moved.
  pub tx_error :
      (e : Error)
      → (with_vault_engine_tx m s).0 ≡ err e
      → (with_vault_engine_tx m s).1.db
        ≡ with_sequence s.db (with_vault_engine_tx m s).1.next_revision
  unfolding with_vault_engine_tx call ◌>>=◌
  tx_error e h = ground arith

  -- If a transaction returns a value, its function returned that value after BEGIN, and the tables are
  -- as the function left them.
  pub tx_success :
      (a : A)
      → (with_vault_engine_tx m s).0 ≡ ok a
      → ((m (called s)).0 ≡ ok a) × ((with_vault_engine_tx m s).1.db ≡ (m (called s)).1.db)
  unfolding with_vault_engine_tx call ◌>>=◌
  tx_success a h = ground arith

  pub tx-Above :
      ((n : ℕ) → Keeps (Above n) m) → s.next_revision ≤ (with_vault_engine_tx m s).1.next_revision
  unfolding with_vault_engine_tx call ◌>>=◌
  tx-Above k = ground (arith, (k s.next_revision).at (called s))
