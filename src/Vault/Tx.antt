-- ===== src/Vault/Tx.antt =====
-- WithVaultEngineTx of internal/server/storage/postgres/vault_engine_tx.go: the engine's calls share
-- one transaction. The engine is over the transaction, so its statements act on the tables of the
-- transaction; what they leave is rolled back or committed.
pub mod Cases
use goph_keeper.Server.Exec.{Exec}
use goph_keeper.Server.Transaction.{transaction}

unfoldable pub with_vault_engine_tx : {A : Type 0} → Exec A → Exec A
unfolding transaction
with_vault_engine_tx m = transaction m
