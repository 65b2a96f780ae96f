-- ===== src/Vault/Sequence.antt =====
-- The sequence of revision_log never goes back, whatever a call of the engine does.
use goph_keeper.Common.{ℕ, ◌≤◌, String, Option, none, some, arith}
use goph_keeper.Server.State.{Server}
use goph_keeper.Server.Exec.{◌>>=◌, call, now, new_uuid}
use goph_keeper.Server.Keeps.{Keeps, Keeps-pure, Keeps-raise, Keeps-found, Keeps-guard, Keeps-bind}
use goph_keeper.Vault.Types.{Item, RevisionLogEntry, ProcessedOperation, CreateInput, UpdateInput}
use goph_keeper.Vault.Repository.{
  create_item, get_item, update_item, delete_item, append_revision, mark_processed, lookup,
}
use goph_keeper.Vault.Engine.{
  create, update, delete, create_unless_processed, update_unless_processed, delete_unless_processed,
}

abbrev pub Above : ℕ → Server → Type 0
Above n s = n ≤ s.next_revision

module _ {n : ℕ} where
  now-Above : Keeps (Above n) now
  unfolding now
  now-Above = record { at = λ s h. h }

  new_uuid-Above : Keeps (Above n) new_uuid
  unfolding new_uuid
  new_uuid-Above = record { at = λ s h. h }

  create_item-Above : (it : Item) → Keeps (Above n) (create_item it)
  unfolding create_item call ◌>>=◌
  create_item-Above it = record { at = λ s h. ground arith }

  get_item-Above : (u id : String) → Keeps (Above n) (get_item u id)
  unfolding get_item call ◌>>=◌
  get_item-Above u id = record { at = λ s h. ground arith }

  update_item-Above : (it : Item) (v : ℕ) → Keeps (Above n) (update_item it v)
  unfolding update_item call ◌>>=◌
  update_item-Above it v = record { at = λ s h. ground arith }

  delete_item-Above : (u id : String) (v at : ℕ) → Keeps (Above n) (delete_item u id v at)
  unfolding delete_item call ◌>>=◌
  delete_item-Above u id v t = record { at = λ s h. ground arith }

  append_revision-Above : (e : RevisionLogEntry) → Keeps (Above n) (append_revision e)
  unfolding append_revision call ◌>>=◌
  append_revision-Above e = record { at = λ s h. ground arith }

  mark_processed-Above : (u o id : String) (r : ℕ) → Keeps (Above n) (mark_processed u o id r)
  unfolding mark_processed call ◌>>=◌
  mark_processed-Above u o id r = record { at = λ s h. ground arith }

  lookup-Above : (u o : String) → Keeps (Above n) (lookup u o)
  unfolding lookup call ◌>>=◌
  lookup-Above u o = record { at = λ s h. ground arith }

ruleset above_rules = (
  Keeps-pure, Keeps-raise, Keeps-found, Keeps-guard, Keeps-bind, now-Above, new_uuid-Above,
  create_item-Above, get_item-Above, update_item-Above, delete_item-Above, append_revision-Above,
  mark_processed-Above, lookup-Above,
)

module _ (n : ℕ) (u o : String) where
  pub create-Above : (input : CreateInput) → Keeps (Above n) (create u o input)
  unfolding create
  create-Above input =
      Keeps-bind _ _ (Keeps-guard _ _)
        (λ _. Keeps-bind _ _ (lookup-Above u o) λ found_op. by_op found_op)
    where
      by_op :
          (p : Option ProcessedOperation) → Keeps (Above n) (create_unless_processed p u o input)
      by_op none = search above_rules depth 20
      by_op (some p) = search above_rules depth 20

  pub update-Above :
      (id : String) (v : ℕ) (input : UpdateInput) → Keeps (Above n) (update u o id v input)
  unfolding update
  update-Above id v input =
      Keeps-bind _ _ (Keeps-guard _ _)
        (λ _. Keeps-bind _ _ (lookup-Above u o) λ found_op. by_op found_op)
    where
      by_op :
          (p : Option ProcessedOperation)
          → Keeps (Above n) (update_unless_processed p u o id v input)
      by_op none = search above_rules depth 20
      by_op (some p) = search above_rules depth 20

  pub delete-Above : (id : String) (v : ℕ) → Keeps (Above n) (delete u o id v)
  unfolding delete
  delete-Above id v =
      Keeps-bind _ _ (Keeps-guard _ _)
        (λ _. Keeps-bind _ _ (lookup-Above u o) λ found_op. by_op found_op)
    where
      by_op : (p : Option ProcessedOperation) → Keeps (Above n) (delete_unless_processed p u o id v)
      by_op none = search above_rules depth 20
      by_op (some p) = search above_rules depth 20
