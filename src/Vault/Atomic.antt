-- ===== src/Vault/Atomic.antt =====
-- A change of the vault in a transaction: what it leaves, whether it succeeds or fails.
pub mod Creates
pub mod Updates
pub mod Deletes
use goph_keeper.Common.{
  ℕ, ◌+◌, String, ◌≡◌, ◌∙◌, refl, sym, ◌==◌, Bool, true, false, ◌&&◌, str_eq, eq_iff, Bool-cases,
  Option, none, some, List, ◌∷◌, ◌⊎◌, inl, inr, Option-cases, arith,
}
use goph_keeper.Common.Table.{find?, update_where}
use goph_keeper.Common.Rows.{find?-update_other}
use goph_keeper.Server.Error.{Error, Result, ok, err}
use goph_keeper.Server.State.{Server, Db}
use goph_keeper.Server.Exec.{Exec}
use goph_keeper.Server.Steps.{called}
use goph_keeper.Vault.Types.{Item, ChangeType, RevisionLogEntry, ProcessedOperation}
use goph_keeper.Vault.Repository.{op_key, item_key, live_at, is_null}
use goph_keeper.Vault.Tx.{with_vault_engine_tx}
use goph_keeper.Vault.Tx.Cases.{tx_error, tx_success}

-- Every table is as it was; the sequence of revisions may have moved.
abbrev pub AreKept : Db → Db → Type 0
AreKept before after =
    (after.vault_items ≡ before.vault_items)
    × (after.revision_log ≡ before.revision_log)
    × (after.processed_operations ≡ before.processed_operations)
    × (after.blobs ≡ before.blobs)
    × (after.upload_sessions ≡ before.upload_sessions)
    × (after.users ≡ before.users)
    × (after.devices ≡ before.devices)
    × (after.refresh_tokens ≡ before.refresh_tokens)

-- An error leaves every table as it was, and so does an operation that the user has processed; any other
-- success leaves a change.
abbrev pub IsAtomic :
    {A : Type 0} → String → String → (A → Db → Type 0) → Db → Result A → Db → Type 0
IsAtomic u o Changed before (err e) after = AreKept before after
IsAtomic u o Changed before (ok a) after =
    ((p : ProcessedOperation) × ((find? (op_key u o) before.processed_operations ≡ some p)
        × AreKept before after))
    ⊎ Changed a after

-- One row of revision_log and one processed operation more, under the next revision.
pub record Recorded (u o id : String) (change : ChangeType) (version at : ℕ) (before after : Db)
    : Type 0 where
  pub log :
      after.revision_log
      ≡ record {
        revision_id = before.next_revision;
        user_id = u;
        operation_id = some o;
        item_id = id;
        change_type = change;
        item_version = version;
        changed_at = at;
      }
        ∷ before.revision_log
  pub sequence : after.next_revision ≡ before.next_revision + 1
  pub operations :
      after.processed_operations
      ≡ record { user_id = u; operation_id = o; item_id = id; revision_id = before.next_revision }
        ∷ before.processed_operations
  pub others :
      (after.blobs ≡ before.blobs)
      × (after.upload_sessions ≡ before.upload_sessions)
      × (after.users ≡ before.users)
      × (after.devices ≡ before.devices)
      × (after.refresh_tokens ≡ before.refresh_tokens)

-- The row of any other user or item is found as it was.
abbrev pub AreOthersKept : String → String → List Item → List Item → Type 0
AreOthersKept u id before after =
    (w j : String)
    → ((w ≡ u) × (j ≡ id)) ⊎ (find? (item_key w j) after ≡ find? (item_key w j) before)

same_tables : (before after : Db) → after ≡ before → AreKept before after
same_tables before after e = rw e (refl, refl, refl, refl, refl, refl, refl, refl)

module _ {A : Type 0} (u o : String) (s : Server) (m : Exec A) (Changed : A → Db → Type 0) where
  outcome :
      ((a : A) (p : ProcessedOperation)
        → find? (op_key u o) s.processed_operations ≡ some p
        → (m (called s)).1.db ≡ s.db)
      → ((a : A)
          → find? (op_key u o) s.processed_operations ≡ none
          → (m (called s)).0 ≡ ok a
          → Changed a (m (called s)).1.db)
      → (r : Result A) → (with_vault_engine_tx m s).0 ≡ r
      → IsAtomic u o Changed s.db r (with_vault_engine_tx m s).1.db
  outcome again fresh (err e) h =
      rw (tx_error m s e h) (refl, refl, refl, refl, refl, refl, refl, refl)
  outcome again fresh (ok a) h =
      let (ran, same) = tx_success m s a h in
      elim (Option-cases (find? (op_key u o) s.processed_operations)) [
        | inl new ↦ inr (rw same (fresh a new ran))
        | inr (p, done) ↦
            inl
              (p, (done, same_tables s.db (with_vault_engine_tx m s).1.db (same ∙ again a p done)))
      ]

  -- A transaction is atomic, if its function changes no table for a processed operation.
  pub tx-IsAtomic :
      ((a : A) (p : ProcessedOperation)
        → find? (op_key u o) s.processed_operations ≡ some p
        → (m (called s)).1.db ≡ s.db)
      → ((a : A)
          → find? (op_key u o) s.processed_operations ≡ none
          → (m (called s)).0 ≡ ok a
          → Changed a (m (called s)).1.db)
      → IsAtomic u o Changed s.db (with_vault_engine_tx m s).0 (with_vault_engine_tx m s).1.db
  tx-IsAtomic again fresh = outcome again fresh (with_vault_engine_tx m s).0 refl

pub and_parts : (a b : Bool) → (a && b) ≡ true → (a ≡ true) × (b ≡ true)
and_parts true b h = (refl, h)
and_parts false b h = absurd cc

pub item_key_parts :
    (u id : String) (it : Item) → item_key u id it ≡ true → (it.user_id ≡ u) × (it.item_id ≡ id)
item_key_parts u id it h =
    let (own, named) = and_parts (str_eq it.user_id u) (str_eq it.item_id id) h in
    ((eq_iff it.user_id u).0 own, (eq_iff it.item_id id).0 named)

pub live_at-item_key :
    (u id : String) (v : ℕ) (it : Item) → live_at u id v it ≡ true → item_key u id it ≡ true
live_at-item_key u id v it h =
    let (both, _) = and_parts (item_key u id it && it.version == v) (is_null it.deleted_at) h in
    (and_parts (item_key u id it) (it.version == v) both).0

different : (w u j id : String) → (str_eq w u && str_eq j id) ≡ false → w ≡ u → j ≡ id → ⊥
different w u j id e a b =
    let c : str_eq w u ≡ true = (eq_iff w u).1 a in
    let d : str_eq j id ≡ true = (eq_iff j id).1 b in absurd (ground (arith, e, c, d))

both_keys :
    (u id w j : String) (it : Item)
    → item_key u id it ≡ true
    → item_key w j it ≡ true
    → (w ≡ u) × (j ≡ id)
both_keys u id w j it h k =
    let (own, named) = item_key_parts u id it h in
    let (other, other_named) = item_key_parts w j it k in (sym other ∙ own, sym other_named ∙ named)

-- An update of rows of one user and item, that keeps their keys.
pub update_where-AreOthersKept :
    (u id : String) (p : Item → Bool) (f : Item → Item)
    → ((it : Item) → p it ≡ true → item_key u id it ≡ true)
    → ((w j : String) (it : Item) → item_key w j (f it) ≡ item_key w j it)
    → (items : List Item) → AreOthersKept u id items (update_where p f items)
update_where-AreOthersKept u id p f hits keeps items w j =
    elim (Bool-cases (str_eq w u && str_eq j id)) [
      | inl e ↦
          let (a, b) = and_parts (str_eq w u) (str_eq j id) e in
          inl ((eq_iff w u).0 a, (eq_iff j id).0 b)
      | inr e ↦
          let other = λ (it : Item) (h : p it ≡ true).
            elim (Bool-cases (item_key w j it)) as (λ _. item_key w j it ≡ false) [
              | inr k ↦ k
              | inl k ↦
                  let (a, b) = both_keys u id w j it (hits it h) k in
                  absurd (different w u j id e a b)
            ] in
          inr
            (find?-update_other (item_key w j) p f other (λ it h. keeps w j it ∙ other it h) items)
    ]
