-- ===== src/Vault/Consistency.antt =====
-- The tables agree with one another: identifiers of items are unique, the revision log is numbered
-- downwards from the sequence, and each item has the version of its latest entry in the log, and is
-- deleted exactly when that entry says so.
pub mod Rows
pub mod Calls
use goph_keeper.Common.{
  ℕ, ◌<◌, String, Bool, true, false, ◌≡◌, Option, none, some, List, [], ◌∷◌, str_eq, All, not,
}
use goph_keeper.Common.Table.{find?, exists?}
use goph_keeper.Server.State.{Db}
use goph_keeper.Vault.Types.{
  Item, ChangeType, unspecified, created, updated, deleted, RevisionLogEntry, ProcessedOperation,
}
use goph_keeper.Vault.Repository.{is_null}

-- the item with that primary key
abbrev pub with_id : String → Item → Bool
with_id id it = str_eq it.item_id id

abbrev pub about_item : String → RevisionLogEntry → Bool
about_item id e = str_eq e.item_id id

abbrev pub is_deleted : ChangeType → Bool
is_deleted unspecified = false
is_deleted created = false
is_deleted updated = false
is_deleted deleted = true

-- Identifiers of items are unique.
abbrev pub Unique : List Item → Type 0
Unique [] = Unit {0}
Unique (it ∷ rest) = (exists? (with_id it.item_id) rest ≡ false) × Unique rest

-- Revision numbers fall along the log, newest first, and stay below the bound.
abbrev pub Below : ℕ → List RevisionLogEntry → Type 0
Below n [] = Unit {0}
Below n (e ∷ rest) = (e.revision_id < n) × Below e.revision_id rest

-- The latest entry about an item has its version, and is a deletion exactly if it is deleted.
pub record IsLogged (log : List RevisionLogEntry) (it : Item) : Type 0 where
  pub entry : RevisionLogEntry
  pub latest : find? (about_item it.item_id) log ≡ some entry
  pub version_agrees : entry.item_version ≡ it.version
  pub deletion_agrees : is_deleted entry.change_type ≡ not (is_null it.deleted_at)

pub record IsConsistent (d : Db) : Type 0 where
  pub unique : Unique d.vault_items
  pub numbered : Below d.next_revision d.revision_log
  pub logged : All (IsLogged d.revision_log) d.vault_items
  pub processed_below : All (λ p. p.revision_id < d.next_revision) d.processed_operations
