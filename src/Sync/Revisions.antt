-- ===== src/Sync/Revisions.antt =====
-- internal/server/storage/postgres/revision_list.go and revision_snapshot.go.
use goph_keeper.Common.{
  ℕ, String, Bool, ◌&&◌, Option, List, [], ◌∷◌, map, if◌then◌else◌, str_eq, ltb, leb, ◌==◌, take,
}
use goph_keeper.Common.Table.{find?, select}
use goph_keeper.Server.Error.{ok, driver_failure}
use goph_keeper.Server.State.{Db}
use goph_keeper.Server.Exec.{Exec, ◌>>◌, call, guard, pure}
use goph_keeper.Server.Transaction.{transaction}
use goph_keeper.Vault.Types.{Item, ChangeType, RevisionLogEntry}
use goph_keeper.Vault.Repository.{fits_bigint, item_key}

pub record RevisionEventRow : Type 0 where
  pub revision_id : ℕ
  pub item_id : String
  pub change_type : ChangeType
  pub item_version : ℕ
  pub changed_at : ℕ
  pub item : Option Item

-- WHERE r.user_id = $1 AND r.revision_id > $2
abbrev pub entry_after : String → ℕ → RevisionLogEntry → Bool
entry_after user_id after e = str_eq e.user_id user_id && ltb after e.revision_id

-- ORDER BY r.revision_id ASC
unfoldable pub insert_by_revision : RevisionLogEntry → List RevisionLogEntry → List RevisionLogEntry
insert_by_revision e [] = e ∷ []
insert_by_revision e (x ∷ xs) =
    let rest = insert_by_revision e xs in
    if leb e.revision_id x.revision_id then e ∷ x ∷ xs else x ∷ rest

unfoldable pub order_by_revision : List RevisionLogEntry → List RevisionLogEntry
order_by_revision [] = []
order_by_revision (e ∷ es) = insert_by_revision e (order_by_revision es)

-- LEFT JOIN vault_items; the columns of an item are NOT NULL, so a joined row has all of them.
unfoldable pub event_row : Db → RevisionLogEntry → RevisionEventRow
event_row d e = record {
  revision_id = e.revision_id;
  item_id = e.item_id;
  change_type = e.change_type;
  item_version = e.item_version;
  changed_at = e.changed_at;
  item = find? (item_key e.user_id e.item_id) d.vault_items;
}

-- the user's entries after a revision, in order
unfoldable pub entries_after : List RevisionLogEntry → String → ℕ → List RevisionLogEntry
entries_after log user_id after = order_by_revision (select (entry_after user_id after) log)

-- The query fails before the first row, or at a row.
unfoldable pub list_revision_events_after : String → ℕ → ℕ → Exec (List RevisionEventRow)
list_revision_events_after user_id after limit = if limit == 0 then pure [] else (do
  call driver_failure
  guard (fits_bigint after && fits_bigint limit) driver_failure
  call driver_failure
  λ s. (ok (map (event_row s.db) (take limit (entries_after s.revision_log user_id after))), s))

-- SELECT COALESCE(MAX(revision_id), 0) FROM revision_log WHERE user_id = $1
unfoldable pub max_revision : List RevisionLogEntry → String → ℕ
max_revision [] user_id = 0
max_revision (e ∷ es) user_id =
    let rest = max_revision es user_id in
    if str_eq e.user_id user_id && ltb rest e.revision_id then e.revision_id else rest

unfoldable pub user_max_revision : String → Exec ℕ
user_max_revision user_id = do
  call driver_failure
  λ s. (ok (max_revision s.revision_log user_id), s)

-- A read-only transaction: it begins, reads and commits.
unfoldable pub with_revision_snapshot_read : {A : Type 0} → Exec A → Exec A
unfolding transaction
with_revision_snapshot_read m = transaction m
