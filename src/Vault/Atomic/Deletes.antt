-- ===== src/Vault/Atomic/Deletes.antt =====
-- A delete in a transaction.
use goph_keeper.Common.{
  ℕ, ◌+◌, String, Bool, true, false, ◌≡◌, refl, sym, none, some, ◌&&◌, ◌==◌, ==_iff, Option, List,
  [], ◌∷◌, inl, inr, arith, Bool-cases, str_eq,
}
use goph_keeper.Common.Table.{find?, exists?, update_where}
use goph_keeper.Common.Rows.{find?-holds, exists?-update_none}
use goph_keeper.Common.Order.{Among}
use goph_keeper.Server.Error.{ok}
use goph_keeper.Server.State.{Server, Db}
use goph_keeper.Server.Steps.{called}
use goph_keeper.Vault.Types.{Item, deleted, DeleteOutput}
use goph_keeper.Vault.Repository.{op_key, item_key, live_at, mark_deleted, is_null}
use goph_keeper.Vault.Engine.{delete}
use goph_keeper.Vault.Tx.{with_vault_engine_tx}
use goph_keeper.Vault.Outcome.{delete_fresh}
use goph_keeper.Vault.Needs.{delete_needs, delete_again}
use goph_keeper.Vault.Atomic.{
  IsAtomic, Recorded, AreOthersKept, tx-IsAtomic, update_where-AreOthersKept, and_parts,
  item_key_parts, live_at-item_key,
}

-- the user's item at a version, not deleted
abbrev pub is_live : String → String → ℕ → Item → Bool
is_live u id v it =
    str_eq it.user_id u && str_eq it.item_id id && it.version == v && is_null it.deleted_at

-- What a delete that succeeds found and leaves: a row of the user's item at the version that was
-- expected, not deleted, which is then a mark at the next version.
pub record IsDeleted (u o id : String) (v : ℕ) (s : Server) (out : DeleteOutput) (after : Db)
    : Type 0 where
  pub row : Item
  pub was : find? (is_live u id v) s.vault_items ≡ some row
  pub owner : row.user_id ≡ u
  pub named : row.item_id ≡ id
  pub expected : row.version ≡ v
  pub live : row.deleted_at ≡ none
  pub answer : out ≡ record { new_version = v + 1; server_revision = s.next_revision }
  pub there :
      Among
        (record row {
          version = v + 1;
          updated_at = s.env.times s.env.reads;
          deleted_at = some (s.env.times s.env.reads);
        })
        after.vault_items
  pub gone : exists? (is_live u id v) after.vault_items ≡ false
  pub others : AreOthersKept u id s.vault_items after.vault_items
  pub recorded : Recorded u o id deleted (v + 1) (s.env.times (s.env.reads + 1)) s.db after

Among-update_where :
    (p : Item → Bool) (f : Item → Item) (items : List Item) (row : Item)
    → find? p items ≡ some row
    → Among (f row) (update_where p f items)
unfolding find? update_where
Among-update_where p f [] row h = absurd cc
Among-update_where p f (it ∷ items) row h = elim (Bool-cases (p it)) [
  | inl e ↦
      let found : ◌≡◌ {A = Option Item} (some it) (some row) = rw e at h in
      let same : it ≡ row = cc in inl (rw (e, same) refl)
  | inr e ↦ inr (Among-update_where p f items row (rw e at h))
]

null_none : (o : Option ℕ) → is_null o ≡ true → o ≡ none
null_none none h = refl
null_none (some n) h = absurd cc

live_parts :
    (u id : String) (v : ℕ) (row : Item)
    → live_at u id v row ≡ true
    → (row.user_id ≡ u) × (row.item_id ≡ id) × (row.version ≡ v) × (row.deleted_at ≡ none)
live_parts u id v row h =
    let (both, live) =
      and_parts (item_key u id row && row.version == v) (is_null row.deleted_at) h in
    let (key, same) = and_parts (item_key u id row) (row.version == v) both in
    let (own, named) = item_key_parts u id row key in
    (own, named, (==_iff row.version v).0 same, null_none row.deleted_at live)

delete-IsDeleted :
    (u o id : String) (v : ℕ) (s : Server) (out : DeleteOutput)
    → find? (op_key u o) s.processed_operations ≡ none
    → (delete u o id v (called s)).0 ≡ ok out
    → IsDeleted u o id v s out (delete u o id v (called s)).1.db
delete-IsDeleted u o id v s out new ran =
    let (row, found) = delete_needs u o (called s) new id v out ran in
    let run = delete_fresh u o (called s) new id v row out found ran in
    let is : record { new_version = row.version + 1; server_revision = s.next_revision } ≡ out =
      cc in
    let at = s.env.times s.env.reads in
    let (own, named, same, live) =
      live_parts u id v row (find?-holds (live_at u id v) s.vault_items row found) in
    rw (run, sym is)
      (record {
        row = row;
        was = found;
        owner = own;
        named = named;
        expected = same;
        live = live;
        answer = rw same refl;
        there =
            rw same at
              (Among-update_where (live_at u id v) (mark_deleted at) s.vault_items row found);
        gone =
            exists?-update_none (live_at u id v) (mark_deleted at) (λ it. ground arith)
              s.vault_items;
        others =
            update_where-AreOthersKept u id (live_at u id v) (mark_deleted at)
              (λ it hit. live_at-item_key u id v it hit) (λ w j it. refl) s.vault_items;
        recorded = record {
          log = rw same refl;
          sequence = refl;
          operations = refl;
          others = (refl, refl, refl, refl, refl);
        };
      })

-- A delete in a transaction is atomic: if it fails, or its operation was processed, every table is as it
-- was; else it found the user's item at the expected version and not deleted, its answer is the next
-- version and the next revision, the row is marked as deleted at the next version, no live row of the
-- expected version is left, every other row is found as it was, and one row of revision_log and one
-- processed operation are added.
pub delete-IsAtomic :
    (u o id : String) (v : ℕ) (s : Server)
    → IsAtomic u o
        (IsDeleted u o id v s)
        s.db
        (with_vault_engine_tx (delete u o id v) s).0
        (with_vault_engine_tx (delete u o id v) s).1.db
delete-IsAtomic u o id v s =
    tx-IsAtomic u o s (delete u o id v) (IsDeleted u o id v s)
      (λ a p done. delete_again u o (called s) p done id v)
      (λ out new ran. delete-IsDeleted u o id v s out new ran)
