-- ===== src/Vault/Needs.antt =====
-- What a successful call of the engine under a new operation id says about the tables it met, and
-- that a call under an operation id that was processed changes no table.
use goph_keeper.Common.{ℕ, String, true, false, ◌≡◌, none, some, arith, ==_iff}
use goph_keeper.Common.Table.{find?, exists?}
use goph_keeper.Server.Error.{ok}
use goph_keeper.Server.State.{Server}
use goph_keeper.Server.Exec.{◌>>=◌, call}
use goph_keeper.Server.Steps.{
  called, read_clock, took_id, advance, first, guard-Yields, guard_passed, now-Yields,
  new_uuid-Yields,
}
use goph_keeper.Vault.Types.{
  Item, ProcessedOperation, CreateInput, CreateOutput, UpdateInput, UpdateOutput, DeleteOutput,
}
use goph_keeper.Vault.Repository.{op_key, item_key, live_at, get_item, lookup}
use goph_keeper.Vault.Repository.Yields.{
  create_item-unused, get_item-Yields, get_item-found, update_item-found, delete_item-found,
  lookup-none-Yields,
}
use goph_keeper.Vault.Engine.{create, update, delete, new_item}
use goph_keeper.Vault.Consistency.{with_id}

module _ (u o : String) (s : Server)
    (unprocessed : find? (op_key u o) s.processed_operations ≡ none) where
  pub create_needs :
      (input : CreateInput) (out : CreateOutput)
      → (create u o input s).0 ≡ ok out
      → exists? (with_id (s.env.uuid s.env.ids)) s.vault_items ≡ false
  unfolding create
  create_needs input out h =
      let (e1, h1) = advance _ _ s (guard-Yields _ _ s) h in
      let (e2, h2) = advance _ _ s (lookup-none-Yields u o s unprocessed) h1 in
      let (e3, h3) = advance _ _ (called s) (now-Yields _) h2 in
      let (e4, h4) = advance _ _ _ (new_uuid-Yields _) h3 in
      let (a, h5) = first _ _ _ h4 in
      create_item-unused (new_item (s.env.uuid s.env.ids) u input (s.env.times s.env.reads))
        (took_id (read_clock (called s))) h5

  -- An update that succeeds under a new operation id met the user's item, with the version that the
  -- caller expects and not deleted, and a live row of that version.
  pub update_needs :
      (id : String) (expected : ℕ) (input : UpdateInput) (out : UpdateOutput)
      → (update u o id expected input s).0 ≡ ok out
      → (current : Item) × (find? (item_key u id) s.vault_items ≡ some current)
        × (current.version ≡ expected)
        × (current.deleted_at ≡ none)
        × (exists? (live_at current.user_id current.item_id expected) s.vault_items ≡ true)
  unfolding update
  update_needs id expected input out h =
      let (e1, h1) = advance _ _ s (guard-Yields _ _ s) h in
      let (e2, h2) = advance _ _ s (lookup-none-Yields u o s unprocessed) h1 in
      let (current, h3) = first _ _ _ h2 in
      let c = get_item-found u id (called s) current h3 in
      let (e4, h4) = advance _ _ _ (get_item-Yields u id _ current c) h2 in
      let (a, g1) = first _ _ _ h4 in
      let live = guard_passed _ _ s a g1 in
      let (e5, h5) = advance _ _ _ (guard-Yields _ _ _) h4 in
      let (b, g2) = first _ _ _ h5 in
      let same = guard_passed _ _ s b g2 in
      let (e6, h6) = advance _ _ _ (guard-Yields _ _ _) h5 in
      let (e7, h7) = advance _ _ _ (now-Yields _) h6 in
      let (d, g3) = first _ _ _ h7 in
      (
        current,
        c,
        (==_iff current.version expected).0 same,
        ground arith,
        update_item-found _ _ _ g3,
      )

  pub delete_needs :
      (id : String) (expected : ℕ) (out : DeleteOutput)
      → (delete u o id expected s).0 ≡ ok out
      → (row : Item) × (find? (live_at u id expected) s.vault_items ≡ some row)
  unfolding delete
  delete_needs id expected out h =
      let (e1, h1) = advance _ _ s (guard-Yields _ _ s) h in
      let (e2, h2) = advance _ _ s (lookup-none-Yields u o s unprocessed) h1 in
      let (e3, h3) = advance _ _ (called s) (now-Yields _) h2 in
      let (n, h4) = first _ _ _ h3 in delete_item-found u id expected _ (read_clock (called s)) n h4

module _ (u o : String) (s : Server) (p : ProcessedOperation)
    (was_processed : find? (op_key u o) s.processed_operations ≡ some p) where
  -- A create under an operation id that the user has processed changes no table, whether it succeeds
  -- or fails.
  pub create_again : (input : CreateInput) → (create u o input s).1.db ≡ s.db
  unfolding create lookup get_item call ◌>>=◌
  create_again input = ground arith

  -- An update under an operation id that the user has processed changes no table, whatever item and
  -- version it names.
  pub update_again :
      (id : String) (v : ℕ) (input : UpdateInput) → (update u o id v input s).1.db ≡ s.db
  unfolding update lookup get_item call ◌>>=◌
  update_again id v input = ground arith

  -- A delete under an operation id that the user has processed changes no table, whatever item and
  -- version it names.
  pub delete_again : (id : String) (v : ℕ) → (delete u o id v s).1.db ≡ s.db
  unfolding delete lookup get_item call ◌>>=◌
  delete_again id v = ground arith
