-- ===== src/Vault/Outcome.antt =====
-- What a successful call of the engine does to the tables, when its operation id is new.
use goph_keeper.Common.{ℕ, ◌+◌, String, none, some, ◌∷◌, ◌≡◌, ◌∙◌}
use goph_keeper.Common.Table.{find?, update_where}
use goph_keeper.Server.Error.{ok}
use goph_keeper.Server.State.{Server}
use goph_keeper.Server.Steps.{
  called, read_clock, took_id, advance, guard-Yields, now-Yields, new_uuid-Yields,
}
use goph_keeper.Vault.Types.{
  Item, created, updated, deleted, RevisionLogEntry, CreateInput, CreateOutput, UpdateInput,
  UpdateOutput, DeleteOutput,
}
use goph_keeper.Vault.Repository.{op_key, item_key, live_at, overwrite, mark_deleted, set_items}
use goph_keeper.Vault.Repository.Yields.{
  appended, with_processed, processed, create_item-Yields, get_item-Yields, update_item-Yields,
  delete_item-Yields, append_revision-Yields, mark_processed-Yields, lookup-none-Yields,
}
use goph_keeper.Vault.Engine.{create, update, delete, new_item, new_entry, apply_update}

-- the item that `create` makes
abbrev pub fresh_item : String → CreateInput → Server → Item
fresh_item user_id input s = new_item (s.env.uuid s.env.ids) user_id input (s.env.times s.env.reads)

-- the statements that record a change: a row of revision_log and a processed operation
abbrev pub recorded : RevisionLogEntry → String → Server → Server
recorded entry operation_id s =
    with_processed (processed entry.user_id operation_id entry.item_id s.next_revision)
      (called (appended entry (called s)))

module _ (u o : String) (s : Server)
    (unprocessed : find? (op_key u o) s.processed_operations ≡ none) where
  -- A create that succeeds under a new operation id returns the item's identifier, version 1 and the
  -- next revision, and adds the item, one revision of it and one processed operation.
  pub create_fresh :
      (input : CreateInput) (out : CreateOutput)
      → (create u o input s).0 ≡ ok out
      → create u o input s ≡ (
        ok (record {
          item_id = s.env.uuid s.env.ids;
          version = 1;
          server_revision = s.next_revision;
        }),
        recorded (new_entry u o (s.env.uuid s.env.ids) created 1 (s.env.times s.env.reads)) o (
            set_items
              (called (took_id (read_clock (called s))))
              (fresh_item u input s ∷ s.vault_items)),
      )
  unfolding create
  create_fresh input out h =
      let (e1, h1) = advance _ _ s (guard-Yields _ _ s) h in
      let (e2, h2) = advance _ _ s (lookup-none-Yields u o s unprocessed) h1 in
      let (e3, h3) = advance _ _ (called s) (now-Yields _) h2 in
      let (e4, h4) = advance _ _ _ (new_uuid-Yields _) h3 in
      let (e5, h5) = advance _ _ _ (create_item-Yields _ _) h4 in
      let (e6, h6) = advance _ _ _ (append_revision-Yields _ _) h5 in
      let (e7, h7) = advance _ _ _ (mark_processed-Yields u o _ _ _ unprocessed) h6 in
      e1 ∙ e2 ∙ e3 ∙ e4 ∙ e5 ∙ e6 ∙ e7

  -- An update of a found item that succeeds under a new operation id returns the next version and the
  -- next revision, overwrites the live row of the expected version, and adds one revision with that
  -- version and one processed operation.
  pub update_fresh :
      (id : String) (expected : ℕ) (input : UpdateInput) (current : Item) (out : UpdateOutput)
      → find? (item_key u id) s.vault_items ≡ some current
      → (update u o id expected input s).0 ≡ ok out
      → let next = apply_update input (s.env.times s.env.reads) current in
        update u o id expected input s ≡ (
          ok (record { new_version = next.version; server_revision = s.next_revision }),
          recorded (new_entry u o id updated next.version (s.env.times s.env.reads)) o (
              set_items (called (read_clock (called (called s)))) (
                update_where
                  (live_at current.user_id current.item_id expected)
                  (overwrite next)
                  s.vault_items)),
        )
  unfolding update
  update_fresh id expected input current out c h =
      let (e1, h1) = advance _ _ s (guard-Yields _ _ s) h in
      let (e2, h2) = advance _ _ s (lookup-none-Yields u o s unprocessed) h1 in
      let (e3, h3) = advance _ _ _ (get_item-Yields u id _ current c) h2 in
      let (e4, h4) = advance _ _ _ (guard-Yields _ _ _) h3 in
      let (e5, h5) = advance _ _ _ (guard-Yields _ _ _) h4 in
      let (e6, h6) = advance _ _ _ (now-Yields _) h5 in
      let (e7, h7) = advance _ _ _ (update_item-Yields _ _ _) h6 in
      let (e8, h8) = advance _ _ _ (append_revision-Yields _ _) h7 in
      let (e9, h9) = advance _ _ _ (mark_processed-Yields u o _ _ _ unprocessed) h8 in
      e1 ∙ e2 ∙ e3 ∙ e4 ∙ e5 ∙ e6 ∙ e7 ∙ e8 ∙ e9

  -- A delete of a live row of the expected version that succeeds under a new operation id returns the
  -- next version and the next revision, marks the row as deleted, and adds one revision with that
  -- version and one processed operation.
  pub delete_fresh :
      (id : String) (expected : ℕ) (row : Item) (out : DeleteOutput)
      → find? (live_at u id expected) s.vault_items ≡ some row
      → (delete u o id expected s).0 ≡ ok out
      → delete u o id expected s ≡ (
        ok (record { new_version = row.version + 1; server_revision = s.next_revision }),
        recorded (new_entry u o id deleted (row.version + 1) (s.env.times s.env.reads)) o (
            set_items (called (read_clock (called s))) (
              update_where
                (live_at u id expected)
                (mark_deleted (s.env.times s.env.reads))
                s.vault_items)),
      )
  unfolding delete
  delete_fresh id expected row out c h =
      let (e1, h1) = advance _ _ s (guard-Yields _ _ s) h in
      let (e2, h2) = advance _ _ s (lookup-none-Yields u o s unprocessed) h1 in
      let (e3, h3) = advance _ _ (called s) (now-Yields _) h2 in
      let (e4, h4) = advance _ _ _ (delete_item-Yields u id _ _ _ row c) h3 in
      let (e5, h5) = advance _ _ _ (append_revision-Yields _ _) h4 in
      let (e6, h6) = advance _ _ _ (mark_processed-Yields u o _ _ _ unprocessed) h5 in
      e1 ∙ e2 ∙ e3 ∙ e4 ∙ e5 ∙ e6
