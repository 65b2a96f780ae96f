-- ===== src/Vault/Races.antt =====
-- Two calls of the engine, one after the other: updates from the same version, and a create that is
-- sent twice.
use goph_keeper.Common.{
  ℕ, ◌+◌, String, true, not, ◌||◌, ◌≡◌, refl, sym, ap, ◌∙◌, Option, none, some, List, ◌∷◌, arith,
  eq_refl,
}
use goph_keeper.Common.Table.{find?, update_where}
use goph_keeper.Common.Rows.{find?-update_where}
use goph_keeper.Server.Error.{ok}
use goph_keeper.Server.State.{Server, IsReliable}
use goph_keeper.Server.Exec.{◌>>=◌, call}
use goph_keeper.Server.Steps.{called, read_clock, took_id, first, guard_passed}
use goph_keeper.Vault.Types.{
  Item, created, ProcessedOperation, CreateInput, CreateOutput, UpdateInput, UpdateOutput,
}
use goph_keeper.Vault.Repository.{op_key, item_key, live_at, overwrite, set_items, get_item, lookup}
use goph_keeper.Vault.Repository.Yields.{processed}
use goph_keeper.Vault.Engine.{create, update, new_entry, apply_update, next_version, is_blank}
use goph_keeper.Vault.Outcome.{create_fresh, update_fresh, recorded, fresh_item}
use goph_keeper.Vault.Needs.{update_needs}

-- The version after an update is another one.
next_version-other : (v : ℕ) → ¬ (next_version v ≡ v)
next_version-other v = omega arith

abbrev version_of : Option Item → ℕ
version_of none = 0
version_of (some it) = it.version

module _ (u id : String) (v : ℕ) (items : List Item) (current next : Item) where
  -- The row that an update overwrites is found as it was written.
  find?-overwritten :
      find? (item_key u id) items ≡ some current
      → live_at current.user_id current.item_id v current ≡ true
      → find?
          (item_key u id)
          (update_where (live_at current.user_id current.item_id v) (overwrite next) items)
        ≡ some (overwrite next current)
  find?-overwritten found live =
      find?-update_where (item_key u id) (live_at current.user_id current.item_id v)
        (overwrite next) (λ it. refl) items
      ∙ rw (found, live) refl

module _ (u id : String) (v : ℕ) (s : Server) (o1 : String) (i1 : UpdateInput) (out1 : UpdateOutput)
    (unprocessed : find? (op_key u o1) s.processed_operations ≡ none)
    (ran : (update u o1 id v i1 s).0 ≡ ok out1) where
  -- After an update that succeeds under a new operation id, no update of that item under another new
  -- operation id that expects the same version succeeds.
  pub no_lost_update :
      (o2 : String) (i2 : UpdateInput) (out2 : UpdateOutput)
      → find? (op_key u o2) (update u o1 id v i1 s).1.processed_operations ≡ none
      → ¬ ((update u o2 id v i2 (update u o1 id v i1 s).1).0 ≡ ok out2)
  no_lost_update o2 i2 out2 unprocessed2 h =
      let (current, found, same, live, hit) = update_needs u o1 s unprocessed id v i1 out1 ran in
      let (later, found2, same2, live2, hit2) =
        update_needs u o2 (update u o1 id v i1 s).1 unprocessed2 id v i2 out2 h in
      let at = s.env.times s.env.reads in
      let next = apply_update i1 at current in
      let met : live_at current.user_id current.item_id v current ≡ true =
        ground (arith, eq_refl current.user_id, eq_refl current.item_id) in
      let written = find?-overwritten u id v s.vault_items current next found met in
      let read = rw (update_fresh u o1 s unprocessed id v i1 current out1 found ran) at found2 in
      let kept : some (overwrite next current) ≡ some later = sym written ∙ read in
      let clash : next_version v ≡ v = ap next_version (sym same) ∙ ap version_of kept ∙ same2 in
      next_version-other v clash

-- What a call under a processed operation id returns, where no call of the driver fails.
create_replayed :
    (u o : String) (input : CreateInput) (s : Server) (p : ProcessedOperation) (it : Item)
    → not (is_blank u || is_blank o) ≡ true
    → IsReliable s
    → find? (op_key u o) s.processed_operations ≡ some p
    → find? (item_key u p.item_id) s.vault_items ≡ some it
    → (create u o input s).0
      ≡ ok (record { item_id = p.item_id; version = it.version; server_revision = p.revision_id })
unfolding create lookup get_item call ◌>>=◌
create_replayed u o input s p it names reliable done found =
    ground (arith, reliable s.env.calls, reliable (s.env.calls + 1))

module _ (u o : String) (s : Server) (reliable : IsReliable s) (i : CreateInput)
    (out : CreateOutput) (unprocessed : find? (op_key u o) s.processed_operations ≡ none)
    (ran : (create u o i s).0 ≡ ok out) where
  names_given : not (is_blank u || is_blank o) ≡ true
  unfolding create
  names_given = let (a, h) = first _ _ s ran in guard_passed _ _ s a h

  -- Where no call of the driver fails, a create that succeeds under a new operation id, and is sent
  -- again under that id with any input, returns the same result.
  pub create_twice : (again : CreateInput) → (create u o again (create u o i s).1).0 ≡ ok out
  unfolding find?
  create_twice again =
      let same = create_fresh u o s unprocessed i out ran in
      let id = s.env.uuid s.env.ids in
      let after =
        recorded (new_entry u o id created 1 (s.env.times s.env.reads)) o (
          set_items (called (took_id (read_clock (called s))))
            (fresh_item u i s ∷ s.vault_items)) in
      let done : find? (op_key u o) after.processed_operations
          ≡ some (processed u o id s.next_revision) =
        ground (arith, eq_refl u, eq_refl o) in
      let made : find? (item_key u id) after.vault_items ≡ some (fresh_item u i s) =
        ground (arith, eq_refl u, eq_refl id) in
      let replayed =
        create_replayed u o again after (processed u o id s.next_revision) (fresh_item u i s)
          names_given reliable done made in
      rw (ap (λ x. x.1) same) (replayed ∙ sym (ap (λ x. x.0) same) ∙ ran)
