-- ===== src/Vault/Consistency/Calls.antt =====
-- Every transaction of the engine keeps the tables consistent, whatever fails on the way.
use goph_keeper.Common.{
  ℕ, ◌+◌, ◌≤◌, String, true, ◌≡◌, refl, ◌⊎◌, none, some, List, [], ◌∷◌, str_eq, eq_iff, eq_refl,
  All, arith, Option-cases, inl, inr, and-right,
}
use goph_keeper.Common.Table.{find?, exists?, update_where}
use goph_keeper.Common.Rows.{find?-some, find?-holds}
use goph_keeper.Server.Error.{Error, Result, ok, err}
use goph_keeper.Server.State.{Server, Db, Env}
use goph_keeper.Server.Exec.{Exec}
use goph_keeper.Server.Steps.{called, read_clock, took_id}
use goph_keeper.Server.Keeps.{Keeps}
use goph_keeper.Vault.Types.{
  Item, created, updated, deleted, RevisionLogEntry, CreateInput, CreateOutput, UpdateInput,
  UpdateOutput, DeleteOutput,
}
use goph_keeper.Vault.Repository.{op_key, item_key, live_at, overwrite, mark_deleted, set_items}
use goph_keeper.Vault.Repository.Yields.{stored}
use goph_keeper.Vault.Engine.{create, update, delete, new_entry, apply_update}
use goph_keeper.Vault.Tx.{with_vault_engine_tx}
use goph_keeper.Vault.Tx.Cases.{with_sequence, tx_error, tx_success, tx-Above}
use goph_keeper.Vault.Sequence.{Above, create-Above, update-Above, delete-Above}
use goph_keeper.Vault.Outcome.{recorded, create_fresh, update_fresh, delete_fresh}
use goph_keeper.Vault.Needs.{
  create_needs, update_needs, delete_needs, create_again, update_again, delete_again,
}
use goph_keeper.Vault.Consistency.{Unique, IsLogged, IsConsistent}
use goph_keeper.Vault.Consistency.Rows.{
  Below-mono, processed_mono, IsLogged-insert, Unique-update, IsLogged-update, IsLogged-self,
}

-- A later sequence over the same tables.
pub with_sequence-IsConsistent :
    (d : Db) (n : ℕ) → d.next_revision ≤ n → IsConsistent d → IsConsistent (with_sequence d n)
with_sequence-IsConsistent d n h c = record {
  unique = c.unique;
  numbered = Below-mono d.next_revision n d.revision_log h c.numbered;
  logged = c.logged;
  processed_below = processed_mono d.next_revision n d.processed_operations h c.processed_below;
}

-- New items, recorded by an entry that they agree with.
recorded-IsConsistent :
    (entry : RevisionLogEntry) (o : String) (s : Server) (env : Env) (items : List Item)
    → IsConsistent s.db
    → Unique items
    → All (IsLogged (stored entry (record s { env = env }) ∷ s.revision_log)) items
    → IsConsistent (recorded entry o (set_items (record s { env = env }) items)).db
recorded-IsConsistent entry o s env items c u a = record {
  unique = u;
  numbered = (omega arith, c.numbered);
  logged = a;
  processed_below = (
    omega arith,
    processed_mono s.next_revision _ s.processed_operations (omega arith) c.processed_below,
  );
}

-- A row that the update affects has the identifier of the row that was read.
same_row :
    (it : Item) (u i : String) (v : ℕ) (id : String)
    → live_at u i v it ≡ true
    → str_eq i id ≡ true
    → str_eq it.item_id id ≡ true
same_row it u i v id h k = ground (arith, eq_iff it.item_id i, eq_iff i id, eq_iff it.item_id id)

module _ (u o : String) (s : Server) (c : IsConsistent s.db) where
  create-IsConsistent :
      (input : CreateInput) (out : CreateOutput)
      → (create u o input s).0 ≡ ok out
      → IsConsistent (create u o input s).1.db
  create-IsConsistent input out h =
      elim (Option-cases (find? (op_key u o) s.processed_operations)) [
        | inr (p, e) ↦ rw (create_again u o s p e input) c
        | inl e ↦
            let free = create_needs u o s e input out h in
            rw (create_fresh u o s e input out h) (
              recorded-IsConsistent
                (new_entry u o (s.env.uuid s.env.ids) created 1 (s.env.times s.env.reads)) o s
                (called (took_id (read_clock (called s)))).env _ c (free, c.unique)
                (IsLogged-self _ _ _ (eq_refl _) refl refl, IsLogged-insert _ _ _ free c.logged))
      ]

  update_recorded :
      (id : String) (v at : ℕ) (input : UpdateInput) (current : Item) (env : Env)
      → find? (item_key u id) s.vault_items ≡ some current
      → current.deleted_at ≡ none
      → exists? (live_at current.user_id current.item_id v) s.vault_items ≡ true
      → let next = apply_update input at current in
        IsConsistent
          (recorded (new_entry u o id updated next.version at) o (
            set_items
              (record s { env = env })
              (update_where
                (live_at current.user_id current.item_id v)
                (overwrite next)
                s.vault_items))).db
  update_recorded id v at input current env found live hit =
      let next = apply_update input at current in
      let entry = stored (new_entry u o id updated next.version at) (record s { env = env }) in
      let p = live_at current.user_id current.item_id v in
      let key = find?-holds (item_key u id) s.vault_items current found in
      let only : (it : Item) → p it ≡ true → str_eq it.item_id id ≡ true =
        λ it h. same_row it current.user_id current.item_id v id h (and-right _ _ key) in
      recorded-IsConsistent (new_entry u o id updated next.version at) o s env _ c
        (Unique-update entry p (overwrite next) (λ it. refl) only s.vault_items c.unique)
        (IsLogged-update entry p (overwrite next) (λ it. refl) only s.revision_log
          (λ it h. (refl, ground arith)) s.vault_items c.unique hit c.logged)

  update-IsConsistent :
      (id : String) (v : ℕ) (input : UpdateInput) (out : UpdateOutput)
      → (update u o id v input s).0 ≡ ok out
      → IsConsistent (update u o id v input s).1.db
  update-IsConsistent id v input out h =
      elim (Option-cases (find? (op_key u o) s.processed_operations)) [
        | inr (p, e) ↦ rw (update_again u o s p e id v input) c
        | inl e ↦
            let (current, found, same, live, hit) = update_needs u o s e id v input out h in
            rw (update_fresh u o s e id v input current out found h) (
              update_recorded id v _ input current (called (read_clock (called (called s)))).env
                found live hit)
      ]

  delete_recorded :
      (id : String) (v at : ℕ) (row : Item) (env : Env)
      → find? (live_at u id v) s.vault_items ≡ some row
      → IsConsistent
          (recorded (new_entry u o id deleted (row.version + 1) at) o (
            set_items
              (record s { env = env })
              (update_where (live_at u id v) (mark_deleted at) s.vault_items))).db
  delete_recorded id v at row env found =
      let fields = new_entry u o id deleted (row.version + 1) at in
      let entry = stored fields (record s { env = env }) in
      let p = live_at u id v in
      let live = find?-holds p s.vault_items row found in
      let only : (it : Item) → p it ≡ true → str_eq it.item_id id ≡ true =
        λ it h. same_row it u id v id h (eq_refl id) in
      recorded-IsConsistent fields o s env _ c
        (Unique-update entry p (mark_deleted at) (λ it. refl) only s.vault_items c.unique)
        (IsLogged-update entry p (mark_deleted at) (λ it. refl) only s.revision_log
          (λ it h. (ground arith, refl)) s.vault_items c.unique
          (find?-some p s.vault_items row found) c.logged)

  delete-IsConsistent :
      (id : String) (v : ℕ) (out : DeleteOutput)
      → (delete u o id v s).0 ≡ ok out
      → IsConsistent (delete u o id v s).1.db
  delete-IsConsistent id v out h = elim (Option-cases (find? (op_key u o) s.processed_operations)) [
    | inr (p, e) ↦ rw (delete_again u o s p e id v) c
    | inl e ↦
        let (row, found) = delete_needs u o s e id v out h in
        rw (delete_fresh u o s e id v row out found h)
          (delete_recorded id v _ row (called (read_clock (called s))).env found)
  ]

Result-cases : {A : Type 0} (r : Result A) → ((e : Error) × (r ≡ err e)) ⊎ ((a : A) × (r ≡ ok a))
Result-cases (ok a) = inr (a, refl)
Result-cases (err e) = inl (e, refl)

-- A transaction is consistent if its function is where it succeeds.
tx-IsConsistent :
    {A : Type 0} (m : Exec A) (s : Server)
    → ((n : ℕ) → Keeps (Above n) m)
    → ((a : A) → (m (called s)).0 ≡ ok a → IsConsistent (m (called s)).1.db)
    → IsConsistent s.db
    → IsConsistent (with_vault_engine_tx m s).1.db
tx-IsConsistent m s above step c = elim (Result-cases (with_vault_engine_tx m s).0) [
  | inl (e, h) ↦ rw (tx_error m s e h) (with_sequence-IsConsistent s.db _ (tx-Above m s above) c)
  | inr (a, h) ↦ let (ran, same) = tx_success m s a h in rw same (step a ran)
]

-- The engine's three mutations, each in a transaction of its own.
pub data Call : Type 0 where
  creates : String → String → CreateInput → Call
  updates : String → String → String → ℕ → UpdateInput → Call
  deletes : String → String → String → ℕ → Call

unfoldable pub step : Call → Server → Server
step (creates u o input) s = (with_vault_engine_tx (create u o input) s).1
step (updates u o id v input) s = (with_vault_engine_tx (update u o id v input) s).1
step (deletes u o id v) s = (with_vault_engine_tx (delete u o id v) s).1

-- A transaction of the engine keeps the tables consistent, whether it succeeds or fails, whatever
-- call of the driver fails on the way and also if COMMIT fails.
pub step-IsConsistent : (c : Call) (s : Server) → IsConsistent s.db → IsConsistent (step c s).db
unfolding step
step-IsConsistent (creates u o input) s c =
    tx-IsConsistent _ s (λ n. create-Above n u o input) (create-IsConsistent u o (called s) c input)
      c
step-IsConsistent (updates u o id v input) s c =
    tx-IsConsistent _ s (λ n. update-Above n u o id v input)
      (update-IsConsistent u o (called s) c id v input) c
step-IsConsistent (deletes u o id v) s c =
    tx-IsConsistent _ s (λ n. delete-Above n u o id v) (delete-IsConsistent u o (called s) c id v) c

unfoldable pub run : List Call → Server → Server
run [] s = s
run (c ∷ cs) s = run cs (step c s)

-- From consistent tables, any sequence of creates, updates and deletes, each in a transaction of its
-- own, leads to consistent tables, whether the calls succeed or fail.
pub run-IsConsistent :
    (cs : List Call) (s : Server) → IsConsistent s.db → IsConsistent (run cs s).db
unfolding run
run-IsConsistent [] s c = c
run-IsConsistent (x ∷ cs) s c = run-IsConsistent cs (step x s) (step-IsConsistent x s c)
