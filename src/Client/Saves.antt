-- ===== src/Client/Saves.antt =====
-- When SaveSync succeeds.
use goph_keeper.Common.{
  ℕ, ◌+◌, ◌^◌, ◌<◌, Bool, true, false, if◌then◌else◌, ◌≡◌, ◌∙◌, refl, some, List, [], ◌∷◌, ◌++◌,
  arith, str_eq,
}
use goph_keeper.Common.Table.{exists?}
use goph_keeper.Client.Types.{PendingOperation, SyncState}
use goph_keeper.Client.Run.{ok, ◌>>=◌, ◌>>◌}
use goph_keeper.Client.Steps.{Returns, then_step}
use goph_keeper.Client.Storage.{
  Storage, PendingRow, call, read, bindable, same_operation, pending_row, insert_pending,
  insert_all, transaction, save_sync_state, save_sync,
}

-- No two of the operations have the same identifier.
abbrev pub AreDistinct : List PendingOperation → Type 0
AreDistinct [] = Unit
AreDistinct (op ∷ ops) =
    (exists? (λ (o : PendingOperation). str_eq op.operation_id o.operation_id) ops ≡ false)
    × AreDistinct ops

-- Every expected version fits the column.
abbrev pub AreBindable : List PendingOperation → Type 0
AreBindable [] = Unit
AreBindable (op ∷ ops) = (op.expected_version < 2 ^ 63) × AreBindable ops

-- No row has the identifier of one of the operations.
abbrev AreNew : List PendingRow → List PendingOperation → Type 0
AreNew rows [] = Unit
AreNew rows (op ∷ ops) = (exists? (same_operation op.operation_id) rows ≡ false) × AreNew rows ops

or_parts : (a b : Bool) → (if a then true else b) ≡ false → (a ≡ false) × (b ≡ false)
or_parts true b h = absurd cc
or_parts false b h = (refl, h)

not_in_append :
    (p : PendingRow → Bool) (rows : List PendingRow) (r : PendingRow)
    → exists? p rows ≡ false
    → p r ≡ false
    → exists? p (rows ++ r ∷ []) ≡ false
unfolding exists?
not_in_append p [] r h k = rw k refl
not_in_append p (q ∷ rows) r h k =
    let (a, b) = or_parts (p q) (exists? p rows) h in rw (a, not_in_append p rows r b k) refl

none_new : (ops : List PendingOperation) → AreNew [] ops
unfolding exists?
none_new [] = tt
none_new (op ∷ ops) = (refl, none_new ops)

append-AreNew :
    (op : PendingOperation) (rows : List PendingRow) (ops : List PendingOperation)
    → exists? (λ (o : PendingOperation). str_eq op.operation_id o.operation_id) ops ≡ false
    → AreNew rows ops
    → AreNew (rows ++ pending_row op ∷ []) ops
unfolding pending_row exists?
append-AreNew op rows [] h k = tt
append-AreNew op rows (o ∷ ops) h (k, ks) =
    let (a, b) =
      or_parts (str_eq op.operation_id o.operation_id)
        (exists? (λ (x : PendingOperation). str_eq op.operation_id x.operation_id) ops) h in
    (
      not_in_append (same_operation o.operation_id) rows (pending_row op) k a,
      append-AreNew op rows ops b ks,
    )

-- the database without failures
abbrev pub IsQuiet : Storage → Type 0
IsQuiet s = (n : ℕ) → s.fault n ≡ false

abbrev after_insert : PendingOperation → Storage → Storage
after_insert op s = record s {
  tables = record s.tables {
    pending_operations = s.tables.pending_operations ++ pending_row op ∷ [];
  };
  calls = s.calls + 1;
}

insert_pending_succeeds :
    (op : PendingOperation) (s : Storage)
    → IsQuiet s
    → op.expected_version < 2 ^ 63
    → exists? (same_operation op.operation_id) s.tables.pending_operations ≡ false
    → Returns (insert_pending op) s tt (after_insert op s)
unfolding insert_pending call ◌>>=◌ read
insert_pending_succeeds op s quiet small absent =
    let fits : bindable op.expected_version ≡ true = ground (arith, small) in
    rw (fits, quiet s.calls, absent) refl

insert_all_succeeds :
    (ops : List PendingOperation) (s : Storage)
    → IsQuiet s
    → AreDistinct ops
    → AreBindable ops
    → AreNew s.tables.pending_operations ops
    → (s' : Storage) × (Returns (insert_all ops) s tt s' × IsQuiet s')
unfolding insert_all
insert_all_succeeds [] s quiet distinct small fresh = (s, (refl, quiet))
insert_all_succeeds (op ∷ ops) s quiet (alone, distinct) (fits, small) (absent, fresh) =
    let (s', (rest, still)) =
      insert_all_succeeds ops (after_insert op s) quiet distinct small
        (append-AreNew op s.tables.pending_operations ops alone fresh) in
    (
      s',
      (
        then_step (insert_pending op) (λ _. insert_all ops) s tt (after_insert op s)
              (insert_pending_succeeds op s quiet fits absent)
            ∙ rest,
        still,
      ),
    )

save_sync_state_succeeds :
    (st : SyncState) (s : Storage)
    → IsQuiet s
    → st.last_revision < 2 ^ 63
    → AreDistinct st.pending_operations
    → AreBindable st.pending_operations
    → (s' : Storage) × (Returns (save_sync_state st) s tt s' × IsQuiet s')
unfolding save_sync_state call ◌>>=◌
save_sync_state_succeeds st s quiet revision distinct small =
    let cleared : Storage = record s {
      tables = record s.tables { sync_state = some st.last_revision; pending_operations = [] };
      calls = s.calls + 1 + 1;
    } in
    let fits : bindable st.last_revision ≡ true = ground (arith, revision) in
    let (s', (ran, still)) =
      insert_all_succeeds st.pending_operations cleared quiet distinct small
        (none_new st.pending_operations) in
    (s', (rw (fits, quiet s.calls, quiet (s.calls + 1)) ran, still))

call_succeeds : (s : Storage) → IsQuiet s → Returns call s tt (record s { calls = s.calls + 1 })
unfolding call
call_succeeds s quiet = rw (quiet s.calls) refl

-- SaveSync succeeds on a state whose revision and expected versions are below 2^63 and whose operations
-- have distinct identifiers, whatever the database holds, where no call of the driver fails.
pub save_sync_succeeds :
    (st : SyncState) (s : Storage)
    → IsQuiet s
    → st.last_revision < 2 ^ 63
    → AreDistinct st.pending_operations
    → AreBindable st.pending_operations
    → (save_sync st s).0 ≡ ok tt
unfolding save_sync transaction
save_sync_succeeds st s quiet revision distinct small =
    let begun = record s { calls = s.calls + 1 } in
    let (s', (ran, still)) = save_sync_state_succeeds st begun quiet revision distinct small in
    let inside =
      then_step (save_sync_state st) (λ _. call) begun tt s' ran ∙ call_succeeds s' still in
    let whole =
      then_step call (λ _. save_sync_state st >> call) s tt begun (call_succeeds s quiet)
      ∙ inside in
    rw whole refl
