-- ===== src/Client/Saved.antt =====
-- What SaveSync leaves in the tables, and what LoadSync makes of it.
use goph_keeper.Common.{
  ℕ, Bool, ◌+◌, true, false, ◌≡◌, ◌∙◌, ◌⊎◌, inl, inr, refl, ap, Option, none, some, List, [], ◌∷◌,
  ◌++◌, map, arith, append_assoc, append_nil, ◌==◌,
}
use goph_keeper.Common.Bytes.{is_filled}
use goph_keeper.Vault.Payload.{EncryptedField}
use goph_keeper.Sync.Push.{ItemSnapshot}
use goph_keeper.Client.Types.{PendingOperation, SyncState}
use goph_keeper.Client.Run.{Error, Result, ok, err, ◌>>=◌}
use goph_keeper.Client.Steps.{Returns, steps}
use goph_keeper.Client.Storage.{
  Tables, Storage, call, pending_row, pending_operation, insert_pending, insert_all, transaction,
  save_sync_state, save_sync, load_sync, read, restored, restored_snapshot, cipher_of, nonce_of,
  rolled_back, or_zero, next_rows, PendingRow,
}

-- A field that is not there, or has a ciphertext.
abbrev pub IsWhole : Option EncryptedField → Type 0
IsWhole none = Unit
IsWhole (some f) = is_filled f.ciphertext ≡ true

-- An operation whose snapshot has a type, and ciphertexts in its fields.
abbrev pub HasWhole : Option ItemSnapshot → Type 0
HasWhole none = Unit
HasWhole (some s) =
    ((s.item_type == 0) ≡ false) × IsWhole s.title × IsWhole s.metadata × IsWhole s.payload

abbrev pub AreStorable : List PendingOperation → Type 0
AreStorable [] = Unit
AreStorable (op ∷ ops) = HasWhole op.snapshot × AreStorable ops

restored_back : (f : Option EncryptedField) → IsWhole f → restored (cipher_of f) (nonce_of f) ≡ f
restored_back none h = refl
restored_back (some f) h = rw h refl

snapshot_back :
    (op : PendingOperation) (s : Option ItemSnapshot)
    → HasWhole s
    → restored_snapshot (pending_row (record op { snapshot = s })) ≡ s
unfolding pending_row
snapshot_back op none h = refl
snapshot_back op (some s) (t, a, b, c) =
    rw (t, restored_back s.title a, restored_back s.metadata b, restored_back s.payload c) refl

pending_row_back :
    (op : PendingOperation) → HasWhole op.snapshot → pending_operation (pending_row op) ≡ op
unfolding pending_operation pending_row
pending_row_back op h = ap (λ s. record op { snapshot = s }) (snapshot_back op op.snapshot h)

pending_rows_back :
    (ops : List PendingOperation)
    → AreStorable ops
    → map pending_operation (map pending_row ops) ≡ ops
pending_rows_back [] h = refl
pending_rows_back (op ∷ ops) (h, hs) = rw (pending_row_back op h, pending_rows_back ops hs) refl

call_leaves :
    (s : Storage) (u : Unit {0}) (s' : Storage) → Returns call s u s' → s'.tables ≡ s.tables
unfolding call
call_leaves s u s' h = ground arith

insert_pending_leaves :
    (op : PendingOperation) (s : Storage) (u : Unit {0}) (s' : Storage)
    → Returns (insert_pending op) s u s'
    → s'.tables
      ≡ record s.tables { pending_operations = s.tables.pending_operations ++ pending_row op ∷ [] }
unfolding insert_pending call ◌>>=◌ read
insert_pending_leaves op s u s' h = ground arith

insert_all_leaves :
    (ops : List PendingOperation) (s : Storage) (u : Unit {0}) (s' : Storage)
    → Returns (insert_all ops) s u s'
    → s'.tables
      ≡ record s.tables { pending_operations = s.tables.pending_operations ++ map pending_row ops }
unfolding insert_all
insert_all_leaves [] s u s' h =
    let e : s' ≡ s = cc in rw (e, append_nil s.tables.pending_operations) refl
insert_all_leaves (op ∷ ops) s u s' h =
    let (v, t, (first, rest)) = steps (insert_pending op) (λ _. insert_all ops) s u s' h in
    let a = insert_pending_leaves op s v t first in
    let b = insert_all_leaves ops t u s' rest in
    rw (b, a, append_assoc s.tables.pending_operations (pending_row op ∷ []) (map pending_row ops))
      refl

-- the tables with a saved state
abbrev pub with_sync_state : SyncState → Tables → Tables
with_sync_state st t = record t {
  sync_state = some st.last_revision;
  pending_operations = map pending_row st.pending_operations;
}

save_sync_state_leaves :
    (st : SyncState) (s : Storage) (u : Unit {0}) (s' : Storage)
    → Returns (save_sync_state st) s u s'
    → s'.tables ≡ with_sync_state st s.tables
unfolding save_sync_state call ◌>>=◌
save_sync_state_leaves st s u s' h =
    let cleared : Storage = record s {
      tables = record s.tables { sync_state = some st.last_revision; pending_operations = [] };
      calls = s.calls + 1 + 1;
    } in
    ground (arith, insert_all_leaves st.pending_operations cleared u s')

rolled_back-ok :
    (before : Tables) (r : Result (Unit {0}) × Storage) (u : Unit {0}) (s' : Storage)
    → ◌≡◌ {A = Result (Unit {0}) × Storage} (rolled_back before r) (ok u, s')
    → ◌≡◌ {A = Result (Unit {0}) × Storage} r (ok u, s')
rolled_back-ok before (ok v, s) u s' h = h
rolled_back-ok before (err e, s) u s' h = absurd cc

rolled_back-err :
    (before : Tables) (r : Result (Unit {0}) × Storage) (e : Error) (s' : Storage)
    → ◌≡◌ {A = Result (Unit {0}) × Storage} (rolled_back before r) (err e, s')
    → s'.tables ≡ before
rolled_back-err before (ok v, s) e s' h = absurd cc
rolled_back-err before (err d, s) e s' h = cc

pub save_sync_leaves :
    (st : SyncState) (s : Storage) (u : Unit {0}) (s' : Storage)
    → Returns (save_sync st) s u s'
    → s'.tables ≡ with_sync_state st s.tables
unfolding save_sync transaction
save_sync_leaves st s u s' h =
    let (v, t, (begun, rest)) = steps call _ s u s' (rolled_back-ok s.tables _ u s' h) in
    let (w, k, (done, committed)) = steps (save_sync_state st) _ t u s' rest in
    rw (call_leaves k u s' committed, save_sync_state_leaves st t w k done, call_leaves s v t begun)
      refl

-- No call from one on fails, as far as the rows of a query.
abbrev pub AreRead : {A : Type 0} → (ℕ → Bool) → ℕ → List A → Type 0
AreRead fault n [] = Unit
AreRead fault n (x ∷ xs) = (fault n ≡ false) × AreRead fault (n + 1) xs

next_rows-AreRead :
    (rows : List PendingRow) (s : Storage)
    → AreRead s.fault s.calls rows
    → (next_rows rows s).0 ≡ rows
unfolding next_rows
next_rows-AreRead [] s h = refl
next_rows-AreRead (r ∷ rows) s (h, hs) =
    rw h (ap (◌∷◌ r) (next_rows-AreRead rows (record s { calls = s.calls + 1 }) hs))

load_sync_returns :
    (s : Storage)
    → s.fault s.calls ≡ false
    → s.fault (s.calls + 1) ≡ false
    → AreRead s.fault (s.calls + 1 + 1) s.tables.pending_operations
    → (load_sync s).0
      ≡ ok (record {
        last_revision = or_zero s.tables.sync_state;
        pending_operations = map pending_operation s.tables.pending_operations;
      })
unfolding load_sync call ◌>>=◌ read
load_sync_returns s e k rows =
    rw (e, k)
      (ap
        (λ (got : List PendingRow). ok (record {
          last_revision = or_zero s.tables.sync_state;
          pending_operations = map pending_operation got;
        }))
        (next_rows-AreRead s.tables.pending_operations (record s { calls = s.calls + 1 + 1 }) rows))

rows_read :
    (fault : ℕ → Bool) (n : ℕ) (ops : List PendingOperation)
    → AreRead fault n ops
    → AreRead fault n (map pending_row ops)
rows_read fault n [] h = tt
rows_read fault n (op ∷ ops) (h, hs) = (h, rows_read fault (n + 1) ops hs)

-- the two ways in which SaveSync ends
saved_or_not :
    (st : SyncState) (s : Storage) (r : Result (Unit {0}) × Storage)
    → ◌≡◌ {A = Result (Unit {0}) × Storage} (save_sync st s) r
    → ((r.0 ≡ ok tt) × (r.1.tables ≡ with_sync_state st s.tables))
      ⊎ ((e : Error) × (r.0 ≡ err e) × (r.1.tables ≡ s.tables))
unfolding save_sync transaction
saved_or_not st s (ok u, s') h = inl (refl, save_sync_leaves st s u s' h)
saved_or_not st s (err e, s') h = inr (e, refl, rolled_back-err s.tables _ e s' h)

-- SaveSync that returns an error leaves every table as it was; one that succeeds leaves the other two
-- tables as they were, the given revision, and one row for each of the given operations, in their order.
pub save_sync_atomic :
    (st : SyncState) (s : Storage)
    → (((save_sync st s).0 ≡ ok tt) × ((save_sync st s).1.tables ≡ with_sync_state st s.tables))
      ⊎ ((e : Error) × ((save_sync st s).0 ≡ err e) × ((save_sync st s).1.tables ≡ s.tables))
save_sync_atomic st s = saved_or_not st s (save_sync st s) refl

-- A state that SaveSync has saved, LoadSync returns, where its snapshots have a type and fields with
-- ciphertexts, and the two queries of LoadSync do not fail, nor the reading of a row.
pub save_sync-load_sync :
    (st : SyncState) (s : Storage)
    → AreStorable st.pending_operations
    → (save_sync st s).0 ≡ ok tt
    → (save_sync st s).1.fault (save_sync st s).1.calls ≡ false
    → (save_sync st s).1.fault ((save_sync st s).1.calls + 1) ≡ false
    → AreRead (save_sync st s).1.fault ((save_sync st s).1.calls + 1 + 1) st.pending_operations
    → (load_sync (save_sync st s).1).0 ≡ ok st
save_sync-load_sync st s h saved first second rows =
    let left = save_sync_leaves st s tt (save_sync st s).1 cc in
    load_sync_returns (save_sync st s).1 first second (
      rw left (
        rows_read (save_sync st s).1.fault ((save_sync st s).1.calls + 1 + 1) st.pending_operations
          rows))
    ∙ rw (left, pending_rows_back st.pending_operations h) refl
