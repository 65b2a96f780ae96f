-- ===== src/Client/Items.antt =====
-- The items of the local storage as a map from identifiers.
use goph_keeper.Common.{
  ℕ, ◌+◌, ◌^◌, ltb, String, Bool, true, false, ◌≡◌, ◌∙◌, refl, ap, subst, Option, none, some, List,
  [], ◌∷◌, ◌++◌, if◌then◌else◌, str_eq, eq_iff, eq_refl, arith, Bool-cases, inl, inr,
}
use mathlib.Core.Option
use mathlib.Core.Path.{fun_ext}
use goph_keeper.Common.Table.{find?, exists?, update_where, delete_where}
use goph_keeper.Common.Rows.{find?-update_other, find?-delete_other}
use goph_keeper.Vault.Payload.{EncryptedField}
use goph_keeper.Client.Types.{Item, SyncState}
use goph_keeper.Client.Steps.{Returns}
use goph_keeper.Client.Saved.{save_sync_leaves}
use goph_keeper.Client.Run.{Result, ok, err, Exec, ◌>>=◌}
use goph_keeper.Client.Storage.{
  ItemRow, Storage, call, with_id, put_row, item_row, scan_item, upsert, delete, get, cipher_of,
  nonce_of, restored, read, save_sync,
}

-- What the map has for an item: a field without a ciphertext is no field.
abbrev kept_field : Option EncryptedField → Option EncryptedField
kept_field f = restored (cipher_of f) (nonce_of f)

unfoldable pub kept : Item → Item
kept it = record it {
  title = kept_field it.title;
  metadata = kept_field it.metadata;
  payload = kept_field it.payload;
}

abbrev pub view : List ItemRow → String → Option Item
view rows id = Option.map scan_item (find? (with_id id) rows)

abbrev pub with_item : Item → (String → Option Item) → String → Option Item
with_item it m id = if str_eq it.id id then some (kept it) else m id

abbrev pub without_item : String → (String → Option Item) → String → Option Item
without_item gone m id = if str_eq gone id then none else m id

find?-replaced :
    (p : ItemRow → Bool) (r : ItemRow) (rows : List ItemRow)
    → p r ≡ true
    → exists? p rows ≡ true
    → find? p (update_where p (λ _. r) rows) ≡ some r
unfolding exists? find? update_where
find?-replaced p r [] e h = absurd cc
find?-replaced p r (x ∷ rows) e h = ground (arith, find?-replaced p r rows e)

find?-appended :
    (q : ItemRow → Bool) (r : ItemRow) (rows : List ItemRow)
    → (exists? q rows ≡ false → q r ≡ true → find? q (rows ++ r ∷ []) ≡ some r)
      × (q r ≡ false → find? q (rows ++ r ∷ []) ≡ find? q rows)
unfolding find? exists?
find?-appended q r [] = ground arith
find?-appended q r (x ∷ rows) = ground (arith, find?-appended q r rows)

-- two identifiers that are not the same
other_id :
    (a b : String) (r : ItemRow) → str_eq a b ≡ false → with_id a r ≡ true → with_id b r ≡ false
other_id a b r h e = rw ((eq_iff r.id a).0 e) h

find?-put_same :
    (r : ItemRow) (rows : List ItemRow) → find? (with_id r.id) (put_row r rows) ≡ some r
unfolding put_row
find?-put_same r rows = elim (Bool-cases (exists? (with_id r.id) rows)) [
  | inl k ↦ rw k (find?-replaced (with_id r.id) r rows (eq_refl r.id) k)
  | inr k ↦ rw k ((find?-appended (with_id r.id) r rows).0 k (eq_refl r.id))
]

find?-put_row :
    (r : ItemRow) (rows : List ItemRow) (id : String)
    → find? (with_id id) (put_row r rows)
      ≡ (if str_eq r.id id then some r else find? (with_id id) rows)
unfolding put_row
find?-put_row r rows id = elim (Bool-cases (str_eq r.id id)) [
  | inl e ↦
      let same =
        subst (λ k. find? (with_id k) (put_row r rows) ≡ some r) ((eq_iff r.id id).0 e)
          (find?-put_same r rows) in
      rw e same
  | inr e ↦ elim (Bool-cases (exists? (with_id r.id) rows)) [
    | inl k ↦
        rw (e, k)
          (find?-update_other (with_id id) (with_id r.id) (λ _. r) (λ a. other_id r.id id a e)
            (λ a _. e) rows)
    | inr k ↦ rw (e, k) ((find?-appended (with_id id) r rows).1 e)
  ]
]

find?-deleted : (p : ItemRow → Bool) (rows : List ItemRow) → find? p (delete_where p rows) ≡ none
unfolding find? delete_where
find?-deleted p [] = refl
find?-deleted p (x ∷ rows) = ground (arith, find?-deleted p rows)

find?-delete_row :
    (rows : List ItemRow) (gone id : String)
    → find? (with_id id) (delete_where (with_id gone) rows)
      ≡ (if str_eq gone id then none else find? (with_id id) rows)
find?-delete_row rows gone id = elim (Bool-cases (str_eq gone id)) [
  | inl e ↦ rw e (
      subst (λ k. find? (with_id k) (delete_where (with_id gone) rows) ≡ none)
        ((eq_iff gone id).0 e) (find?-deleted (with_id gone) rows))
  | inr e ↦ rw e (find?-delete_other (with_id id) (with_id gone) (λ a. other_id gone id a e) rows)
]

view_put :
    (it : Item) (at : ℕ) (rows : List ItemRow) (id : String)
    → view (put_row (item_row it at) rows) id ≡ with_item it (view rows) id
unfolding item_row scan_item kept
view_put it at rows id = elim (Bool-cases (str_eq it.id id)) [
  | inl e ↦ rw (find?-put_row (item_row it at) rows id, e) refl
  | inr e ↦ rw (find?-put_row (item_row it at) rows id, e) refl
]

view_delete :
    (gone : String) (rows : List ItemRow) (id : String)
    → view (delete_where (with_id gone) rows) id ≡ without_item gone (view rows) id
view_delete gone rows id = elim (Bool-cases (str_eq gone id)) [
  | inl e ↦ rw (find?-delete_row rows gone id, e) refl
  | inr e ↦ rw (find?-delete_row rows gone id, e) refl
]

-- The two statements that change the items.
pub data Action : Type 0 where
  put : Item → Action
  drop_item : String → Action

abbrev pub act : Action → Exec Storage (Unit {0})
act (put it) = upsert it
act (drop_item id) = delete id

abbrev pub on_map : Action → (String → Option Item) → String → Option Item
on_map (put it) m = with_item it m
on_map (drop_item id) m = without_item id m

abbrev pub when_ok : {A : Type 0} → Result (Unit {0}) → A → A → A
when_ok (ok u) new old = new
when_ok (err e) new old = old

abbrev pub items_of : Storage → String → Option Item
items_of s = view s.tables.vault_items

pub act_refines :
    (a : Action) (s : Storage)
    → items_of (act a s).1 ≡ when_ok (act a s).0 (on_map a (items_of s)) (items_of s)
unfolding upsert delete call ◌>>=◌
act_refines (put it) s = fun_ext λ id. elim (Bool-cases (ltb it.version (2 ^ 63))) [
  | inl b ↦ elim (Bool-cases (s.fault s.calls)) [
    | inl e ↦ rw (b, e) refl
    | inr e ↦ rw (b, e) (view_put it (s.times (s.calls + 1)) s.tables.vault_items id)
  ]
  | inr b ↦ rw b refl
]
act_refines (drop_item gone) s = fun_ext λ id. elim (Bool-cases (s.fault s.calls)) [
  | inl e ↦ rw e refl
  | inr e ↦ rw e (view_delete gone s.tables.vault_items id)
]

-- the storage after the statements, and the map after those of them that succeed
abbrev pub run : List Action → Storage → Storage
run [] s = s
run (a ∷ as') s = run as' (act a s).1

abbrev pub replay : List Action → Storage → (String → Option Item) → String → Option Item
replay [] s m = m
replay (a ∷ as') s m = replay as' (act a s).1 (when_ok (act a s).0 (on_map a m) m)

run_replays : (as' : List Action) (s : Storage) → items_of (run as' s) ≡ replay as' s (items_of s)
run_replays [] s = refl
run_replays (a ∷ as') s =
    run_replays as' (act a s).1 ∙ ap (replay as' (act a s).1) (act_refines a s)

pub get_reads : (s : Storage) (id : String) → s.fault s.calls ≡ false → (get id s).0 ≡ items_of s id
unfolding get call ◌>>=◌ read
get_reads s id e = rw e refl

-- what Upsert leaves, and where it leaves the item
pub upsert_items :
    (it : Item) (s : Storage) (u : Unit {0}) (s' : Storage)
    → Returns (upsert it) s u s'
    → items_of s' ≡ with_item it (items_of s)
upsert_items it s u s' h = let r = act_refines (put it) s in rw h at r

pub upsert_reads :
    (it : Item) (s : Storage) (u : Unit {0}) (s' : Storage)
    → Returns (upsert it) s u s'
    → items_of s' it.id ≡ some (kept it)
upsert_reads it s u s' h =
    ap (λ (m : String → Option Item). m it.id) (upsert_items it s u s' h) ∙ rw (eq_refl it.id) refl

-- Saving the state of the synchronisation does not touch the items.
pub save_sync_items :
    (st : SyncState) (s : Storage) (u : Unit {0}) (s' : Storage)
    → Returns (save_sync st) s u s'
    → items_of s' ≡ items_of s
save_sync_items st s u s' h = rw (save_sync_leaves st s u s' h) refl

-- After any sequence of Upsert and Delete, of which any may fail, Get returns what the map of the start
-- holds after the same changes, those of the statements that succeeded, where the query itself does not
-- fail; a field without a ciphertext is not kept.
pub run_refines :
    (actions : List Action) (s : Storage) (id : String)
    → (run actions s).fault (run actions s).calls ≡ false
    → (get id (run actions s)).0 ≡ replay actions s (items_of s) id
run_refines actions s id e =
    get_reads (run actions s) id e ∙ ap (λ (m : String → Option Item). m id) (run_replays actions s)
