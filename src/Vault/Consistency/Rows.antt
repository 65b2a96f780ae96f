-- ===== src/Vault/Consistency/Rows.antt =====
-- How the parts of consistency pass through an insertion and an update.
use goph_keeper.Common.{
  ℕ, ◌<◌, ◌≤◌, Bool, true, false, not, ◌≡◌, refl, subst, List, [], ◌∷◌, str_eq, eq_iff, All, arith,
  if◌then◌else◌, Bool-cases, inl, inr,
}
use goph_keeper.Common.Table.{find?, exists?, update_where}
use goph_keeper.Common.Rows.{exists?-update_where}
use goph_keeper.Vault.Types.{Item, RevisionLogEntry, ProcessedOperation}
use goph_keeper.Vault.Repository.{is_null}
use goph_keeper.Vault.Consistency.{with_id, is_deleted, Unique, Below, IsLogged}

pub Below-mono : (m n : ℕ) (log : List RevisionLogEntry) → m ≤ n → Below m log → Below n log
Below-mono m n [] h b = tt
Below-mono m n (e ∷ rest) h b = (omega arith, b.1)

pub processed_mono :
    (m n : ℕ) (ps : List ProcessedOperation)
    → m ≤ n
    → All (λ p. p.revision_id < m) ps
    → All (λ p. p.revision_id < n) ps
processed_mono m n [] h a = tt
processed_mono m n (p ∷ ps) h a = (omega arith, processed_mono m n ps h a.1)

-- An entry about another item changes nothing for an item.
IsLogged-other :
    (log : List RevisionLogEntry) (e : RevisionLogEntry) (it : Item)
    → str_eq e.item_id it.item_id ≡ false
    → IsLogged log it
    → IsLogged (e ∷ log) it
unfolding find?
IsLogged-other log e it ne h = record {
  entry = h.entry;
  latest = rw ne h.latest;
  version_agrees = h.version_agrees;
  deletion_agrees = h.deletion_agrees;
}

-- The entry about an item that gives its version and says whether it is deleted.
pub IsLogged-self :
    (log : List RevisionLogEntry) (e : RevisionLogEntry) (it : Item)
    → str_eq e.item_id it.item_id ≡ true
    → e.item_version ≡ it.version
    → is_deleted e.change_type ≡ not (is_null it.deleted_at)
    → IsLogged (e ∷ log) it
unfolding find?
IsLogged-self log e it eq v d = record {
  entry = e;
  latest = rw eq refl;
  version_agrees = v;
  deletion_agrees = d;
}

-- A new item under an identifier that was free: the other items keep their latest entries.
pub IsLogged-insert :
    (log : List RevisionLogEntry) (e : RevisionLogEntry) (items : List Item)
    → exists? (with_id e.item_id) items ≡ false
    → All (IsLogged log) items
    → All (IsLogged (e ∷ log)) items
unfolding exists?
IsLogged-insert log e [] free a = tt
IsLogged-insert log e (it ∷ items) free a = (
  IsLogged-other log e it (ground (arith, eq_iff e.item_id it.item_id, eq_iff it.item_id e.item_id))
      a.0,
  IsLogged-insert log e items (ground arith) a.1,
)

module _ (e : RevisionLogEntry) (p : Item → Bool) (f : Item → Item)
    (keeps_id : (it : Item) → (f it).item_id ≡ it.item_id)
    (only : (it : Item) → p it ≡ true → str_eq it.item_id e.item_id ≡ true) where
  same_id : (it : Item) → (if p it then f it else it).item_id ≡ it.item_id
  same_id it = ground (arith, keeps_id it)

  pub Unique-update : (items : List Item) → Unique items → Unique (update_where p f items)
  unfolding update_where
  Unique-update [] u = tt
  Unique-update (it ∷ items) u = (
    rw (same_id it, exists?-update_where (with_id it.item_id) p f (λ r. rw (keeps_id r)) items) u.0,
    Unique-update items u.1,
  )

  -- the row that the update affects has the entry's identifier
  exists?-with_id :
      (items : List Item) → exists? p items ≡ true → exists? (with_id e.item_id) items ≡ true
  unfolding exists?
  exists?-with_id [] x = x
  exists?-with_id (it ∷ items) x = ground (arith, only it, exists?-with_id items)

  vacuous :
      (items : List Item)
      → exists? (with_id e.item_id) items ≡ false
      → All (λ it. str_eq it.item_id e.item_id ≡ true → p it ≡ true) items
  unfolding exists?
  vacuous [] x = tt
  vacuous (it ∷ items) x = (λ h. ground arith, vacuous items (ground arith))

  Unique-hit :
      (items : List Item)
      → Unique items
      → exists? p items ≡ true
      → All (λ it. str_eq it.item_id e.item_id ≡ true → p it ≡ true) items
  unfolding exists?
  Unique-hit [] u x = tt
  Unique-hit (it ∷ items) u x = elim (Bool-cases (p it)) [
    | inl hit ↦ (
      λ _. hit,
      vacuous items (
          subst (λ i. exists? (with_id i) items ≡ false)
            ((eq_iff it.item_id e.item_id).0 (only it hit)) u.0),
    )
    | inr miss ↦ (
      λ same. cc (
        subst (λ i. exists? (with_id i) items ≡ false) ((eq_iff it.item_id e.item_id).0 same) u.0,
        exists?-with_id items (rw miss at x),
      ),
      Unique-hit items u.1 (rw miss at x),
    )
  ]

  module _ (log : List RevisionLogEntry)
      (agrees : (it : Item)
        → p it ≡ true
        → (e.item_version ≡ (f it).version)
          × (is_deleted e.change_type ≡ not (is_null (f it).deleted_at))) where
    -- No row with the identifier is left out of the update.
    IsLogged-update-All :
        (items : List Item)
        → All (λ it. str_eq it.item_id e.item_id ≡ true → p it ≡ true) items
        → All (IsLogged log) items
        → All (IsLogged (e ∷ log)) (update_where p f items)
    unfolding update_where
    IsLogged-update-All [] all a = tt
    IsLogged-update-All (it ∷ items) all a = elim (Bool-cases (p it)) [
      | inl hit ↦ rw hit (
        IsLogged-self log e (f it)
            (ground (
              arith,
              only it hit,
              keeps_id it,
              eq_iff it.item_id e.item_id,
              eq_iff e.item_id (f it).item_id,
            ))
            (agrees it hit).0 (agrees it hit).1,
        IsLogged-update-All items all.1 a.1,
      )
      | inr miss ↦ rw miss (
        IsLogged-other log e it
            (ground (arith, all.0, eq_iff it.item_id e.item_id, eq_iff e.item_id it.item_id)) a.0,
        IsLogged-update-All items all.1 a.1,
      )
    ]

    -- With unique identifiers, one row that the update affects is enough.
    pub IsLogged-update :
        (items : List Item)
        → Unique items
        → exists? p items ≡ true
        → All (IsLogged log) items
        → All (IsLogged (e ∷ log)) (update_where p f items)
    unfolding exists?
    IsLogged-update items u x a = IsLogged-update-All items (Unique-hit items u x) a
