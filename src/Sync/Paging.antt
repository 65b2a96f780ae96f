-- ===== src/Sync/Paging.antt =====
-- The pages of PullChanges: where the next page starts, and that nothing is between two pages.
use goph_keeper.Common.{
  length-map, ℕ, zero, suc, ◌+◌, ◌<◌, ◌≤◌, String, Bool, Option, none, some, List, [], ◌∷◌, ◌++◌,
  map, if◌then◌else◌, ltb, take, drop, length, ◌≡◌, refl, sym, ap, ◌∙◌, arith, All, Bool-cases, inl,
  inr, take-append-drop, length-take, take-all, min,
}
use goph_keeper.Common.Table.{select}
use goph_keeper.Server.State.{Db}
use goph_keeper.Vault.Types.{RevisionLogEntry}
use goph_keeper.Vault.Consistency.{Below}
use goph_keeper.Sync.Revisions.{
  RevisionEventRow, entry_after, insert_by_revision, order_by_revision, event_row, entries_after,
}
use goph_keeper.Sync.Handler.{Page, last_revision, page}

-- Revisions rise along the list, from above the bound.
abbrev Rising : ℕ → List RevisionLogEntry → Type 0
Rising n [] = Unit {0}
Rising n (e ∷ es) = (n < e.revision_id) × Rising e.revision_id es

abbrev AllBefore : ℕ → List RevisionLogEntry → Type 0
AllBefore n = All (λ e. e.revision_id < n)

insert_last :
    (e : RevisionLogEntry) (es : List RevisionLogEntry)
    → AllBefore e.revision_id es
    → insert_by_revision e es ≡ es ++ (e ∷ [])
unfolding insert_by_revision
insert_last e [] h = refl
insert_last e (x ∷ es) (h, k) = ground (arith, insert_last e es k)

append-AllBefore :
    (n : ℕ) (es : List RevisionLogEntry) (e : RevisionLogEntry)
    → AllBefore n es
    → e.revision_id < n
    → AllBefore n (es ++ (e ∷ []))
append-AllBefore n [] e h k = (k, tt)
append-AllBefore n (x ∷ es) e (h, hs) k = (h, append-AllBefore n es e hs k)

AllBefore-mono : (n m : ℕ) (es : List RevisionLogEntry) → n ≤ m → AllBefore n es → AllBefore m es
AllBefore-mono n m [] h k = tt
AllBefore-mono n m (x ∷ es) h (k, ks) = (omega arith, AllBefore-mono n m es h ks)

append-Rising :
    (n : ℕ) (es : List RevisionLogEntry) (e : RevisionLogEntry)
    → Rising n es
    → AllBefore e.revision_id es
    → n < e.revision_id
    → Rising n (es ++ (e ∷ []))
append-Rising n [] e r b h = (h, tt)
append-Rising n (x ∷ es) e (r, rs) (b, bs) h = (r, append-Rising x.revision_id es e rs bs b)

-- Entries of a numbered log, as they are listed.
module _ (u : String) (a : ℕ) where
  entries_after-AllBefore :
      (n : ℕ) (log : List RevisionLogEntry) → Below n log → AllBefore n (entries_after log u a)
  unfolding entries_after select order_by_revision
  entries_after-AllBefore n [] b = tt
  entries_after-AllBefore n (e ∷ log) (b, bs) =
      let rest = entries_after-AllBefore e.revision_id log bs in
      let wide = AllBefore-mono e.revision_id n (entries_after log u a) (omega arith) rest in
      elim (Bool-cases (entry_after u a e)) [
        | inl h ↦
            rw (h, insert_last e (entries_after log u a) rest)
              (append-AllBefore n (entries_after log u a) e wide b)
        | inr h ↦ rw h wide
      ]

  -- A new entry that is selected is listed last.
  entries_after-new :
      (e : RevisionLogEntry) (log : List RevisionLogEntry)
      → Below e.revision_id log
      → entries_after (e ∷ log) u a
        ≡ (if entry_after u a e then entries_after log u a ++ (e ∷ []) else entries_after log u a)
  unfolding entries_after select order_by_revision
  entries_after-new e log b = elim (Bool-cases (entry_after u a e)) [
    | inl h ↦ rw h (insert_last e (entries_after log u a) (entries_after-AllBefore _ log b))
    | inr h ↦ rw h refl
  ]

  entries_after-Rising :
      (n : ℕ) (log : List RevisionLogEntry) → Below n log → Rising a (entries_after log u a)
  unfolding entries_after select order_by_revision
  entries_after-Rising n [] b = tt
  entries_after-Rising n (e ∷ log) (b, bs) =
      let rest = entries_after-Rising e.revision_id log bs in
      elim (Bool-cases (entry_after u a e)) [
        | inl h ↦
            rw (entries_after-new e log bs, h)
              (append-Rising a (entries_after log u a) e rest
                (entries_after-AllBefore e.revision_id log bs) (ground arith))
        | inr h ↦ rw (entries_after-new e log bs, h) rest
      ]

abbrev past : ℕ → RevisionLogEntry → Bool
past r e = ltb r e.revision_id

select-append :
    (p : RevisionLogEntry → Bool) (es : List RevisionLogEntry) (e : RevisionLogEntry)
    → select p (es ++ (e ∷ [])) ≡ select p es ++ (if p e then e ∷ [] else [])
unfolding select
select-append p [] e = ground arith
select-append p (x ∷ es) e = ground (arith, select-append p es e)

append_nil : {A : Type 0} (xs : List A) → xs ++ [] ≡ xs
append_nil [] = refl
append_nil (x ∷ xs) = ap (◌∷◌ x) (append_nil xs)

-- A later revision selects among the entries that an earlier one lists.
entries_after-later :
    (u : String) (a r n : ℕ) (log : List RevisionLogEntry)
    → Below n log
    → a ≤ r
    → entries_after log u r ≡ select (past r) (entries_after log u a)
unfolding entries_after select order_by_revision
entries_after-later u a r n [] b h = refl
entries_after-later u a r n (e ∷ log) (b, bs) h = ground (
  arith,
  entries_after-new u a e log bs,
  entries_after-new u r e log bs,
  entries_after-later u a r e.revision_id log bs h,
  select-append (past r) (entries_after log u a) e,
  append_nil (select (past r) (entries_after log u a)),
)

select-Rising :
    (r n : ℕ) (es : List RevisionLogEntry) → r ≤ n → Rising n es → select (past r) es ≡ es
unfolding select
select-Rising r n [] h k = refl
select-Rising r n (e ∷ es) h (k, ks) =
    ground (arith, select-Rising r e.revision_id es (omega arith) ks)

abbrev last_entry : List RevisionLogEntry → Option ℕ
last_entry [] = none
last_entry (e ∷ []) = some e.revision_id
last_entry (e ∷ (x ∷ es)) = last_entry (x ∷ es)

last_revision-map :
    (d : Db) (es : List RevisionLogEntry) → last_revision (map (event_row d) es) ≡ last_entry es
unfolding event_row
last_revision-map d [] = refl
last_revision-map d (e ∷ []) = refl
last_revision-map d (e ∷ (x ∷ es)) = last_revision-map d (x ∷ es)

last_entry-above :
    (n r : ℕ) (es : List RevisionLogEntry) → Rising n es → last_entry es ≡ some r → n < r
last_entry-above n r [] k h = absurd cc
last_entry-above n r (e ∷ []) (k, ks) h = ground arith
last_entry-above n r (e ∷ (x ∷ es)) (k, ks) h =
    let l = last_entry-above e.revision_id r (x ∷ es) ks h in omega arith

take-Rising : (n k : ℕ) (es : List RevisionLogEntry) → Rising n es → Rising n (take k es)
take-Rising n zero es h = tt
take-Rising n (suc k) [] h = tt
take-Rising n (suc k) (e ∷ es) (h, hs) = (h, take-Rising e.revision_id k es hs)

-- What is past the last entry of a page is what the page leaves.
select-drop :
    (n k r : ℕ) (es : List RevisionLogEntry)
    → Rising n es
    → last_entry (take k es) ≡ some r
    → select (past r) es ≡ drop k es
unfolding select
select-drop n zero r es h l = absurd cc
select-drop n (suc k) r [] h l = absurd cc
select-drop n (suc zero) r (e ∷ es) (h, hs) l =
    ground (arith, select-Rising r e.revision_id es (ground arith) hs)
select-drop n (suc (suc k)) r (e ∷ []) (h, hs) l = ground arith
select-drop n (suc (suc k)) r (e ∷ (x ∷ es)) (h, hs) l =
    let above =
      last_entry-above e.revision_id r (take (suc k) (x ∷ es))
        (take-Rising e.revision_id (suc k) (x ∷ es) hs) l in
    ground (arith, select-drop e.revision_id (suc k) r (x ∷ es) hs l)

map-append : {A B : Type 0} (f : A → B) (xs ys : List A) → map f (xs ++ ys) ≡ map f xs ++ map f ys
map-append f [] ys = refl
map-append f (x ∷ xs) ys = ap (◌∷◌ (f x)) (map-append f xs ys)

take-map : {A B : Type 0} (f : A → B) (k : ℕ) (xs : List A) → take k (map f xs) ≡ map f (take k xs)
take-map f zero xs = refl
take-map f (suc k) [] = refl
take-map f (suc k) (x ∷ xs) = ap (◌∷◌ (f x)) (take-map f k xs)

take-take : {A : Type 0} (k m : ℕ) (xs : List A) → k ≤ m → take k (take m xs) ≡ take k xs
take-take zero m xs h = refl
take-take (suc k) zero xs h = absurd (omega arith)
take-take (suc k) (suc m) [] h = refl
take-take (suc k) (suc m) (x ∷ xs) h = ap (◌∷◌ x) (take-take k m xs (omega arith))

last_entry-exists :
    (es : List RevisionLogEntry) → 0 < length es → (r : ℕ) × (last_entry es ≡ some r)
last_entry-exists [] h = absurd (omega arith)
last_entry-exists (e ∷ []) h = (e.revision_id, refl)
last_entry-exists (e ∷ (x ∷ es)) h = last_entry-exists (x ∷ es) (omega arith)

-- the rows of all later pages
abbrev pub later_rows : Db → String → Option ℕ → List RevisionEventRow
later_rows d u none = []
later_rows d u (some r) = map (event_row d) (entries_after d.revision_log u r)

-- the page that is read after revision `a`
abbrev pub page_after : Db → String → ℕ → ℕ → Page
page_after d u a limit =
    page limit (map (event_row d) (take (limit + 1) (entries_after d.revision_log u a)))

module _ (d : Db) (u : String) (a limit : ℕ) (numbered : Below d.next_revision d.revision_log)
    (positive : 0 < limit) where
  -- What is listed after the last revision of a page is what the page leaves.
  rest_after :
      (r : ℕ)
      → last_entry (take limit (entries_after d.revision_log u a)) ≡ some r
      → entries_after d.revision_log u r ≡ drop limit (entries_after d.revision_log u a)
  rest_after r l =
      let rising = entries_after-Rising u a d.next_revision d.revision_log numbered in
      let above = last_entry-above a r _ (take-Rising a limit _ rising) l in
      entries_after-later u a r d.next_revision d.revision_log numbered (omega arith)
      ∙ select-drop a limit r _ rising l

  -- In a numbered log, the rows after a revision are the rows of the page read after it, of at least
  -- one row, followed by the rows after the revision that the page's token names, or by none if the
  -- page has no token.
  pub page_complete :
      map (event_row d) (entries_after d.revision_log u a)
      ≡ (page_after d u a limit).changes ++ later_rows d u (page_after d u a limit).next_page
  unfolding page
  page_complete =
      let es = entries_after d.revision_log u a in
      let rows = map (event_row d) (take (limit + 1) es) in
      let size : length rows ≡ min (limit + 1) (length es) =
        length-map (event_row d) (take (limit + 1) es) ∙ length-take (limit + 1) es in
      elim (Bool-cases (ltb limit (length rows))) [
        | inl h ↦
            let first : take limit rows ≡ map (event_row d) (take limit es) =
              take-map (event_row d) limit _
              ∙ ap (map (event_row d)) (take-take limit _ es (omega arith)) in
            let some_left : 0 < length (take limit es) = ground (arith, length-take limit es) in
            let (r, l) = last_entry-exists (take limit es) some_left in
            rw (h, first, last_revision-map d (take limit es), l, rest_after r l)
              (ap (map (event_row d)) (sym (take-append-drop limit es))
                ∙ map-append (event_row d) (take limit es) (drop limit es))
        | inr h ↦
            let short : length es ≤ limit + 1 = ground arith in
            rw (h, append_nil rows) (ap (map (event_row d)) (sym (take-all (limit + 1) es short)))
      ]
