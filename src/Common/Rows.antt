-- ===== src/Common/Rows.antt =====
-- Laws of the statements of Common/Table.
use goph_keeper.Common.{
  ℕ, zero, suc, ◌≤◌, ◌<◌, map, take, length, ◌&&◌, ◌||◌, Bool, true, false, ◌≡◌, ◌∙◌, refl, none,
  some, List, [], ◌∷◌, arith, if◌then◌else◌, Bool-cases, inl, inr,
}
use mathlib.Core.Option
use goph_keeper.Common.Table.{
  find?, exists?, update_where, delete_where, select, sort_by, insert_sorted,
}

module _ {ℓ} {A : Type ℓ} (p : A → Bool) where
  -- A row exists exactly when a query finds one.
  pub find?-none : (xs : List A) → find? p xs ≡ none → exists? p xs ≡ false
  unfolding find? exists?
  find?-none [] h = refl
  find?-none (x ∷ xs) h = ground (arith, find?-none xs)

  pub find?-some : (xs : List A) (a : A) → find? p xs ≡ some a → exists? p xs ≡ true
  unfolding find? exists?
  find?-some [] a h = cc
  find?-some (x ∷ xs) a h = ground (arith, find?-some xs a)

  pub exists?-find? : (xs : List A) → exists? p xs ≡ true → (a : A) × (find? p xs ≡ some a)
  unfolding find? exists?
  exists?-find? [] h = cc
  exists?-find? (x ∷ xs) h = elim (Bool-cases (p x)) [
    | inl e ↦ (x, rw e)
    | inr e ↦ rw e (exists?-find? xs (rw e at h))
  ]

  -- The row that a query returns meets its condition.
  pub find?-holds : (xs : List A) (a : A) → find? p xs ≡ some a → p a ≡ true
  unfolding find?
  find?-holds [] a h = cc
  find?-holds (x ∷ xs) a h = ground (arith, find?-holds xs a)

module _ {ℓ} {A : Type ℓ} (q p : A → Bool) (f : A → A) where
  -- An update that keeps a condition maps the row that the condition finds.
  pub find?-update_where :
      ((a : A) → q (f a) ≡ q a)
      → (xs : List A)
      → find? q (update_where p f xs) ≡ Option.map (λ a. if p a then f a else a) (find? q xs)
  unfolding find? update_where
  find?-update_where keep [] = refl
  find?-update_where keep (x ∷ xs) = ground (arith, keep x, find?-update_where keep xs)

  -- An update that passes over the row that a condition finds.
  pub find?-update_past :
      ((a : A) → q (f a) ≡ q a)
      → (xs : List A) (x : A) → find? q xs ≡ some x
      → p x ≡ false
      → find? q (update_where p f xs) ≡ some x
  find?-update_past keep xs x e h = find?-update_where keep xs ∙ rw (e, h) refl

  -- An update of rows that the condition excludes, by a change that keeps them excluded, is not seen.
  pub find?-update_other :
      ((a : A) → p a ≡ true → q a ≡ false)
      → ((a : A) → p a ≡ true → q (f a) ≡ false)
      → (xs : List A) → find? q (update_where p f xs) ≡ find? q xs
  unfolding find? update_where
  find?-update_other before after [] = refl
  find?-update_other before after (x ∷ xs) =
      ground (arith, before x, after x, find?-update_other before after xs)

  pub exists?-update_where :
      ((a : A) → q (f a) ≡ q a) → (xs : List A) → exists? q (update_where p f xs) ≡ exists? q xs
  unfolding exists? update_where
  exists?-update_where keep [] = refl
  exists?-update_where keep (x ∷ xs) = ground (arith, keep x, exists?-update_where keep xs)

-- An update that ends a condition leaves no row of it.
pub exists?-update_none {ℓ} :
    {A : Type ℓ} (p : A → Bool) (f : A → A)
    → ((a : A) → p (f a) ≡ false)
    → (xs : List A) → exists? p (update_where p f xs) ≡ false
unfolding exists? update_where
exists?-update_none p f ends [] = refl
exists?-update_none p f ends (x ∷ xs) = ground (arith, ends x, exists?-update_none p f ends xs)

-- A statement that passes over a condition, and one that looks at fewer rows.
module _ {ℓ} {A : Type ℓ} (q p : A → Bool) where
  pub find?-delete_other :
      ((a : A) → p a ≡ true → q a ≡ false)
      → (xs : List A) → find? q (delete_where p xs) ≡ find? q xs
  unfolding find? delete_where
  find?-delete_other other [] = refl
  find?-delete_other other (x ∷ xs) = ground (arith, other x, find?-delete_other other xs)

  pub exists?-delete_where :
      (xs : List A) → exists? q xs ≡ false → exists? q (delete_where p xs) ≡ false
  unfolding exists? delete_where
  exists?-delete_where [] e = refl
  exists?-delete_where (x ∷ xs) e = ground (arith, exists?-delete_where xs)

  pub exists?-select : (xs : List A) → exists? q (select p xs) ≡ exists? (λ a. p a && q a) xs
  unfolding exists? select
  exists?-select [] = refl
  exists?-select (x ∷ xs) = ground (arith, exists?-select xs)

  -- What implies a condition that no row meets is met by none.
  pub exists?-none :
      ((a : A) → p a ≡ true → q a ≡ true)
      → (xs : List A) → exists? q xs ≡ false
      → exists? p xs ≡ false
  unfolding exists?
  exists?-none implies [] e = refl
  exists?-none implies (x ∷ xs) e = ground (arith, implies x, exists?-none implies xs)

module _ {ℓ} {A : Type ℓ} (q : A → Bool) where
  pub exists?-take : (n : ℕ) (xs : List A) → exists? q xs ≡ false → exists? q (take n xs) ≡ false
  unfolding exists?
  exists?-take zero xs e = refl
  exists?-take (suc n) [] e = refl
  exists?-take (suc n) (x ∷ xs) e = ground (arith, exists?-take n xs)

  exists?-insert_sorted :
      (leq : A → A → Bool) (e : A) (xs : List A)
      → exists? q (insert_sorted leq e xs) ≡ (q e || exists? q xs)
  unfolding exists? insert_sorted
  exists?-insert_sorted leq e [] = ground arith
  exists?-insert_sorted leq e (x ∷ xs) = ground (arith, exists?-insert_sorted leq e xs)

  -- ORDER BY keeps the rows.
  pub exists?-sort_by :
      (leq : A → A → Bool) (xs : List A) → exists? q (sort_by leq xs) ≡ exists? q xs
  unfolding exists? sort_by
  exists?-sort_by leq [] = refl
  exists?-sort_by leq (x ∷ xs) =
      ground (arith, exists?-insert_sorted leq x (sort_by leq xs), exists?-sort_by leq xs)

pub exists?-map {ℓ κ} :
    {A : Type ℓ} {B : Type κ} (f : A → B) (q : B → Bool) (xs : List A)
    → exists? q (map f xs) ≡ exists? (λ a. q (f a)) xs
unfolding exists?
exists?-map f q [] = refl
exists?-map f q (x ∷ xs) = ground (arith, exists?-map f q xs)

module _ {ℓ} {A : Type ℓ} (p : A → Bool) where
  -- A statement that deletes a row leaves fewer.
  pub length-delete_where :
      (xs : List A)
      → (length (delete_where p xs) ≤ length xs)
        × (exists? p xs ≡ true → length (delete_where p xs) < length xs)
  unfolding exists? delete_where
  length-delete_where [] = ground arith
  length-delete_where (x ∷ xs) = ground (arith, length-delete_where xs)

  -- One statement for two deletions.
  pub delete_where-delete_where :
      (q : A → Bool) (xs : List A)
      → delete_where q (delete_where p xs) ≡ delete_where (λ a. if p a then true else q a) xs
  unfolding delete_where
  delete_where-delete_where q [] = refl
  delete_where-delete_where q (x ∷ xs) = ground (arith, delete_where-delete_where q xs)

  -- A deletion of the rows that are the same as a row of a condition leaves none of it.
  delete_covering :
      (due : A → Bool) (same : A → A → Bool)
      → ((a : A) → same a a ≡ true)
      → (whole xs : List A) → ((a : A) → exists? (λ c. due c && same c a) whole ≡ true → p a ≡ true)
      → ((q : A → Bool) → exists? q xs ≡ true → exists? q whole ≡ true)
      → exists? due (delete_where p xs) ≡ false
  unfolding exists? delete_where
  delete_covering due same itself whole [] covers part = refl
  delete_covering due same itself whole (x ∷ xs) covers part =
      let rest = delete_covering due same itself whole xs covers (λ q e. part q (ground arith)) in
      elim (Bool-cases (due x)) [
        | inl e ↦
            let found = covers x (part (λ c. due c && same c x) (ground (arith, itself x))) in
            ground (arith, rest)
        | inr e ↦ ground (arith, rest)
      ]

  pub delete_where-covers :
      (due : A → Bool) (same : A → A → Bool)
      → ((a : A) → same a a ≡ true)
      → (xs : List A) → ((a : A) → exists? (λ c. due c && same c a) xs ≡ true → p a ≡ true)
      → exists? due (delete_where p xs) ≡ false
  delete_where-covers due same itself xs covers =
      delete_covering due same itself xs xs covers (λ q e. e)
