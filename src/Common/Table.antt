-- ===== src/Common/Table.antt =====
-- A table is a list of rows. These are the statements that the repositories make of one: the rows
-- that a WHERE clause selects, the row that a query by key returns, UPDATE, DELETE and the number
-- of rows affected.
use Prim.Native.Nat.{ℕ, ◌+◌}
use mathlib.Core.Bool.{Bool, true, false}
use mathlib.Core.List.{List, [], ◌∷◌}
use mathlib.Core.Option.{Option, none, some}
use goph_keeper.Common.Tests.{if◌then◌else◌, leb}

-- IS NULL
abbrev pub is_null {ℓ} : {A : Type ℓ} → Option A → Bool
is_null none = true
is_null (some a) = false

module _ {ℓ} {A : Type ℓ} where
  unfoldable pub select : (A → Bool) → List A → List A
  select p [] = []
  select p (x ∷ xs) = let rest = select p xs in if p x then x ∷ rest else rest

  unfoldable pub find? : (A → Bool) → List A → Option A
  find? p [] = none
  find? p (x ∷ xs) = if p x then some x else find? p xs

  unfoldable pub update_where : (A → Bool) → (A → A) → List A → List A
  update_where p f [] = []
  update_where p f (x ∷ xs) = (if p x then f x else x) ∷ update_where p f xs

  unfoldable pub delete_where : (A → Bool) → List A → List A
  delete_where p [] = []
  delete_where p (x ∷ xs) = let rest = delete_where p xs in if p x then rest else x ∷ rest

  -- whether a statement affects a row at all
  unfoldable pub exists? : (A → Bool) → List A → Bool
  exists? p [] = false
  exists? p (x ∷ xs) = if p x then true else exists? p xs

  -- the number of rows that a statement affects
  unfoldable pub count_where : (A → Bool) → List A → ℕ
  count_where p [] = 0
  count_where p (x ∷ xs) = if p x then count_where p xs + 1 else count_where p xs

module _ {ℓ} {A : Type ℓ} (before : A → A → Bool) where
  -- ORDER BY
  unfoldable pub insert_sorted : A → List A → List A
  insert_sorted e [] = e ∷ []
  insert_sorted e (x ∷ xs) =
      let rest = insert_sorted e xs in if before e x then e ∷ x ∷ xs else x ∷ rest

  unfoldable pub sort_by : List A → List A
  sort_by [] = []
  sort_by (e ∷ es) = insert_sorted e (sort_by es)

-- ORDER BY a column of numbers, ASC
unfoldable pub order_by {ℓ} : {A : Type ℓ} → (A → ℕ) → List A → List A
order_by key xs = sort_by (λ a b. leb (key a) (key b)) xs
