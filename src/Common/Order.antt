-- ===== src/Common/Order.antt =====
-- Membership in a list, and what a selection and ORDER BY do to it.
use goph_keeper.Common.{
  Bool, true, false, ◌≡◌, List, [], ◌∷◌, ◌⊎◌, ◌↔◌, inl, inr, Bool-cases, ap, sym, ◌∙◌,
}
use goph_keeper.Common.Table.{select, insert_sorted, sort_by}

-- an occurrence of an element
abbrev pub Among : {A : Type 0} → A → List A → Type 0
Among a [] = ⊥
Among a (x ∷ xs) = (x ≡ a) ⊎ Among a xs

module _ {A : Type 0} (p : A → Bool) where
  pub Among-select : (a : A) (xs : List A) → Among a (select p xs) ↔ (Among a xs × (p a ≡ true))
  unfolding select
  Among-select a [] = (λ m. absurd m, λ m. absurd m.0)
  Among-select a (x ∷ xs) = elim (Bool-cases (p x)) [
    | inl e ↦ rw e (
      λ m. elim m [
        | inl same ↦ (inl same, ap p (sym same) ∙ e)
        | inr k ↦ let (there, holds) = (Among-select a xs).0 k in (inr there, holds)
      ],
      λ m. elim m.0 [ inl same ↦ inl same | inr k ↦ inr ((Among-select a xs).1 (k, m.1)) ],
    )
    | inr e ↦ rw e (
      λ k. let (there, holds) = (Among-select a xs).0 k in (inr there, holds),
      λ m. elim m.0 [
        | inl same ↦ absurd (let clash : true ≡ false = sym m.1 ∙ ap p (sym same) ∙ e in cc)
        | inr k ↦ (Among-select a xs).1 (k, m.1)
      ],
    )
  ]

-- Each row stands before the next one.
abbrev pub AreOrdered : {A : Type 0} → (A → A → Type 0) → List A → Type 0
AreOrdered Precedes [] = Unit
AreOrdered Precedes (x ∷ []) = Unit
AreOrdered Precedes (x ∷ y ∷ ys) = Precedes x y × AreOrdered Precedes (y ∷ ys)

module _ {A : Type 0} (before : A → A → Bool) where
  Among-insert_sorted :
      (a e : A) (xs : List A) → Among a (insert_sorted before e xs) ↔ ((e ≡ a) ⊎ Among a xs)
  unfolding insert_sorted
  Among-insert_sorted a e [] = (λ m. m, λ m. m)
  Among-insert_sorted a e (x ∷ xs) = elim (Bool-cases (before e x)) [
    | inl c ↦ rw c (λ m. m, λ m. m)
    | inr c ↦ rw c (
      λ m. elim m [
        | inl same ↦ inr (inl same)
        | inr k ↦ elim ((Among-insert_sorted a e xs).0 k) [
          | inl same ↦ inl same
          | inr j ↦ inr (inr j)
        ]
      ],
      λ m. elim m [
        | inl same ↦ inr ((Among-insert_sorted a e xs).1 (inl same))
        | inr k ↦ elim k [
          | inl same ↦ inl same
          | inr j ↦ inr ((Among-insert_sorted a e xs).1 (inr j))
        ]
      ],
    )
  ]

  -- ORDER BY keeps the rows.
  pub Among-sort_by : (a : A) (xs : List A) → Among a (sort_by before xs) ↔ Among a xs
  unfolding sort_by
  Among-sort_by a [] = (λ m. m, λ m. m)
  Among-sort_by a (x ∷ xs) = (
    λ m. elim ((Among-insert_sorted a x (sort_by before xs)).0 m) [
      | inl same ↦ inl same
      | inr k ↦ inr ((Among-sort_by a xs).0 k)
    ],
    λ m.
        (Among-insert_sorted a x (sort_by before xs)).1
          (elim m [ inl same ↦ inl same | inr k ↦ inr ((Among-sort_by a xs).1 k) ]),
  )

  module _ (Precedes : A → A → Type 0) where
    insert_sorted-AreOrdered :
        ((x y : A) → before x y ≡ true → Precedes x y)
        → ((x y : A) → before x y ≡ false → Precedes y x)
        → (e : A) (xs : List A) → AreOrdered Precedes xs
        → AreOrdered Precedes (insert_sorted before e xs)
    unfolding insert_sorted
    insert_sorted-AreOrdered first other e [] h = tt
    insert_sorted-AreOrdered first other e (x ∷ []) h = elim (Bool-cases (before e x)) [
      | inl c ↦ rw c (first e x c, tt)
      | inr c ↦ rw c (other e x c, tt)
    ]
    insert_sorted-AreOrdered first other e (x ∷ y ∷ ys) h = elim (Bool-cases (before e x)) [
      | inl c ↦ rw c (first e x c, h)
      | inr c ↦ elim (Bool-cases (before e y)) [
        | inl d ↦ rw (c, d) (other e x c, (first e y d, h.1))
        | inr d ↦
            let rest = insert_sorted-AreOrdered first other e (y ∷ ys) h.1 in
            rw (c, d) (h.0, rw d at rest)
      ]
    ]

    -- ORDER BY puts the rows in order, where any two rows are in order one way or the other.
    pub sort_by-AreOrdered :
        ((x y : A) → before x y ≡ true → Precedes x y)
        → ((x y : A) → before x y ≡ false → Precedes y x)
        → (xs : List A) → AreOrdered Precedes (sort_by before xs)
    unfolding sort_by
    sort_by-AreOrdered first other [] = tt
    sort_by-AreOrdered first other (x ∷ xs) =
        insert_sorted-AreOrdered first other x (sort_by before xs)
          (sort_by-AreOrdered first other xs)
