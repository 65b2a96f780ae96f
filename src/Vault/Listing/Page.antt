-- ===== src/Vault/Listing/Page.antt =====
-- What a page of items is.
use goph_keeper.Common.{
  ℕ, zero, suc, ◌+◌, ◌*◌, ◌^◌, ◌≤◌, ◌<◌, ◌==◌, String, Bool, true, false, ◌&&◌, ◌||◌, ◌≡◌, ◌∙◌, ◌⊎◌,
  ◌↔◌, refl, sym, ap, Option, none, some, List, [], ◌∷◌, arith, Bool-cases, Option-cases, inl, inr,
  length, take, get_elem?, length-take, take-all, ltb, leb, eq_iff, ==_iff, str_eq,
}
use goph_keeper.Common.Table.{select, sort_by, is_null}
use goph_keeper.Common.Order.{Among, Among-select, Among-sort_by, AreOrdered, sort_by-AreOrdered}
use goph_keeper.Common.Text.{concat, format_uint}
use goph_keeper.Server.Error.{ok}
use goph_keeper.Server.State.{Server}
use goph_keeper.Server.Exec.{◌>>=◌, call}
use goph_keeper.Vault.Types.{Item}
use goph_keeper.Vault.Listing.{
  Sql, Signed, parse_page_token, listed, newest_first, list_limit, list_page, next_token,
  list_items, list, item_token, after_token, older,
}

module _ {ℓ} {A : Type ℓ} where
  take_again : (n : ℕ) (xs : List A) → take n (take (suc n) xs) ≡ take n xs
  take_again zero xs = refl
  take_again (suc n) [] = refl
  take_again (suc n) (x ∷ xs) = ap (◌∷◌ x) (take_again n xs)

  get_again : (n : ℕ) (xs : List A) → get_elem? (take (suc n) xs) n ≡ get_elem? xs n
  get_again zero [] = refl
  get_again zero (x ∷ xs) = refl
  get_again (suc n) [] = refl
  get_again (suc n) (x ∷ xs) = get_again n xs

  get_past : (n : ℕ) (xs : List A) → length xs ≤ n → get_elem? xs n ≡ none
  get_past n [] h = refl
  get_past zero (x ∷ xs) h = absurd (omega arith)
  get_past (suc n) (x ∷ xs) h = get_past n xs (omega arith)

-- The page of the rows that were read is the start of all rows, and its token is of the row after it.
page_of :
    (limit : ℕ) (rows : List Item)
    → list_page limit (take (suc limit) rows) ≡ (take limit rows, next_token (get_elem? rows limit))
unfolding list_page
page_of limit rows = elim (Bool-cases (ltb limit (length (take (suc limit) rows)))) [
  | inl e ↦ rw (e, take_again limit rows, get_again limit rows) refl
  | inr e ↦
      let short : length rows ≤ limit = ground (arith, e, length-take (suc limit) rows) in
      rw
        (
          e,
          take-all (suc limit) rows (omega (arith, short)),
          take-all limit rows short,
          get_past limit rows short,
        )
        refl
]

abbrev matching : Sql → String → Bool → Option (Signed × String) → Server → List Item
matching sql user_id include_deleted token s =
    sort_by (newest_first sql) (select (listed sql user_id include_deleted token) s.vault_items)

plus_one : (n : ℕ) → n + 1 ≡ suc n
plus_one n = omega arith

ran_to :
    (sql : Sql) (user_id : String) (include_deleted : Bool) (size : ℕ) (page_token : String)
    (s : Server) (page : List Item × String)
    → (list sql user_id include_deleted size page_token s).0 ≡ ok page
    → (token : Option (Signed × String)) × (parse_page_token page_token ≡ some token)
      × (page
          ≡ list_page
              (list_limit size)
              (take (list_limit size + 1) (matching sql user_id include_deleted token s)))
unfolding list list_items call ◌>>=◌
ran_to sql user_id include_deleted size page_token s page ran =
    elim (Option-cases (parse_page_token page_token)) [
      | inl e ↦ absurd (ground (arith, ran, e))
      | inr (token, e) ↦ (token, e, ground (arith, ran, e))
    ]

-- What a request asks of an item: that it is of the user, that it is not deleted unless the request
-- includes such items, and that it is older than the token, at the same time by its identifier.
abbrev IsAfter : Sql → Option (Signed × String) → Item → Type 0
IsAfter sql none it = Unit
IsAfter sql (some (nanos, id)) it =
    (at : ℕ) × ((sql.to_timestamp nanos ≡ some at)
      × ((it.updated_at < at) ⊎ ((it.updated_at ≡ at) × (sql.text_less it.item_id id ≡ true))))

abbrev pub IsRequested : Sql → String → Bool → Option (Signed × String) → Item → Type 0
IsRequested sql user_id include_deleted token it =
    (it.user_id ≡ user_id)
    × ((include_deleted ≡ true) ⊎ (it.deleted_at ≡ none))
    × IsAfter sql token it

-- The order of a page: later changes first, and of one time the greater identifier first.
abbrev pub IsNewer : Sql → Item → Item → Type 0
IsNewer sql a b =
    (b.updated_at < a.updated_at)
    ⊎ ((b.updated_at ≡ a.updated_at) × (sql.text_less a.item_id b.item_id ≡ false))

-- The token of the row after a page.
abbrev pub token_for : Option Item → String
token_for none = ""
token_for (some it) = concat (format_uint (it.updated_at * 1000)) (concat ":" it.item_id)

token_for_next : (o : Option Item) → next_token o ≡ token_for o
unfolding item_token
token_for_next none = refl
token_for_next (some it) = refl

-- The rows that a page is the start of.
pub record IsExcerpt (sql : Sql) (user_id : String) (include_deleted : Bool) (size : ℕ)
    (token : Option (Signed × String)) (items : List Item) (page : List Item × String)
    : Type 0 where
  pub rows : List Item
  pub limit : ℕ
  pub shown : page ≡ (take limit rows, token_for (get_elem? rows limit))
  pub ordered : AreOrdered (IsNewer sql) rows
  pub requested :
      (it : Item)
      → Among it rows ↔ (Among it items × IsRequested sql user_id include_deleted token it)
  pub limited :
      ((limit ≡ size) × (1 ≤ size) × (size ≤ 500))
      ⊎ (((limit ≡ 500) × (500 < size)) ⊎ ((limit ≡ 50) × ((size ≡ 0) ⊎ (2 ^ 31 ≤ size))))

and_parts : (a b : Bool) → ((a && b) ≡ true) ↔ ((a ≡ true) × (b ≡ true))
and_parts true b = (λ h. (refl, h), λ h. h.1)
and_parts false b = (λ h. absurd cc, λ h. absurd cc)

or_parts : (a b : Bool) → ((a || b) ≡ true) ↔ ((a ≡ true) ⊎ (b ≡ true))
or_parts true b = (λ h. inl refl, λ h. refl)
or_parts false b = (λ h. inr h, λ h. elim h [ inl e ↦ absurd cc | inr e ↦ e ])

null_iff : (o : Option ℕ) → (is_null o ≡ true) ↔ (o ≡ none)
null_iff none = (λ h. refl, λ h. refl)
null_iff (some n) = (λ h. absurd cc, λ h. absurd cc)

less_iff : (m n : ℕ) → (ltb m n ≡ true) ↔ (m < n)
less_iff m n = (λ h. ground (arith, h), λ h. ground (arith, h))

older_iff :
    (sql : Sql) (o : Option ℕ) (id : String) (it : Item)
    → (older sql o id it ≡ true) ↔ (
        (at : ℕ) × ((o ≡ some at)
          × ((it.updated_at < at) ⊎ ((it.updated_at ≡ at) × (sql.text_less it.item_id id ≡ true)))))
older_iff sql none id it = (λ h. absurd cc, λ (at, (e, h)). absurd cc)
older_iff sql (some at) id it = (
  λ h. (
    at,
    (
      refl,
      elim ((or_parts (ltb it.updated_at at) _).0 h) [
        | inl e ↦ inl ((less_iff it.updated_at at).0 e)
        | inr e ↦
            let (same, less) =
              (and_parts (it.updated_at == at) (sql.text_less it.item_id id)).0 e in
            inr ((==_iff it.updated_at at).0 same, less)
      ],
    ),
  ),
  λ (t, (e, h)).
      let same : at ≡ t = cc in
      (or_parts (ltb it.updated_at at) _).1 (elim h [
        | inl k ↦ inl ((less_iff it.updated_at at).1 (rw same k))
        | inr k ↦ inr (
            (and_parts (it.updated_at == at) (sql.text_less it.item_id id)).1
              ((==_iff it.updated_at at).1 (k.0 ∙ sym same), k.1))
      ]),
)

after_token-IsAfter :
    (sql : Sql) (token : Option (Signed × String)) (it : Item)
    → (after_token sql token it ≡ true) ↔ IsAfter sql token it
after_token-IsAfter sql none it = (λ h. tt, λ h. refl)
after_token-IsAfter sql (some (nanos, id)) it = older_iff sql (sql.to_timestamp nanos) id it

listed-IsRequested :
    (sql : Sql) (user_id : String) (include_deleted : Bool) (token : Option (Signed × String))
    (it : Item)
    → (listed sql user_id include_deleted token it ≡ true)
      ↔ IsRequested sql user_id include_deleted token it
listed-IsRequested sql user_id include_deleted token it =
    let own = str_eq it.user_id user_id in
    let live = include_deleted || is_null it.deleted_at in
    let after = after_token sql token it in
    (
      λ h.
          let (both, old) = (and_parts (own && live) after).0 h in
          let (mine, kept) = (and_parts own live).0 both in
          (
            (eq_iff it.user_id user_id).0 mine,
            elim ((or_parts include_deleted (is_null it.deleted_at)).0 kept) [
              | inl e ↦ inl e
              | inr e ↦ inr ((null_iff it.deleted_at).0 e)
            ],
            (after_token-IsAfter sql token it).0 old,
          ),
      λ (mine, kept, old). (and_parts (own && live) after).1 (
        (and_parts own live).1 (
          (eq_iff it.user_id user_id).1 mine,
          (or_parts include_deleted (is_null it.deleted_at)).1
              (elim kept [ inl e ↦ inl e | inr e ↦ inr ((null_iff it.deleted_at).1 e) ]),
        ),
        (after_token-IsAfter sql token it).1 old,
      ),
    )

newest_first-IsNewer : (sql : Sql) (a b : Item) → newest_first sql a b ≡ true → IsNewer sql a b
newest_first-IsNewer sql a b h = ground arith

-- A collation orders two texts one way at most.
abbrev pub IsStrict : (String → String → Bool) → Type 0
IsStrict less = (x y : String) → less x y ≡ true → less y x ≡ false

newest_first-other :
    (sql : Sql)
    → IsStrict sql.text_less
    → (a b : Item) → newest_first sql a b ≡ false
    → IsNewer sql b a
newest_first-other sql strict a b h = ground (arith, strict a.item_id b.item_id)

limit_cases :
    (size : ℕ)
    → ((list_limit size ≡ size) × (1 ≤ size) × (size ≤ 500))
      ⊎ (((list_limit size ≡ 500) × (500 < size))
          ⊎ ((list_limit size ≡ 50) × ((size ≡ 0) ⊎ (2 ^ 31 ≤ size))))
unfolding list_limit
limit_cases size = elim (Bool-cases (size == 0)) [
  | inl e ↦ rw e (inr (inr (refl, inl (ground (arith, e)))))
  | inr e ↦ elim (Bool-cases (leb (2 ^ 31) size)) [
    | inl f ↦ rw (e, f) (inr (inr (refl, inr (ground (arith, f)))))
    | inr f ↦ elim (Bool-cases (ltb 500 size)) [
      | inl g ↦ rw (e, f, g) (inr (inl (refl, ground (arith, g))))
      | inr g ↦ rw (e, f, g) (inl (refl, ground (arith, e), ground (arith, g)))
    ]
  ]
]

-- A page that List returns is the start, as far as its limit, of the rows that are exactly the items
-- that the request asks for: those of the user, live unless deleted ones are included, and older than
-- the token; with later changes first, and at one time greater identifiers first. Its token is the time
-- and the identifier of the row after it, or empty. The limit is the size, or 50 for none, and 500 for a
-- larger one; the collation is a strict order.
pub list_page_of :
    (sql : Sql)
    → IsStrict sql.text_less
    → (user_id : String) (include_deleted : Bool) (size : ℕ) (page_token : String) (s : Server)
      (page : List Item × String)
    → (list sql user_id include_deleted size page_token s).0 ≡ ok page
    → (token : Option (Signed × String)) × ((parse_page_token page_token ≡ some token)
        × IsExcerpt sql user_id include_deleted size token s.vault_items page)
list_page_of sql strict user_id include_deleted size page_token s page ran =
    let (token, parsed, paged) = ran_to sql user_id include_deleted size page_token s page ran in
    let limit = list_limit size in
    let matches = listed sql user_id include_deleted token in
    let found = select matches s.vault_items in
    let rows = sort_by (newest_first sql) found in
    (
      token,
      (
        parsed,
        record {
          rows = rows;
          limit = limit;
          shown =
              paged
              ∙ ap (λ n. list_page limit (take n rows)) (plus_one limit)
              ∙ page_of limit rows
              ∙ ap (λ t. (take limit rows, t)) (token_for_next (get_elem? rows limit));
          ordered =
              sort_by-AreOrdered (newest_first sql) (IsNewer sql) (newest_first-IsNewer sql)
                (newest_first-other sql strict) found;
          requested = λ it. (
            λ m.
                let (there, holds) =
                  (Among-select matches it s.vault_items).0
                    ((Among-sort_by (newest_first sql) it found).0 m) in
                (there, (listed-IsRequested sql user_id include_deleted token it).0 holds),
            λ (there, asked). (Among-sort_by (newest_first sql) it found).1 (
                (Among-select matches it s.vault_items).1
                  (there, (listed-IsRequested sql user_id include_deleted token it).1 asked)),
          );
          limited = limit_cases size;
        },
      ),
    )
