-- ===== src/Vault/Listing.antt =====
-- ListItems of internal/server/storage/postgres/vault_repositories.go, and List of
-- internal/server/vault/engine.go. The conversion of a number of nanoseconds to a time and the order
-- of texts are PostgreSQL's.
pub mod Page
use goph_keeper.Common.{
  ℕ, ◌+◌, ◌*◌, ◌-◌, ◌^◌, ◌%◌, String, Bool, true, false, ◌&&◌, ◌||◌, not, Option, none, some, List,
  [], ◌∷◌, if◌then◌else◌, str_eq, ltb, leb, ◌==◌, length, take, get_elem?,
}
use Prim.Native.Char.{code}
use goph_keeper.Common.Table.{is_null, select, sort_by}
use goph_keeper.Common.Text.{parse_uint, format_uint, concat}
use goph_keeper.Server.Error.{ok, err_invalid_argument, driver_failure}
use goph_keeper.Server.Exec.{Exec, ◌>>=◌, ◌>>◌, call, guard, found}
use goph_keeper.Vault.Types.{Item}
use goph_keeper.Vault.Engine.{is_blank}

-- an int64
pub data Signed : Type 0 where
  positive negative : ℕ → Signed

-- `to_timestamp` takes a number of nanoseconds to one of microseconds since 1970, or to none for a time
-- before that.
pub record Sql : Type 0 where
  pub to_timestamp : Signed → Option ℕ
  pub text_less : String → String → Bool

-- strconv.ParseInt(s, 10, 64)
abbrev in_range : ℕ → (ℕ → Signed) → Option ℕ → Option Signed
in_range bound sign none = none
in_range bound sign (some n) = if leb n bound then some (sign n) else none

abbrev parse_signed : ℕ → String → String → Option Signed
parse_signed c rest whole =
    if c == 45
    then in_range (2 ^ 63) negative (parse_uint rest)
    else if c == 43
    then in_range (2 ^ 63 - 1) positive (parse_uint rest)
    else in_range (2 ^ 63 - 1) positive (parse_uint whole)

unfoldable pub parse_int : String → Option Signed
parse_int String.[] = none
parse_int (String.◌∷◌ c s) = parse_signed (code c) s (String.◌∷◌ c s)

-- strings.SplitN(s, ":", 2), where it has two parts
abbrev cons_part : String → Option (String × String) → String → Option (String × String)
cons_part c none s = none
cons_part c (some (before, after)) s = some (concat c before, after)

unfoldable pub split_colon : String → Option (String × String)
split_colon String.[] = none
split_colon (String.◌∷◌ c s) =
    let rest = split_colon s in
    if code c == 58 then some (String.[], s) else cons_part (String.◌∷◌ c String.[]) rest s

-- The page token: "<updatedAtUnixNano>:<itemID>"
abbrev token_time : Option Signed → String → Option (Signed × String)
token_time none id = none
token_time (some n) id = some (n, id)

abbrev token_parts : Option (String × String) → Option (Signed × String)
token_parts none = none
token_parts (some (nanos, id)) = token_time (parse_int nanos) id

unfoldable pub parse_page_token : String → Option (Option (Signed × String))
parse_page_token t =
    if str_eq t ""
    then some none
    else elim (token_parts (split_colon t)) [ none ↦ none | some p ↦ some (some p) ]

-- UnixNano of a time in microseconds, before the year 2262
unfoldable pub item_token : Item → String
item_token it = concat (format_uint (it.updated_at * 1000)) (concat ":" it.item_id)

-- (updated_at, item_id) < (to_timestamp($2 / 1e9), $3)
abbrev older : Sql → Option ℕ → String → Item → Bool
older sql none id it = false
older sql (some at) id it =
    ltb it.updated_at at || (it.updated_at == at && sql.text_less it.item_id id)

abbrev pub after_token : Sql → Option (Signed × String) → Item → Bool
after_token sql none it = true
after_token sql (some (nanos, id)) it = older sql (sql.to_timestamp nanos) id it

-- the WHERE clause
abbrev pub listed : Sql → String → Bool → Option (Signed × String) → Item → Bool
listed sql user_id include_deleted token it =
    str_eq it.user_id user_id
    && (include_deleted || is_null it.deleted_at)
    && after_token sql token it

-- ORDER BY updated_at DESC, item_id DESC
abbrev pub newest_first : Sql → Item → Item → Bool
newest_first sql a b =
    ltb b.updated_at a.updated_at
    || (a.updated_at == b.updated_at && not (sql.text_less a.item_id b.item_id))

-- The limit is the 32 bits of an int32.
unfoldable pub list_limit : ℕ → ℕ
list_limit n = if n == 0 || leb (2 ^ 31) n then 50 else if ltb 500 n then 500 else n

-- The page, and the token of the row that follows it.
abbrev pub next_token : Option Item → String
next_token none = ""
next_token (some it) = item_token it

unfoldable pub list_page : ℕ → List Item → List Item × String
unfolding item_token
list_page limit rows =
    if ltb limit (length rows)
    then (take limit rows, next_token (get_elem? rows limit))
    else (rows, "")

-- The query fails before the first row, or at a row.
unfoldable pub list_items : Sql → String → Bool → ℕ → String → Exec (List Item × String)
unfolding list_page parse_page_token
list_items sql user_id include_deleted limit page_token = do
  token ← found (parse_page_token page_token) err_invalid_argument
  call driver_failure
  call driver_failure
  λ s. (
    ok (
        list_page (list_limit limit) (
          take (list_limit limit + 1) (
            sort_by (newest_first sql)
              (select (listed sql user_id include_deleted token) s.vault_items)))),
    s,
  )

-- EngineService.List
unfoldable pub list : Sql → String → Bool → ℕ → String → Exec (List Item × String)
list sql user_id include_deleted page_size page_token = do
  guard (not (is_blank user_id)) err_invalid_argument
  list_items sql user_id include_deleted page_size page_token
