-- ===== src/Examples/Listings.antt =====
-- Pages of items, and the calls of another user.
use goph_keeper.Common.{true, false, ◌≡◌, refl, Option, none, some, List, [], ◌∷◌, String, eq_iff}
use goph_keeper.Common.Table.{find?, select, sort_by, insert_sorted}
use goph_keeper.Common.Text.{trim_space}
use goph_keeper.Server.Error.{ok}
use goph_keeper.Server.Exec.{◌>>=◌, call}
use goph_keeper.Vault.Types.{Item}
use goph_keeper.Vault.Repository.{item_key}
use goph_keeper.Vault.Listing.{
  Sql, Signed, parse_page_token, list_limit, list, list_items, list_page,
}
use goph_keeper.Vault.Listing.Page.{IsExcerpt, list_page_of}
use goph_keeper.Vault.Isolation.Runs.{creates, deletes, serve_all, others_items_kept}
use goph_keeper.Examples.Data.{login_item, login_server, payload_config}

abbrev sql : Sql
sql = record { to_timestamp = λ n. none; text_less = λ a b. false }

abbrev listing : List Item × String
listing = (login_item ∷ [], "")

lists : (list sql "ann" false 0 "" login_server).0 ≡ ok listing
unfolding list list_items list_page parse_page_token list_limit select sort_by insert_sorted call
    ◌>>=◌ trim_space
lists = refl

list_page_of_example :
    (token : Option (Signed × String)) × ((parse_page_token "" ≡ some token)
      × IsExcerpt sql "ann" false 0 token login_server.vault_items listing)
list_page_of_example = list_page_of sql (λ x y h. refl) "ann" false 0 "" login_server listing lists

bob_is_not_ann : ¬ (◌≡◌ {A = String} "bob" "ann")
bob_is_not_ann e = let h : false ≡ true = (eq_iff "bob" "ann").1 e in absurd cc

others_items_kept_example :
    find?
      (item_key "ann" "login")
      (serve_all payload_config
        (deletes "bob"
            (some (record { operation_id = "x"; item_id = "login"; expected_version = 4 }))
          ∷ (creates "bob" none ∷ []))
        login_server).vault_items
    ≡ some login_item
unfolding find?
others_items_kept_example =
    others_items_kept "ann" "login" login_item payload_config
      (deletes "bob" (some (record { operation_id = "x"; item_id = "login"; expected_version = 4 }))
        ∷ (creates "bob" none ∷ []))
      login_server (bob_is_not_ann, (bob_is_not_ann, tt)) refl
