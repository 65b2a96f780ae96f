-- ===== src/Vault/Isolation/Runs.antt =====
-- Any sequence of vault calls, and an item of a user who makes none of them.
use goph_keeper.Common.{
  String, false, ◌≡◌, ◌≢◌, Option, some, List, [], ◌∷◌, All, str_eq, eq_iff, Bool-cases, inl, inr,
}
use goph_keeper.Common.Table.{find?}
use goph_keeper.Server.State.{Server}
use goph_keeper.Server.Error.{status, unauthenticated}
use goph_keeper.Server.Keeps.{Keeps, Keeps-found-some}
use goph_keeper.Vault.Types.{Item}
use goph_keeper.Vault.Repository.{item_key}
use goph_keeper.Vault.Payload.{PayloadConfig}
use goph_keeper.Vault.Handler.{
  CreateItemRequest, UpdateItemRequest, DeleteItemRequest, create_item, update_item, delete_item,
}
use goph_keeper.Vault.Isolation.{Holds, engine_rules}

-- A call of the vault API that changes items, by the user that the interceptor found.
pub data VaultCall : Type 0 where
  creates : String → Option CreateItemRequest → VaultCall
  updates : String → Option UpdateItemRequest → VaultCall
  deletes : String → Option DeleteItemRequest → VaultCall

abbrev pub caller : VaultCall → String
caller (creates u req) = u
caller (updates u req) = u
caller (deletes u req) = u

unfoldable pub serve : PayloadConfig → VaultCall → Server → Server
serve cfg (creates u req) s = (create_item cfg (some u) req s).1
serve cfg (updates u req) s = (update_item cfg (some u) req s).1
serve cfg (deletes u req) s = (delete_item (some u) req s).1

unfoldable pub serve_all : PayloadConfig → List VaultCall → Server → Server
serve_all cfg [] s = s
serve_all cfg (c ∷ cs) s = serve_all cfg cs (serve cfg c s)

module _ (v id : String) (it : Item) (cfg : PayloadConfig) where
  module _ (u : String) (other : str_eq u v ≡ false) where
    create_served :
        (req : Option CreateItemRequest) → Keeps (Holds v id it) (create_item cfg (some u) req)
    unfolding create_item
    create_served req = Keeps-found-some u (status unauthenticated) _ (search engine_rules depth 60)

    update_served :
        (req : Option UpdateItemRequest) → Keeps (Holds v id it) (update_item cfg (some u) req)
    unfolding update_item
    update_served req = Keeps-found-some u (status unauthenticated) _ (search engine_rules depth 60)

    delete_served :
        (req : Option DeleteItemRequest) → Keeps (Holds v id it) (delete_item (some u) req)
    unfolding delete_item
    delete_served req = Keeps-found-some u (status unauthenticated) _ (search engine_rules depth 60)

  serve-Holds :
      (c : VaultCall) (s : Server)
      → str_eq (caller c) v ≡ false
      → Holds v id it s
      → Holds v id it (serve cfg c s)
  unfolding serve
  serve-Holds (creates u req) s other h = (create_served u other req).at s h
  serve-Holds (updates u req) s other h = (update_served u other req).at s h
  serve-Holds (deletes u req) s other h = (delete_served u other req).at s h

  differs : (u : String) → u ≢ v → str_eq u v ≡ false
  differs u ne = elim (Bool-cases (str_eq u v)) [
    | inl e ↦ absurd (ne ((eq_iff u v).0 e))
    | inr e ↦ e
  ]

  -- If a user's item is there, it is there unchanged after any sequence of CreateItem, UpdateItem and
  -- DeleteItem calls by other users, whether the calls succeed or fail.
  pub others_items_kept :
      (cs : List VaultCall) (s : Server)
      → All (λ c. caller c ≢ v) cs
      → find? (item_key v id) s.vault_items ≡ some it
      → find? (item_key v id) (serve_all cfg cs s).vault_items ≡ some it
  unfolding serve_all
  others_items_kept [] s others h = h
  others_items_kept (c ∷ cs) s (other, others) h =
      others_items_kept cs (serve cfg c s) others (serve-Holds c s (differs (caller c) other) h)
