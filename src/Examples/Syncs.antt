-- ===== src/Examples/Syncs.antt =====
-- Calls of the sync API.
use goph_keeper.Common.{ℕ, Option, ◌≡◌, ◌++◌, map, refl, some, none, [], ◌∷◌, arith}
use goph_keeper.Common.Table.{select, find?}
use goph_keeper.Common.Text.{trim_space, format_uint, parse_uint}
use goph_keeper.Server.Error.{ok}
use goph_keeper.Server.Exec.{call, catch, ◌>>=◌}
use goph_keeper.Vault.Consistency.{IsConsistent}
use goph_keeper.Sync.Revisions.{
  event_row, entries_after, list_revision_events_after, user_max_revision, max_revision,
  with_revision_snapshot_read, insert_by_revision, order_by_revision,
}
use goph_keeper.Sync.Handler.{
  sync, push_changes, pull_changes, pull_after_revision, normalize_pull_page_size, page,
  read_events, token,
}
use goph_keeper.Sync.Consistent.{sync-IsConsistent, push_changes-IsConsistent}
use goph_keeper.Sync.Paging.{later_rows}
use goph_keeper.Sync.Pages.{pull_changes_complete}
use goph_keeper.Examples.Data.{
  empty_server, empty-IsConsistent, payload_config, login_operation, logged_db, logged_server,
  first_pages, first_answer,
}

sync-IsConsistent_example :
    IsConsistent
      (sync payload_config
        (some "ann")
        (some (record { client_revision = 0; pending_operations = some login_operation ∷ [] }))
        empty_server).1.db
sync-IsConsistent_example =
    sync-IsConsistent payload_config (some "ann")
      (some (record { client_revision = 0; pending_operations = some login_operation ∷ [] }))
      empty_server empty-IsConsistent

push_changes-IsConsistent_example :
    IsConsistent
      (push_changes payload_config
        (some "ann")
        (some (some login_operation ∷ (none ∷ [])))
        empty_server).1.db
push_changes-IsConsistent_example =
    push_changes-IsConsistent payload_config (some "ann")
      (some (some login_operation ∷ (none ∷ []))) empty_server empty-IsConsistent

first_page : (pull_changes (some "ann") (some first_pages) logged_server).0 ≡ ok first_answer
unfolding pull_changes pull_after_revision normalize_pull_page_size page read_events
    list_revision_events_after user_max_revision max_revision with_revision_snapshot_read event_row
    entries_after insert_by_revision order_by_revision select find? trim_space format_uint
    parse_uint call catch ◌>>=◌
first_page = refl

pull_changes_complete_example :
    (next : Option ℕ) × (first_answer.next_page_token ≡ token next)
    × (map (event_row logged_db) (entries_after logged_db.revision_log "ann" 1)
        ≡ first_answer.changes ++ later_rows logged_db "ann" next)
unfolding pull_after_revision trim_space parse_uint
pull_changes_complete_example =
    pull_changes_complete "ann" first_pages 1 logged_server first_answer refl
      (omega arith, (omega arith, (omega arith, (omega arith, tt)))) first_page
