-- ===== src/Sync/Handler.antt =====
-- Sync, PullChanges and PushChanges of internal/server/grpcserver/sync_handler.go. A user id is
-- what UserIDFromContext returns.
use goph_keeper.Common.{
  ℕ, ◌+◌, String, Option, none, some, List, [], ◌∷◌, if◌then◌else◌, str_eq, ltb, ◌==◌, take, length,
}
use goph_keeper.Common.Text.{trim_space, parse_uint, format_uint}
use goph_keeper.Server.Error.{status, unauthenticated, invalid_argument, internal}
use goph_keeper.Server.Exec.{Exec, ◌>>=◌, pure, found, on_error}
use goph_keeper.Vault.Payload.{PayloadConfig}
use goph_keeper.Sync.Revisions.{
  RevisionEventRow, list_revision_events_after, user_max_revision, with_revision_snapshot_read,
}
use goph_keeper.Sync.Push.{
  PendingOperation, OperationResult, Conflict, Pushed, accepted, conflict, run_push_operations,
}

-- config.MaxSyncBundleRevisionEvents
abbrev pub max_sync_bundle_revision_events : ℕ
max_sync_bundle_revision_events = 500

abbrev pub max_sync_pull_page_size : ℕ
max_sync_pull_page_size = 500

abbrev pub default_sync_pull_page_size : ℕ
default_sync_pull_page_size = 100

-- the answers that are accepted operations
abbrev pub accepted_of : List Pushed → List OperationResult
accepted_of [] = []
accepted_of (accepted r ∷ ps) = r ∷ accepted_of ps
accepted_of (conflict c ∷ ps) = accepted_of ps

-- the answers that are conflicts
abbrev pub conflicts_of : List Pushed → List Conflict
conflicts_of [] = []
conflicts_of (accepted r ∷ ps) = conflicts_of ps
conflicts_of (conflict c ∷ ps) = c ∷ conflicts_of ps

pub record SyncRequest : Type 0 where
  pub client_revision : ℕ
  pub pending_operations : List (Option PendingOperation)

pub record SyncResponse : Type 0 where
  pub accepted_operations : List OperationResult
  pub conflicts : List Conflict
  pub remote_changes : List RevisionEventRow
  pub new_server_revision : ℕ

-- the events after a revision, and the user's last revision
unfoldable pub read_events : String → ℕ → ℕ → Exec (List RevisionEventRow × ℕ)
read_events user_id after limit = do
  rows ← list_revision_events_after user_id after limit
  max_rev ← user_max_revision user_id
  pure (rows, max_rev)

-- A row of the response has the fields of the row that was read.
unfoldable pub sync : PayloadConfig → Option String → Option SyncRequest → Exec SyncResponse
unfolding with_revision_snapshot_read
sync cfg auth req = do
  user_id ← found auth (status unauthenticated)
  r ← found req (status invalid_argument)
  pushed ← run_push_operations cfg user_id r.pending_operations
  events ←
      on_error
        (with_revision_snapshot_read
          (read_events user_id r.client_revision max_sync_bundle_revision_events))
        (λ _. status internal)
  pure (record {
    accepted_operations = accepted_of pushed;
    conflicts = conflicts_of pushed;
    remote_changes = events.0;
    new_server_revision = events.1;
  })

pub record PushChangesResponse : Type 0 where
  pub accepted_operations : List OperationResult
  pub conflicts : List Conflict
  pub server_revision : ℕ

unfoldable pub push_changes :
    PayloadConfig
    → Option String
    → Option (List (Option PendingOperation))
    → Exec PushChangesResponse
unfolding with_revision_snapshot_read
push_changes cfg auth req = do
  user_id ← found auth (status unauthenticated)
  pending ← found req (status invalid_argument)
  pushed ← run_push_operations cfg user_id pending
  max_rev ←
      on_error (with_revision_snapshot_read (user_max_revision user_id)) (λ _. status internal)
  pure (record {
    accepted_operations = accepted_of pushed;
    conflicts = conflicts_of pushed;
    server_revision = max_rev;
  })

-- the larger of the request's revision and the token's
abbrev later_revision : ℕ → Option ℕ → Option ℕ
later_revision since none = none
later_revision since (some u) = some (if ltb since u then u else since)

unfoldable pub pull_after_revision : ℕ → String → Option ℕ
pull_after_revision since page_token =
    if str_eq (trim_space page_token) ""
    then some since
    else later_revision since (parse_uint (trim_space page_token))

unfoldable pub normalize_pull_page_size : ℕ → ℕ
normalize_pull_page_size n =
    if n == 0
    then default_sync_pull_page_size
    else if ltb max_sync_pull_page_size n
    then max_sync_pull_page_size
    else n

pub record PullChangesRequest : Type 0 where
  pub since_revision : ℕ
  pub page_token : String
  pub page_size : ℕ

-- A page of rows, and the revision that its token names.
pub record Page : Type 0 where
  pub changes : List RevisionEventRow
  pub next_page : Option ℕ

pub record PullChangesResponse : Type 0 where
  pub changes : List RevisionEventRow
  pub new_server_revision : ℕ
  pub next_page_token : String

-- nextToken
abbrev pub token : Option ℕ → String
token none = ""
token (some r) = format_uint r

-- the revision of rows[limit-1]
abbrev pub last_revision : List RevisionEventRow → Option ℕ
last_revision [] = none
last_revision (r ∷ []) = some r.revision_id
last_revision (r ∷ (q ∷ rows)) = last_revision (q ∷ rows)

-- The rows were read with a limit of one more than the page has.
unfoldable pub page : ℕ → List RevisionEventRow → Page
page limit rows =
    if ltb limit (length rows)
    then record { changes = take limit rows; next_page = last_revision (take limit rows) }
    else record { changes = rows; next_page = none }

unfoldable pub pull_changes : Option String → Option PullChangesRequest → Exec PullChangesResponse
unfolding with_revision_snapshot_read
pull_changes auth req = do
  user_id ← found auth (status unauthenticated)
  r ← found req (status invalid_argument)
  after ← found (pull_after_revision r.since_revision r.page_token) (status invalid_argument)
  let limit = normalize_pull_page_size r.page_size
  events ←
      on_error (with_revision_snapshot_read (read_events user_id after (limit + 1)))
        (λ _. status internal)
  let p = page limit events.0
  pure (record {
    changes = p.changes;
    new_server_revision = events.1;
    next_page_token = token p.next_page;
  })
