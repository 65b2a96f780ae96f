-- ===== src/Sync/Pages.antt =====
-- A call of PullChanges and the page that it answers with.
use goph_keeper.Common.{
  ℕ, ◌+◌, ◌<◌, String, Option, some, List, ◌++◌, map, ◌≡◌, ap, ◌∙◌, take, arith,
}
use goph_keeper.Server.Error.{Error, ok, status, internal}
use goph_keeper.Server.State.{Server}
use goph_keeper.Server.Exec.{Exec, ◌>>=◌, call, catch, on_error, pure}
use goph_keeper.Server.Steps.{called}
use goph_keeper.Vault.Consistency.{Below}
use goph_keeper.Sync.Revisions.{
  RevisionEventRow, event_row, entries_after, list_revision_events_after, user_max_revision,
  with_revision_snapshot_read,
}
use goph_keeper.Sync.Handler.{
  PullChangesRequest, PullChangesResponse, pull_changes, pull_after_revision,
  normalize_pull_page_size, page, token, read_events,
}
use goph_keeper.Sync.Paging.{later_rows, page_after, page_complete}

module _ (u : String) (a : ℕ) where
  listed :
      (k : ℕ) (s : Server) (rows : List RevisionEventRow)
      → 0 < k
      → (list_revision_events_after u a k s).0 ≡ ok rows
      → rows ≡ map (event_row s.db) (take k (entries_after s.revision_log u a))
  unfolding list_revision_events_after call ◌>>=◌
  listed k s rows positive h = ground arith

  read :
      (k : ℕ) (s : Server) (events : List RevisionEventRow × ℕ)
      → (read_events u a k s).0 ≡ ok events
      → (list_revision_events_after u a k s).0 ≡ ok events.0
  unfolding read_events user_max_revision call ◌>>=◌
  read k s events h = ground arith

snapshot :
    {A : Type 0} (m : Exec A) (s : Server) (a : A)
    → (with_revision_snapshot_read m s).0 ≡ ok a
    → (m (called s)).0 ≡ ok a
unfolding with_revision_snapshot_read call ◌>>=◌
snapshot m s a h = ground arith

normalize_positive : (n : ℕ) → 0 < normalize_pull_page_size n
unfolding normalize_pull_page_size
normalize_positive n = ground arith

-- A value that a tried call and a pure step give.
tried :
    {A B : Type 0} (m : Exec A) (f : Error → Error) (g : A → B) (s : Server) (b : B)
    → ((on_error m f >>= λ x. pure (g x)) s).0 ≡ ok b
    → (x : A) × ((m s).0 ≡ ok x) × (b ≡ g x)
unfolding catch ◌>>=◌
tried m f g s b h = ground arith

module _ (u : String) (r : PullChangesRequest) (a : ℕ) (s : Server) (resp : PullChangesResponse)
    (start : pull_after_revision r.since_revision r.page_token ≡ some a)
    (numbered : Below s.next_revision s.revision_log)
    (ran : (pull_changes (some u) (some r) s).0 ≡ ok resp) where
  answered :
      (events : List RevisionEventRow × ℕ) × ((with_revision_snapshot_read
          (read_events u a (normalize_pull_page_size r.page_size + 1))
          s).0
        ≡ ok events)
      × (resp.changes ≡ (page (normalize_pull_page_size r.page_size) events.0).changes)
      × (resp.next_page_token
          ≡ token (page (normalize_pull_page_size r.page_size) events.0).next_page)
  unfolding pull_changes catch ◌>>=◌
  answered =
      let limit = normalize_pull_page_size r.page_size in
      let answer : List RevisionEventRow × ℕ → PullChangesResponse = λ events. record {
        changes = (page limit events.0).changes;
        new_server_revision = events.1;
        next_page_token = token (page limit events.0).next_page;
      } in
      let (events, got, is) =
        tried (with_revision_snapshot_read (read_events u a (limit + 1))) (λ _. status internal)
          answer s resp (rw start at ran) in
      (events, got, ap (λ x. x.changes) is, ap (λ x. x.next_page_token) is)

  -- Where the request's token is valid and the log is numbered, a PullChanges call that succeeds returns
  -- a page such that the user's rows after the requested revision are those of the page followed by
  -- the rows after the revision that the next page's token names, or by none if the token is empty.
  pub pull_changes_complete :
      (next : Option ℕ) × (resp.next_page_token ≡ token next)
      × (map (event_row s.db) (entries_after s.revision_log u a)
          ≡ resp.changes ++ later_rows s.db u next)
  pull_changes_complete =
      let limit = normalize_pull_page_size r.page_size in
      let (events, ok_events, changes, named) = answered in
      let rows =
        listed u a (limit + 1) (called s) events.0 (omega arith)
          (read u a (limit + 1) (called s) events (snapshot _ s events ok_events)) in
      let same : page limit events.0 ≡ page_after s.db u a limit = ap (page limit) rows in
      (
        (page_after s.db u a limit).next_page,
        named ∙ ap (λ p. token p.next_page) same,
        rw (changes, ap (λ p. p.changes) same)
            (page_complete s.db u a limit numbered (normalize_positive r.page_size)),
      )
