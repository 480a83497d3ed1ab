-- ===== src/Postgres/ReaperRepo.antt =====
-- internal/repository/postgres/reaper.go: the two calls of the reaper, each in a transaction of its
-- own under the role service_role. The two queries are parameters.
pub mod Transactions
mod Tests
use go_performance_starter.Prelude.{
  ℕ, Bool, true, false, not, Option, none, some, List, [], ◌∷◌, if◌then◌else◌,
}
use go_performance_starter.Prelude.Text.{Text, codes}
use go_performance_starter.Http.{Failure, failure, Result, ok, err}
use go_performance_starter.Jobs.Reaper.{DeletedRow, ReaperStore}
use go_performance_starter.Postgres.Scope.{
  QueryError, Requester, local_role, Statement, set_local_role, Pool, Query,
}

pub record ReaperQueries (D : Type 0) : Type 0 where
  pub delete_expired_anonymous_users : ℕ → Query D (List DeletedRow)
  -- a value that is not Valid is `none`
  pub list_existing_auth_ids : List Text → Query D (List (Option Text))

abbrev pub service_role : Text
service_role = codes "service_role"

-- The requester inside the two transactions: the role alone, without claims.
abbrev pub service : Requester
service = local_role service_role [] []

unfoldable pub valid_only : List (Option Text) → List Text
valid_only [] = []
valid_only (none ∷ rows) = valid_only rows
valid_only (some id ∷ rows) = id ∷ valid_only rows

module _ {D : Type 0} (pool : Pool D) (q : ReaperQueries D) where
  -- tx.Commit, or the deferred rollback
  unfoldable pub committed : {A : Type 0} → D → D × Result QueryError A → D × Result Failure A
  committed before (after, err e) = (before, err failure)
  committed before (after, ok a) =
      if pool.commits before after then (after, ok a) else (before, err failure)

  -- DeleteExpiredAnonymousUsers
  unfoldable pub delete_expired_anonymous_users : ℕ → D → D × Result Failure (List DeletedRow)
  unfolding committed
  delete_expired_anonymous_users older_than d =
      if not (pool.begins d)
      then (d, err failure)
      else if not (pool.executes (set_local_role service_role) d)
      then (d, err failure)
      else committed d (q.delete_expired_anonymous_users older_than service d)

  -- Read, and rolled back.
  unfoldable pub read_ids :
      D → D × Result QueryError (List (Option Text)) → D × Result Failure (List Text)
  unfolding valid_only
  read_ids before (after, err e) = (before, err failure)
  read_ids before (after, ok rows) = (before, ok (valid_only rows))

  -- ListExistingAuthIDs
  unfoldable pub list_existing_auth_ids : List Text → D → D × Result Failure (List Text)
  unfolding read_ids
  list_existing_auth_ids [] d = (d, ok [])
  list_existing_auth_ids (id ∷ ids) d =
      if not (pool.begins d)
      then (d, err failure)
      else if not (pool.executes (set_local_role service_role) d)
      then (d, err failure)
      else read_ids d (q.list_existing_auth_ids (id ∷ ids) service d)

  abbrev pub reaper_store : ReaperStore D
  reaper_store = record {
    delete_expired_anonymous_users = delete_expired_anonymous_users;
    list_existing_auth_ids = list_existing_auth_ids;
  }
