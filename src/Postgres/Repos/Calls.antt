-- ===== src/Postgres/Repos/Calls.antt =====
-- What a call of a repository gives, by what its query gives.
use go_performance_starter.Prelude.{◌≡◌, Option, some}
use go_performance_starter.Prelude.Text.{Text}
use go_performance_starter.Http.{Result, ok, err, AuthClaims}
use go_performance_starter.Middleware.Users.{RepoError, entity_not_found, other_error}
use go_performance_starter.Postgres.Scope.{
  QueryError, no_rows, other_failure, Requester, Pool, Query,
}
use go_performance_starter.Postgres.Repos.{Repo, or_not_found, or_error, scoped, one_row, plain}
use go_performance_starter.Postgres.Scope.Ends.{whom, Ends, in_scope-Ends}

module _ {D : Type 0} (marshal : AuthClaims → Option Text) (pool : Pool D) (fallback : Requester)
    (claims : Option AuthClaims) where
  abbrev pub pooled : Repo D
  pooled = record { marshal = marshal; db = some pool; querier = fallback; claims = claims }

  -- A call that looks for one row: what it gives, by what the query gives.
  abbrev pub Looked : {A : Type 0} → Query D A → D → D × Result RepoError A → Type 0
  Looked fn d (t, ok a) =
      (who : Requester) × (whom marshal claims ≡ some who) × (fn who d ≡ (t, ok a))
  Looked fn d (t, err entity_not_found) =
      (t ≡ d)
      × ((who : Requester) × (after : D) × (whom marshal claims ≡ some who)
          × (fn who d ≡ (after, err no_rows)))
  Looked fn d (t, err other_error) = t ≡ d

  or_not_found-Looked :
      {A : Type 0} (fn : Query D A) (d : D) (result : D × Result QueryError A)
      → Ends marshal pool fallback claims fn d result
      → Looked fn d (or_not_found result)
  unfolding or_not_found
  or_not_found-Looked fn d (t, ok a) h = h
  or_not_found-Looked fn d (t, err no_rows) h = h
  or_not_found-Looked fn d (t, err other_failure) h = h

  pub one_row-Looked : {A : Type 0} (fn : Query D A) (d : D) → Looked fn d (one_row pooled fn d)
  unfolding one_row scoped
  one_row-Looked fn d = or_not_found-Looked fn d _ (in_scope-Ends marshal pool fallback claims fn d)

  -- Any other call: it has the result of the query, or leaves the database as it was.
  abbrev pub Done : {A : Type 0} → Query D A → D → D × Result RepoError A → Type 0
  Done fn d (t, ok a) =
      (who : Requester) × (whom marshal claims ≡ some who) × (fn who d ≡ (t, ok a))
  Done fn d (t, err e) = t ≡ d

  or_error-Done :
      {A : Type 0} (fn : Query D A) (d : D) (result : D × Result QueryError A)
      → Ends marshal pool fallback claims fn d result
      → Done fn d (or_error result)
  unfolding or_error
  or_error-Done fn d (t, ok a) h = h
  or_error-Done fn d (t, err no_rows) h = h.0
  or_error-Done fn d (t, err other_failure) h = h

  pub plain-Done : {A : Type 0} (fn : Query D A) (d : D) → Done fn d (plain pooled fn d)
  unfolding plain scoped
  plain-Done fn d = or_error-Done fn d _ (in_scope-Ends marshal pool fallback claims fn d)
