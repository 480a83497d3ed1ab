-- ===== src/Postgres/Scope.antt =====
-- internal/repository/postgres/scope.go and AuthClaims.Validate of internal/webutil: the identity that
-- a query runs under. `D` is the state of the database; pgx is a parameter.
pub mod Identity
pub mod Ends
mod Tests
use go_performance_starter.Prelude.{
  Bool, true, false, not, ◌&&◌, Option, none, some, List, [], ◌∷◌, if◌then◌else◌,
}
use go_performance_starter.Prelude.Text.{Text, text_eq}
use go_performance_starter.Http.{
  Result, ok, err, is_empty, AuthClaims, role_authenticated, role_anon,
}

-- The errors that the repositories tell apart: pgx.ErrNoRows, and all others.
pub data QueryError : Type 0 where
  no_rows : QueryError
  other_failure : QueryError

-- Whom the policies of the database see: the role of the connection, or a role with the claims as JSON
-- and the sub, which hold for one transaction.
pub data Requester : Type 0 where
  connection : Requester
  local_role : (role claims_json sub : Text) → Requester

-- The statements with which the identity is set.
pub data Statement : Type 0 where
  set_local_role : Text → Statement
  set_jwt_claims : (claims_json sub : Text) → Statement

-- A pool of pgx: whether a transaction begins, whether a statement in it succeeds, and whether it
-- commits the state that it has reached.
pub record Pool (D : Type 0) : Type 0 where
  pub begins : D → Bool
  pub executes : Statement → D → Bool
  pub commits : D → D → Bool

-- AuthClaims.Validate
unfoldable pub valid_claims : AuthClaims → Bool
valid_claims c =
    if is_empty c.sub
    then false
    else if not (text_eq c.role role_authenticated) && not (text_eq c.role role_anon)
    then false
    else true

module _ {D : Type 0} (marshal : AuthClaims → Option Text) where
  abbrev pub with_json : Pool D → AuthClaims → D → Option Text → Result QueryError Requester
  with_json pool c d none = err other_failure
  with_json pool c d (some json) =
      if not (pool.executes (set_local_role c.role) d)
      then err other_failure
      else if not (pool.executes (set_jwt_claims json c.sub) d)
      then err other_failure
      else ok (local_role c.role json c.sub)

  -- inScope's part that sets the identity
  unfoldable pub identity_of : Pool D → Option AuthClaims → D → Result QueryError Requester
  identity_of pool none d = ok connection
  identity_of pool (some c) d =
      if not (valid_claims c) then err other_failure else with_json pool c d (marshal c)

-- A call of the querier: it may change the database and fail.
abbrev pub Query : Type 0 → Type 0 → Type 0
Query D T = Requester → D → D × Result QueryError T

module _ {D T : Type 0} where
  -- tx.Commit, or the deferred rollback
  unfoldable pub finished : Pool D → D → D × Result QueryError T → D × Result QueryError T
  finished pool before (after, err e) = (before, err e)
  finished pool before (after, ok a) =
      if pool.commits before after then (after, ok a) else (before, err other_failure)

  unfoldable pub run_as :
      Pool D → D → Query D T → Result QueryError Requester → D × Result QueryError T
  run_as pool d fn (err e) = (d, err e)
  run_as pool d fn (ok who) = finished pool d (fn who d)

  -- inScope; with no pool `fn` runs on the fallback, with its identity
  unfoldable pub in_scope :
      (AuthClaims → Option Text)
      → Option (Pool D)
      → Requester
      → Option AuthClaims
      → Query D T
      → D
      → D × Result QueryError T
  in_scope marshal none fallback claims fn d = fn fallback d
  in_scope marshal (some pool) fallback claims fn d =
      if not (pool.begins d)
      then (d, err other_failure)
      else run_as pool d fn (identity_of marshal pool claims d)
