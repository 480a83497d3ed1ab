-- ===== src/Postgres/Repos/Users.antt =====
-- UserRepo implements what the loaders rely on of the users table.
use mathlib.Core.Option
use go_performance_starter.Prelude.{
  ℕ, ◌≡◌, refl, sym, ◌∙◌, ap, subst, Bool, Option, none, some, if◌then◌else◌,
}
use go_performance_starter.Prelude.Text.{Text, text_eq}
use go_performance_starter.Http.{ok, err, AuthClaims, User}
use go_performance_starter.Middleware.Users.{entity_not_found, CreateUserParams}
use go_performance_starter.Middleware.Users.Rows.{IsTable, flagged}
use go_performance_starter.Postgres.Scope.{no_rows, Requester, Pool}
use go_performance_starter.Postgres.Repos.{
  UserQueries, user_get_by_auth_id, user_set_anonymous, user_create, user_repository,
}
use go_performance_starter.Postgres.Scope.Ends.{whom}
use go_performance_starter.Postgres.Repos.Calls.{pooled, Looked, Done, one_row-Looked, plain-Done}

-- What the four queries do to the users table as the requester sees it, by auth id: PostgreSQL under
-- its policies. Nothing is said of a query that fails.
pub record IsSql {D : Type 0} (q : UserQueries D) : Type 0 where
  pub rows : Requester → D → Text → Option User
  pub get_found :
      (who : Requester) (a : Text) (s t : D) (u : User)
      → q.get_user_by_auth_id a who s ≡ (t, ok u)
      → (rows who s a ≡ some u) × (rows who t ≡ rows who s)
  pub get_missing :
      (who : Requester) (a : Text) (s t : D)
      → q.get_user_by_auth_id a who s ≡ (t, err no_rows)
      → rows who s a ≡ none
  pub set_done :
      (who : Requester) (id : ℕ) (b : Bool) (s t : D)
      → q.set_user_is_anonymous id b who s ≡ (t, ok tt)
      → (a : Text) → rows who t a ≡ Option.map (flagged id b) (rows who s a)
  pub create_done :
      (who : Requester) (p : CreateUserParams) (s t : D) (u : User)
      → q.create_user p who s ≡ (t, ok u)
      → (u.is_anonymous ≡ p.is_anonymous)
        × ((a k : Text)
            → p.auth_id ≡ some k
            → rows who t a ≡ (if text_eq k a then some u else rows who s a))

module _ {D : Type 0} {q : UserQueries D} (sql : IsSql q) (marshal : AuthClaims → Option Text)
    (pool : Pool D) (fallback : Requester) (claims : Option AuthClaims) where
  abbrev view : Option Requester → D → Text → Option User
  view none d a = none
  view (some who) d a = sql.rows who d a

  abbrev seen : D → Text → Option User
  seen = view (whom marshal claims)

  seen-whom : (who : Requester) (d : D) → whom marshal claims ≡ some who → seen d ≡ sql.rows who d
  seen-whom who d e = rw e refl

  found_seen :
      (a : Text) (s t : D) (u : User)
      → Looked marshal pool fallback claims (q.get_user_by_auth_id a) s (t, ok u)
      → (seen s a ≡ some u) × (seen t ≡ seen s)
  found_seen a s t u (who, is, ran) =
      let (here, same) = sql.get_found who a s t u ran in
      (
        ap (λ rows. rows a) (seen-whom who s is) ∙ here,
        seen-whom who t is ∙ same ∙ sym (seen-whom who s is),
      )

  missing_seen :
      (a : Text) (s t : D)
      → Looked marshal pool fallback claims (q.get_user_by_auth_id a) s (t, err entity_not_found)
      → (seen s a ≡ none) × (seen t ≡ seen s)
  missing_seen a s t (same, (who, after, is, ran)) =
      (ap (λ rows. rows a) (seen-whom who s is) ∙ sql.get_missing who a s after ran, ap seen same)

  set_seen :
      (id : ℕ) (b : Bool) (s t : D)
      → Done marshal pool fallback claims (q.set_user_is_anonymous id b) s (t, ok tt)
      → (a : Text) → seen t a ≡ Option.map (flagged id b) (seen s a)
  set_seen id b s t (who, is, ran) a =
      ap (λ rows. rows a) (seen-whom who t is)
      ∙ sql.set_done who id b s t ran a
      ∙ ap (λ rows. Option.map (flagged id b) (rows a)) (sym (seen-whom who s is))

  create_seen :
      (p : CreateUserParams) (s t : D) (u : User)
      → Done marshal pool fallback claims (q.create_user p) s (t, ok u)
      → (u.is_anonymous ≡ p.is_anonymous)
        × ((a k : Text)
            → p.auth_id ≡ some k
            → seen t a ≡ (if text_eq k a then some u else seen s a))
  create_seen p s t u (who, is, ran) =
      let (flag, created) = sql.create_done who p s t u ran in
      (
        flag,
        λ a k named.
            ap (λ rows. rows a) (seen-whom who t is)
            ∙ created a k named
            ∙ ap (λ rows. if text_eq k a then some u else rows a) (sym (seen-whom who s is)),
      )

  -- UserRepo on a pool implements the table that the loaders rely on: its rows are those that the
  -- identity of the claims sees, and a call that fails leaves them as they were, whatever the query
  -- did before it failed.
  pub UserRepo-IsTable : IsTable (user_repository (pooled marshal pool fallback claims) q)
  unfolding user_get_by_auth_id user_set_anonymous user_create
  UserRepo-IsTable = record {
    row = seen;
    get_found = λ a s t u e. found_seen a s t u (
        subst (Looked marshal pool fallback claims (q.get_user_by_auth_id a) s) e
          (one_row-Looked marshal pool fallback claims _ s));
    get_missing = λ a s t e. missing_seen a s t (
        subst (Looked marshal pool fallback claims (q.get_user_by_auth_id a) s) e
          (one_row-Looked marshal pool fallback claims _ s));
    get_failed = λ a s t e. ap seen (
        subst (Looked marshal pool fallback claims (q.get_user_by_auth_id a) s) e
          (one_row-Looked marshal pool fallback claims _ s));
    set_done = λ id b s t e. set_seen id b s t (
        subst (Done marshal pool fallback claims (q.set_user_is_anonymous id b) s) e
          (plain-Done marshal pool fallback claims _ s));
    set_failed = λ id b s t e failed. ap seen (
        subst (Done marshal pool fallback claims (q.set_user_is_anonymous id b) s) failed
          (plain-Done marshal pool fallback claims _ s));
    create_done = λ p s t u e. create_seen p s t u (
        subst (Done marshal pool fallback claims (q.create_user p) s) e
          (plain-Done marshal pool fallback claims _ s));
    create_failed = λ p s t e failed. ap seen (
        subst (Done marshal pool fallback claims (q.create_user p) s) failed
          (plain-Done marshal pool fallback claims _ s));
  }
