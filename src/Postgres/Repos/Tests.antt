-- ===== src/Postgres/Repos/Tests.antt =====
-- Repositories on tables that are functions, under an identity with a sub.
use mathlib.Core.Option
use go_performance_starter.Prelude.{
  ℕ, ◌≡◌, refl, sym, ◌∙◌, ap, Bool, true, false, not, ◌&&◌, ◌||◌, Option, none, some, [], ◌==◌,
  if◌then◌else◌,
}
use go_performance_starter.Prelude.Text.{Text, codes, text_eq}
use go_performance_starter.Http.{
  Result, ok, err, ok-injective, AuthClaims, User, role_authenticated,
}
use go_performance_starter.Middleware.Users.{entity_not_found, CreateUserParams}
use go_performance_starter.Middleware.Users.Rows.{IsTable, flagged}
use go_performance_starter.Postgres.Scope.{
  QueryError, no_rows, other_failure, connection, Pool, Query, valid_claims, identity_of, finished,
  run_as, in_scope,
}
use go_performance_starter.Postgres.Repos.{
  UserQueries, MemberQueries, Repo, or_not_found, or_error, scoped, one_row, plain,
  user_get_by_auth_id, user_set_anonymous, user_create, user_repository, primary_steps, set_primary,
}
use go_performance_starter.Postgres.Repos.Calls.{pooled}
use go_performance_starter.Postgres.Repos.Users.{IsSql, UserRepo-IsTable}
use go_performance_starter.Postgres.Repos.Primary.{IsMemberships, IsMarked, set_primary-IsMarked}

abbrev Rows : Type 0
Rows = Text → Option User

abbrev working : {D : Type 0} → Pool D
working = record { begins = λ d. true; executes = λ s d. true; commits = λ before after. true }

abbrev marshal : AuthClaims → Option Text
marshal c = some (codes "{}")

abbrev claims : Option AuthClaims
claims = some (record { sub = codes "u7"; role = role_authenticated; is_anonymous = false })

abbrev answer : Rows → Option User → Rows × Result QueryError User
answer rows none = (rows, err no_rows)
answer rows (some u) = (rows, ok u)

abbrev key_of : Option Text → Text
key_of none = []
key_of (some k) = k

abbrev row_of : CreateUserParams → User
row_of p = record {
  id = 1;
  email = p.email;
  name = p.name;
  auth_id = p.auth_id;
  is_anonymous = p.is_anonymous;
}

-- A query that the tests do not make.
abbrev no_query : {A : Type 0} → Query Rows A
no_query who rows = (rows, err other_failure)

abbrev table : UserQueries Rows
table = record {
  get_user = λ id. no_query;
  get_user_by_email = λ email. no_query;
  get_user_by_auth_id = λ a who rows. answer rows (rows a);
  list_users = λ limit offset. no_query;
  create_user = λ p who rows.
      ((λ a. if text_eq (key_of p.auth_id) a then some (row_of p) else rows a), ok (row_of p));
  update_user = λ p. no_query;
  update_user_name = λ id name. no_query;
  set_user_is_anonymous = λ id b who rows. ((λ a. Option.map (flagged id b) (rows a)), ok tt);
  delete_user = λ id. no_query;
  set_user_last_login = λ id at. no_query;
  set_user_first_run_complete = λ id complete. no_query;
}

answer_found :
    (s t : Rows) (found : Option User) (u : User)
    → answer s found ≡ (t, ok u)
    → (found ≡ some u) × (t ≡ s)
answer_found s t none u e = absurd cc
answer_found s t (some v) u e = (cc, cc)

answer_missing :
    (s t : Rows) (found : Option User) → answer s found ≡ (t, err no_rows) → found ≡ none
answer_missing s t none e = refl
answer_missing s t (some v) e = absurd cc

table-IsSql : IsSql table
table-IsSql = record {
  rows = λ who d. d;
  get_found = λ who a s t u e. answer_found s t (s a) u e;
  get_missing = λ who a s t e. answer_missing s t (s a) e;
  set_done = λ who id b s t e a. ap (λ rows. rows a) (sym (ap (λ p. p.0) e));
  create_done = λ who p s t u e. (
    ap (λ v. v.is_anonymous) (sym (ok-injective (ap (λ p. p.1) e))),
    λ a k known.
        ap (λ rows. rows a) (sym (ap (λ p. p.0) e))
        ∙ (ap (λ o. if text_eq (key_of o) a then some (row_of p) else s a) known
            ∙ ap (λ v. if text_eq k a then some v else s a) (ok-injective (ap (λ p. p.1) e))),
  );
}

-- User 7 is in the organizations 1 and 2.
abbrev Flags : Type 0
Flags = ℕ → ℕ → Bool

abbrev is_member : (user_id org_id : ℕ) → Bool
is_member u o = u == 7 && (o == 1 || o == 2)

abbrev memberships : MemberQueries Flags (Unit {0})
memberships = record {
  get_by_user_and_org = λ u o who d. (d, err no_rows);
  delete_member = λ u o who d. (d, err other_failure);
  set_primary_step1 = λ org user who d.
      ((λ u o. if (u == user) && (o == org) then is_member u o else d u o), ok tt);
  set_primary_step2 =
      λ user org who d. ((λ u o. if (u == user) && not (o == org) then false else d u o), ok tt);
}

memberships-IsMemberships : IsMemberships memberships
memberships-IsMemberships = record {
  member = λ who d. is_member;
  primary = λ who d. d;
  step1_done = λ who org user s t e u o. ap (λ d. d u o) (sym (ap (λ p. p.0) e));
  step2_done = λ who user org s t e u o. ap (λ d. d u o) (sym (ap (λ p. p.0) e));
}

abbrev first_is_primary : Flags
first_is_primary u o = u == 7 && o == 1

all_of_it : Unit {0}
unfolding text_eq valid_claims identity_of finished run_as in_scope or_not_found or_error scoped
    one_row plain user_get_by_auth_id user_set_anonymous user_create primary_steps set_primary
all_of_it = tt

abbrev repo : {D : Type 0} → Repo D
repo = pooled marshal working connection claims

user_repo_tests :
    ((user_get_by_auth_id repo table (codes "u7") (λ a. none)).1 ≡ err entity_not_found)
unfolding all_of_it
user_repo_tests = refl

UserRepo-IsTable_example : IsTable (user_repository repo table)
UserRepo-IsTable_example = UserRepo-IsTable table-IsSql marshal working connection claims

set_primary-IsMarked_example :
    IsMarked memberships-IsMemberships marshal working connection claims 7 2 first_is_primary
      (set_primary repo memberships 7 2 first_is_primary)
set_primary-IsMarked_example =
    set_primary-IsMarked memberships-IsMemberships marshal working connection claims 7 2
      first_is_primary

-- Organization 5, of which the user is no member, is made the primary one: the call succeeds, and the
-- user has none any more.
set_primary_tests :
    ((set_primary repo memberships 7 2 first_is_primary).0 7 2 ≡ true)
    × (((set_primary repo memberships 7 2 first_is_primary).0 7 1 ≡ false)
        × ((set_primary repo memberships 7 5 first_is_primary).0 7 1 ≡ false))
unfolding all_of_it
set_primary_tests = (refl, (refl, refl))
