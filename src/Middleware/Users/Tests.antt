-- ===== src/Middleware/Users/Tests.antt =====
-- Identities of concrete requests, on a table that is a map from auth ids to rows.
use mathlib.Core.Option
use go_performance_starter.Prelude.{
  ◌≡◌, ◌≢◌, refl, sym, ◌∙◌, ap, ◌⊎◌, true, false, Option, none, some, [], if◌then◌else◌,
}
use go_performance_starter.Prelude.Text.{Text, codes, text_eq}
use go_performance_starter.Http.{
  Result, ok, err, ok-injective, AuthClaims, User, Request, Response, Handler, role_authenticated,
  with_context, http_error, internal_server_error, auth_claims_from_context, with_user,
}
use go_performance_starter.Middleware.Users.{
  RepoError, entity_not_found, other_error, UserRepository, CreateUserParams, provision_params,
  provision_user, healed, resolve_found, resolve_user, load, load_claims, user_loader,
  optional_user_loader,
}
use go_performance_starter.Middleware.Users.Rows.{
  IsTable, flagged, IsPromotion, IsResolved, resolve_user-IsPromotion,
}
use go_performance_starter.Middleware.Users.Loaders.{user_loader_serves}

abbrev Rows : Type 0
Rows = Text → Option User

abbrev answer : Rows → Option User → Rows × Result RepoError User
answer rows none = (rows, err entity_not_found)
answer rows (some u) = (rows, ok u)

abbrev key_of : Option Text → Text
key_of none = []
key_of (some k) = k

abbrev row_of : CreateUserParams → User
row_of p = record {
  id = 1;
  email = p.email;
  name = p.name;
  auth_id = p.auth_id;
  is_anonymous = p.is_anonymous;
}

abbrev in_memory : UserRepository Rows
in_memory = record {
  get_by_auth_id = λ a rows. answer rows (rows a);
  set_anonymous = λ id b rows. ((λ a. Option.map (flagged id b) (rows a)), ok tt);
  create = λ p rows.
      ((λ a. if text_eq (key_of p.auth_id) a then some (row_of p) else rows a), ok (row_of p));
}

answer_found :
    (s t : Rows) (found : Option User) (u : User)
    → answer s found ≡ (t, ok u)
    → (found ≡ some u) × (t ≡ s)
answer_found s t none u e = absurd cc
answer_found s t (some v) u e = (cc, cc)

answer_missing :
    (s t : Rows) (found : Option User)
    → answer s found ≡ (t, err entity_not_found)
    → (found ≡ none) × (t ≡ s)
answer_missing s t none e = (refl, cc)
answer_missing s t (some v) e = absurd cc

answer_failed : (s t : Rows) (found : Option User) → answer s found ≢ (t, err other_error)
answer_failed s t none e = cc
answer_failed s t (some v) e = cc

in_memory-IsTable : IsTable in_memory
in_memory-IsTable = record {
  row = λ rows. rows;
  get_found = λ a s t u e. answer_found s t (s a) u e;
  get_missing = λ a s t e. answer_missing s t (s a) e;
  get_failed = λ a s t e. absurd (answer_failed s t (s a) e);
  set_done = λ id b s t e a. ap (λ rows. rows a) (sym (ap (λ p. p.0) e));
  set_failed = λ id b s t e f. absurd cc;
  create_done = λ p s t u e. (
    ap (λ v. v.is_anonymous) (sym (ok-injective (ap (λ p. p.1) e))),
    λ a k known.
        ap (λ rows. rows a) (sym (ap (λ p. p.0) e))
        ∙ (ap (λ o. if text_eq (key_of o) a then some (row_of p) else s a) known
            ∙ ap (λ v. if text_eq k a then some v else s a) (ok-injective (ap (λ p. p.1) e))),
  );
  create_failed = λ p s t e f. absurd cc;
}

-- A registered user whose row still says guest.
abbrev stale : User
stale = record { id = 7; email = []; name = none; auth_id = some (codes "u7"); is_anonymous = true }

abbrev rows : Rows
rows a = if text_eq a (codes "u7") then some stale else none

abbrev upgraded : AuthClaims
upgraded = record { sub = codes "u7"; role = role_authenticated; is_anonymous = false }

abbrev guest : AuthClaims
guest = record { sub = codes "g1"; role = role_authenticated; is_anonymous = true }

abbrev request : AuthClaims → Request
request claims = record {
  method = codes "GET";
  cookies = [];
  header = λ name. [];
  post_form = λ name. [];
  context = record { gotrue_user = none; claims = some claims; user = none; csrf_token = none };
}

abbrev no_response : Response
no_response = record { set_cookies = []; header = []; status = none }

abbrev page : Handler Rows
page world r w = (world, record w { status = some 200 })

all_of_it : Unit {0}
unfolding text_eq provision_params provision_user healed resolve_found resolve_user load load_claims
    user_loader optional_user_loader auth_claims_from_context with_user
all_of_it = tt

resolve_user_tests :
    ((resolve_user in_memory (request upgraded) upgraded rows).1
      ≡ ok (record stale { is_anonymous = false }))
    × ((resolve_user in_memory (request guest) guest rows).1
        ≡ ok (row_of (provision_params (request guest) guest)))
    × ((provision_params (request guest) guest).email ≡ codes "g1@guest.invalid")
    × ((user_loader in_memory page rows (request guest) no_response).1.status ≡ some 200)
unfolding all_of_it
resolve_user_tests = (refl, refl, refl, refl)

abbrev healed_rows : Rows
healed_rows a = Option.map (flagged 7 false) (rows a)

resolve_user-IsPromotion_example :
    IsPromotion in_memory-IsTable rows healed_rows
    × IsResolved in_memory-IsTable upgraded healed_rows (ok (record stale { is_anonymous = false }))
unfolding all_of_it
resolve_user-IsPromotion_example =
    resolve_user-IsPromotion in_memory-IsTable (request upgraded) upgraded rows healed_rows
      (ok (record stale { is_anonymous = false })) refl

user_loader_serves_example :
    ((after : Rows) × (user : User) × IsPromotion in_memory-IsTable rows after
      × (in_memory-IsTable.row after guest.sub ≡ some user)
      × (guest.is_anonymous ≡ false → user.is_anonymous ≡ false)
      × ((next : Handler Rows)
          → (user_loader in_memory next rows (request guest) no_response
              ≡ next after
                  (with_context (request guest) (with_user (request guest).context user))
                  no_response)
            × (optional_user_loader in_memory next rows (request guest) no_response
                ≡ next after
                    (with_context (request guest) (with_user (request guest).context user))
                    no_response)))
    ⊎ ((after : Rows) × ((next : Handler Rows)
          → (user_loader in_memory next rows (request guest) no_response
              ≡ (after, http_error internal_server_error no_response))
            × (optional_user_loader in_memory next rows (request guest) no_response
                ≡ (after, http_error internal_server_error no_response))))
user_loader_serves_example =
    user_loader_serves in_memory-IsTable guest rows (request guest) no_response refl
