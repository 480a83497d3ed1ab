-- ===== src/Middleware/Sessions/Tests.antt =====
-- Sessions of concrete requests. The world counts the guests.
use go_performance_starter.Prelude.{
  ℕ, suc, ◌≡◌, refl, ◌⊎◌, true, none, some, List, [], ◌∷◌, if◌then◌else◌,
}
use go_performance_starter.Prelude.Text.{Text, codes, text_eq, split_on}
use go_performance_starter.Http.{
  failure, ok, err, pos, Context, GoTrueUser, Request, Response, cookie, Handler, with_context,
  is_htmx_request, set_hx_redirect, with_auth_claims,
}
use go_performance_starter.Middleware.Sessions.{
  AuthServer, AnonSession, access_token_name, has_value, to_login, guest_session, issue,
  validate_session, validate_token, validated, clear_session, session_context, auth_middleware,
  optional_auth, admit, token_claims,
}
use go_performance_starter.Middleware.Sessions.Guard.{
  identified, IsSession, IsRefused, SendsToLogin, auth_middleware-IsGuarded, optional_auth_serves,
}
use go_performance_starter.Middleware.Sessions.Guests.{
  asked_as, given_to, IsIntroduced, IsServed, guest_session-optional_auth, guest_session_empty,
}

abbrev guest : AnonSession
guest = record { access_token = codes "a.b.c"; refresh_token = codes "r"; expires_in = pos 3600 }

abbrev visitor : GoTrueUser
visitor = record { id = codes "u7"; email = []; name = none }

abbrev one_guest : AuthServer ℕ
one_guest = record {
  sign_in_anonymously = λ n. (suc n, ok guest);
  get_user = λ token n. if text_eq token (codes "a.b.c") then (n, ok visitor) else (n, err failure);
  decode_base64 = λ s. some s;
  unmarshal_claims = λ s. some (codes "u7", true);
}

abbrev no_context : Context
no_context = record { gotrue_user = none; claims = none; user = none; csrf_token = none }

abbrev request : List (Text × Text) → Request
request jar = record {
  method = codes "GET";
  cookies = jar;
  header = λ name. [];
  post_form = λ name. [];
  context = no_context;
}

abbrev no_response : Response
no_response = record { set_cookies = []; header = []; status = none }

abbrev page : Handler ℕ
page world r w = (world, record w { status = some 200 })

-- A page for those with an identity.
abbrev known : Handler ℕ
known world r w = (
  world,
  record w { status = elim r.context.gotrue_user [ none ↦ some 404 | some u ↦ some 200 ] },
)

all_of_it : Unit {0}
unfolding text_eq split_on cookie is_htmx_request set_hx_redirect with_auth_claims has_value
    to_login guest_session issue validate_session validate_token validated clear_session
    session_context auth_middleware optional_auth admit token_claims
all_of_it = tt

auth_middleware_tests :
    ((auth_middleware one_guest true page 0 (request []) no_response).1.status ≡ some 303)
    × ((auth_middleware one_guest true page 0
          (request ((access_token_name, codes "a.b.c") ∷ []))
          no_response).1.status
        ≡ some 200)
    × ((guest_session one_guest true
          (optional_auth one_guest true true known)
          0
          (request [])
          no_response).1.status
        ≡ some 200)
    × ((guest_session one_guest true
          (optional_auth one_guest true true known)
          0
          (request ((access_token_name, []) ∷ []))
          no_response).1.status
        ≡ some 404)
unfolding all_of_it
auth_middleware_tests = (refl, refl, refl, refl)

auth_middleware-IsGuarded_example :
    ((token : Text) × (user : GoTrueUser) × (after : ℕ) × IsSession one_guest 0
        (request [])
        token
        user
        after
      × ((next : Handler ℕ)
          → auth_middleware one_guest true next 0 (request []) no_response
            ≡ next after
                (with_context (request []) (identified one_guest no_context token user))
                no_response))
    ⊎ ((after : ℕ) × (w' : Response) × (answer : Response) × IsRefused one_guest true 0
          (request [])
          no_response
          after
          w'
        × SendsToLogin (request []) w' answer
        × ((next : Handler ℕ)
            → auth_middleware one_guest true next 0 (request []) no_response ≡ (after, answer)))
auth_middleware-IsGuarded_example =
    auth_middleware-IsGuarded one_guest true 0 (request []) no_response

optional_auth_serves_example :
    (after : ℕ) × (ctx : Context) × (w' : Response) × ((next : Handler ℕ)
      → optional_auth one_guest true true next 0 (request []) no_response
        ≡ next after (with_context (request []) ctx) w')
    × (((token : Text) × (user : GoTrueUser) × IsSession one_guest 0 (request []) token user after
          × (ctx ≡ identified one_guest no_context token user))
        ⊎ ((ctx ≡ no_context)
            × (true ≡ true
                → (token : Text) (user : GoTrueUser) (a : ℕ)
                → ¬ IsSession one_guest 0 (request []) token user a)))
optional_auth_serves_example = optional_auth_serves one_guest true true 0 (request []) no_response

guest_session-optional_auth_example :
    IsServed one_guest true
      (request [])
      no_response
      (IsIntroduced one_guest true (request []) no_response)
      0
      (λ next.
        guest_session one_guest true
          (optional_auth one_guest true true next)
          0
          (request [])
          no_response)
unfolding all_of_it
guest_session-optional_auth_example =
    guest_session-optional_auth one_guest true (request []) no_response 0 refl

guest_session_empty_example :
    guest_session one_guest true
      (optional_auth one_guest true true page)
      0
      (request ((access_token_name, []) ∷ []))
      no_response
    ≡ page 1
        (asked_as guest (request ((access_token_name, []) ∷ [])))
        (given_to true guest no_response)
unfolding all_of_it
guest_session_empty_example =
    guest_session_empty one_guest true (request ((access_token_name, []) ∷ [])) no_response true
      page 0 1 guest refl refl
