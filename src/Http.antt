-- ===== src/Http.antt =====
-- What the middlewares use of net/http, and internal/webutil: requests with their context, responses,
-- handlers. A handler runs in a world `W`, the state of everything outside of the request: the auth
-- server, the database, the random source. Texts are lists of code points.
use go_performance_starter.Prelude.{
  ℕ, ◌≡◌, Bool, true, false, String, Option, none, some, List, [], ◌∷◌, ◌++◌, if◌then◌else◌,
}
use go_performance_starter.Prelude.Dict.{Dict, insert}
use go_performance_starter.Prelude.Text.{Text, codes, text_eq}

-- A call that may fail; of an error only its kind is kept.
pub data Result {ℓ κ} (E : Type κ) (A : Type ℓ) : Type (ℓ ⊔ κ) where
  ok : A → Result E A
  err : E → Result E A

-- An error of which nothing is read.
pub data Failure : Type 0 where
  failure : Failure

-- Go's int, without its bounds: MaxAge is 0, a number of seconds, or -1 to delete the cookie.
pub data ℤ : Type 0 where
  pos : ℕ → ℤ
  negsuc : ℕ → ℤ

abbrev pub is_empty : Text → Bool
is_empty [] = true
is_empty (c ∷ s) = false

-- http.Cookie as it is sent to the browser; SameSite is Lax for every cookie of the program.
pub record Cookie : Type 0 where
  pub name : Text
  pub value : Text
  pub path : Text
  pub max_age : ℤ
  pub http_only : Bool
  pub secure : Bool

-- webutil.AuthClaims
pub record AuthClaims : Type 0 where
  pub sub : Text
  pub role : Text
  pub is_anonymous : Bool

-- The fields of types.UserResponse that the program reads; `name` is UserMetadata["name"] where that
-- is a string.
pub record GoTrueUser : Type 0 where
  pub id : Text
  pub email : Text
  pub name : Option Text

-- The fields of database.User that the program decides on. An id stands for the 128 bits of a uuid.
pub record User : Type 0 where
  pub id : ℕ
  pub email : Text
  pub name : Option Text
  pub auth_id : Option Text
  pub is_anonymous : Bool

-- The values that the program puts in a request's context, each with its key.
pub record Context : Type 0 where
  pub gotrue_user : Option GoTrueUser
  pub claims : Option AuthClaims
  pub user : Option User
  pub csrf_token : Option Text

pub record Request : Type 0 where
  pub method : Text
  pub cookies : List (Text × Text)
  pub header : Text → Text
  pub post_form : Text → Text
  pub context : Context

pub record Response : Type 0 where
  pub set_cookies : List Cookie
  pub header : Dict Text
  pub status : Option ℕ

-- r.Cookie: the first cookie of that name
unfoldable pub cookie : Text → List (Text × Text) → Option Text
cookie name [] = none
cookie name (c ∷ jar) = let rest = cookie name jar in if text_eq c.0 name then some c.1 else rest

-- r.AddCookie. The values are tokens and ids, of characters that AddCookie and the parser of the
-- Cookie header leave as they are.
abbrev pub add_cookie : Cookie → Request → Request
add_cookie c r = record r { cookies = r.cookies ++ (c.name, c.value) ∷ [] }

-- r.WithContext
abbrev pub with_context : Request → Context → Request
with_context r ctx = record r { context = ctx }

-- http.SetCookie
abbrev pub set_cookie : Cookie → Response → Response
set_cookie c w = record w { set_cookies = w.set_cookies ++ c ∷ [] }

-- w.Header().Set
abbrev pub set_header : String → Text → Response → Response
set_header name value w = record w { header = insert name value w.header }

abbrev first_status : Option ℕ → ℕ → Option ℕ
first_status none code = some code
first_status (some c) code = some c

-- w.WriteHeader: only the first one counts
abbrev pub write_header : ℕ → Response → Response
write_header code w = record w { status = first_status w.status code }

-- http.Error and http.NotFound, without the text
abbrev pub http_error : ℕ → Response → Response
http_error code w = write_header code w

-- http.Redirect to an absolute path
abbrev pub redirect : Text → ℕ → Response → Response
redirect url code w = write_header code (set_header "Location" url w)

abbrev pub Handler : Type 0 → Type 0
Handler W = W → Request → Response → W × Response

abbrev pub see_other : ℕ
see_other = 303

abbrev pub unauthorized : ℕ
unauthorized = 401

abbrev pub forbidden : ℕ
forbidden = 403

abbrev pub internal_server_error : ℕ
internal_server_error = 500

-- webutil.RoleAuthenticated
abbrev pub role_authenticated : Text
role_authenticated = codes "authenticated"

-- webutil.RoleAnon
abbrev pub role_anon : Text
role_anon = codes "anon"

-- webutil.WithAuthClaims
unfoldable pub with_auth_claims : Context → AuthClaims → Context
with_auth_claims ctx claims = record ctx { claims = some claims }

-- webutil.AuthClaimsFromContext
unfoldable pub auth_claims_from_context : Context → Option AuthClaims
auth_claims_from_context ctx = ctx.claims

-- webutil.WithUser
unfoldable pub with_user : Context → User → Context
with_user ctx user = record ctx { user = some user }

-- view.IsHTMXRequest
unfoldable pub is_htmx_request : Request → Bool
is_htmx_request r = text_eq (r.header (codes "HX-Request")) (codes "true")

-- view.SetHXRedirect
unfoldable pub set_hx_redirect : Response → Text → Response
set_hx_redirect w url = set_header "HX-Redirect" url w

abbrev pub not_found : ℕ
not_found = 404

pub ok-injective {ℓ κ} :
    {E : Type κ} {A : Type ℓ} {a b : A} → ◌≡◌ {A = Result E A} (ok a) (ok b) → a ≡ b
ok-injective e = cc
