-- ===== src/Middleware/Sessions.antt =====
-- internal/middleware/guest_session.go, auth_middleware.go and optional_auth.go: who a request comes
-- from. The calls of GoTrue are parameters; internal/auth/anon.go's TokenClaims reads a token's
-- payload.
pub mod Guard
pub mod Guests
mod Tests
use go_performance_starter.Prelude.{
  ℕ, ◌*◌, ◌≡◌, Bool, true, false, not, ◌||◌, Option, none, some, List, [], ◌∷◌, if◌then◌else◌,
}
use go_performance_starter.Prelude.Text.{Text, codes, split_on}
use go_performance_starter.Http.{
  Failure, failure, Result, ok, err, ℤ, pos, negsuc, is_empty, Cookie, AuthClaims, GoTrueUser,
  Context, Request, Response, cookie, add_cookie, with_context, set_cookie, write_header, redirect,
  Handler, see_other, unauthorized, role_authenticated, with_auth_claims, is_htmx_request,
  set_hx_redirect,
}

-- auth.AnonSession, its fields that the middleware reads
pub record AnonSession : Type 0 where
  pub access_token : Text
  pub refresh_token : Text
  pub expires_in : ℤ

-- The auth server and the two decoders of the Go library that TokenClaims calls: RawURLEncoding of
-- base64, and Unmarshal into a struct of sub and is_anonymous.
pub record AuthServer (W : Type 0) : Type 0 where
  pub sign_in_anonymously : W → W × Result Failure AnonSession
  pub get_user : Text → W → W × Result Failure GoTrueUser
  pub decode_base64 : Text → Option Text
  pub unmarshal_claims : Text → Option (Text × Bool)

abbrev pub access_token_name : Text
access_token_name = codes "sb-access-token"

abbrev pub refresh_token_name : Text
refresh_token_name = codes "sb-refresh-token"

-- A cookie whose value is not empty.
unfoldable pub has_value : Option Text → Bool
has_value none = false
has_value (some v) = not (is_empty v)

abbrev session_cookie : Bool → Text → Text → ℤ → Cookie
session_cookie secure name value max_age = record {
  name = name;
  value = value;
  path = codes "/";
  max_age = max_age;
  http_only = true;
  secure = secure;
}

-- The two cookies that GuestSession issues.
abbrev pub access_cookie : Bool → AnonSession → Cookie
access_cookie secure s = session_cookie secure access_token_name s.access_token s.expires_in

abbrev pub refresh_cookie : Bool → AnonSession → Cookie
refresh_cookie secure s =
    session_cookie secure refresh_token_name s.refresh_token (pos (30 * 24 * 60 * 60))

-- toLogin
unfoldable pub to_login : Request → Response → Response
to_login r w =
    if is_htmx_request r
    then write_header unauthorized (set_hx_redirect w (codes "/auth/page"))
    else redirect (codes "/auth/page") see_other w

-- The cookies that validateSession clears.
unfoldable pub clear_session : Bool → Response → Response
clear_session secure w =
    set_cookie (session_cookie secure refresh_token_name [] (negsuc 0))
      (set_cookie (session_cookie secure access_token_name [] (negsuc 0)) w)

module _ {W : Type 0} (server : AuthServer W) where
  open server use {sign_in_anonymously, get_user, decode_base64, unmarshal_claims}

  -- GuestSession, after the sign-in
  unfoldable pub issue :
      Bool → Handler W → Request → Response → W × Result Failure AnonSession → W × Response
  issue secure next r w (world, err _) = next world r w
  issue secure next r w (world, ok session) =
      let access = access_cookie secure session in
      let refresh = refresh_cookie secure session in
      next world (add_cookie refresh (add_cookie access r))
        (set_cookie refresh (set_cookie access w))

  -- GuestSession
  unfoldable pub guest_session : Bool → Handler W → Handler W
  guest_session secure next world r w =
      if has_value (cookie access_token_name r.cookies)
      then next world r w
      else issue secure next r w (sign_in_anonymously world)

  abbrev payload_of : List Text → Option Text
  payload_of (header ∷ payload ∷ signature ∷ []) = decode_base64 payload
  payload_of _ = none

  abbrev claims_of : Option Text → Option (Text × Bool)
  claims_of none = none
  claims_of (some payload) = unmarshal_claims payload

  -- TokenClaims: sub and is_anonymous; `none` is an error
  unfoldable pub token_claims : Text → Option (Text × Bool)
  token_claims token = claims_of (payload_of (split_on b'.' token))

  -- The flag that validateSession uses; that of an error is false.
  abbrev pub anonymous_flag : Option (Text × Bool) → Bool
  anonymous_flag none = false
  anonymous_flag (some (sub, is_anonymous)) = is_anonymous

  -- The context of a validated session.
  unfoldable pub session_context : Context → Text → GoTrueUser → Context
  session_context ctx token user =
      with_auth_claims (record ctx { gotrue_user = some user })
        (record {
          sub = user.id;
          role = role_authenticated;
          is_anonymous = anonymous_flag (token_claims token);
        })

  unfoldable pub validated :
      Bool
      → Context
      → Text
      → Response
      → W × Result Failure GoTrueUser
      → W × (Response × Option Context)
  validated secure ctx token w (world, err _) = (world, (clear_session secure w, none))
  validated secure ctx token w (world, ok user) =
      (world, (w, some (session_context ctx token user)))

  -- validateSession, by the cookie that it found; `none` is its false
  unfoldable pub validate_token :
      Bool → W → Request → Response → Option Text → W × (Response × Option Context)
  validate_token secure world r w none = (world, (w, none))
  validate_token secure world r w (some token) =
      if is_empty token
      then (world, (w, none))
      else validated secure r.context token w (get_user token world)

  -- validateSession
  unfoldable pub validate_session : Bool → W → Request → Response → W × (Response × Option Context)
  validate_session secure world r w =
      validate_token secure world r w (cookie access_token_name r.cookies)

  unfoldable pub admit :
      (refused : Handler W) → Handler W → Request → W × (Response × Option Context) → W × Response
  admit refused next r (world, (w, none)) = refused world r w
  admit refused next r (world, (w, some ctx)) = next world (with_context r ctx) w

  -- AuthMiddleware
  unfoldable pub auth_middleware : Bool → Handler W → Handler W
  auth_middleware secure next world r w =
      admit (λ world' r' w'. (world', to_login r' w')) next r (validate_session secure world r w)

  -- OptionalAuth; `configured` tells whether there is an auth client
  unfoldable pub optional_auth : (configured : Bool) → Bool → Handler W → Handler W
  optional_auth configured secure next world r w =
      if not (has_value (cookie access_token_name r.cookies)) || not configured
      then next world r w
      else admit next next r (validate_session secure world r w)
