-- ===== src/Handler/Upgrade.antt =====
-- internal/handler/upgrade_handlers.go: a guest takes credentials. The parser of forms and net/mail are
-- parameters; the calls of GoTrue and of the repository are the interfaces of the code. What a page
-- shows is a value.
pub mod Guarded
mod Tests
use go_performance_starter.Prelude.{
  ℕ, ◌+◌, ◌*◌, Bool, true, false, not, ◌||◌, ◌&&◌, Option, none, some, List, [], ◌∷◌, ltb,
  if◌then◌else◌,
}
use go_performance_starter.Prelude.Text.{Text, codes, text_eq, trim_space}
use go_performance_starter.Http.{
  Failure, Result, ok, err, pos, is_empty, Cookie, User, Request, Response, cookie, set_cookie,
  set_header, write_header, redirect, see_other, is_htmx_request,
}
use go_performance_starter.Middleware.Sessions.{
  AnonSession, access_token_name, refresh_token_name, has_value, access_cookie, refresh_cookie,
}
use go_performance_starter.Middleware.Users.{RepoError}
use go_performance_starter.Auth.Anon.Upgrade.{
  UpgradeError, email_in_use, upgrade_failed, UpgradeResult,
}

-- anonUpgrader
pub record AnonUpgrader (W : Type 0) : Type 0 where
  pub upgrade_anonymous_user :
      (access_token email password : Text) → W → W × Result UpgradeError UpgradeResult
  pub refresh_session : Text → W → W × Result Failure AnonSession

-- The calls of the repository in the request's context; `update_email` is Update with the id and the
-- email set.
pub record UserRows (W : Type 0) : Type 0 where
  pub set_anonymous : ℕ → Bool → W → W × Result RepoError (Unit {0})
  pub update_email : ℕ → Text → W → W × Result RepoError User

-- http.Request.ParseForm without an error, and the address of mail.ParseAddress
pub record FormPackage : Type 0 where
  pub parse_form : Request → Bool
  pub parse_address : Text → Option Text

-- partials.UpgradeFormProps, whose map of errors has these three keys
pub record UpgradeFormProps : Type 0 where
  pub email : Text
  pub email_error : Option Text
  pub password_error : Option Text
  pub form_error : Option Text
  pub success : Bool
  pub confirmation_sent : Bool

-- What is rendered: the page of an account that is registered, the form alone (for HTMX), or the page
-- with the form.
pub data View : Type 0 where
  nothing : View
  registered_page : View
  form : UpgradeFormProps → View
  form_page : UpgradeFormProps → View

abbrev pub Shown : Type 0
Shown = Response × View

-- view.Render
abbrev pub render : ℕ → View → Response → Shown
render status v w =
    (write_header status (set_header "Content-Type" (codes "text/html; charset=utf-8") w), v)

abbrev pub shown_as : Bool → UpgradeFormProps → View
shown_as htmx props = if htmx then form props else form_page props

-- renderUpgradeForm
unfoldable pub render_upgrade_form : Request → ℕ → UpgradeFormProps → Response → Shown
unfolding is_htmx_request
render_upgrade_form r status props w = render status (shown_as (is_htmx_request r) props) w

-- setSessionCookies; the cookies are those of GuestSession
unfoldable pub set_session_cookies : Bool → AnonSession → Response → Response
set_session_cookies secure session w =
    set_cookie (refresh_cookie secure session) (set_cookie (access_cookie secure session) w)

-- len of a string in UTF-8
abbrev utf8_size : ℕ → ℕ
utf8_size c = if ltb c 0x80 then 1 else if ltb c 0x800 then 2 else if ltb c 0x10000 then 3 else 4

abbrev pub byte_length : Text → ℕ
byte_length [] = 0
byte_length (c ∷ s) = utf8_size c + byte_length s

abbrev same_address : Option Text → Text → Bool
same_address none value = false
same_address (some address) value = text_eq address value

-- validate.Email without an error
unfoldable pub is_email : FormPackage → Text → Bool
unfolding text_eq trim_space
is_email forms value = same_address (forms.parse_address value) (trim_space value)

abbrev an_error : Bool → Text → Option Text
an_error true message = some message
an_error false message = none

abbrev to_page : Response → Shown
to_page w = (redirect (codes "/auth/page") see_other w, nothing)

-- UpgradePage
unfoldable pub upgrade_page : Request → Response → Shown
upgrade_page r w = elim r.context.user [
  | none ↦ to_page w
  | some user ↦
      if user.is_anonymous
      then render 200
          (form_page (record {
            email = [];
            email_error = none;
            password_error = none;
            form_error = none;
            success = false;
            confirmation_sent = false;
          }))
          w
      else render 200 registered_page w
]

abbrev blank : Text → UpgradeFormProps
blank email = record {
  email = email;
  email_error = none;
  password_error = none;
  form_error = none;
  success = false;
  confirmation_sent = false;
}

-- The form after GoTrue refused.
unfoldable pub refused_form : Text → UpgradeError → UpgradeFormProps
refused_form email email_in_use = record (blank email) {
  email_error =
      some (codes "That email address is already registered — sign in to that account instead.");
}
refused_form email upgrade_failed = record (blank email) {
  form_error = some (codes "Something went wrong saving your account — please try again.");
}

module _ {W : Type 0} (upgrader : AnonUpgrader W) (repo : Option (UserRows W)) (secure : Bool) where
  -- The row is promoted and gets its email; failures of either are only logged.
  unfoldable pub promoted : Option (UserRows W) → ℕ → Text → W → W
  promoted none id email world = world
  promoted (some rows) id email world =
      let world' = (rows.set_anonymous id false world).0 in (rows.update_email id email world').0

  abbrev pub with_session : W × Result Failure AnonSession → Response → W × Response
  with_session (world, err e) w = (world, w)
  with_session (world, ok session) w = (world, set_session_cookies secure session w)

  -- The session is renewed where there is a refresh cookie with a value.
  unfoldable pub refreshed : Option Text → W → Response → W × Response
  unfolding set_session_cookies
  refreshed none world w = (world, w)
  refreshed (some token) world w =
      if is_empty token then (world, w) else with_session (upgrader.refresh_session token world) w

  abbrev done_form : Text → UpgradeResult → UpgradeFormProps
  done_form email result = record (blank email) {
    success = true;
    confirmation_sent = result.confirmation_sent;
  }

  unfoldable pub saved : Request → Text → UpgradeResult → W × Response → W × Shown
  unfolding is_htmx_request
  saved r email result (world, w) =
      if is_htmx_request r
      then (
        world,
        render 200 (form (done_form email result))
            (set_header "HX-Trigger" (codes "Your progress is saved.") w),
      )
      else (world, render 200 (form_page (done_form email result)) w)

  -- UpgradeSubmit, once GoTrue has answered
  unfoldable pub answered_upgrade :
      User → Request → Text → Response → W × Result UpgradeError UpgradeResult → W × Shown
  unfolding cookie refused_form render_upgrade_form promoted refreshed saved
  answered_upgrade user r email w (world, err e) =
      (world, render_upgrade_form r 422 (refused_form email e) w)
  answered_upgrade user r email w (world, ok result) =
      saved r email result
        (refreshed (cookie refresh_token_name r.cookies) (promoted repo user.id email world) w)

  -- With the access cookie
  unfoldable pub with_access :
      User → Request → (email password : Text) → Option Text → W → Response → W × Shown
  unfolding answered_upgrade
  with_access user r email password none world w = (world, to_page w)
  with_access user r email password (some token) world w =
      if is_empty token
      then (world, to_page w)
      else answered_upgrade user r email w
          (upgrader.upgrade_anonymous_user token email password world)

  -- For a guest, with the email and the password of the form.
  unfoldable pub submit_with :
      FormPackage → User → Request → (email password : Text) → W → Response → W × Shown
  unfolding is_email render_upgrade_form cookie with_access
  submit_with forms user r email password world w =
      let bad_email = not (is_email forms email) in
      let short = ltb (byte_length password) 8 in
      if bad_email || short
      then (
        world,
        render_upgrade_form r 422
            (record (blank email) {
              email_error = an_error bad_email (codes "That doesn't look like an email address.");
              password_error = an_error short (codes "Password must be at least 8 characters.");
            })
            w,
      )
      else with_access user r email password (cookie access_token_name r.cookies) world w

  unfoldable pub submit_as : FormPackage → User → Request → W → Response → W × Shown
  unfolding trim_space submit_with
  submit_as forms user r world w =
      submit_with forms user r (trim_space (r.post_form (codes "email")))
        (r.post_form (codes "password")) world w

  unfoldable pub submit_for : FormPackage → Option User → Request → W → Response → W × Shown
  unfolding submit_as
  submit_for forms none r world w = (world, to_page w)
  submit_for forms (some user) r world w =
      if not user.is_anonymous
      then (world, render 200 registered_page w)
      else submit_as forms user r world w

  -- UpgradeSubmit
  unfoldable pub upgrade_submit : FormPackage → W → Request → Response → W × Shown
  unfolding submit_for
  upgrade_submit forms world r w =
      if not (forms.parse_form r)
      then (
        world,
        (write_header 400 (set_header "Content-Type" (codes "application/json") w), nothing),
      )
      else submit_for forms r.context.user r world w
