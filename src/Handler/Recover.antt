-- ===== src/Handler/Recover.antt =====
-- internal/handler/auth_handlers.go and recover_handlers.go: sign-in, sign-up, sign-out and the reset of
-- a password. The calls of GoTrue (gotrue-go, and VerifyRecovery) and the parser of forms are parameters.
pub mod Silent
mod Tests
use go_performance_starter.Prelude.{
  ℕ, Bool, true, false, not, ◌||◌, Option, none, some, List, [], ◌∷◌, String, if◌then◌else◌,
}
use go_performance_starter.Prelude.Text.{Text, codes, text_eq}
use go_performance_starter.Http.{
  Failure, Result, ok, err, is_empty, Request, Response, cookie, set_header, write_header,
  unauthorized, set_hx_redirect,
}
use go_performance_starter.Middleware.Sessions.{AnonSession, access_token_name, clear_session}
use go_performance_starter.Handler.Upgrade.{set_session_cookies}

-- What a fragment or a page shows: a message of a kind, or the form of a new password, valid or not.
pub data AuthView : Type 0 where
  empty : AuthView
  auth_message : (kind message : Text) → AuthView
  reset_page : (valid : Bool) → AuthView

-- ParseForm without an error, FormValue, and the query of the URL
pub record Forms : Type 0 where
  pub parse_form : Request → Bool
  pub form_value : Request → Text → Text
  pub query : Request → Text → Text

-- The calls of the auth client. `sign_out` is given no token.
pub record Accounts (W : Type 0) : Type 0 where
  pub sign_in_with_email_password : (email password : Text) → W → W × Result Failure AnonSession
  pub signup : (email password : Text) → W → W × Result Failure (Unit {0})
  pub sign_out : W → W × Result Failure (Unit {0})
  pub recover : Text → W → W × Result Failure (Unit {0})
  pub verify_recovery : Text → W → W × Result Failure AnonSession
  pub update_password : (access_token password : Text) → W → W × Result Failure (Unit {0})

abbrev html : Response → Response
html w = set_header "Content-Type" (codes "text/html; charset=utf-8") w

-- authFeedback
unfoldable pub auth_feedback : ℕ → Text → Text → Response → Response × AuthView
auth_feedback status kind message w = (
  write_header status (html (set_header "HX-Toast-Type" kind (set_header "HX-Trigger" message w))),
  auth_message kind message,
)

abbrev failed : Text
failed = codes "error"

abbrev pub Answer : Type 0 → Type 0
Answer W = W × (Response × AuthView)

module _ {W : Type 0} (accounts : Accounts W) (forms : Forms) where
  abbrev value : Request → Text → Text
  value r name = forms.form_value r name

  -- the last lines of AuthLoginPost
  unfoldable pub signed_in : Bool → Response → W × Result Failure AnonSession → Answer W
  unfolding auth_feedback set_session_cookies set_hx_redirect
  signed_in secure w (world, err e) =
      (world, auth_feedback unauthorized failed (codes "Invalid login credentials.") w)
  signed_in secure w (world, ok session) = (
    world,
    (
      write_header 200 (set_hx_redirect (set_session_cookies secure session w) (codes "/profile")),
      empty,
    ),
  )

  -- AuthLoginPost
  unfoldable pub auth_login_post : Bool → W → Request → Response → Answer W
  unfolding auth_feedback signed_in
  auth_login_post secure world r w =
      if not (forms.parse_form r)
      then (world, auth_feedback 400 failed (codes "Failed to process form.") w)
      else if is_empty (value r (codes "email")) || is_empty (value r (codes "password"))
      then (world, auth_feedback 400 failed (codes "Email and password cannot be empty.") w)
      else signed_in secure w (
          accounts.sign_in_with_email_password (value r (codes "email"))
            (value r (codes "password")) world)

  abbrev signed_up : Response → W × Result Failure (Unit {0}) → Answer W
  signed_up w (world, err e) = (
    world,
    auth_feedback 409 failed
        (codes "Signup failed. User might already exist or password is too weak.") w,
  )
  signed_up w (world, ok _) = (
    world,
    auth_feedback 200 (codes "success")
        (codes "Signup successful! Please check your email to confirm your account, then sign in.")
        w,
  )

  -- AuthSignupPost
  unfoldable pub auth_signup_post : W → Request → Response → Answer W
  unfolding auth_feedback
  auth_signup_post world r w =
      if not (forms.parse_form r)
      then (world, auth_feedback 400 failed (codes "Failed to process form.") w)
      else if is_empty (value r (codes "email")) || is_empty (value r (codes "password"))
      then (world, auth_feedback 400 failed (codes "Email and password cannot be empty.") w)
      else signed_up w
          (accounts.signup (value r (codes "email")) (value r (codes "password")) world)

  -- AuthLogoutPost; a failure of the call is only logged
  unfoldable pub auth_logout_post : Bool → W → Request → Response → Answer W
  unfolding clear_session set_hx_redirect
  auth_logout_post secure world r w = (
    (accounts.sign_out world).0,
    (
      write_header 200 (
          set_hx_redirect
            (set_header "HX-Trigger"
              (codes
                "{\"showToast\":{\"level\":\"success\",\"message\":\"You have been logged out.\"}}")
              (clear_session secure w))
            (codes "/auth/page")),
      empty,
    ),
  )

  -- recoverGenericMessage
  abbrev pub recover_generic_message : Text
  recover_generic_message = codes "If that email has an account, a reset link is on its way."

  -- AuthRecoverPost; a failure of the call is only logged
  unfoldable pub auth_recover_post : W → Request → Response → Answer W
  unfolding auth_feedback
  auth_recover_post world r w =
      if not (forms.parse_form r)
      then (world, auth_feedback 400 failed (codes "Failed to process form.") w)
      else if is_empty (value r (codes "email"))
      then (world, auth_feedback 400 failed (codes "Email cannot be empty.") w)
      else (
        (accounts.recover (value r (codes "email")) world).0,
        auth_feedback 200 (codes "success") recover_generic_message w,
      )

  abbrev reset_view : Bool → Response → Response × AuthView
  reset_view valid w = (write_header 200 (html w), reset_page valid)

  unfoldable pub verified : Bool → Response → W × Result Failure AnonSession → Answer W
  unfolding set_session_cookies
  verified secure w (world, err e) = (world, reset_view false w)
  verified secure w (world, ok session) =
      (world, reset_view true (set_session_cookies secure session w))

  -- AuthResetPage
  unfoldable pub auth_reset_page : Bool → W → Request → Response → Answer W
  unfolding verified
  auth_reset_page secure world r w =
      let token_hash = forms.query r (codes "token_hash") in
      if is_empty token_hash
      then (world, reset_view false w)
      else verified secure w (accounts.verify_recovery token_hash world)

  unfoldable pub password_updated : Response → W × Result Failure (Unit {0}) → Answer W
  unfolding auth_feedback set_hx_redirect
  password_updated w (world, err e) = (
    world,
    auth_feedback 422 failed
        (codes "Could not update password. It may be too short — try a longer one.") w,
  )
  password_updated w (world, ok _) = (
    world,
    (
      write_header 200 (
          set_hx_redirect
            (set_header "HX-Toast-Type" (codes "success")
              (set_header "HX-Trigger" (codes "Your password has been updated.") w))
            (codes "/profile")),
      empty,
    ),
  )

  -- AuthResetPost, with the value of the access cookie
  unfoldable pub reset_with : Option Text → W → Request → Response → Answer W
  unfolding auth_feedback password_updated text_eq
  reset_with none world r w = (
    world,
    auth_feedback unauthorized failed (codes "Your reset link has expired. Request a new one.") w,
  )
  reset_with (some token) world r w =
      if is_empty token
      then (
        world,
        auth_feedback unauthorized failed (codes "Your reset link has expired. Request a new one.")
            w,
      )
      else if not (forms.parse_form r)
      then (world, auth_feedback 400 failed (codes "Failed to process form.") w)
      else if is_empty (value r (codes "password"))
      then (world, auth_feedback 400 failed (codes "Password cannot be empty.") w)
      else if not (text_eq (value r (codes "password")) (value r (codes "password_confirm")))
      then (world, auth_feedback 400 failed (codes "Passwords do not match.") w)
      else password_updated w (accounts.update_password token (value r (codes "password")) world)

  -- AuthResetPost
  unfoldable pub auth_reset_post : W → Request → Response → Answer W
  unfolding cookie reset_with
  auth_reset_post world r w = reset_with (cookie access_token_name r.cookies) world r w
