-- ===== src/Handler/Recover/Silent.antt =====
-- What the two pages for a forgotten password give away, and when a password is changed.
use go_performance_starter.Prelude.{ℕ, ◌≡◌, refl, ◌⊎◌, inl, inr, true, false, some, Bool-cases}
use go_performance_starter.Prelude.Text.{Text, codes}
use go_performance_starter.Http.{
  Result, Failure, ok, err, is_empty, Request, Response, cookie, set_header, write_header,
}
use go_performance_starter.Middleware.Sessions.{access_token_name}
use go_performance_starter.Handler.Recover.{
  AuthView, empty, auth_message, Forms, Accounts, Answer, auth_recover_post,
}

-- The answer to a request for a reset link is the same whatever GoTrue says and whatever accounts there
-- are: it does not depend on the server at all. The two servers may differ in everything.
pub auth_recover_post_blind :
    {V W : Type 0} (left : Accounts V) (right : Accounts W) (forms : Forms) (v : V) (u : W)
    (r : Request) (w : Response)
    → (auth_recover_post left forms v r w).1 ≡ (auth_recover_post right forms u r w).1
unfolding auth_recover_post
auth_recover_post_blind left right forms v u r w = elim (Bool-cases (forms.parse_form r)) [
  | inr e ↦ rw e refl
  | inl e ↦ elim (Bool-cases (is_empty (forms.form_value r (codes "email")))) [
    | inl f ↦ rw (e, f) refl
    | inr f ↦ rw (e, f) refl
  ]
]

-- The answer tells of a failure: it shows an error, and leads nowhere.
abbrev pub TellsFailure : ℕ → Response → Response × AuthView → Type 0
TellsFailure status w answer =
    (message : Text) × (answer.1 ≡ auth_message (codes "error") message)
    × (answer.0
        ≡ write_header status (
            set_header "Content-Type" (codes "text/html; charset=utf-8")
              (set_header "HX-Toast-Type" (codes "error") (set_header "HX-Trigger" message w))))

-- The answer tells that the password is changed, and leads to the profile.
abbrev pub TellsSuccess : Response → Response × AuthView → Type 0
TellsSuccess w answer =
    (answer.1 ≡ empty)
    × (answer.0
        ≡ write_header 200 (
            set_header "HX-Redirect" (codes "/profile") (
              set_header "HX-Toast-Type" (codes "success")
                (set_header "HX-Trigger" (codes "Your password has been updated.") w))))

module _ {W : Type 0} (accounts : Accounts W) (forms : Forms) (world : W) (r : Request)
    (w : Response) where
  abbrev pub sent : Text
  sent = forms.form_value r (codes "password")

  -- The answer to the call that changes the password, by how it went.
  abbrev pub Tells : W × Result Failure (Unit {0}) → Answer W → Type 0
  Tells (after, err e) answer = (answer.0 ≡ after) × TellsFailure 422 w answer.1
  Tells (after, ok _) answer = (answer.0 ≡ after) × TellsSuccess w answer.1

  -- There is no cookie with an access token in it.
  abbrev pub IsSignedOut : Type 0
  IsSignedOut =
      (token : Text) → cookie access_token_name r.cookies ≡ some token → is_empty token ≡ true

  -- The form does not parse, or has no password, or two that differ.
  abbrev pub IsRejected : Type 0
  IsRejected =
      (forms.parse_form r ≡ false)
      ⊎ (is_empty sent ≡ true)
      ⊎ ¬ (sent ≡ forms.form_value r (codes "password_confirm"))

  -- Nothing outside of the request changed, and a 401 is shown to one who is signed out, a 400 for a
  -- form that is rejected; or the one call was made that changes the password, under the request's own
  -- token, to the one that was sent twice, and the answer tells how it went.
  abbrev pub IsReset : Answer W → Type 0
  IsReset answer =
      (IsSignedOut × (answer.0 ≡ world) × TellsFailure 401 w answer.1)
      ⊎ (IsRejected × (answer.0 ≡ world) × TellsFailure 400 w answer.1)
      ⊎ ((token : Text) × (cookie access_token_name r.cookies ≡ some token)
          × (is_empty token ≡ false)
          × (is_empty sent ≡ false)
          × (sent ≡ forms.form_value r (codes "password_confirm"))
          × Tells (accounts.update_password token sent world) answer)
