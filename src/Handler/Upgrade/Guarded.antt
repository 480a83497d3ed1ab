-- ===== src/Handler/Upgrade/Guarded.antt =====
-- When an upgrade submits credentials, and what it then answers.
use go_performance_starter.Prelude.{
  ℕ, ◌*◌, List, [], ◌∷◌, ◌++◌, arith, ◌≡◌, refl, ◌⊎◌, inl, inr, ◌≤◌, Bool, true, false, Option,
  none, some, Bool-cases, ltb, ltb→le,
}
use go_performance_starter.Prelude.Text.{Text, codes, trim_space}
use go_performance_starter.Http.{
  Failure, pos, Cookie, Result, ok, err, is_empty, User, Request, Response, cookie, is_htmx_request,
}
use go_performance_starter.Middleware.Sessions.{AnonSession, access_token_name, refresh_token_name}
use go_performance_starter.Middleware.Sessions.Guard.{kept}
use go_performance_starter.Middleware.Users.{RepoError}
use go_performance_starter.Auth.Anon.Upgrade.{
  UpgradeError, email_in_use, upgrade_failed, UpgradeResult,
}
use go_performance_starter.Handler.Upgrade.{
  AnonUpgrader, UserRows, FormPackage, UpgradeFormProps, View, nothing, registered_page, form,
  form_page, shown_as, Shown, render_upgrade_form, byte_length, is_email, refused_form, promoted,
  refreshed, with_session, set_session_cookies, saved, answered_upgrade, with_access, submit_with,
  submit_as, submit_for, upgrade_submit,
}

-- Whether the view says that the account is saved.
abbrev pub tells_success : View → Bool
tells_success nothing = false
tells_success registered_page = false
tells_success (form props) = props.success
tells_success (form_page props) = props.success

shown_as-tells_success :
    (htmx : Bool) (props : UpgradeFormProps) → tells_success (shown_as htmx props) ≡ props.success
shown_as-tells_success true props = refl
shown_as-tells_success false props = refl

module _ {W : Type 0} (upgrader : AnonUpgrader W) (repo : Option (UserRows W)) (secure : Bool)
    (forms : FormPackage) (world : W) (r : Request) (w : Response) where
  -- Nothing outside of the request changed, no cookie is set, and no success is told.
  abbrev pub IsUntouched : W × Shown → Type 0
  IsUntouched (world', (w', view)) =
      (world' ≡ world) × ((w'.set_cookies ≡ w.set_cookies) × (tells_success view ≡ false))

  abbrev pub sent_email : Text
  sent_email = trim_space (r.post_form (codes "email"))

  abbrev pub sent_password : Text
  sent_password = r.post_form (codes "password")

  -- The row of the user is no longer that of a guest, and then gets the email, by one call each,
  -- however they end; without a repository nothing is called.
  abbrev pub IsPromoted : Option (UserRows W) → ℕ → W → W → Type 0
  IsPromoted none id before after = after ≡ before
  IsPromoted (some rows) id before after =
      (between : W) × (first : Result RepoError (Unit {0})) × (second : Result RepoError User)
      × (rows.set_anonymous id false before ≡ (between, first))
      × (rows.update_email id sent_email between ≡ (after, second))

  -- Without a refresh cookie with a value, nothing is called and no cookie set; with one, the session
  -- is renewed by one call under it, and the browser is given both new cookies where that succeeds.
  abbrev pub IsRenewed : W → W → List Cookie → Type 0
  IsRenewed before after jar =
      (((token : Text) → cookie refresh_token_name r.cookies ≡ some token → is_empty token ≡ true)
        × (after ≡ before)
        × (jar ≡ w.set_cookies))
      ⊎ ((token : Text) × (e : Failure) × (cookie refresh_token_name r.cookies ≡ some token)
          × (is_empty token ≡ false)
          × (upgrader.refresh_session token before ≡ (after, err e))
          × (jar ≡ w.set_cookies))
      ⊎ ((token : Text) × (session : AnonSession) × (cookie refresh_token_name r.cookies
            ≡ some token)
          × (is_empty token ≡ false)
          × (upgrader.refresh_session token before ≡ (after, ok session))
          × (jar
              ≡ (w.set_cookies
                  ++ kept secure access_token_name session.access_token session.expires_in ∷ [])
                ++ kept secure refresh_token_name session.refresh_token (pos (30 * 24 * 60 * 60))
                  ∷ []))

  -- What follows GoTrue's answer. A refusal sets no cookie. A consent is told as a success, whatever
  -- becomes of the row and of the renewed session; the row is promoted before the session is renewed.
  abbrev pub Follows : User → W × Result UpgradeError UpgradeResult → W × Shown → Type 0
  Follows user (after, err e) (world', (w', view)) =
      (world' ≡ after) × ((w'.set_cookies ≡ w.set_cookies) × (tells_success view ≡ false))
  Follows user (after, ok result) (world', (w', view)) =
      (promoted_to : W) × IsPromoted repo user.id after promoted_to
      × IsRenewed promoted_to world' w'.set_cookies
      × (tells_success view ≡ true)

  -- The form is that of a guest with an access token, and has an email address that parses and a
  -- password of at least 8 bytes.
  abbrev pub IsAllowed : User → Text → Type 0
  IsAllowed user token =
      (forms.parse_form r ≡ true)
      × (r.context.user ≡ some user)
      × (user.is_anonymous ≡ true)
      × (cookie access_token_name r.cookies ≡ some token)
      × (is_empty token ≡ false)
      × (is_email forms sent_email ≡ true)
      × (8 ≤ byte_length sent_password)

  -- The credentials of a guest were sent, once, under the guest's own token.
  abbrev pub IsSent : W × Shown → Type 0
  IsSent result =
      (user : User) × (token : Text) × IsAllowed user token
      × Follows user (upgrader.upgrade_anonymous_user token sent_email sent_password world) result

  promoted-IsPromoted :
      (rows : Option (UserRows W)) (id : ℕ) (before : W)
      → IsPromoted rows id before (promoted upgrader repo secure rows id sent_email before)
  unfolding promoted
  promoted-IsPromoted none id before = refl
  promoted-IsPromoted (some rows) id before = (_, _, _, refl, refl)

  with_session-IsRenewed :
      (token : Text) (before : W) (answer : W × Result Failure AnonSession)
      → cookie refresh_token_name r.cookies ≡ some token
      → is_empty token ≡ false
      → upgrader.refresh_session token before ≡ answer
      → IsRenewed before
          (with_session upgrader repo secure answer w).0
          (with_session upgrader repo secure answer w).1.set_cookies
  unfolding set_session_cookies
  with_session-IsRenewed token before (after, err e) here full asked =
      inr (inl (token, e, here, full, asked, refl))
  with_session-IsRenewed token before (after, ok session) here full asked =
      inr (inr (token, session, here, full, asked, refl))

  refreshed-IsRenewed :
      (found : Option Text) (before : W)
      → cookie refresh_token_name r.cookies ≡ found
      → IsRenewed before
          (refreshed upgrader repo secure found before w).0
          (refreshed upgrader repo secure found before w).1.set_cookies
  unfolding refreshed
  refreshed-IsRenewed none before here = inl ((λ t c. absurd (cc (here, c))), refl, refl)
  refreshed-IsRenewed (some token) before here = elim (Bool-cases (is_empty token)) [
    | inl e ↦ rw e (inl ((λ t c. ground (arith, here, e)), refl, refl))
    | inr e ↦ rw e (with_session-IsRenewed token before _ here e refl)
  ]

  saved-Follows :
      (user : User) (after : W) (result : UpgradeResult) (promoted_to : W) (renewed : W × Response)
      → IsPromoted repo user.id after promoted_to
      → IsRenewed promoted_to renewed.0 renewed.1.set_cookies
      → Follows user (after, ok result) (saved upgrader repo secure r sent_email result renewed)
  unfolding saved
  saved-Follows user after result promoted_to (world', w') is_promoted is_renewed =
      elim (Bool-cases (is_htmx_request r)) [
        | inl e ↦ rw e (promoted_to, is_promoted, is_renewed, refl)
        | inr e ↦ rw e (promoted_to, is_promoted, is_renewed, refl)
      ]

  answered_upgrade-Follows :
      (user : User) (answer : W × Result UpgradeError UpgradeResult)
      → Follows user answer (answered_upgrade upgrader repo secure user r sent_email w answer)
  unfolding answered_upgrade render_upgrade_form refused_form
  answered_upgrade-Follows user (after, err email_in_use) =
      (refl, (refl, shown_as-tells_success (is_htmx_request r) _))
  answered_upgrade-Follows user (after, err upgrade_failed) =
      (refl, (refl, shown_as-tells_success (is_htmx_request r) _))
  answered_upgrade-Follows user (after, ok result) =
      saved-Follows user after result _ _ (promoted-IsPromoted repo user.id after)
        (refreshed-IsRenewed (cookie refresh_token_name r.cookies) _ refl)

  -- Where that is not allowed, nothing was sent.
  abbrev pub IsKept : W × Shown → Type 0
  IsKept result = ((user : User) (token : Text) → ¬ IsAllowed user token) × IsUntouched result

  abbrev IsGuarded : W × Shown → Type 0
  IsGuarded result = IsKept result ⊎ IsSent result

  with_access-IsGuarded :
      (user : User) (access : Option Text)
      → forms.parse_form r ≡ true
      → r.context.user ≡ some user
      → user.is_anonymous ≡ true
      → cookie access_token_name r.cookies ≡ access
      → is_email forms sent_email ≡ true
      → 8 ≤ byte_length sent_password
      → IsGuarded (with_access upgrader repo secure user r sent_email sent_password access world w)
  unfolding with_access
  with_access-IsGuarded user none parses here guest jar email long =
      inl ((λ u t (p, h, g, k, f, m, n). absurd (cc (k, jar))), (refl, (refl, refl)))
  with_access-IsGuarded user (some token) parses here guest jar email long =
      elim (Bool-cases (is_empty token)) [
        | inl e ↦ rw e (
            inl ((λ u t (p, h, g, k, f, m, n). ground (arith, k, jar, e, f)), (refl, (refl, refl))))
        | inr e ↦ rw e (
            inr (
              user,
              token,
              (parses, here, guest, jar, e, email, long),
              answered_upgrade-Follows user _,
            ))
      ]

  submit_with-IsGuarded :
      (user : User)
      → forms.parse_form r ≡ true
      → r.context.user ≡ some user
      → user.is_anonymous ≡ true
      → IsGuarded (submit_with upgrader repo secure forms user r sent_email sent_password world w)
  unfolding submit_with render_upgrade_form
  submit_with-IsGuarded user parses here guest = elim (Bool-cases (is_email forms sent_email)) [
    | inr e ↦ rw e (
        inl (
          (λ u t (p, h, g, k, f, m, n). cc m),
          (refl, (refl, shown_as-tells_success (is_htmx_request r) _)),
        ))
    | inl e ↦ elim (Bool-cases (ltb (byte_length sent_password) 8)) [
      | inl f ↦
          rw (e, f)
            (inl (
              (λ u t (p, h, g, k, j, m, n). ground (arith, f, n)),
              (refl, (refl, shown_as-tells_success (is_htmx_request r) _)),
            ))
      | inr f ↦
          rw (e, f)
            (rw e at (
              with_access-IsGuarded user _ parses here guest refl e
                (ltb→le (byte_length sent_password) 8 f)))
    ]
  ]

  submit_as-IsGuarded :
      (user : User)
      → forms.parse_form r ≡ true
      → r.context.user ≡ some user
      → user.is_anonymous ≡ true
      → IsGuarded (submit_as upgrader repo secure forms user r world w)
  unfolding submit_as
  submit_as-IsGuarded = submit_with-IsGuarded

  submit_for-IsGuarded :
      (user : Option User)
      → forms.parse_form r ≡ true
      → r.context.user ≡ user
      → IsGuarded (submit_for upgrader repo secure forms user r world w)
  unfolding submit_for
  submit_for-IsGuarded none parses here =
      inl ((λ u t (p, h, g, k, f, m, n). absurd (cc (h, here))), (refl, (refl, refl)))
  submit_for-IsGuarded (some user) parses here = elim (Bool-cases user.is_anonymous) [
    | inr e ↦
        rw e
          (inl ((λ u t (p, h, g, k, f, m, n). ground (arith, h, here, g, e)), (refl, (refl, refl))))
    | inl e ↦ rw e (submit_as-IsGuarded user parses here e)
  ]

  -- An upgrade sends credentials exactly where a form that parses comes from a guest with an access
  -- token, and has an email address that parses and a password of at least 8 bytes: once, under the
  -- guest's own token. Where it does not, nothing outside of the request changes, no cookie is set and no success is told. If GoTrue
  -- refuses, that is all that changed, and again no cookie is set. If it consents, success is told
  -- whatever the calls that follow do: the row loses the mark of a guest and then gets the email, and
  -- after that the session is renewed under the refresh cookie, where there is one with a value; the
  -- browser is given both cookies of the new session where that succeeds, and none otherwise.
  pub upgrade_submit-IsGuarded :
      IsKept (upgrade_submit upgrader repo secure forms world r w)
      ⊎ IsSent (upgrade_submit upgrader repo secure forms world r w)
  unfolding upgrade_submit
  upgrade_submit-IsGuarded = elim (Bool-cases (forms.parse_form r)) [
    | inr e ↦ rw e (inl ((λ u t (p, h, g, k, f, m, n). cc p), (refl, (refl, refl))))
    | inl e ↦ rw e (rw e at (submit_for-IsGuarded r.context.user e refl))
  ]
