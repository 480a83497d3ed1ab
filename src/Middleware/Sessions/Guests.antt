-- ===== src/Middleware/Sessions/Guests.antt =====
-- A visitor without a session, in front of GuestSession and OptionalAuth, as the server mounts them.
use go_performance_starter.Prelude.{
  ◌≡◌, refl, ◌⊎◌, inl, inr, Bool-cases, Bool, true, false, none, some, ◌*◌, List, [], ◌∷◌, ◌++◌,
  arith,
}
use go_performance_starter.Prelude.Text.{Text, text_eq_refl}
use go_performance_starter.Http.{
  with_auth_claims, pos, Result, Failure, err, ok, is_empty, GoTrueUser, Request, Response, cookie,
  with_context, set_cookie, Handler,
}
use go_performance_starter.Middleware.Sessions.{
  AuthServer, AnonSession, access_token_name, refresh_token_name, has_value, issue, guest_session,
  session_context, validated, validate_token, validate_session, admit, optional_auth, clear_session,
}
use go_performance_starter.Middleware.Sessions.Guard.{dropped, identified, kept}

-- A cookie that is added is found behind the others, if none of them has its name.
cookie-append :
    (name v : Text) (jar more : List (Text × Text))
    → cookie name jar ≡ none
    → cookie name (jar ++ (name, v) ∷ more) ≡ some v
unfolding cookie
cookie-append name v [] more h = rw (text_eq_refl name) refl
cookie-append name v (c ∷ jar) more h = ground (arith, cookie-append name v jar more)

cookie-append_some :
    (name v : Text) (jar more : List (Text × Text))
    → cookie name jar ≡ some v
    → cookie name (jar ++ more) ≡ some v
unfolding cookie
cookie-append_some name v [] more h = absurd cc
cookie-append_some name v (c ∷ jar) more h = ground (arith, cookie-append_some name v jar more)

-- The request and the response with the two cookies of a guest.
abbrev pub asked_as : AnonSession → Request → Request
asked_as session r = record r {
  cookies =
      (r.cookies ++ (access_token_name, session.access_token) ∷ [])
      ++ (refresh_token_name, session.refresh_token) ∷ [];
}

abbrev pub given_to : Bool → AnonSession → Response → Response
given_to secure session w =
    set_cookie (kept secure refresh_token_name session.refresh_token (pos (30 * 24 * 60 * 60)))
      (set_cookie (kept secure access_token_name session.access_token session.expires_in) w)

-- A request that was given the cookies has the token of the session.
cookie-asked_as :
    (session : AnonSession) (r : Request)
    → cookie access_token_name r.cookies ≡ none
    → cookie access_token_name (asked_as session r).cookies ≡ some session.access_token
cookie-asked_as session r new =
    cookie-append_some access_token_name session.access_token _
      ((refresh_token_name, session.refresh_token) ∷ [])
      (cookie-append access_token_name session.access_token r.cookies [] new)

module _ {W : Type 0} (server : AuthServer W) (secure : Bool) (r : Request) (w : Response) where
  -- A guest was signed in: with an empty token nothing more is asked; with a token that GoTrue accepts
  -- the context has its identity; one that it does not accept has the cookies dropped again.
  abbrev pub IsGuest : AnonSession → W → W → Request → Response → Type 0
  IsGuest session signed_in after r' w' =
      ((is_empty session.access_token ≡ true)
        × (after ≡ signed_in)
        × (r' ≡ asked_as session r)
        × (w' ≡ given_to secure session w))
      ⊎ ((user : GoTrueUser) × (is_empty session.access_token ≡ false)
          × (server.get_user session.access_token signed_in ≡ (after, ok user))
          × (r'
              ≡ with_context (asked_as session r)
                  (identified server r.context session.access_token user))
          × (w' ≡ given_to secure session w))
      ⊎ ((e : Failure) × (is_empty session.access_token ≡ false)
          × (server.get_user session.access_token signed_in ≡ (after, err e))
          × (r' ≡ asked_as session r)
          × (w'
              ≡ set_cookie (dropped secure refresh_token_name)
                  (set_cookie (dropped secure access_token_name) (given_to secure session w))))

  -- The sign-in failed, and the request and the response are as they were; or a guest was signed in.
  abbrev pub IsIntroduced : W → W → Request → Response → Type 0
  IsIntroduced world after r' w' =
      ((e : Failure) × (server.sign_in_anonymously world ≡ (after, err e)) × (r' ≡ r) × (w' ≡ w))
      ⊎ ((session : AnonSession) × (signed_in : W) × (server.sign_in_anonymously world
            ≡ (signed_in, ok session))
          × IsGuest session signed_in after r' w')

  -- Whatever handler stands behind, it is called once, with what the first middleware left.
  abbrev pub IsServed :
      (W → W → Request → Response → Type 0) → W → (Handler W → W × Response) → Type 0
  IsServed leaves world run =
      (after : W) × (r' : Request) × (w' : Response) × leaves world after r' w'
      × ((next : Handler W) → run next ≡ next after r' w')

  validated-IsGuest :
      (session : AnonSession) (signed_in : W) (answer : W × Result Failure GoTrueUser)
      → is_empty session.access_token ≡ false
      → server.get_user session.access_token signed_in ≡ answer
      → IsServed
          (λ _. IsGuest session signed_in)
          signed_in
          (λ next. admit server next next (asked_as session r) (
            validated server secure r.context session.access_token
              (given_to secure session w)
              answer))
  unfolding validated admit session_context with_auth_claims clear_session
  validated-IsGuest session signed_in (after, ok user) full asked =
      (after, _, _, inr (inl (user, full, asked, refl, refl)), λ next. refl)
  validated-IsGuest session signed_in (after, err e) full asked =
      (after, _, _, inr (inr (e, full, asked, refl, refl)), λ next. refl)

  optional_auth-IsGuest :
      (session : AnonSession) (signed_in : W)
      → cookie access_token_name r.cookies ≡ none
      → IsServed
          (λ _. IsGuest session signed_in)
          signed_in
          (λ next.
            optional_auth server true secure next signed_in
              (asked_as session r)
              (given_to secure session w))
  unfolding optional_auth has_value validate_session validate_token
  optional_auth-IsGuest session signed_in new = elim (Bool-cases (is_empty session.access_token)) [
    | inl e ↦ (
      signed_in,
      _,
      _,
      inl (e, refl, refl, refl),
      λ next. rw (cookie-asked_as session r new, e) refl,
    )
    | inr e ↦
        let (after, r', w', left, serves) = validated-IsGuest session signed_in _ e refl in
        (after, r', w', left, λ next. rw (cookie-asked_as session r new, e) (serves next))
  ]

  issue-IsIntroduced :
      (world : W) (answer : W × Result Failure AnonSession)
      → cookie access_token_name r.cookies ≡ none
      → server.sign_in_anonymously world ≡ answer
      → IsServed IsIntroduced world
          (λ next. issue server secure (optional_auth server true secure next) r w answer)
  unfolding issue optional_auth has_value
  issue-IsIntroduced world (after, err e) new asked =
      (after, r, w, inl (e, asked, refl, refl), λ next. rw new refl)
  issue-IsIntroduced world (signed_in, ok session) new asked =
      let (after, r', w', left, serves) = optional_auth-IsGuest session signed_in new in
      (after, r', w', inr (session, signed_in, asked, left), serves)

  -- A visitor without the cookie, in front of GuestSession and then OptionalAuth with a client: the
  -- handler behind both is called once, whatever it is. If the sign-in fails, the request and the
  -- response are as they were. If not, both carry the guest's two cookies, and the context has the
  -- guest's identity where the token is not empty and GoTrue accepts it; where GoTrue does not, the
  -- cookies are dropped again.
  pub guest_session-optional_auth :
      (world : W)
      → cookie access_token_name r.cookies ≡ none
      → IsServed IsIntroduced world
          (λ next. guest_session server secure (optional_auth server true secure next) world r w)
  unfolding guest_session has_value
  guest_session-optional_auth world new = rw new (issue-IsIntroduced world _ new refl)

  -- A visitor whose cookie is there and empty, when the sign-in succeeds: the browser is given the
  -- cookies of a guest, and yet the handler is called without an identity. The new cookie stands behind
  -- the empty one in the request, where OptionalAuth does not find it.
  pub guest_session_empty :
      (configured : Bool) (next : Handler W) (world signed_in : W) (session : AnonSession)
      → cookie access_token_name r.cookies ≡ some []
      → server.sign_in_anonymously world ≡ (signed_in, ok session)
      → guest_session server secure (optional_auth server configured secure next) world r w
        ≡ next signed_in (asked_as session r) (given_to secure session w)
  unfolding guest_session issue optional_auth has_value
  guest_session_empty configured next world signed_in session empty signed =
      rw (empty, signed)
        (rw
          (cookie-append_some access_token_name [] _
            ((refresh_token_name, session.refresh_token) ∷ [])
            (cookie-append_some access_token_name [] r.cookies
              ((access_token_name, session.access_token) ∷ []) empty))
          refl)
