-- ===== src/Middleware/Sessions/Guard.antt =====
-- What stands between a request and the handler behind AuthMiddleware or OptionalAuth.
use go_performance_starter.Prelude.{
  [], not, ◌||◌, ◌≡◌, refl, ◌⊎◌, inl, inr, Bool, true, false, Option, none, some, arith, Bool-cases,
}
use go_performance_starter.Prelude.Text.{Text, codes}
use go_performance_starter.Http.{
  Cookie, ℤ, negsuc, set_cookie, set_header, write_header, is_htmx_request, set_hx_redirect,
  with_auth_claims, Result, ok, err, Failure, is_empty, Context, GoTrueUser, Request, Response,
  cookie, with_context, Handler,
}
use go_performance_starter.Middleware.Sessions.{
  AuthServer, access_token_name, refresh_token_name, has_value, to_login, session_context,
  anonymous_flag, token_claims, validated, validate_token, validate_session, clear_session, admit,
  auth_middleware, optional_auth,
}

-- A cookie of a session, as the browser is given it.
abbrev pub kept : Bool → Text → Text → ℤ → Cookie
kept secure name value max_age = record {
  name = name;
  value = value;
  path = codes "/";
  max_age = max_age;
  http_only = true;
  secure = secure;
}

-- A cookie of that name which a browser drops at once.
abbrev pub dropped : Bool → Text → Cookie
dropped secure name = kept secure name [] (negsuc 0)

-- The answer leads to the login page: a 401 with HX-Redirect for HTMX, a 303 with Location for others,
-- written on the response `w`.
abbrev pub SendsToLogin : Request → Response → Response → Type 0
SendsToLogin r w answer =
    ((is_htmx_request r ≡ true)
      × (answer ≡ write_header 401 (set_header "HX-Redirect" (codes "/auth/page") w)))
    ⊎ ((is_htmx_request r ≡ false)
        × (answer ≡ write_header 303 (set_header "Location" (codes "/auth/page") w)))

to_login-SendsToLogin : (r : Request) (w : Response) → SendsToLogin r w (to_login r w)
unfolding to_login set_hx_redirect
to_login-SendsToLogin r w = elim (Bool-cases (is_htmx_request r)) [
  | inl e ↦ rw e (inl (refl, refl))
  | inr e ↦ rw e (inr (refl, refl))
]

module _ {W : Type 0} (server : AuthServer W) where
  -- The context with the user of a token: the auth server's identifier as the sub, and the flag of a
  -- guest that the token claims.
  abbrev pub identified : Context → Text → GoTrueUser → Context
  identified ctx token user = record ctx {
    gotrue_user = some user;
    claims = some (record {
      sub = user.id;
      role = codes "authenticated";
      is_anonymous = anonymous_flag server (token_claims server token);
    });
  }

  -- The request carries an access token that the auth server accepts as this user's.
  abbrev pub IsSession : W → Request → Text → GoTrueUser → W → Type 0
  IsSession world r token user after =
      (cookie access_token_name r.cookies ≡ some token)
      × (is_empty token ≡ false)
      × (server.get_user token world ≡ (after, ok user))

  -- Why there is no session, and the response that is left. Without a token nothing is asked, and the
  -- response is as it was; a token that GoTrue does not accept has both cookies dropped.
  abbrev pub IsRefused : Bool → W → Request → Response → W → Response → Type 0
  IsRefused secure world r w after w' =
      (((token : Text) → cookie access_token_name r.cookies ≡ some token → is_empty token ≡ true)
        × (after ≡ world)
        × (w' ≡ w))
      ⊎ ((token : Text) × (e : Failure) × (cookie access_token_name r.cookies ≡ some token)
          × (is_empty token ≡ false)
          × (server.get_user token world ≡ (after, err e))
          × (w'
              ≡ set_cookie (dropped secure refresh_token_name)
                  (set_cookie (dropped secure access_token_name) w)))

  -- validateSession, told apart by whether there is a session
  abbrev Outcome : Bool → W → Request → Response → W × (Response × Option Context) → Type 0
  Outcome secure world r w result =
      ((token : Text) × (user : GoTrueUser) × (after : W) × IsSession world r token user after
        × (result ≡ (after, (w, some (identified r.context token user)))))
      ⊎ ((after : W) × (w' : Response) × ((token : Text) (user : GoTrueUser) (a : W)
            → ¬ IsSession world r token user a)
          × IsRefused secure world r w after w'
          × (result ≡ (after, (w', none))))

  validated-Outcome :
      (secure : Bool) (world : W) (r : Request) (w : Response) (token : Text)
      (answer : W × Result Failure GoTrueUser)
      → cookie access_token_name r.cookies ≡ some token
      → is_empty token ≡ false
      → server.get_user token world ≡ answer
      → Outcome secure world r w (validated server secure r.context token w answer)
  unfolding validated clear_session session_context with_auth_claims
  validated-Outcome secure world r w token (after, err e) here full asked = inr (
    after,
    clear_session secure w,
    (λ t u a (c, f, g). ground (arith, asked, here)),
    inr (token, e, here, full, asked, refl),
    refl,
  )
  validated-Outcome secure world r w token (after, ok user) here full asked =
      inl (token, user, after, (here, full, asked), refl)

  cookie-Outcome :
      (secure : Bool) (world : W) (r : Request) (w : Response) (found : Option Text)
      → cookie access_token_name r.cookies ≡ found
      → Outcome secure world r w (validate_token server secure world r w found)
  unfolding validate_token
  cookie-Outcome secure world r w none here =
      inr
        (world, w, (λ t u a (c, f, g). cc), inl ((λ t c. absurd (cc (here, c))), refl, refl), refl)
  cookie-Outcome secure world r w (some token) here = elim (Bool-cases (is_empty token)) [
    | inl e ↦ rw e (
        inr (
          world,
          w,
          (λ t u a (c, f, g). ground arith),
          inl ((λ t c. ground (arith, here, e)), refl, refl),
          refl,
        ))
    | inr e ↦ rw e (validated-Outcome secure world r w token _ here e refl)
  ]

  -- Whatever handler stands behind AuthMiddleware: either the request carries an access token that
  -- GoTrue accepts, and the handler is called, once, with the response as it was and with that
  -- identity in the context; or it carries none, or one that GoTrue does not accept, and whatever the
  -- handler the answer leads to the login page: a 401 with HX-Redirect for HTMX, else a 303 with
  -- Location, written on the response as it was, with both session cookies dropped where there was a
  -- token.
  pub auth_middleware-IsGuarded :
      (secure : Bool) (world : W) (r : Request) (w : Response)
      → ((token : Text) × (user : GoTrueUser) × (after : W) × IsSession world r token user after
          × ((next : Handler W)
              → auth_middleware server secure next world r w
                ≡ next after (with_context r (identified r.context token user)) w))
        ⊎ ((after : W) × (w' : Response) × (answer : Response) × IsRefused secure world r w after w'
            × SendsToLogin r w' answer
            × ((next : Handler W) → auth_middleware server secure next world r w ≡ (after, answer)))
  unfolding auth_middleware admit validate_session
  auth_middleware-IsGuarded secure world r w = elim (cookie-Outcome secure world r w _ refl) [
    | inl (token, user, after, session, e) ↦ inl (token, user, after, session, λ next. rw e refl)
    | inr (after, w', nobody, refused, e) ↦
        inr (after, w', to_login r w', refused, to_login-SendsToLogin r w', λ next. rw e refl)
  ]

  -- OptionalAuth never refuses: whatever handler stands behind it is called once, with the request
  -- as it was but for the context. That context is the request's own, or has the identity of an
  -- access token that GoTrue accepts; and where there is a client and such a token, it has.
  pub optional_auth_serves :
      (configured secure : Bool) (world : W) (r : Request) (w : Response)
      → (after : W) × (ctx : Context) × (w' : Response) × ((next : Handler W)
          → optional_auth server configured secure next world r w
            ≡ next after (with_context r ctx) w')
        × (((token : Text) × (user : GoTrueUser) × IsSession world r token user after
              × (ctx ≡ identified r.context token user))
            ⊎ ((ctx ≡ r.context)
                × (configured ≡ true
                    → (token : Text) (user : GoTrueUser) (a : W)
                    → ¬ IsSession world r token user a)))
  unfolding optional_auth admit validate_session has_value
  optional_auth_serves configured secure world r w =
      elim (Bool-cases (not (has_value (cookie access_token_name r.cookies)) || not configured)) [
        | inl e ↦ (
          world,
          r.context,
          w,
          (λ next. rw e refl),
          inr (refl, λ c t u a (h, f, g). ground (arith, e)),
        )
        | inr e ↦ elim (cookie-Outcome secure world r w _ refl) [
          | inl (token, user, after, session, f) ↦ (
            after,
            identified r.context token user,
            w,
            (λ next. rw (e, f) refl),
            inl (token, user, session, refl),
          )
          | inr (after, w', nobody, refused, f) ↦
              (after, r.context, w', (λ next. rw (e, f) refl), inr (refl, λ c. nobody))
        ]
      ]
