-- ===== src/Middleware/Csrf/Guard.antt =====
-- What a request must bring for CSRF to call the handler.

use go_performance_starter.Prelude.{
  subst, some-injective, ℕ, ◌≡◌, refl, sym, ◌∙◌, ◌⊎◌, inl, inr, Bool, true, false, Option, none,
  some, List, [], ◌∷◌, length, arith, Bool-cases,
}
use go_performance_starter.Prelude.Text.{Text, text_eq, text_eq_iff}
use go_performance_starter.Http.{
  is_empty, Request, Response, cookie, with_context, set_cookie, write_header, Handler,
}
use go_performance_starter.Middleware.Csrf.{
  csrf_cookie_name, csrf_token_bytes, is_valid_token_format, is_safe_method, sent_token,
  csrf_cookie, cookie_token, with_csrf_token, check_sent, with_token, issue_token, csrf,
  encode_to_string,
}
use go_performance_starter.Middleware.Csrf.Hex.{IsBytes, is_valid_token_format-encode}

-- The request brings its cookie's token, of the right format, a second time.
abbrev pub IsSubmitted : Request → Text → Type 0
IsSubmitted r token =
    (cookie csrf_cookie_name r.cookies ≡ some token)
    × (is_valid_token_format token ≡ true)
    × (sent_token r ≡ token)

cookie_token_found :
    (found : Option Text)
    → is_empty (cookie_token found) ≡ false
    → (found ≡ some (cookie_token found)) × (is_valid_token_format (cookie_token found) ≡ true)
unfolding cookie_token
cookie_token_found none h = absurd cc
cookie_token_found (some v) h = elim (Bool-cases (is_valid_token_format v)) [
  | inl e ↦ rw e (refl, e)
  | inr e ↦ absurd (ground (arith, h))
]

cookie_token_absent :
    (found : Option Text) (t : Text)
    → is_empty (cookie_token found) ≡ true
    → found ≡ some t
    → is_valid_token_format t ≡ false
unfolding cookie_token is_valid_token_format
cookie_token_absent none t h e = absurd cc
cookie_token_absent (some []) t h e =
    subst (λ u. is_valid_token_format u ≡ false) (some-injective e) refl
cookie_token_absent (some (c ∷ v)) t h e =
    subst (λ u. is_valid_token_format u ≡ false) (some-injective e) (ground (arith, h))

module _ {W : Type 0} (read_random : ℕ → W → W × Option (List ℕ)) where
  check_sent_outcome :
      (world : W) (r : Request) (w : Response) (found : Option Text)
      → cookie csrf_cookie_name r.cookies ≡ found
      → ((v : Text) × IsSubmitted r v
          × ((next : Handler W) → check_sent read_random next world r w found ≡ next world r w))
        ⊎ (((t : Text) → ¬ IsSubmitted r t)
            × ((next : Handler W)
                → check_sent read_random next world r w found ≡ (world, write_header 403 w)))
  unfolding check_sent
  check_sent_outcome world r w none here = inr ((λ t (c, f, s). cc), λ next. refl)
  check_sent_outcome world r w (some v) here = elim (Bool-cases (is_valid_token_format v)) [
    | inr e ↦ inr ((λ t (c, f, s). ground (arith, here)), λ next. rw e refl)
    | inl e ↦ elim (Bool-cases (text_eq v (sent_token r))) [
      | inl f ↦ inl (v, (here, e, sym ((text_eq_iff v (sent_token r)).0 f)), λ next. rw (e, f) refl)
      | inr f ↦ inr (
        (λ t (c, g, s). ground (arith, text_eq_iff v (sent_token r), here)),
        λ next. rw (e, f) refl,
      )
    ]
  ]

  -- The token that a request has, and what was done to have it: the one of its cookie, where that has
  -- the right format, and then nothing was; or one of fresh random bytes, which the response sets.
  abbrev pub IsStarted : Bool → W → Request → Response → Text → W → Response → Type 0
  IsStarted secure world r w token after w' =
      ((cookie csrf_cookie_name r.cookies ≡ some token) × (after ≡ world) × (w' ≡ w))
      ⊎ ((buf : List ℕ) × ((t : Text)
            → cookie csrf_cookie_name r.cookies ≡ some t
            → is_valid_token_format t ≡ false)
          × (read_random csrf_token_bytes world ≡ (after, some buf))
          × (token ≡ encode_to_string buf)
          × (w' ≡ set_cookie (csrf_cookie secure token) w))

  -- The token that the request is served with, and what it had to bring.
  abbrev pub IsCalled : (Handler W → W × Response) → Bool → W → Request → Response → Type 0
  IsCalled run secure world r w =
      (after : W) × (token : Text) × (w' : Response) × IsStarted secure world r w token after w'
      × (is_valid_token_format token ≡ true)
      × ((is_safe_method r.method ≡ true) ⊎ IsSubmitted r token)
      × ((next : Handler W)
          → run next ≡ next after (with_context r (with_csrf_token r.context token)) w')

  -- An unsafe request without the token is answered 403, whatever handler stands behind.
  abbrev pub IsForbidden : (Handler W → W × Response) → Bool → W → Request → Response → Type 0
  IsForbidden run secure world r w =
      (after : W) × (token : Text) × (w' : Response) × IsStarted secure world r w token after w'
      × (is_safe_method r.method ≡ false)
      × ((t : Text) → ¬ IsSubmitted r t)
      × ((next : Handler W) → run next ≡ (after, write_header 403 w'))

  -- A token could not be made: the answer is 500, whatever handler stands behind.
  abbrev pub IsOutOfTokens : (Handler W → W × Response) → W → Response → Type 0
  IsOutOfTokens run world w =
      (after : W) × (read_random csrf_token_bytes world ≡ (after, none))
      × ((next : Handler W) → run next ≡ (after, write_header 500 w))

  with_token_outcome :
      (secure : Bool) (before : W) (r : Request) (w0 : Response) (token : Text) (world : W)
      (w : Response)
      → IsStarted secure before r w0 token world w
      → is_valid_token_format token ≡ true
      → ((t : Text) → IsSubmitted r t → t ≡ token)
      → IsCalled (λ next. with_token read_random next world r w token) secure before r w0
        ⊎ IsForbidden (λ next. with_token read_random next world r w token) secure before r w0
  unfolding with_token sent_token
  with_token_outcome secure before r w0 token world w start valid only =
      elim (Bool-cases (is_safe_method r.method)) [
        | inl e ↦ inl (world, token, w, start, valid, inl e, λ next. rw e refl)
        | inr e ↦
            elim (check_sent_outcome world (with_context r (with_csrf_token r.context token)) w _
              refl) [
                | inl (v, submitted, f) ↦ inl (
                  world,
                  token,
                  w,
                  start,
                  valid,
                  inr (subst (IsSubmitted r) (only v submitted) submitted),
                  λ next. rw (e, f next) refl,
                )
                | inr (never, f) ↦
                    inr (world, token, w, start, e, never, λ next. rw (e, f next) refl)
              ]
      ]

  -- What the random source promises.
  abbrev pub GivesBytes : Type 0
  GivesBytes =
      (n : ℕ) (world after : W) (buf : List ℕ)
      → read_random n world ≡ (after, some buf)
      → IsBytes buf × (length buf ≡ n)

  issue_token_outcome :
      (secure : Bool) (world : W) (r : Request) (w : Response) (answer : W × Option (List ℕ))
      → GivesBytes
      → is_empty (cookie_token (cookie csrf_cookie_name r.cookies)) ≡ true
      → read_random csrf_token_bytes world ≡ answer
      → IsCalled (λ next. issue_token read_random secure next r w answer) secure world r w
        ⊎ IsForbidden (λ next. issue_token read_random secure next r w answer) secure world r w
        ⊎ IsOutOfTokens (λ next. issue_token read_random secure next r w answer) world w
  unfolding issue_token
  issue_token_outcome secure world r w (after, none) gives absent asked =
      inr (inr (after, asked, λ next. refl))
  issue_token_outcome secure world r w (after, some buf) gives absent asked =
      let (bytes, n) = gives _ world after buf asked in
      elim (with_token_outcome secure world r w (encode_to_string buf) after _
        (inr (buf, λ t c. cookie_token_absent _ t absent c, asked, refl, refl))
        (is_valid_token_format-encode buf bytes n)
        (λ t (c, f, s). absurd (ground (arith, cookie_token_absent _ t absent c)))) [
          | inl called ↦ inl called
          | inr refused ↦ inr (inl refused)
        ]

  -- Every request is answered in one of three ways. The handler is called, once, with a token of the
  -- right format in its context, and the request is of a safe method, or its cookie holds that token
  -- and it was sent a second time; or the request is of an unsafe method and brings no such pair, and
  -- a 403 is written; or a token was needed, none could be made, and a 500 is written. The token is the
  -- cookie's, and the response as it was; or, where the cookie has none of the right format, the
  -- response sets a cookie with one of fresh random bytes. The random source gives as many bytes as
  -- asked for, if any.
  pub csrf-IsGuarded :
      (secure : Bool) (world : W) (r : Request) (w : Response)
      → GivesBytes
      → IsCalled (λ next. csrf read_random secure next world r w) secure world r w
        ⊎ IsForbidden (λ next. csrf read_random secure next world r w) secure world r w
        ⊎ IsOutOfTokens (λ next. csrf read_random secure next world r w) world w
  unfolding csrf
  csrf-IsGuarded secure world r w gives =
      elim (Bool-cases (is_empty (cookie_token (cookie csrf_cookie_name r.cookies)))) [
        | inl e ↦ rw e (issue_token_outcome secure world r w _ gives e refl)
        | inr e ↦
            let (found, valid) = cookie_token_found _ e in
            rw e
              (elim (with_token_outcome secure world r w _ world w (inl (found, refl, refl)) valid
                (λ t (c, f, s). some-injective (sym c ∙ found))) [
                  | inl called ↦ inl called
                  | inr refused ↦ inr (inl refused)
                ])
      ]
