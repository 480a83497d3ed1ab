-- ===== src/Middleware/Users/Rows.antt =====
-- What resolving an identity does to the users table.
use mathlib.Core.Option
use go_performance_starter.Prelude.{
  ℕ, ◌≡◌, refl, ◌∙◌, subst, inl, inr, Bool, false, not, ◌&&◌, Option, none, some, ◌==◌, ==_iff,
  arith, if◌then◌else◌, Bool-cases,
}
use go_performance_starter.Prelude.Text.{Text, text_eq, text_eq_iff, text_eq_refl}
use go_performance_starter.Http.{Result, ok, err, AuthClaims, User, Request}
use go_performance_starter.Middleware.Users.{
  RepoError, entity_not_found, other_error, CreateUserParams, UserRepository, provision_params,
  provision_user, healed, resolve_found, resolve_user,
}

-- The flag of the row with this id is set.
abbrev pub flagged : ℕ → Bool → User → User
flagged id b u = if u.id == id then record u { is_anonymous = b } else u

-- What the interface promises of the table, seen as a map from auth ids to rows. A call that fails
-- leaves the table as it was: it runs in a transaction.
pub record IsTable {W : Type 0} (repo : UserRepository W) : Type 0 where
  pub row : W → Text → Option User
  pub get_found :
      (a : Text) (s t : W) (u : User)
      → repo.get_by_auth_id a s ≡ (t, ok u)
      → (row s a ≡ some u) × (row t ≡ row s)
  pub get_missing :
      (a : Text) (s t : W)
      → repo.get_by_auth_id a s ≡ (t, err entity_not_found)
      → (row s a ≡ none) × (row t ≡ row s)
  pub get_failed :
      (a : Text) (s t : W) → repo.get_by_auth_id a s ≡ (t, err other_error) → row t ≡ row s
  pub set_done :
      (id : ℕ) (b : Bool) (s t : W)
      → repo.set_anonymous id b s ≡ (t, ok tt)
      → (a : Text) → row t a ≡ Option.map (flagged id b) (row s a)
  pub set_failed :
      (id : ℕ) (b : Bool) (s t : W) (e : RepoError)
      → repo.set_anonymous id b s ≡ (t, err e)
      → row t ≡ row s
  pub create_done :
      (p : CreateUserParams) (s t : W) (u : User)
      → repo.create p s ≡ (t, ok u)
      → (u.is_anonymous ≡ p.is_anonymous)
        × ((a k : Text) → p.auth_id ≡ some k → row t a ≡ (if text_eq k a then some u else row s a))
  pub create_failed :
      (p : CreateUserParams) (s t : W) (e : RepoError)
      → repo.create p s ≡ (t, err e)
      → row t ≡ row s

module _ {W : Type 0} {repo : UserRepository W} (table : IsTable repo) where
  open table use {
    row, get_found, get_missing, get_failed, set_done, set_failed, create_done, create_failed,
  }

  -- A row of a registered user is still one.
  abbrev pub IsPromotion : W → W → Type 0
  IsPromotion s t =
      (a : Text) (u : User)
      → row s a ≡ some u
      → u.is_anonymous ≡ false
      → (v : User) × (row t a ≡ some v) × (v.is_anonymous ≡ false)

  -- The user that was resolved is the row of the claims, and not a guest if the claims are not.
  abbrev pub IsResolved : AuthClaims → W → Result RepoError User → Type 0
  IsResolved claims t (err e) = Unit
  IsResolved claims t (ok u) =
      (row t claims.sub ≡ some u) × (claims.is_anonymous ≡ false → u.is_anonymous ≡ false)

  abbrev IsGood : AuthClaims → W → W × Result RepoError User → Type 0
  IsGood claims s (t, result) = IsPromotion s t × IsResolved claims t result

  promote_same : (s t : W) → row t ≡ row s → IsPromotion s t
  promote_same s t same a u e f = (u, rw same e, f)

  created :
      (r : Request) (claims : AuthClaims) (s : W) (result : W × Result RepoError User)
      → row s claims.sub ≡ none
      → repo.create (provision_params r claims) s ≡ result
      → IsGood claims s result
  unfolding provision_params
  created r claims s (t, err e) fresh done = (promote_same s t (create_failed _ s t e done), tt)
  created r claims s (t, ok u) fresh done =
      let (flag, rows) = create_done _ s t u done in
      (
        (λ a v here reg. (
          v,
          rw (rows a claims.sub refl) (ground (arith, text_eq_iff claims.sub a, fresh, here)),
          reg,
        )),
        (rw (rows claims.sub claims.sub refl, text_eq_refl claims.sub) refl, λ reg. flag ∙ reg),
      )

  flagged-IsPromotion :
      (id : ℕ) (u : User) → u.is_anonymous ≡ false → (flagged id false u).is_anonymous ≡ false
  flagged-IsPromotion id u reg = ground arith

  healed-IsGood :
      (claims : AuthClaims) (s : W) (u : User) (result : W × Result RepoError (Unit {0}))
      → row s claims.sub ≡ some u
      → repo.set_anonymous u.id false s ≡ result
      → IsGood claims s (healed repo u result)
  unfolding healed
  healed-IsGood claims s u (t, err e) here done = (promote_same s t (set_failed _ _ s t e done), tt)
  healed-IsGood claims s u (t, ok _) here done =
      let rows = set_done u.id false s t done in
      (
        (λ a v found reg.
            (flagged u.id false v, rw (rows a, found) refl, flagged-IsPromotion u.id v reg)),
        (rw (rows claims.sub, here, (==_iff u.id u.id).1 refl) refl, λ reg. refl),
      )

  IsGood-after :
      (claims : AuthClaims) (s t : W) (result : W × Result RepoError User)
      → row t ≡ row s
      → IsGood claims t result
      → IsGood claims s result
  IsGood-after claims s t (w, result) same (promoted, resolved) =
      ((λ a u here reg. promoted a u (rw same here) reg), resolved)

  resolve_found-IsGood :
      (r : Request) (claims : AuthClaims) (s : W) (answer : W × Result RepoError User)
      → repo.get_by_auth_id claims.sub s ≡ answer
      → IsGood claims s (resolve_found repo r claims answer)
  unfolding resolve_found provision_user
  resolve_found-IsGood r claims s (t, err entity_not_found) asked =
      let (none_there, same) = get_missing _ s t asked in
      IsGood-after claims s t _ same (created r claims t _ (rw same none_there) refl)
  resolve_found-IsGood r claims s (t, err other_error) asked =
      (promote_same s t (get_failed _ s t asked), tt)
  resolve_found-IsGood r claims s (t, ok u) asked =
      let (here, same) = get_found _ s t u asked in
      elim (Bool-cases (u.is_anonymous && not claims.is_anonymous)) [
        | inl e ↦
            rw e (IsGood-after claims s t _ same (healed-IsGood claims t u _ (rw same here) refl))
        | inr e ↦ rw e (promote_same s t same, (rw same here, λ reg. ground (arith, e)))
      ]

  -- Resolving an identity never turns a registered user's row into a guest's, of whatever user. If it
  -- gives a user, that is the row of the identity's auth id, as it then is; and where the token is not
  -- a guest's, the row is not either.
  pub resolve_user-IsPromotion :
      (r : Request) (claims : AuthClaims) (s t : W) (result : Result RepoError User)
      → resolve_user repo r claims s ≡ (t, result)
      → IsPromotion s t × IsResolved claims t result
  unfolding resolve_user
  resolve_user-IsPromotion r claims s t result e =
      subst (IsGood claims s) e (resolve_found-IsGood r claims s _ refl)
