-- ===== src/Middleware/Users/Loaders.antt =====
-- What stands behind the loaders.
use go_performance_starter.Prelude.{◌≡◌, refl, ap, ◌∙◌, ◌⊎◌, inl, inr, false, some}
use go_performance_starter.Http.{
  Result, ok, err, AuthClaims, User, Request, Response, with_context, http_error, Handler,
  auth_claims_from_context, unauthorized, internal_server_error, with_user,
}
use go_performance_starter.Middleware.Users.{
  RepoError, UserRepository, resolve_user, load, load_claims, user_loader, optional_user_loader,
}
use go_performance_starter.Middleware.Users.Rows.{IsTable, IsPromotion, resolve_user-IsPromotion}

module _ {W : Type 0} {repo : UserRepository W} (table : IsTable repo) where
  abbrev IsLoaded : AuthClaims → W → Request → Response → W × Result RepoError User → Type 0
  IsLoaded claims world r w answer =
      ((after : W) × (user : User) × IsPromotion table world after
        × (table.row after claims.sub ≡ some user)
        × (claims.is_anonymous ≡ false → user.is_anonymous ≡ false)
        × ((next : Handler W)
            → load repo next r w answer ≡ next after (with_context r (with_user r.context user)) w))
      ⊎ ((after : W) × ((next : Handler W)
            → load repo next r w answer ≡ (after, http_error internal_server_error w)))

  load_outcome :
      (claims : AuthClaims) (world : W) (r : Request) (w : Response)
      (answer : W × Result RepoError User)
      → resolve_user repo r claims world ≡ answer
      → IsLoaded claims world r w answer
  unfolding load
  load_outcome claims world r w (after, err e) resolved = inr (after, λ next. refl)
  load_outcome claims world r w (after, ok user) resolved =
      let (promoted, (here, registered)) =
        resolve_user-IsPromotion table r claims world after _ resolved in
      inl (after, user, promoted, here, registered, λ next. refl)

  -- For a request with an identity both loaders do the same: they call the handler, once, with the row
  -- of that identity in the context, as the table then has it, healed if its flag was stale; or they
  -- answer 500, whatever the handler. The response is otherwise untouched.
  pub user_loader_serves :
      (claims : AuthClaims) (world : W) (r : Request) (w : Response)
      → r.context.claims ≡ some claims
      → ((after : W) × (user : User) × IsPromotion table world after
          × (table.row after claims.sub ≡ some user)
          × (claims.is_anonymous ≡ false → user.is_anonymous ≡ false)
          × ((next : Handler W)
              → (user_loader repo next world r w
                  ≡ next after (with_context r (with_user r.context user)) w)
                × (optional_user_loader repo next world r w
                    ≡ next after (with_context r (with_user r.context user)) w)))
        ⊎ ((after : W) × ((next : Handler W)
              → (user_loader repo next world r w ≡ (after, http_error internal_server_error w))
                × (optional_user_loader repo next world r w
                    ≡ (after, http_error internal_server_error w))))
  unfolding user_loader optional_user_loader load_claims auth_claims_from_context
  user_loader_serves claims world r w known =
      let both : (next : Handler W) (answer : W × Response)
          → load repo next r w (resolve_user repo r claims world) ≡ answer
          → (user_loader repo next world r w ≡ answer)
            × (optional_user_loader repo next world r w ≡ answer) =
        λ next answer e. (
          ap (load_claims repo (λ s r' w'. (s, http_error unauthorized w')) next world r w) known
              ∙ e,
          ap (load_claims repo next next world r w) known ∙ e,
        ) in
      elim (load_outcome claims world r w _ refl) [
        | inl (after, user, promoted, here, registered, f) ↦
            inl (after, user, promoted, here, registered, λ next. both next _ (f next))
        | inr (after, f) ↦ inr (after, λ next. both next _ (f next))
      ]
