-- ===== src/Middleware/MetricsGuard/Access.antt =====
-- The policy of /metrics.
use go_performance_starter.Prelude.{
  ◌≡◌, refl, sym, ◌≢◌, ◌⊎◌, inl, inr, Bool, true, false, [], ◌∷◌, ◌++◌, Bool-cases,
}
use go_performance_starter.Prelude.Text.{Text, codes, text_eq, text_eq_iff}
use go_performance_starter.Http.{Request, Response, http_error, Handler, unauthorized, not_found}
use go_performance_starter.Middleware.MetricsGuard.{metrics_guard}

-- The handler behind the guard is called, once and with the request as it was, exactly if the request
-- brings the configured token as a bearer, or none is configured outside of production. With a token
-- configured every other request is answered 401, in every environment; without one, 404.
pub metrics_guard_policy :
    {W : Type 0} (token : Text) (is_prod : Bool) (world : W) (r : Request) (w : Response)
    → (((next : Handler W) → metrics_guard token is_prod next world r w ≡ next world r w)
        × (((token ≢ []) × (r.header (codes "Authorization") ≡ codes "Bearer " ++ token))
            ⊎ ((token ≡ []) × (is_prod ≡ false))))
      ⊎ (((next : Handler W)
            → metrics_guard token is_prod next world r w ≡ (world, http_error unauthorized w))
          × (token ≢ [])
          × (r.header (codes "Authorization") ≢ codes "Bearer " ++ token))
      ⊎ (((next : Handler W)
            → metrics_guard token is_prod next world r w ≡ (world, http_error not_found w))
          × (token ≡ [])
          × (is_prod ≡ true))
unfolding metrics_guard
metrics_guard_policy [] true world r w = inr (inr ((λ next. refl), refl, refl))
metrics_guard_policy [] false world r w = inl ((λ next. refl), inr (refl, refl))
metrics_guard_policy (c ∷ t) is_prod world r w =
    let same = text_eq_iff (codes "Bearer " ++ c ∷ t) (r.header (codes "Authorization")) in
    elim (Bool-cases (text_eq (codes "Bearer " ++ c ∷ t) (r.header (codes "Authorization")))) [
      | inl e ↦ inl ((λ next. rw e refl), inl ((λ f. cc), sym (same.0 e)))
      | inr e ↦ inr (inl ((λ next. rw e refl), (λ f. cc), λ f. absurd (cc (same.1 (sym f), e))))
    ]
