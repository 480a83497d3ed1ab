-- ===== src/Middleware/Users/Emails.antt =====
-- The address of a user who has none.
use mathlib.Core.List.{append_cancel_right}
use go_performance_starter.Prelude.{◌≡◌, ◌≢◌, ◌↔◌, ap, true, [], ◌∷◌, ◌++◌}
use go_performance_starter.Prelude.Text.{Text, codes}
use go_performance_starter.Http.{is_empty, AuthClaims, Request}
use go_performance_starter.Middleware.Users.{gotrue_email, provision_params}

append_not_empty : (s t : Text) → t ≢ [] → s ++ t ≢ []
append_not_empty [] t h e = h e
append_not_empty (c ∷ s) t h e = cc

-- The row that is provisioned for a new user has an email, and two guests without an address have the
-- same one only if they are the same identity: the second guest never collides with the first.
pub provision_params_distinct :
    (r s : Request) (claims others : AuthClaims)
    → is_empty (gotrue_email r.context.gotrue_user) ≡ true
    → is_empty (gotrue_email s.context.gotrue_user) ≡ true
    → ((provision_params r claims).email ≢ [])
      × (((provision_params r claims).email ≡ (provision_params s others).email)
          ↔ (claims.sub ≡ others.sub))
unfolding provision_params
provision_params_distinct r s claims others no_email none_either =
    rw (no_email, none_either)
      (
        append_not_empty claims.sub (codes "@guest.invalid") (λ e. cc),
        (
          (λ e. append_cancel_right claims.sub others.sub (codes "@guest.invalid") e),
          λ e. ap (λ sub. sub ++ codes "@guest.invalid") e,
        ),
      )
