-- ===== src/Middleware/MetricsGuard/Tests.antt =====
-- The policy on a request with the right token.
use go_performance_starter.Prelude.{ℕ, ◌≡◌, ◌≢◌, refl, ◌⊎◌, true, false, none, some, [], ◌++◌}
use go_performance_starter.Prelude.Text.{codes, text_eq}
use go_performance_starter.Http.{Request, Response, Handler, http_error, unauthorized, not_found}
use go_performance_starter.Middleware.MetricsGuard.{metrics_guard}
use go_performance_starter.Middleware.MetricsGuard.Access.{metrics_guard_policy}

abbrev scrape : Request
scrape = record {
  method = codes "GET";
  cookies = [];
  header = λ name. codes "Bearer t";
  post_form = λ name. [];
  context = record { gotrue_user = none; claims = none; user = none; csrf_token = none };
}

abbrev no_response : Response
no_response = record { set_cookies = []; header = []; status = none }

abbrev page : Handler ℕ
page world r w = (world, record w { status = some 200 })

metrics_guard_tests :
    ((metrics_guard (codes "t") true page 0 scrape no_response).1.status ≡ some 200)
    × ((metrics_guard (codes "u") false page 0 scrape no_response).1.status ≡ some 401)
    × ((metrics_guard [] true page 0 scrape no_response).1.status ≡ some 404)
    × ((metrics_guard [] false page 0 scrape no_response).1.status ≡ some 200)
unfolding metrics_guard text_eq
metrics_guard_tests = (refl, refl, refl, refl)

metrics_guard_policy_example :
    (((next : Handler ℕ)
        → metrics_guard (codes "t") true next 0 scrape no_response ≡ next 0 scrape no_response)
      × (((codes "t" ≢ []) × (scrape.header (codes "Authorization") ≡ codes "Bearer " ++ codes "t"))
          ⊎ ((codes "t" ≡ []) × (true ≡ false))))
    ⊎ (((next : Handler ℕ)
          → metrics_guard (codes "t") true next 0 scrape no_response
            ≡ (0, http_error unauthorized no_response))
        × (codes "t" ≢ [])
        × (scrape.header (codes "Authorization") ≢ codes "Bearer " ++ codes "t"))
    ⊎ (((next : Handler ℕ)
          → metrics_guard (codes "t") true next 0 scrape no_response
            ≡ (0, http_error not_found no_response))
        × (codes "t" ≡ [])
        × (true ≡ true))
metrics_guard_policy_example = metrics_guard_policy (codes "t") true 0 scrape no_response
