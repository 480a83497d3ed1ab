-- ===== src/Middleware/MetricsGuard.antt =====
-- internal/middleware/metrics_guard.go: who may read /metrics.
pub mod Access
mod Tests
use go_performance_starter.Prelude.{Bool, true, false, not, List, [], ◌∷◌, ◌++◌, if◌then◌else◌}
use go_performance_starter.Prelude.Text.{Text, codes, text_eq}
use go_performance_starter.Http.{is_empty, Request, http_error, Handler, unauthorized, not_found}

-- MetricsGuard
unfoldable pub metrics_guard :
    {W : Type 0} → (token : Text) (is_prod : Bool) → Handler W → Handler W
metrics_guard token is_prod next world r w =
    if not (is_empty token)
    then if not (text_eq (codes "Bearer " ++ token) (r.header (codes "Authorization")))
      then (world, http_error unauthorized w)
      else next world r w
    else if is_prod
    then (world, http_error not_found w)
    else next world r w
