-- ===== src/Middleware/Metrics/Tests.antt =====
-- A page that is written in two parts, and one that is too slow.
use go_performance_starter.Prelude.{ℕ, ◌≡◌, refl, none, some, List, [], ◌∷◌}
use go_performance_starter.Prelude.Dict.{insert}
use go_performance_starter.Prelude.Text.{Text, codes}
use go_performance_starter.Writers.{
  Writer, write_header, write, Act, sets_header, writes_header, writes,
}
use go_performance_starter.Performance.Observer.{new_observer}
use go_performance_starter.Middleware.Metrics.{
  counted_write_header, counted_write, counted_act, counted_acts, check_performance_budget, metrics,
}

abbrev timing : ℕ → Text
timing n = n ∷ []

abbrev no_response : Writer
no_response = record { header = []; sent = none; body = [] }

abbrev page : List (ℕ × Act)
page =
    (12, sets_header "X" [])
    ∷ (15, writes (codes "ab"))
    ∷ (19, writes_header 500)
    ∷ (20, writes (codes "c"))
    ∷ []

all_of_it : Unit {0}
unfolding insert write_header write counted_write_header counted_write counted_act counted_acts
    check_performance_budget metrics
all_of_it = tt

metrics_tests :
    ((metrics timing (new_observer 0) 10 60000020 page no_response).1.1.status ≡ 200)
    × ((metrics timing (new_observer 0) 10 60000020 page no_response).1.1.response_size ≡ 3)
    × ((metrics timing (new_observer 0) 10 60000020 page no_response).1.1.violations
        ≡ codes "p50_response_time" ∷ [])
    × ((metrics timing (new_observer 0) 10 60000020 page no_response).1.0.sent
        ≡ some (200, ("Server-Timing", 5 ∷ []) ∷ ("X", []) ∷ []))
unfolding all_of_it
metrics_tests = (refl, refl, refl, refl)
