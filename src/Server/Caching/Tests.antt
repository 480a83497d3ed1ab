-- ===== src/Server/Caching/Tests.antt =====
-- A missing asset, and one that is there.
use go_performance_starter.Prelude.{◌≡◌, refl, none, some, List, [], ◌∷◌, arith}
use go_performance_starter.Prelude.Dict.{lookup, insert}
use go_performance_starter.Prelude.Text.{codes, text_eq}
use go_performance_starter.Writers.{
  Writer, write_header, write, Act, sets_header, writes_header, writes,
}
use go_performance_starter.Server.Caching.{
  extension_from, fold, is_file_type, cache_policy, uncached_write_header, uncached_write, act,
  act_all, cache_control_wrapper, no_store, one_year, one_hour,
}
use go_performance_starter.Server.Caching.Errors.{cache_control_wrapper-IsSafe}

abbrev no_response : Writer
no_response = record { header = []; sent = none; body = [] }

abbrev missing : List Act
missing =
    sets_header "Content-Type" (codes "text/plain") ∷ writes_header 404 ∷ writes (codes "gone") ∷ []

all_of_it : Unit {0}
unfolding text_eq lookup insert extension_from fold is_file_type cache_policy write_header write
    uncached_write_header uncached_write act act_all cache_control_wrapper
all_of_it = tt

cache_policy_tests :
    (cache_policy (codes "/static/A.min.JS") ≡ one_year)
    × (cache_policy (codes "/x.woff2") ≡ one_year)
    × (cache_policy (codes "/v1.css/readme") ≡ one_hour)
    × ((cache_control_wrapper
          (codes "/a.css")
          (writes [] ∷ writes_header 500 ∷ [])
          no_response).sent
        ≡ some (200, ("Cache-Control", one_year) ∷ []))
unfolding all_of_it
cache_policy_tests = (refl, refl, refl, refl)

cache_control_wrapper-IsSafe_example :
    lookup "Cache-Control" (("Cache-Control", no_store) ∷ ("Content-Type", codes "text/plain") ∷ [])
    ≡ some no_store
unfolding all_of_it
cache_control_wrapper-IsSafe_example =
    cache_control_wrapper-IsSafe (codes "/gone.css") missing no_response 404
      (("Cache-Control", no_store) ∷ ("Content-Type", codes "text/plain") ∷ []) refl
      (tt, (refl, (tt, tt))) refl (omega arith)
