-- ===== src/Postgres/Scope/Tests.antt =====
-- Queries on a database that logs under whom it was read.
use go_performance_starter.Prelude.{
  ◌≡◌, refl, ◌⊎◌, Bool, true, false, Option, none, some, List, [], ◌∷◌,
}
use go_performance_starter.Prelude.Text.{Text, codes, text_eq}
use go_performance_starter.Http.{ok, err, AuthClaims, role_authenticated}
use go_performance_starter.Postgres.Scope.{
  QueryError, other_failure, Requester, connection, local_role, Pool, Query, valid_claims,
  identity_of, finished, run_as, in_scope,
}
use go_performance_starter.Postgres.Scope.Identity.{IsAllowed, in_scope-IsScoped}

abbrev Log : Type 0
Log = List Requester

abbrev working : Pool Log
working = record { begins = λ d. true; executes = λ s d. true; commits = λ before after. true }

abbrev marshal : AuthClaims → Option Text
marshal c = some (codes "{}")

abbrev claims : Text → AuthClaims
claims role = record { sub = codes "u"; role = role; is_anonymous = false }

abbrev note : Query Log Bool
note who log = (who ∷ log, ok true)

all_of_it : Unit {0}
unfolding text_eq valid_claims identity_of finished run_as in_scope
all_of_it = tt

in_scope_tests :
    (in_scope marshal (some working) connection (some (claims role_authenticated)) note []
      ≡ (local_role role_authenticated (codes "{}") (codes "u") ∷ [], ok true))
    × (in_scope marshal (some working) connection (some (claims (codes "service_role"))) note []
        ≡ ([], err other_failure))
    × (in_scope marshal (some working) connection none note [] ≡ (connection ∷ [], ok true))
unfolding all_of_it
in_scope_tests = (refl, refl, refl)

in_scope-IsScoped_example :
    ((e : QueryError) × ((fn : Query Log Bool)
        → in_scope marshal (some working) connection (some (claims role_authenticated)) fn []
          ≡ ([], err e)))
    ⊎ ((who : Requester) × IsAllowed marshal working (some (claims role_authenticated)) who
        × ((fn : Query Log Bool)
            → ((after : Log) × (a : Bool) × (fn who [] ≡ (after, ok a))
                × (in_scope marshal
                      (some working)
                      connection
                      (some (claims role_authenticated))
                      fn
                      []
                    ≡ (after, ok a)))
              ⊎ ((e : QueryError) × (in_scope marshal
                      (some working)
                      connection
                      (some (claims role_authenticated))
                      fn
                      []
                    ≡ ([], err e)))))
in_scope-IsScoped_example =
    in_scope-IsScoped marshal working connection (some (claims role_authenticated)) []
