-- ===== src/Postgres/ReaperRepo/Tests.antt =====
-- The reaper's question on a table of two rows.
use go_performance_starter.Prelude.{
  ◌≡◌, refl, true, Option, none, some, List, [], ◌∷◌, subst, ap, any, arith, Bool-cases, inl, inr,
}
use go_performance_starter.Prelude.Text.{Text, codes, text_eq}
use go_performance_starter.Http.{failure, ok, err, ok-injective}
use go_performance_starter.Jobs.Reaper.{has_row}
use go_performance_starter.Postgres.Scope.{other_failure, Pool}
use go_performance_starter.Postgres.ReaperRepo.{
  ReaperQueries, valid_only, committed, read_ids, list_existing_auth_ids,
  delete_expired_anonymous_users,
}
use go_performance_starter.Postgres.ReaperRepo.Transactions.{
  SeesAll, IsTruthful, is_id, list_existing_auth_ids-IsTruthful,
}

abbrev Table : Type 0
Table = List Text

abbrev working : Pool Table
working = record { begins = λ d. true; executes = λ s d. true; commits = λ before after. true }

-- The query answers with every id of the table.
abbrev all_of : Table → List (Option Text)
all_of [] = none ∷ []
all_of (id ∷ d) = some id ∷ all_of d

abbrev queries : ReaperQueries Table
queries = record {
  delete_expired_anonymous_users = λ t who d. (d, err other_failure);
  list_existing_auth_ids = λ ids who d. (d, ok (all_of d));
}

all_of_complete : (d : Table) (x : Text) → has_row d x ≡ true → any (is_id x) (all_of d) ≡ true
unfolding has_row
all_of_complete [] x there_is = absurd (ground arith)
all_of_complete (id ∷ d) x there_is = elim (Bool-cases (text_eq x id)) [
  | inl same ↦ rw (same, any) refl
  | inr other ↦ rw (other, any) (all_of_complete d x (rw (other, any) at there_is))
]

queries-SeesAll : SeesAll queries
queries-SeesAll = record {
  row = λ d x. has_row d x ≡ true;
  answers = λ ids d t rows e x there_is within.
      subst (λ rows. any (is_id x) rows ≡ true) (ok-injective (ap (λ p. p.1) e))
        (all_of_complete d x there_is);
}

all_of_it : Unit {0}
unfolding text_eq has_row valid_only committed read_ids list_existing_auth_ids
    delete_expired_anonymous_users
all_of_it = tt

abbrev two : Table
two = codes "a" ∷ codes "b" ∷ []

reaper_repo_tests :
    (list_existing_auth_ids working queries (codes "b" ∷ []) two ≡ (two, ok two))
    × ((list_existing_auth_ids working queries [] two ≡ (two, ok []))
        × (delete_expired_anonymous_users working queries 3 two ≡ (two, err failure)))
unfolding all_of_it
reaper_repo_tests = (refl, (refl, refl))

list_existing_auth_ids-IsTruthful_example :
    IsTruthful working queries-SeesAll (codes "b" ∷ []) two (two, ok two)
unfolding all_of_it
list_existing_auth_ids-IsTruthful_example =
    list_existing_auth_ids-IsTruthful working queries-SeesAll (codes "b" ∷ []) two
