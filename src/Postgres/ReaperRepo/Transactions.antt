-- ===== src/Postgres/ReaperRepo/Transactions.antt =====
-- What the two transactions of the reaper leave behind, and that the answer on rows is not too short.
use go_performance_starter.Prelude.{
  ◌≡◌, refl, Bool, true, false, Option, none, some, List, [], ◌∷◌, any, Bool-cases, inl, inr,
}
use go_performance_starter.Prelude.Text.{Text, text_eq}
use go_performance_starter.Http.{Failure, Result, ok, err}
use go_performance_starter.Jobs.Reaper.{has_row}
use go_performance_starter.Postgres.Scope.{QueryError, set_local_role, Pool}
use go_performance_starter.Postgres.ReaperRepo.{
  ReaperQueries, service_role, service, valid_only, read_ids, list_existing_auth_ids,
}

abbrev pub is_id : Text → Option Text → Bool
is_id x none = false
is_id x (some y) = text_eq x y

-- Under service_role the query on ids answers with all of them that have a row: the policies hide
-- no row from that role.
pub record SeesAll {D : Type 0} (q : ReaperQueries D) : Type 1 where
  pub row : D → Text → Type 0
  pub answers :
      (ids : List Text) (d t : D) (rows : List (Option Text))
      → q.list_existing_auth_ids ids service d ≡ (t, ok rows)
      → (x : Text) → row d x
      → has_row ids x ≡ true
      → any (is_id x) rows ≡ true

valid_only-has_row :
    (x : Text) (rows : List (Option Text))
    → any (is_id x) rows ≡ true
    → has_row (valid_only rows) x ≡ true
unfolding valid_only has_row
valid_only-has_row x [] h = h
valid_only-has_row x (none ∷ rows) h = valid_only-has_row x rows h
valid_only-has_row x (some y ∷ rows) h = elim (Bool-cases (text_eq x y)) [
  | inl same ↦ rw (same, any) refl
  | inr other ↦ rw (other, any) (valid_only-has_row x rows (rw (other, any) at h))
]

module _ {D : Type 0} (pool : Pool D) {q : ReaperQueries D} (sees : SeesAll q) where
  -- What a call on ids may give, and that the database stays as it was.
  abbrev pub IsTruthful : List Text → D → D × Result Failure (List Text) → Type 0
  IsTruthful ids d (t, err e) = t ≡ d
  IsTruthful ids d (t, ok out) =
      (t ≡ d) × ((x : Text) → sees.row d x → has_row ids x ≡ true → has_row out x ≡ true)

  read_ids-IsTruthful :
      (ids : List Text) (d : D) (answer : D × Result QueryError (List (Option Text)))
      → q.list_existing_auth_ids ids service d ≡ answer
      → IsTruthful ids d (read_ids pool q d answer)
  unfolding read_ids
  read_ids-IsTruthful ids d (t, err e) asked = refl
  read_ids-IsTruthful ids d (t, ok rows) asked = (
    refl,
    λ x there_is within.
        valid_only-has_row x rows (sees.answers ids d t rows asked x there_is within),
  )

  -- The answer on which ids have a row is never too short, so that the pass that deletes the others
  -- deletes none that has one; and asking changes nothing, whether it succeeds or not.
  pub list_existing_auth_ids-IsTruthful :
      (ids : List Text) (d : D) → IsTruthful ids d (list_existing_auth_ids pool q ids d)
  unfolding list_existing_auth_ids has_row
  list_existing_auth_ids-IsTruthful [] d = (refl, λ x there_is within. within)
  list_existing_auth_ids-IsTruthful (id ∷ ids) d = elim (Bool-cases (pool.begins d)) [
    | inr e ↦ rw e refl
    | inl e ↦ elim (Bool-cases (pool.executes (set_local_role service_role) d)) [
      | inr f ↦ rw (e, f) refl
      | inl f ↦ rw (e, f) (read_ids-IsTruthful (id ∷ ids) d _ refl)
    ]
  ]
