-- ===== src/Postgres/Scope/Ends.antt =====
-- How a call of inScope ends, and what of the query it then tells.
use mathlib.Core.Option
use go_performance_starter.Prelude.{◌≡◌, refl, inl, inr, Option, none, some, arith, Bool-cases}
use go_performance_starter.Prelude.Text.{Text}
use go_performance_starter.Http.{Result, ok, err, AuthClaims}
use go_performance_starter.Postgres.Scope.{
  QueryError, no_rows, other_failure, Requester, connection, local_role, Pool, Query, finished,
  run_as, in_scope, identity_of, with_json, valid_claims, set_local_role, set_jwt_claims,
}

-- The identity that claims stand for, where they can be encoded.
abbrev pub whom : (AuthClaims → Option Text) → Option AuthClaims → Option Requester
whom marshal none = some connection
whom marshal (some c) = Option.map (λ json. local_role c.role json c.sub) (marshal c)

module _ {D : Type 0} (marshal : AuthClaims → Option Text) (pool : Pool D) where
  abbrev IsWhom : Option AuthClaims → Result QueryError Requester → Type 0
  IsWhom claims (ok who) = whom marshal claims ≡ some who
  IsWhom claims (err e) = e ≡ other_failure

  with_json-IsWhom :
      (c : AuthClaims) (d : D) (json : Option Text)
      → marshal c ≡ json
      → IsWhom (some c) (with_json marshal pool c d json)
  with_json-IsWhom c d none e = refl
  with_json-IsWhom c d (some json) e = elim (Bool-cases (pool.executes (set_local_role c.role) d)) [
    | inr f ↦ rw f refl
    | inl f ↦ elim (Bool-cases (pool.executes (set_jwt_claims json c.sub) d)) [
      | inr g ↦ rw (f, g) refl
      | inl g ↦ rw (f, g) (rw e refl)
    ]
  ]

  identity_of-IsWhom :
      (claims : Option AuthClaims) (d : D) → IsWhom claims (identity_of marshal pool claims d)
  unfolding identity_of
  identity_of-IsWhom none d = refl
  identity_of-IsWhom (some c) d = elim (Bool-cases (valid_claims c)) [
    | inr e ↦ rw e refl
    | inl e ↦ rw e (with_json-IsWhom c d (marshal c) refl)
  ]

  module _ {T : Type 0} (fallback : Requester) (claims : Option AuthClaims) (fn : Query D T)
      (d : D) where
    -- The three ends of a call: it has the result of the query under the claims' identity; the query
    -- found no row, and the database is as it was; or it failed, and the database is as it was.
    abbrev pub Ends : D × Result QueryError T → Type 0
    Ends (t, ok a) = (who : Requester) × (whom marshal claims ≡ some who) × (fn who d ≡ (t, ok a))
    Ends (t, err no_rows) =
        (t ≡ d)
        × ((who : Requester) × (after : D) × (whom marshal claims ≡ some who)
            × (fn who d ≡ (after, err no_rows)))
    Ends (t, err other_failure) = t ≡ d

    finished-Ends :
        (who : Requester) (answer : D × Result QueryError T)
        → whom marshal claims ≡ some who
        → fn who d ≡ answer
        → Ends (finished pool d answer)
    unfolding finished
    finished-Ends who (after, err no_rows) is e = (refl, (who, after, is, e))
    finished-Ends who (after, err other_failure) is e = refl
    finished-Ends who (after, ok a) is e = elim (Bool-cases (pool.commits d after)) [
      | inl c ↦ rw c (who, is, e)
      | inr c ↦ rw c refl
    ]

    run_as-Ends :
        (checked : Result QueryError Requester)
        → IsWhom claims checked
        → Ends (run_as pool d fn checked)
    unfolding run_as
    run_as-Ends (ok who) is = finished-Ends who (fn who d) is refl
    run_as-Ends (err no_rows) is = absurd (ground arith)
    run_as-Ends (err other_failure) is = refl

    pub in_scope-Ends : Ends (in_scope marshal (some pool) fallback claims fn d)
    unfolding in_scope
    in_scope-Ends = elim (Bool-cases (pool.begins d)) [
      | inr e ↦ rw e refl
      | inl e ↦ rw e (run_as-Ends (identity_of marshal pool claims d) (identity_of-IsWhom claims d))
    ]
