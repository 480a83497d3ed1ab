-- ===== src/Postgres/Scope/Identity.antt =====
-- Under whom a query runs, and what a other_failure leaves behind.
use go_performance_starter.Prelude.{
  ◌≡◌, refl, ◌⊎◌, inl, inr, true, false, Option, none, some, arith, Bool-cases,
}
use go_performance_starter.Prelude.Text.{Text, text_eq, text_eq_iff}
use go_performance_starter.Http.{
  Result, ok, err, is_empty, AuthClaims, role_authenticated, role_anon,
}
use go_performance_starter.Postgres.Scope.{
  QueryError, other_failure, Requester, connection, local_role, set_local_role, set_jwt_claims,
  Pool, valid_claims, with_json, identity_of, Query, finished, run_as, in_scope,
}

module _ {D : Type 0} (marshal : AuthClaims → Option Text) (pool : Pool D) where
  -- The one identity that the claims allow.
  abbrev pub IsAllowed : Option AuthClaims → Requester → Type 0
  IsAllowed none who = who ≡ connection
  IsAllowed (some c) who =
      (is_empty c.sub ≡ false)
      × ((c.role ≡ role_authenticated) ⊎ (c.role ≡ role_anon))
      × ((json : Text) × (marshal c ≡ some json) × (who ≡ local_role c.role json c.sub))

  abbrev IsChecked : Option AuthClaims → Result QueryError Requester → Type 0
  IsChecked claims (err e) = Unit
  IsChecked claims (ok who) = IsAllowed claims who

  valid_claims_lem :
      (c : AuthClaims)
      → valid_claims c ≡ true
      → (is_empty c.sub ≡ false) × ((c.role ≡ role_authenticated) ⊎ (c.role ≡ role_anon))
  unfolding valid_claims
  valid_claims_lem c h = elim (Bool-cases (text_eq c.role role_authenticated)) [
    | inl e ↦ (ground (arith, h), inl ((text_eq_iff c.role role_authenticated).0 e))
    | inr e ↦ elim (Bool-cases (text_eq c.role role_anon)) [
      | inl f ↦ (ground (arith, h), inr ((text_eq_iff c.role role_anon).0 f))
      | inr f ↦ absurd (ground (arith, e, f, h))
    ]
  ]

  json-IsChecked :
      (c : AuthClaims) (d : D) (found : Option Text)
      → valid_claims c ≡ true
      → marshal c ≡ found
      → IsChecked (some c) (with_json marshal pool c d found)
  json-IsChecked c d none valid e = tt
  json-IsChecked c d (some json) valid e =
      elim (Bool-cases (pool.executes (set_local_role c.role) d)) [
        | inr f ↦ rw f tt
        | inl f ↦ elim (Bool-cases (pool.executes (set_jwt_claims json c.sub) d)) [
          | inr g ↦ rw (f, g) tt
          | inl g ↦
              let (sub, role) = valid_claims_lem c valid in rw (f, g) (sub, role, (json, e, refl))
        ]
      ]

  identity_of-IsChecked :
      (claims : Option AuthClaims) (d : D) → IsChecked claims (identity_of marshal pool claims d)
  unfolding identity_of
  identity_of-IsChecked none d = refl
  identity_of-IsChecked (some c) d = elim (Bool-cases (valid_claims c)) [
    | inr e ↦ rw e tt
    | inl e ↦ rw e (json-IsChecked c d (marshal c) e refl)
  ]

  module _ {T : Type 0} (fallback : Requester) (claims : Option AuthClaims) (d : D) where
    abbrev IsScoped : (Query D T → D × Result QueryError T) → Type 0
    IsScoped run =
        ((e : QueryError) × ((fn : Query D T) → run fn ≡ (d, err e)))
        ⊎ ((who : Requester) × IsAllowed claims who
            × ((fn : Query D T)
                → ((after : D) × (a : T) × (fn who d ≡ (after, ok a)) × (run fn ≡ (after, ok a)))
                  ⊎ ((e : QueryError) × (run fn ≡ (d, err e)))))

    finished_cases :
        (result : D × Result QueryError T)
        → ((after : D) × (a : T) × (result ≡ (after, ok a))
            × (finished pool d result ≡ (after, ok a)))
          ⊎ ((e : QueryError) × (finished pool d result ≡ (d, err e)))
    unfolding finished
    finished_cases (after, err e) = inr (e, refl)
    finished_cases (after, ok a) = elim (Bool-cases (pool.commits d after)) [
      | inl e ↦ inl (after, a, refl, rw e refl)
      | inr e ↦ inr (other_failure, rw e refl)
    ]

    run_as-IsScoped :
        (checked : Result QueryError Requester)
        → IsChecked claims checked
        → IsScoped (λ fn. run_as pool d fn checked)
    unfolding run_as
    run_as-IsScoped (err e) allowed = inl (e, λ fn. refl)
    run_as-IsScoped (ok who) allowed = inr (who, allowed, λ fn. finished_cases (fn who d))

    -- With a pool, a query either never runs, and the database is as it was; or it runs under the one
    -- identity that the request's claims allow: without claims that of the connection, with claims
    -- their sub, which is not empty, in the role authenticated or anon. It then has its result, or
    -- fails and leaves the database as it was.
    pub in_scope-IsScoped : IsScoped (λ fn. in_scope marshal (some pool) fallback claims fn d)
    unfolding in_scope
    in_scope-IsScoped = elim (Bool-cases (pool.begins d)) [
      | inr e ↦ rw e (inl (other_failure, λ fn. refl))
      | inl e ↦ rw e (run_as-IsScoped _ (identity_of-IsChecked claims d))
    ]
