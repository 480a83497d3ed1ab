-- ===== src/Postgres/Repos/Primary.antt =====
-- OrganizationMemberRepo.SetPrimary: both steps of the query function, or neither.
use go_performance_starter.Prelude.{
  ℕ, ◌≡◌, refl, Bool, false, not, ◌&&◌, Option, some, arith, ◌==◌, if◌then◌else◌,
}
use go_performance_starter.Prelude.Text.{Text}
use go_performance_starter.Http.{Result, ok, err, AuthClaims}
use go_performance_starter.Middleware.Users.{RepoError}
use go_performance_starter.Postgres.Scope.{QueryError, Requester, Pool}
use go_performance_starter.Postgres.Scope.Ends.{whom}
use go_performance_starter.Postgres.Repos.{MemberQueries, primary_steps, set_primary}
use go_performance_starter.Postgres.Repos.Calls.{pooled, Done, plain-Done}

-- The memberships as a requester sees them, and what the two updates do to them: each touches the
-- rows of its WHERE clause, and no row that is not there.
pub record IsMemberships {D Member : Type 0} (q : MemberQueries D Member) : Type 0 where
  pub member : Requester → D → (user_id org_id : ℕ) → Bool
  pub primary : Requester → D → (user_id org_id : ℕ) → Bool
  pub step1_done :
      (who : Requester) (org_id user_id : ℕ) (s t : D)
      → q.set_primary_step1 org_id user_id who s ≡ (t, ok tt)
      → (u o : ℕ)
      → primary who t u o
        ≡ (if (u == user_id) && (o == org_id) then member who s u o else primary who s u o)
  pub step2_done :
      (who : Requester) (user_id org_id : ℕ) (s t : D)
      → q.set_primary_step2 user_id org_id who s ≡ (t, ok tt)
      → (u o : ℕ)
      → primary who t u o
        ≡ (if (u == user_id) && not (o == org_id) then false else primary who s u o)

module _ {D Member : Type 0} {q : MemberQueries D Member} (rows : IsMemberships q) where
  open rows use {member, primary, step1_done, step2_done}

  -- One primary organization at most, the one asked for, if there is such a membership; the others'
  -- memberships as they were.
  abbrev pub IsPrimary : Requester → (user_id org_id : ℕ) → D → D → Type 0
  IsPrimary who user_id org_id s t =
      (u o : ℕ)
      → primary who t u o
        ≡ (if u == user_id then (o == org_id) && member who s u o else primary who s u o)

  primary_steps-IsPrimary :
      (who : Requester) (user_id org_id : ℕ) (s t : D) (first : D × Result QueryError (Unit {0}))
      → q.set_primary_step1 org_id user_id who s ≡ first
      → primary_steps q user_id org_id who s ≡ (t, ok tt)
      → IsPrimary who user_id org_id s t
  unfolding primary_steps
  primary_steps-IsPrimary who user_id org_id s t (m, err e) one both u o =
      absurd (ground (arith, one))
  primary_steps-IsPrimary who user_id org_id s t (m, ok _) one both u o = ground (
    arith,
    step1_done who org_id user_id s m one u o,
    step2_done who user_id org_id m t (rw one at both) u o,
  )

  module _ (marshal : AuthClaims → Option Text) (pool : Pool D) (fallback : Requester)
      (claims : Option AuthClaims) where
    abbrev pub IsMarked : (user_id org_id : ℕ) → D → D × Result RepoError (Unit {0}) → Type 0
    IsMarked user_id org_id s (t, err e) = t ≡ s
    IsMarked user_id org_id s (t, ok _) =
        (who : Requester) × (whom marshal claims ≡ some who) × IsPrimary who user_id org_id s t

    Done-IsMarked :
        (user_id org_id : ℕ) (s : D) (result : D × Result RepoError (Unit {0}))
        → Done marshal pool fallback claims (primary_steps q user_id org_id) s result
        → IsMarked user_id org_id s result
    Done-IsMarked user_id org_id s (t, err e) same = same
    Done-IsMarked user_id org_id s (t, ok _) (who, is, ran) =
        (who, is, primary_steps-IsPrimary who user_id org_id s t _ refl ran)

    -- SetPrimary is atomic. If it fails, even between its two steps, the database is as it was. If it
    -- succeeds, then as the requester sees it the organization is the user's primary one exactly if
    -- there is such a membership, no other organization is, and the flags of other users' memberships
    -- are as they were.
    pub set_primary-IsMarked :
        (user_id org_id : ℕ) (s : D)
        → IsMarked user_id org_id s
            (set_primary (pooled marshal pool fallback claims) q user_id org_id s)
    unfolding set_primary
    set_primary-IsMarked user_id org_id s =
        Done-IsMarked user_id org_id s _
          (plain-Done marshal pool fallback claims (primary_steps q user_id org_id) s)
