-- ===== src/Postgres/Repos.antt =====
-- internal/repository/postgres: the repositories of users, flashcards, quizzes, organizations and their
-- members, on inScope. The queries (internal/database, generated from sql/queries) are parameters: each
-- takes the requester and the database.
pub mod Calls
pub mod Tables
pub mod Users
pub mod Primary
mod Tests
use go_performance_starter.Prelude.{ℕ, Bool, Option, none, some, List}
use go_performance_starter.Prelude.Text.{Text}
use go_performance_starter.Http.{Result, ok, err, AuthClaims, User}
use go_performance_starter.Middleware.Users.{
  RepoError, entity_not_found, other_error, CreateUserParams, UserRepository,
}
use go_performance_starter.Postgres.Scope.{
  QueryError, no_rows, other_failure, Requester, Pool, Query, in_scope,
}

-- database.UpdateUserParams; a field that is not Valid is `none`
pub record UpdateUserParams : Type 0 where
  pub id : ℕ
  pub email : Text
  pub name : Option Text
  pub avatar_url : Option Text
  pub auth_id : Option Text
  pub is_active : Option Bool
  pub last_login_at : Option ℕ

-- The queries of database.Querier on users.
pub record UserQueries (D : Type 0) : Type 0 where
  pub get_user : ℕ → Query D User
  pub get_user_by_email : Text → Query D User
  pub get_user_by_auth_id : Text → Query D User
  pub list_users : (limit offset : ℕ) → Query D (List User)
  pub create_user : CreateUserParams → Query D User
  pub update_user : UpdateUserParams → Query D User
  pub update_user_name : ℕ → Text → Query D User
  pub set_user_is_anonymous : ℕ → Bool → Query D (Unit {0})
  pub delete_user : ℕ → Query D (Unit {0})
  pub set_user_last_login : ℕ → ℕ → Query D User
  pub set_user_first_run_complete : ℕ → Bool → Query D (Unit {0})

pub record FlashcardQueries (D Card Params : Type 0) : Type 0 where
  pub create_flashcard : Params → Query D Card
  pub get_flashcard : ℕ → Query D Card
  pub list_flashcards_by_user : ℕ → Query D (List Card)
  pub set_flashcard_known : ℕ → Bool → Query D Card
  pub delete_flashcard : (id user_id : ℕ) → Query D (Unit {0})

pub record MemberQueries (D Member : Type 0) : Type 0 where
  pub get_by_user_and_org : ℕ → ℕ → Query D Member
  pub delete_member : ℕ → ℕ → Query D (Unit {0})
  pub set_primary_step1 : (org_id user_id : ℕ) → Query D (Unit {0})
  pub set_primary_step2 : (user_id org_id : ℕ) → Query D (Unit {0})

-- A repository: its pool and querier, the encoder of claims, and the claims of the call's context.
pub record Repo (D : Type 0) : Type 0 where
  pub marshal : AuthClaims → Option Text
  pub db : Option (Pool D)
  pub querier : Requester
  pub claims : Option AuthClaims

module _ {D : Type 0} where
  -- The error of a call that looks for one row: pgx.ErrNoRows is repository.ErrNotFound.
  unfoldable pub or_not_found : {A : Type 0} → D × Result QueryError A → D × Result RepoError A
  or_not_found (d, ok a) = (d, ok a)
  or_not_found (d, err no_rows) = (d, err entity_not_found)
  or_not_found (d, err other_failure) = (d, err other_error)

  -- The error of any other call, passed on; it is never repository.ErrNotFound.
  unfoldable pub or_error : {A : Type 0} → D × Result QueryError A → D × Result RepoError A
  or_error (d, ok a) = (d, ok a)
  or_error (d, err e) = (d, err other_error)

  abbrev then_step2 :
      Query D (Unit {0})
      → Requester
      → D × Result QueryError (Unit {0})
      → D × Result QueryError (Unit {0})
  then_step2 step2 who (d, err e) = (d, err e)
  then_step2 step2 who (d, ok _) = step2 who d

  -- The two steps of SetPrimary, in one query function.
  unfoldable pub primary_steps :
      {Member : Type 0} → MemberQueries D Member → (user_id org_id : ℕ) → Query D (Unit {0})
  primary_steps q user_id org_id who d =
      then_step2 (q.set_primary_step2 user_id org_id) who (q.set_primary_step1 org_id user_id who d)

  module _ (r : Repo D) where
    unfoldable pub scoped : {A : Type 0} → Query D A → D → D × Result QueryError A
    unfolding in_scope
    scoped fn d = in_scope r.marshal r.db r.querier r.claims fn d

    -- A call that looks for one row, and any other call.
    unfoldable pub one_row : {A : Type 0} → Query D A → D → D × Result RepoError A
    unfolding scoped or_not_found
    one_row fn d = or_not_found (scoped fn d)

    unfoldable pub plain : {A : Type 0} → Query D A → D → D × Result RepoError A
    unfolding scoped or_error
    plain fn d = or_error (scoped fn d)

    -- UserRepo
    module _ (q : UserQueries D) where
      -- Get
      unfoldable pub user_get : ℕ → D → D × Result RepoError User
      unfolding one_row
      user_get id d = one_row (q.get_user id) d

      -- GetByEmail
      unfoldable pub user_get_by_email : Text → D → D × Result RepoError User
      unfolding one_row
      user_get_by_email email d = one_row (q.get_user_by_email email) d

      -- GetByAuthID
      unfoldable pub user_get_by_auth_id : Text → D → D × Result RepoError User
      unfolding one_row
      user_get_by_auth_id auth_id d = one_row (q.get_user_by_auth_id auth_id) d

      -- List
      unfoldable pub user_list : (limit offset : ℕ) → D → D × Result RepoError (List User)
      unfolding plain
      user_list limit offset d = plain (q.list_users limit offset) d

      -- Create
      unfoldable pub user_create : CreateUserParams → D → D × Result RepoError User
      unfolding plain
      user_create params d = plain (q.create_user params) d

      -- Update
      unfoldable pub user_update : UpdateUserParams → D → D × Result RepoError User
      unfolding one_row
      user_update params d = one_row (q.update_user params) d

      -- UpdateName
      unfoldable pub user_update_name : ℕ → Text → D → D × Result RepoError User
      unfolding one_row
      user_update_name id name d = one_row (q.update_user_name id name) d

      -- SetAnonymous
      unfoldable pub user_set_anonymous : ℕ → Bool → D → D × Result RepoError (Unit {0})
      unfolding plain
      user_set_anonymous id anonymous d = plain (q.set_user_is_anonymous id anonymous) d

      -- Delete
      unfoldable pub user_delete : ℕ → D → D × Result RepoError (Unit {0})
      unfolding plain
      user_delete id d = plain (q.delete_user id) d

      abbrev dropped : {A : Type 0} → D × Result RepoError A → D × Result RepoError (Unit {0})
      dropped (d, ok a) = (d, ok tt)
      dropped (d, err e) = (d, err e)

      -- SetLastLogin
      unfoldable pub user_set_last_login : ℕ → ℕ → D → D × Result RepoError (Unit {0})
      unfolding one_row
      user_set_last_login id login_time d =
          dropped (one_row (q.set_user_last_login id login_time) d)

      -- UpdateFirstRunComplete
      unfoldable pub user_update_first_run_complete : ℕ → Bool → D → D × Result RepoError (Unit {0})
      unfolding plain
      user_update_first_run_complete id complete d =
          plain (q.set_user_first_run_complete id complete) d

      -- The part of the interface that the loaders call.
      abbrev pub user_repository : UserRepository D
      user_repository = record {
        get_by_auth_id = user_get_by_auth_id;
        set_anonymous = user_set_anonymous;
        create = user_create;
      }

    -- FlashcardRepo, of cards of which nothing is read
    module _ {Card Params : Type 0} (q : FlashcardQueries D Card Params) where
      -- Create
      unfoldable pub flashcard_create : Params → D → D × Result RepoError Card
      unfolding plain
      flashcard_create params d = plain (q.create_flashcard params) d

      -- Get
      unfoldable pub flashcard_get : ℕ → D → D × Result RepoError Card
      unfolding one_row
      flashcard_get id d = one_row (q.get_flashcard id) d

      -- ListByUser
      unfoldable pub flashcard_list_by_user : ℕ → D → D × Result RepoError (List Card)
      unfolding plain
      flashcard_list_by_user user_id d = plain (q.list_flashcards_by_user user_id) d

      -- SetKnown
      unfoldable pub flashcard_set_known : ℕ → Bool → D → D × Result RepoError Card
      unfolding one_row
      flashcard_set_known id known d = one_row (q.set_flashcard_known id known) d

      -- Delete
      unfoldable pub flashcard_delete : (id user_id : ℕ) → D → D × Result RepoError (Unit {0})
      unfolding plain
      flashcard_delete id user_id d = plain (q.delete_flashcard id user_id) d

    -- OrganizationMemberRepo, what changes a membership
    module _ {Member : Type 0} (q : MemberQueries D Member) where
      -- GetByUserAndOrg
      unfoldable pub member_get_by_user_and_org :
          (user_id org_id : ℕ) → D → D × Result RepoError Member
      unfolding one_row
      member_get_by_user_and_org user_id org_id d = one_row (q.get_by_user_and_org user_id org_id) d

      -- Delete
      unfoldable pub member_delete : (user_id org_id : ℕ) → D → D × Result RepoError (Unit {0})
      unfolding plain
      member_delete user_id org_id d = plain (q.delete_member user_id org_id) d

      -- SetPrimary
      unfoldable pub set_primary : (user_id org_id : ℕ) → D → D × Result RepoError (Unit {0})
      unfolding plain primary_steps
      set_primary user_id org_id d = plain (primary_steps q user_id org_id) d
