-- ===== src/Postgres/Repos/Tables.antt =====
-- internal/repository/postgres/quiz.go, organization.go and organization_member.go: the repositories
-- whose calls are each one query. Of the rows of their tables nothing is read.
use go_performance_starter.Prelude.{ℕ, List}
use go_performance_starter.Prelude.Text.{Text}
use go_performance_starter.Http.{Result}
use go_performance_starter.Middleware.Users.{RepoError}
use go_performance_starter.Postgres.Scope.{Query}
use go_performance_starter.Postgres.Repos.{Repo, one_row, plain}

-- The queries of database.Querier that QuizRepo calls.
pub record QuizQueries (D Question Attempt AttemptParams : Type 0) : Type 0 where
  pub list_quiz_questions : Query D (List Question)
  pub get_quiz_question : (id : ℕ) → Query D Question
  pub get_quiz_question_by_slug : (slug : Text) → Query D Question
  pub create_quiz_attempt : (params : AttemptParams) → Query D Attempt
  pub list_quiz_attempts_by_user :
      (user_id : ℕ) → (limit : ℕ) → (offset : ℕ) → Query D (List Attempt)
  pub count_correct_attempts_by_user : (user_id : ℕ) → Query D ℕ
  pub count_attempts_by_user : (user_id : ℕ) → Query D ℕ

module _ {D Question Attempt AttemptParams : Type 0} (r : Repo D)
    (q : QuizQueries D Question Attempt AttemptParams) where
  -- ListQuestions
  unfoldable pub quiz_list_questions : D → D × Result RepoError (List Question)
  unfolding plain
  quiz_list_questions d = plain r (q.list_quiz_questions) d

  -- GetQuestion
  unfoldable pub quiz_get_question : (id : ℕ) → D → D × Result RepoError Question
  unfolding one_row
  quiz_get_question id d = one_row r (q.get_quiz_question id) d

  -- GetQuestionBySlug
  unfoldable pub quiz_get_question_by_slug : (slug : Text) → D → D × Result RepoError Question
  unfolding one_row
  quiz_get_question_by_slug slug d = one_row r (q.get_quiz_question_by_slug slug) d

  -- RecordAttempt
  unfoldable pub quiz_record_attempt : (params : AttemptParams) → D → D × Result RepoError Attempt
  unfolding plain
  quiz_record_attempt params d = plain r (q.create_quiz_attempt params) d

  -- ListAttemptsByUser
  unfoldable pub quiz_list_attempts_by_user :
      (user_id : ℕ) → (limit : ℕ) → (offset : ℕ) → D → D × Result RepoError (List Attempt)
  unfolding plain
  quiz_list_attempts_by_user user_id limit offset d =
      plain r (q.list_quiz_attempts_by_user user_id limit offset) d

  -- CountCorrectByUser
  unfoldable pub quiz_count_correct_by_user : (user_id : ℕ) → D → D × Result RepoError ℕ
  unfolding plain
  quiz_count_correct_by_user user_id d = plain r (q.count_correct_attempts_by_user user_id) d

  -- CountAttemptsByUser
  unfoldable pub quiz_count_attempts_by_user : (user_id : ℕ) → D → D × Result RepoError ℕ
  unfolding plain
  quiz_count_attempts_by_user user_id d = plain r (q.count_attempts_by_user user_id) d

-- The queries of database.Querier that OrganizationRepo calls.
pub record OrganizationQueries (D Organization CreateParams UpdateParams : Type 0) : Type 0 where
  pub get_organization : (id : ℕ) → Query D Organization
  pub get_organization_by_slug : (slug : Text) → Query D Organization
  pub list_organizations : (limit : ℕ) → (offset : ℕ) → Query D (List Organization)
  pub create_organization : (params : CreateParams) → Query D Organization
  pub update_organization : (params : UpdateParams) → Query D Organization
  pub delete_organization : (id : ℕ) → Query D (Unit {0})
  pub list_user_organizations :
      (user_id : ℕ) → (limit : ℕ) → (offset : ℕ) → Query D (List Organization)
  pub get_user_primary_organization : (user_id : ℕ) → Query D Organization

module _ {D Organization CreateParams UpdateParams : Type 0} (r : Repo D)
    (q : OrganizationQueries D Organization CreateParams UpdateParams) where
  -- Get
  unfoldable pub organization_get : (id : ℕ) → D → D × Result RepoError Organization
  unfolding one_row
  organization_get id d = one_row r (q.get_organization id) d

  -- GetBySlug
  unfoldable pub organization_get_by_slug : (slug : Text) → D → D × Result RepoError Organization
  unfolding one_row
  organization_get_by_slug slug d = one_row r (q.get_organization_by_slug slug) d

  -- List
  unfoldable pub organization_list :
      (limit : ℕ) → (offset : ℕ) → D → D × Result RepoError (List Organization)
  unfolding plain
  organization_list limit offset d = plain r (q.list_organizations limit offset) d

  -- Create
  unfoldable pub organization_create :
      (params : CreateParams) → D → D × Result RepoError Organization
  unfolding plain
  organization_create params d = plain r (q.create_organization params) d

  -- Update
  unfoldable pub organization_update :
      (params : UpdateParams) → D → D × Result RepoError Organization
  unfolding one_row
  organization_update params d = one_row r (q.update_organization params) d

  -- Delete
  unfoldable pub organization_delete : (id : ℕ) → D → D × Result RepoError (Unit {0})
  unfolding plain
  organization_delete id d = plain r (q.delete_organization id) d

  -- ListForUser
  unfoldable pub organization_list_for_user :
      (user_id : ℕ) → (limit : ℕ) → (offset : ℕ) → D → D × Result RepoError (List Organization)
  unfolding plain
  organization_list_for_user user_id limit offset d =
      plain r (q.list_user_organizations user_id limit offset) d

  -- GetPrimaryForUser
  unfoldable pub organization_get_primary_for_user :
      (user_id : ℕ) → D → D × Result RepoError Organization
  unfolding one_row
  organization_get_primary_for_user user_id d =
      one_row r (q.get_user_primary_organization user_id) d

-- The queries of database.Querier that OrganizationMemberRepo calls for its plain operations.
pub record OrganizationMemberQueries (D Member CreateParams UpdateParams : Type 0) : Type 0 where
  pub get_organization_member : (id : ℕ) → Query D Member
  pub list_organization_members : (org_id : ℕ) → (limit : ℕ) → (offset : ℕ) → Query D (List Member)
  pub create_organization_member : (params : CreateParams) → Query D Member
  pub update_organization_member : (params : UpdateParams) → Query D Member
  pub count_organization_members : (org_id : ℕ) → Query D ℕ

module _ {D Member CreateParams UpdateParams : Type 0} (r : Repo D)
    (q : OrganizationMemberQueries D Member CreateParams UpdateParams) where
  -- Get
  unfoldable pub member_get : (id : ℕ) → D → D × Result RepoError Member
  unfolding one_row
  member_get id d = one_row r (q.get_organization_member id) d

  -- List
  unfoldable pub member_list :
      (org_id : ℕ) → (limit : ℕ) → (offset : ℕ) → D → D × Result RepoError (List Member)
  unfolding plain
  member_list org_id limit offset d = plain r (q.list_organization_members org_id limit offset) d

  -- Create
  unfoldable pub member_create : (params : CreateParams) → D → D × Result RepoError Member
  unfolding plain
  member_create params d = plain r (q.create_organization_member params) d

  -- Update
  unfoldable pub member_update : (params : UpdateParams) → D → D × Result RepoError Member
  unfolding one_row
  member_update params d = one_row r (q.update_organization_member params) d

  -- Count
  unfoldable pub member_count : (org_id : ℕ) → D → D × Result RepoError ℕ
  unfolding plain
  member_count org_id d = plain r (q.count_organization_members org_id) d
