-- ===== src/Jobs/Reaper.antt =====
-- internal/jobs/reaper.go: the removal of expired guests. The store, the deleter and the lister are
-- values of a Reaper, as in the code, and the last two may be nil. They run in a world `W`. Times are
-- numbers of nanoseconds.
pub mod Orphans
pub mod Keeping
mod Tests
use go_performance_starter.Prelude.{
  ℕ, zero, suc, ◌+◌, ◌-◌, Bool, true, false, Option, none, some, List, [], ◌∷◌, ltb, length, any,
  if◌then◌else◌,
}
use go_performance_starter.Prelude.Text.{Text, text_eq}
use go_performance_starter.Http.{Failure, failure, Result, ok, err, is_empty}

-- auth.AdminUser
pub record AdminUser : Type 0 where
  pub id : Text
  pub created_at : ℕ

-- database.DeleteExpiredAnonymousUsersRow; the auth id is absent where it is not Valid
pub record DeletedRow : Type 0 where
  pub id : ℕ
  pub auth_id : Option Text

module _ (W : Type 0) where
  -- ReaperStore
  pub record ReaperStore : Type 0 where
    pub delete_expired_anonymous_users : ℕ → W → W × Result Failure (List DeletedRow)
    pub list_existing_auth_ids : List Text → W → W × Result Failure (List Text)

  -- AuthUserDeleter
  abbrev pub AuthUserDeleter : Type 0
  AuthUserDeleter = Text → W → W × Result Failure (Unit {0})

  -- AuthUserLister
  abbrev pub AuthUserLister : Type 0
  AuthUserLister = W → W × Result Failure (List AdminUser)

  -- Reaper, without the interval of its ticker
  pub record Reaper : Type 0 where
    pub store : ReaperStore
    pub delete_auth_user : Option AuthUserDeleter
    pub list_auth_users : Option AuthUserLister
    pub ttl : ℕ

-- The candidates of the orphan pass, by age.
unfoldable pub candidates : ℕ → List AdminUser → List Text
candidates cutoff [] = []
candidates cutoff (u ∷ users) =
    let rest = candidates cutoff users in if ltb u.created_at cutoff then u.id ∷ rest else rest

-- hasRow[id]
unfoldable pub has_row : List Text → Text → Bool
has_row existing id = any (text_eq id) existing

module _ {W : Type 0} where
  -- One round of RunOnce's loop over the rows that were deleted: a failure is ignored.
  unfoldable pub delete_row : AuthUserDeleter W → Option Text → W → W
  delete_row delete none world = world
  delete_row delete (some id) world = if is_empty id then world else (delete id world).0

  unfoldable pub delete_reaped : AuthUserDeleter W → List DeletedRow → W → W
  delete_reaped delete [] world = world
  delete_reaped delete (row ∷ rows) world =
      delete_reaped delete rows (delete_row delete row.auth_id world)

  abbrev pub count : (W → W × ℕ) → W × Result Failure (Unit {0}) → W × ℕ
  count rest (world, err _) = rest world
  count rest (world, ok _) = let (world', n) = rest world in (world', suc n)

  -- The loop of reapAuthOrphans that deletes, with the number of its successes.
  unfoldable pub delete_orphans : AuthUserDeleter W → List Text → List Text → W → W × ℕ
  delete_orphans delete existing [] world = (world, 0)
  delete_orphans delete existing (id ∷ ids) world = elim (has_row existing id) [
    | true ↦ delete_orphans delete existing ids world
    | false ↦ count (delete_orphans delete existing ids) (delete id world)
  ]

  unfoldable pub orphans_checked :
      AuthUserDeleter W → List Text → W × Result Failure (List Text) → W × ℕ
  orphans_checked delete ids (world, err _) = (world, 0)
  orphans_checked delete ids (world, ok existing) = delete_orphans delete existing ids world

  unfoldable pub check_candidates : ReaperStore W → AuthUserDeleter W → List Text → W → W × ℕ
  check_candidates store delete [] world = (world, 0)
  check_candidates store delete (id ∷ ids) world =
      orphans_checked delete (id ∷ ids) (store.list_existing_auth_ids (id ∷ ids) world)

  unfoldable pub orphans_listed :
      ReaperStore W → AuthUserDeleter W → ℕ → W × Result Failure (List AdminUser) → W × ℕ
  orphans_listed store delete cutoff (world, err _) = (world, 0)
  orphans_listed store delete cutoff (world, ok users) =
      check_candidates store delete (candidates cutoff users) world

  -- reapAuthOrphans
  unfoldable pub reap_auth_orphans :
      ReaperStore W → Option (AuthUserLister W) → Option (AuthUserDeleter W) → ℕ → W → W × ℕ
  reap_auth_orphans store (some list) (some delete) cutoff world =
      orphans_listed store delete cutoff (list world)
  reap_auth_orphans store _ _ cutoff world = (world, 0)

  -- RunOnce's first clean-up on the side of GoTrue
  unfoldable pub clean_reaped : Option (AuthUserDeleter W) → List DeletedRow → W → W
  clean_reaped none rows world = world
  clean_reaped (some delete) rows world =
      if ltb 0 (length rows) then delete_reaped delete rows world else world

  unfoldable pub rows_reaped :
      Reaper W → ℕ → W × Result Failure (List DeletedRow) → W × Result Failure ℕ
  rows_reaped r cutoff (world, err e) = (world, err e)
  rows_reaped r cutoff (world, ok reaped) =
      let (world', orphans) =
        reap_auth_orphans r.store r.list_auth_users r.delete_auth_user cutoff
          (clean_reaped r.delete_auth_user reaped world) in
      (world', ok (length reaped + orphans))

  -- RunOnce
  unfoldable pub run_once : Reaper W → ℕ → W → W × Result Failure ℕ
  run_once r now world =
      let cutoff = now - r.ttl in
      rows_reaped r cutoff (r.store.delete_expired_anonymous_users cutoff world)
