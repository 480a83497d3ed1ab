-- ===== src/Jobs/Reaper/Orphans.antt =====
-- What the orphan pass deletes, against one filter over the identities that were listed.
use go_performance_starter.Prelude.{ℕ, Bool, not, ◌&&◌, List, [], ◌∷◌, ltb}
use go_performance_starter.Prelude.Text.{Text}
use go_performance_starter.Jobs.Reaper.{AdminUser, AuthUserDeleter, has_row, count}

-- The identity was made before the cutoff, and none of the ids that have a row is its.
abbrev pub is_orphan : ℕ → List Text → AdminUser → Bool
is_orphan cutoff existing u = ltb u.created_at cutoff && not (has_row existing u.id)

module _ {W : Type 0} where
  -- Deletes these identities, one after another, and counts the successes.
  abbrev pub delete_each : AuthUserDeleter W → List AdminUser → W → W × ℕ
  delete_each delete [] world = (world, 0)
  delete_each delete (u ∷ users) world = count (delete_each delete users) (delete u.id world)
