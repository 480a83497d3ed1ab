-- ===== src/Jobs/Reaper/Keeping.antt =====
-- Whose account a pass leaves alone.
use go_performance_starter.Prelude.{
  ℕ, ◌-◌, ◌≡◌, ◌≢◌, refl, sym, ap, subst, true, Option, none, some, List, [], ◌∷◌, ltb, length, All,
  arith, Bool-cases, inl, inr,
}
use go_performance_starter.Prelude.Text.{Text, text_eq_iff}
use go_performance_starter.Http.{Failure, Result, ok, err, is_empty}
use go_performance_starter.Jobs.Reaper.{
  AdminUser, DeletedRow, AuthUserDeleter, AuthUserLister, Reaper, candidates, has_row, delete_row,
  delete_reaped, count, delete_orphans, orphans_checked, check_candidates, orphans_listed,
  reap_auth_orphans, clean_reaped, rows_reaped, run_once,
}

-- What the statements of the store and the admin API of GoTrue promise. `account w x` says that GoTrue
-- has the identity x, and `row w x` that a row of the users table belongs to it; `expired w t x`, that
-- this row is a guest's, created before t.
pub record IsAccounts {W : Type 0} (r : Reaper W) : Type 1 where
  pub account : W → Text → Type 0
  pub row : W → Text → Type 0
  pub expired : W → ℕ → Text → Type 0
  pub deleted_rows :
      (t : ℕ) (w w' : W) (rows : List DeletedRow)
      → r.store.delete_expired_anonymous_users t w ≡ (w', ok rows)
      → (x : Text) → account w x × row w x × (¬ expired w t x)
      → account w' x × row w' x × All (λ d. d.auth_id ≢ some x) rows
  pub failed_rows :
      (t : ℕ) (w w' : W) (e : Failure)
      → r.store.delete_expired_anonymous_users t w ≡ (w', err e)
      → (x : Text) → account w x × row w x
      → account w' x × row w' x
  pub existing :
      (ids : List Text) (w w' : W) (answer : Result Failure (List Text))
      → r.store.list_existing_auth_ids ids w ≡ (w', answer)
      → (x : Text) → account w x × row w x
      → account w' x × row w' x
  pub existing_complete :
      (ids : List Text) (w w' : W) (out : List Text)
      → r.store.list_existing_auth_ids ids w ≡ (w', ok out)
      → (x : Text) → row w x
      → has_row ids x ≡ true
      → has_row out x ≡ true
  pub listed :
      (list : AuthUserLister W) (w : W)
      → r.list_auth_users ≡ some list
      → (x : Text) → account w x × row w x
      → account (list w).0 x × row (list w).0 x
  pub deleted :
      (delete : AuthUserDeleter W) (w : W) (y : Text)
      → r.delete_auth_user ≡ some delete
      → (x : Text) → y ≢ x
      → account w x × row w x
      → account (delete y w).0 x × row (delete y w).0 x

has_row-here : (x id : Text) (ids : List Text) → id ≡ x → has_row (id ∷ ids) x ≡ true
unfolding has_row
has_row-here x id ids same = ground (arith, (text_eq_iff x id).1 (sym same))

has_row-there : (x id : Text) (ids : List Text) → has_row ids x ≡ true → has_row (id ∷ ids) x ≡ true
unfolding has_row
has_row-there x id ids h = ground arith

module _ {W : Type 0} (r : Reaper W) (accounts : IsAccounts r) (x : Text) where
  open accounts use {
    account, row, expired, deleted_rows, failed_rows, existing, existing_complete, listed, deleted,
  }

  abbrev IsKept : W → Type 0
  IsKept w = account w x × row w x

  module _ (delete : AuthUserDeleter W) (configured : r.delete_auth_user ≡ some delete) where
    delete_row-IsKept :
        (a : Option Text) (w : W) → a ≢ some x → IsKept w → IsKept (delete_row delete a w)
    unfolding delete_row
    delete_row-IsKept none w other kept = kept
    delete_row-IsKept (some y) w other kept = elim (Bool-cases (is_empty y)) [
      | inl e ↦ rw e kept
      | inr e ↦ rw e (deleted delete w y configured x (λ same. other (ap some same)) kept)
    ]

    delete_reaped-IsKept :
        (rows : List DeletedRow) (w : W)
        → All (λ d. d.auth_id ≢ some x) rows
        → IsKept w
        → IsKept (delete_reaped delete rows w)
    unfolding delete_reaped
    delete_reaped-IsKept [] w others kept = kept
    delete_reaped-IsKept (d ∷ rows) w (other, others) kept =
        delete_reaped-IsKept rows (delete_row delete d.auth_id w) others
          (delete_row-IsKept d.auth_id w other kept)

    count-IsKept :
        (rest : W → W × ℕ) (answer : W × Result Failure (Unit {0}))
        → ((w : W) → IsKept w → IsKept (rest w).0)
        → IsKept answer.0
        → IsKept (count rest answer).0
    count-IsKept rest (w, err e) step kept = step w kept
    count-IsKept rest (w, ok _) step kept = step w kept

    -- Every id that stands in `ids` and is x has a row in `out`.
    delete_orphans-IsKept :
        (out ids : List Text) (w : W)
        → (has_row ids x ≡ true → has_row out x ≡ true)
        → IsKept w
        → IsKept (delete_orphans delete out ids w).0
    unfolding delete_orphans
    delete_orphans-IsKept out [] w complete kept = kept
    delete_orphans-IsKept out (id ∷ ids) w complete kept = elim (Bool-cases (has_row out id)) [
      | inl e ↦
          rw (e, delete_orphans)
            (delete_orphans-IsKept out ids w (λ h. complete (has_row-there x id ids h)) kept)
      | inr e ↦
          rw (e, delete_orphans)
            (count-IsKept (delete_orphans delete out ids) (delete id w)
              (λ w' kept'.
                delete_orphans-IsKept out ids w' (λ h. complete (has_row-there x id ids h)) kept')
              (deleted delete w id configured x
                (λ same. absurd (
                  ground (
                    arith,
                    e,
                    subst (λ y. has_row out y ≡ true) (sym same)
                        (complete (has_row-here x id ids same)),
                  )))
                kept))
    ]

    orphans_checked-IsKept :
        (ids : List Text) (w : W) (answer : W × Result Failure (List Text))
        → r.store.list_existing_auth_ids ids w ≡ answer
        → IsKept w
        → IsKept (orphans_checked delete ids answer).0
    unfolding orphans_checked
    orphans_checked-IsKept ids w (w', err e) asked kept = existing ids w w' (err e) asked x kept
    orphans_checked-IsKept ids w (w', ok out) asked kept =
        delete_orphans-IsKept out ids w' (λ h. existing_complete ids w w' out asked x kept.1 h)
          (existing ids w w' (ok out) asked x kept)

    check_candidates-IsKept :
        (ids : List Text) (w : W) → IsKept w → IsKept (check_candidates r.store delete ids w).0
    unfolding check_candidates
    check_candidates-IsKept [] w kept = kept
    check_candidates-IsKept (id ∷ ids) w kept = orphans_checked-IsKept (id ∷ ids) w _ refl kept

    orphans_listed-IsKept :
        (cutoff : ℕ) (answer : W × Result Failure (List AdminUser))
        → IsKept answer.0
        → IsKept (orphans_listed r.store delete cutoff answer).0
    unfolding orphans_listed
    orphans_listed-IsKept cutoff (w, err e) kept = kept
    orphans_listed-IsKept cutoff (w, ok users) kept =
        check_candidates-IsKept (candidates cutoff users) w kept

  reap_auth_orphans-IsKept :
      (list : Option (AuthUserLister W)) (delete : Option (AuthUserDeleter W)) (cutoff : ℕ) (w : W)
      → r.list_auth_users ≡ list
      → r.delete_auth_user ≡ delete
      → IsKept w
      → IsKept (reap_auth_orphans r.store list delete cutoff w).0
  unfolding reap_auth_orphans
  reap_auth_orphans-IsKept none delete cutoff w l d kept = kept
  reap_auth_orphans-IsKept (some list) none cutoff w l d kept = kept
  reap_auth_orphans-IsKept (some list) (some delete) cutoff w l d kept =
      orphans_listed-IsKept delete d cutoff (list w) (listed list w l x kept)

  clean_reaped-IsKept :
      (delete : Option (AuthUserDeleter W)) (rows : List DeletedRow) (w : W)
      → r.delete_auth_user ≡ delete
      → All (λ d. d.auth_id ≢ some x) rows
      → IsKept w
      → IsKept (clean_reaped delete rows w)
  unfolding clean_reaped
  clean_reaped-IsKept none rows w d others kept = kept
  clean_reaped-IsKept (some delete) rows w d others kept = elim (Bool-cases (ltb 0 (length rows))) [
    | inl e ↦ rw e (delete_reaped-IsKept delete d rows w others kept)
    | inr e ↦ rw e kept
  ]

  rows_reaped-IsKept :
      (cutoff : ℕ) (w : W) (answer : W × Result Failure (List DeletedRow))
      → r.store.delete_expired_anonymous_users cutoff w ≡ answer
      → IsKept w
      → (¬ expired w cutoff x)
      → IsKept (rows_reaped r cutoff answer).0
  unfolding rows_reaped
  rows_reaped-IsKept cutoff w (w', err e) asked kept young = failed_rows cutoff w w' e asked x kept
  rows_reaped-IsKept cutoff w (w', ok rows) asked kept young =
      let (a, b, others) = deleted_rows cutoff w w' rows asked x (kept.0, kept.1, young) in
      reap_auth_orphans-IsKept r.list_auth_users r.delete_auth_user cutoff _ refl refl
        (clean_reaped-IsKept r.delete_auth_user rows w' refl others (a, b))

  -- An identity with a row that is not an expired guest's keeps both, its account and its row,
  -- through a whole pass, whichever calls of it fail.
  pub run_once_keeps :
      (now : ℕ) (w : W)
      → account w x
      → row w x
      → (¬ expired w (now - r.ttl) x)
      → account (run_once r now w).0 x × row (run_once r now w).0 x
  unfolding run_once
  run_once_keeps now w present owned young =
      rows_reaped-IsKept (now - r.ttl) w _ refl (present, owned) young
