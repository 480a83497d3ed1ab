-- ===== src/Jobs/Reaper/Tests.antt =====
-- A pass over a small auth server. The world is the list of the identities that GoTrue has.
use go_performance_starter.Prelude.{
  ◌≡◌, ◌≢◌, refl, sym, ap, subst, some-injective, true, not, some, List, [], ◌∷◌, keep, any, All,
  arith,
}
use go_performance_starter.Prelude.Text.{Text, codes, text_eq, text_eq_iff}
use go_performance_starter.Http.{Failure, Result, ok, ok-injective}
use go_performance_starter.Jobs.Reaper.{
  AdminUser, ReaperStore, Reaper, candidates, has_row, delete_row, delete_reaped, delete_orphans,
  orphans_checked, check_candidates, orphans_listed, reap_auth_orphans, clean_reaped, rows_reaped,
  run_once,
}
use go_performance_starter.Jobs.Reaper.Keeping.{IsAccounts, run_once_keeps}

abbrev Identities : Type 0
Identities = List Text

-- The guest g1 has just lost its row, alice has one, and x never had one.
abbrev one_row : ReaperStore Identities
one_row = record {
  delete_expired_anonymous_users =
      λ t w. (w, ok (record { id = 1; auth_id = some (codes "g1") } ∷ []));
  list_existing_auth_ids = λ ids w. (w, ok (codes "alice" ∷ []));
}

abbrev remove : Text → Identities → Identities × Result Failure (Unit {0})
remove id w = (keep (λ i. not (text_eq id i)) w, ok tt)

abbrev everyone : Identities → Identities × Result Failure (List AdminUser)
everyone w = (
  w,
  ok (
      record { id = codes "alice"; created_at = 1 }
      ∷ record { id = codes "x"; created_at = 2 }
      ∷ record { id = codes "young"; created_at = 900 }
      ∷ []),
)

abbrev reaper : Reaper Identities
reaper = record {
  store = one_row;
  delete_auth_user = some remove;
  list_auth_users = some everyone;
  ttl = 100;
}

abbrev identities : Identities
identities = codes "alice" ∷ codes "g1" ∷ codes "x" ∷ codes "young" ∷ []

all_of_it : Unit {0}
unfolding text_eq candidates has_row delete_row delete_reaped delete_orphans orphans_checked
    check_candidates orphans_listed reap_auth_orphans clean_reaped rows_reaped run_once
all_of_it = tt

run_once_test : run_once reaper 1000 identities ≡ (codes "alice" ∷ codes "young" ∷ [], ok 2)
unfolding all_of_it
run_once_test = refl

-- Who is there, who has a row, and whose row is an expired guest's.
abbrev IsThere : Identities → Text → Type 0
IsThere w x = any (text_eq x) w ≡ true

abbrev IsAlice : Text → Type 0
IsAlice x = x ≡ codes "alice"

remove-IsThere : (y x : Text) (w : Identities) → y ≢ x → IsThere w x → IsThere (remove y w).0 x
remove-IsThere y x [] other here = here
remove-IsThere y x (z ∷ w) other here =
    ground (arith, remove-IsThere y x w other, text_eq_iff x z, text_eq_iff y z)

accounts_of_reaper : IsAccounts reaper
unfolding text_eq has_row
accounts_of_reaper = record {
  account = IsThere;
  row = λ w x. IsAlice x;
  expired = λ w t x. x ≡ codes "g1";
  deleted_rows = λ t w w' rows e x (here, owned, young).
      subst (λ answer. IsThere answer.0 x × IsAlice x × All (λ d. d.auth_id ≢ some x) rows) e
        (
          here,
          owned,
          subst (All (λ d. d.auth_id ≢ some x)) (ok-injective (ap (λ p. p.1) e))
              ((λ f. young (sym (some-injective f))), tt),
        );
  failed_rows = λ t w w' f e x kept. absurd cc;
  existing =
      λ ids w w' answer e x kept. (subst (λ v. IsThere v x) (ap (λ p. p.0) e) kept.0, kept.1);
  existing_complete = λ ids w w' out e x owned asked.
      rw (owned)
        (subst (λ l. has_row l (codes "alice") ≡ true) (ok-injective (ap (λ p. p.1) e)) refl);
  listed = λ list w e x kept. (subst (λ l. IsThere (l w).0 x) (some-injective e) kept.0, kept.1);
  deleted = λ delete w y e x other kept. (
    subst (λ d. IsThere (d y w).0 x) (some-injective e) (remove-IsThere y x w other kept.0),
    kept.1,
  );
}

run_once_keeps_example :
    IsThere (run_once reaper 1000 identities).0 (codes "alice") × IsAlice (codes "alice")
unfolding all_of_it accounts_of_reaper
run_once_keeps_example =
    run_once_keeps reaper accounts_of_reaper (codes "alice") 1000 identities refl refl (λ e. cc)
