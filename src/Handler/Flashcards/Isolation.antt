-- ===== src/Handler/Flashcards/Isolation.antt =====
-- The check of row-level security, on the repository of internal/repository/postgres: what it reports
-- is what the policies of the database do.
use go_performance_starter.Prelude.{
  ◌⊎◌, inl, inr, ℕ, ◌≡◌, refl, sym, ◌∙◌, ap, subst, true, Option, none, some, List, length,
}
use go_performance_starter.Prelude.Text.{Text, codes}
use go_performance_starter.Http.{
  Failure, Result, ok, err, AuthClaims, User, Context, auth_claims_from_context,
}
use go_performance_starter.Middleware.Users.{RepoError}
use go_performance_starter.Postgres.Scope.{Requester, local_role, Pool}
use go_performance_starter.Postgres.Scope.Ends.{whom}
use go_performance_starter.Postgres.Repos.{
  FlashcardQueries, flashcard_list_by_user, flashcard_create, flashcard_set_known, flashcard_delete,
}
use go_performance_starter.Postgres.Repos.Calls.{pooled, Done, plain-Done}
use go_performance_starter.Handler.Flashcards.{
  Flashcard, CreateFlashcardParams, FlashcardRepository, Uuids, IsolationProps, counted, after_own,
  with_identity, run_isolation_check, isolation_identity_own,
}

-- The query on a user's cards changes nothing. What it shows to whom is left open: a policy may hide
-- cards or leak them.
abbrev pub IsReadOnly : {D : Type 0} → FlashcardQueries D Flashcard CreateFlashcardParams → Type 0
IsReadOnly {D} q =
    (user_id : ℕ) (who : Requester) (d t : D) (cards : List Flashcard)
    → q.list_flashcards_by_user user_id who d ≡ (t, ok cards)
    → t ≡ d

module _ {D R : Type 0} where
  abbrev lifted : {A : Type 0} → R → D × Result RepoError A → (D × R) × Result RepoError A
  lifted r (d, result) = ((d, r), result)

  -- The repository on a pool, in a world that has a random source beside the database.
  abbrev pub on_pool :
      (AuthClaims → Option Text)
      → Pool D
      → Requester
      → FlashcardQueries D Flashcard CreateFlashcardParams
      → FlashcardRepository (D × R)
  on_pool marshal pool fallback q = record {
    list_by_user = λ claims user_id world.
        lifted world.1
          (flashcard_list_by_user (pooled marshal pool fallback claims) q user_id world.0);
    create = λ claims params world.
        lifted world.1 (flashcard_create (pooled marshal pool fallback claims) q params world.0);
    set_known = λ claims id known world.
        lifted world.1
          (flashcard_set_known (pooled marshal pool fallback claims) q id known world.0);
    delete = λ claims id user_id world.
        lifted world.1
          (flashcard_delete (pooled marshal pool fallback claims) q id user_id world.0);
  }

  -- Package uuid on that source.
  abbrev pub drawing : (Text → Option ℕ) → (ℕ → Text) → (R → R × Text) → Uuids (D × R)
  drawing parse string draw = record {
    parse = parse;
    string = string;
    new_string = λ world. ((world.0, (draw world.1).0), (draw world.1).1);
  }

whom_lem :
    (marshal : AuthClaims → Option Text) (c : AuthClaims) (found : Option Text) (who : Requester)
    → marshal c ≡ found
    → whom marshal (some c) ≡ some who
    → (json : Text) × (marshal c ≡ some json) × (who ≡ local_role c.role json c.sub)
whom_lem marshal c none who e h = absurd (cc (e, h))
whom_lem marshal c (some json) who e h = (json, e, cc (e, h))

module _ {D R : Type 0} (marshal : AuthClaims → Option Text) (pool : Pool D) (fallback : Requester)
    (q : FlashcardQueries D Flashcard CreateFlashcardParams) (read_only : IsReadOnly q)
    (parse : Text → Option ℕ) (string : ℕ → Text) (draw : R → R × Text) (ctx : Context)
    (user : User) (c : AuthClaims) (d : D) where
  abbrev uuids : Uuids (D × R)
  uuids = drawing parse string draw

  abbrev repo : FlashcardRepository (D × R)
  repo = on_pool marshal pool fallback q

  -- The claims of one with this sub that nobody has.
  abbrev pub stranger : Text → AuthClaims
  stranger sub = record { sub = sub; role = codes "authenticated"; is_anonymous = true }

  -- `n` is the number of cards of the user that the database gives to one with these claims.
  abbrev pub IsCount : AuthClaims → ℕ → Type 0
  IsCount claims n =
      (json : Text) × (cards : List Flashcard) × (marshal claims ≡ some json)
      × (q.list_flashcards_by_user user.id (local_role claims.role json claims.sub) d
          ≡ (d, ok cards))
      × (n ≡ length cards)

  abbrev HasFailed : {A : Type 0} → (D × R) × Result RepoError A → Type 0
  HasFailed answer = (after : D × R) × (e : RepoError) × (answer ≡ (after, err e))

  -- The user's cards, as the repository reads them under these claims.
  abbrev read_as : AuthClaims → R → (D × R) × Result RepoError (List Flashcard)
  read_as claims r = repo.list_by_user (some claims) user.id (d, r)

  -- What a check may end with, from a random source. In any case the database is as it was. An error
  -- stands for one of the two reads, which failed. A result has run, with both numbers as the database
  -- gives them: to the claims of the request, and to a stranger with the identifier that was drawn.
  abbrev pub IsTruthful : R → (D × R) × Result Failure IsolationProps → Type 0
  IsTruthful r ((t, r'), err e) =
      (t ≡ d) × (HasFailed (read_as c r) ⊎ HasFailed (read_as (stranger (draw r).1) (draw r).0))
  IsTruthful r ((t, r'), ok props) =
      (t ≡ d)
      × (props.ran ≡ true)
      × IsCount c props.own_rows
      × IsCount (stranger (draw r).1) props.stranger_rows

  list-IsCount :
      (claims : AuthClaims) (t : D) (cards : List Flashcard)
      → Done marshal pool fallback (some claims) (q.list_flashcards_by_user user.id) d (t, ok cards)
      → (t ≡ d) × IsCount claims (length cards)
  list-IsCount claims t cards (who, is_who, asked) =
      let (json, encoded, is_role) = whom_lem marshal claims _ who refl is_who in
      let same : t ≡ d = read_only user.id who d t cards asked in
      let given : q.list_flashcards_by_user user.id (local_role claims.role json claims.sub) d
          ≡ (d, ok cards) =
        subst (λ w. q.list_flashcards_by_user user.id w d ≡ (d, ok cards)) is_role
          (asked ∙ ap (λ s. (s, ok cards)) same) in
      (same, (json, cards, encoded, given, refl))

  counted-IsTruthful :
      (own : ℕ) (r : R) (answer : D × Result RepoError (List Flashcard))
      → IsCount c own
      → Done marshal pool fallback
          (some (stranger (draw r).1))
          (q.list_flashcards_by_user user.id)
          d
          answer
      → read_as (stranger (draw r).1) (draw r).0 ≡ lifted (draw r).0 answer
      → IsTruthful r (counted uuids repo ctx user own (draw r).1 (lifted (draw r).0 answer))
  unfolding counted
  counted-IsTruthful own r (t, err e) is_own same asked = (same, inr (_, e, asked))
  counted-IsTruthful own r (t, ok foreign) is_own done asked =
      let (same, is_count) = list-IsCount (stranger (draw r).1) t foreign done in
      (
        same,
        refl,
        subst (IsCount c) (sym (isolation_identity_own uuids ctx user own)) is_own,
        is_count,
      )

  after_own-IsTruthful :
      (r : R) (answer : D × Result RepoError (List Flashcard))
      → Done marshal pool fallback (some c) (q.list_flashcards_by_user user.id) d answer
      → read_as c r ≡ lifted r answer
      → IsTruthful r (after_own uuids repo ctx user (lifted r answer))
  unfolding after_own flashcard_list_by_user
  after_own-IsTruthful r (t, err e) same asked = (same, inl (_, e, asked))
  after_own-IsTruthful r (t, ok own) done asked =
      let (same, is_own) = list-IsCount c t own done in
      subst (λ s. IsTruthful r (after_own uuids repo ctx user (lifted r (s, ok own)))) (sym same)
        (counted-IsTruthful (length own) r _ is_own
          (plain-Done marshal pool fallback (some (stranger (draw r).1))
            (q.list_flashcards_by_user user.id) d)
          refl)

  -- The check of a request with claims, on a database whose policies may do anything, fails only where
  -- one of its two reads fails, and else reports the two numbers of the user's cards that the database gives: to the claims of the request,
  -- and, to the same query, to an authenticated stranger under the identifier that was drawn for it.
  -- So a policy that leaks cards to the stranger is reported. The check changes nothing in the
  -- database. The query on cards only reads.
  pub run_isolation_check-IsTruthful :
      (r : R)
      → auth_claims_from_context ctx ≡ some c
      → IsTruthful r (run_isolation_check uuids repo ctx user (d, r))
  unfolding run_isolation_check flashcard_list_by_user
  run_isolation_check-IsTruthful r has_claims =
      subst (λ claims. IsTruthful r (with_identity uuids repo ctx user claims (d, r)))
        (sym has_claims)
        (after_own-IsTruthful r _
          (plain-Done marshal pool fallback (some c) (q.list_flashcards_by_user user.id) d) refl)
