-- ===== src/Handler/Flashcards/Tests.antt =====
-- Runs of the flashcards on a table of cards with a policy, and a counter as the random source.
use go_performance_starter.Prelude.{
  length, ℕ, ◌+◌, ◌≡◌, refl, sym, ap, Bool, true, false, Option, none, some, List, [], ◌∷◌, ◌==◌,
  if◌then◌else◌,
}
use go_performance_starter.Prelude.Text.{Text, codes, text_eq, trim_space}
use go_performance_starter.Http.{
  ok, err, AuthClaims, User, Context, Request, Response, role_authenticated, is_htmx_request,
  with_auth_claims, auth_claims_from_context,
}
use go_performance_starter.Postgres.Scope.{
  no_rows, Requester, connection, local_role, Pool, valid_claims, identity_of, finished, run_as,
  in_scope,
}
use go_performance_starter.Postgres.Repos.{
  FlashcardQueries, or_not_found, or_error, scoped, one_row, plain, flashcard_create,
  flashcard_list_by_user, flashcard_set_known, flashcard_delete,
}
use go_performance_starter.Handler.Flashcards.{
  Uuids, FlashcardRepository, Shown, View, isolation_result, page, Flashcard, CreateFlashcardParams,
  IsolationProps, truncate_id, isolation_identity, counted, after_own, run_isolation_check,
  flashcard_isolation, one_flashcard_props, flashcard_props, show_cards, flashcards_page,
  create_with,
}
use go_performance_starter.Handler.Flashcards
use go_performance_starter.Handler.Flashcards.Isolation.{
  IsReadOnly, on_pool, drawing, IsTruthful, run_isolation_check-IsTruthful,
}
use go_performance_starter.Handler.Flashcards.Bounded.{IsBounded, flashcard_create-IsBounded}

abbrev Cards : Type 0
Cards = List Flashcard

-- User 7 signs in as a1, user 8 as b2.
abbrev auth_id_of : ℕ → Text
auth_id_of id = if id == 7 then codes "a1" else if id == 8 then codes "b2" else codes "none"

abbrev owns : Text → ℕ → Bool
owns sub user_id = text_eq sub (auth_id_of user_id)

-- The policy, for one who is not the connection itself.
abbrev visible : Requester → ℕ → Bool
visible connection user_id = true
visible (local_role role json sub) user_id = owns sub user_id

abbrev cards_of : ℕ → Cards → Cards
cards_of user_id [] = []
cards_of user_id (card ∷ cards) =
    let rest = cards_of user_id cards in if card.user_id == user_id then card ∷ rest else rest

abbrev policy : FlashcardQueries Cards Flashcard CreateFlashcardParams
policy = record {
  create_flashcard = λ params who d.
      let card : Flashcard = record {
        id = 1;
        user_id = params.user_id;
        front = params.front;
        back = params.back;
        is_known = false;
      } in
      (card ∷ d, ok card);
  get_flashcard = λ id who d. (d, err no_rows);
  list_flashcards_by_user =
      λ user_id who d. (d, ok (if visible who user_id then cards_of user_id d else []));
  set_flashcard_known = λ id known who d. (d, err no_rows);
  delete_flashcard = λ id user_id who d. (d, ok tt);
}

policy-IsReadOnly : IsReadOnly policy
policy-IsReadOnly user_id who d t cards e = sym (ap (λ p. p.0) e)

abbrev working : Pool Cards
working = record { begins = λ d. true; executes = λ s d. true; commits = λ before after. true }

abbrev marshal : AuthClaims → Option Text
marshal c = some c.sub

abbrev user : User
user = record { id = 7; email = []; name = none; auth_id = some (codes "a1"); is_anonymous = false }

abbrev claims : AuthClaims
claims = record { sub = codes "a1"; role = role_authenticated; is_anonymous = false }

abbrev signed_in : Context
signed_in = record { gotrue_user = none; claims = some claims; user = some user; csrf_token = none }

abbrev form : Text → Text
form key = if text_eq key (codes "front") then codes " RLS " else codes "row-level security"

abbrev posted : Request
posted = record {
  method = codes "POST";
  cookies = [];
  header = λ name. [];
  post_form = form;
  context = signed_in;
}

abbrev empty_response : Response
empty_response = record { set_cookies = []; header = []; status = none }

abbrev two_cards : Cards
two_cards =
    record { id = 1; user_id = 7; front = codes "f"; back = codes "b"; is_known = false }
    ∷ record { id = 2; user_id = 8; front = codes "g"; back = codes "c"; is_known = false }
    ∷ []

abbrev draw : ℕ → ℕ × Text
draw n = (n + 1, codes "stranger")

run_isolation_check-IsTruthful_example :
    IsTruthful marshal working connection policy policy-IsReadOnly
      (λ s. none)
      (λ n. codes "7")
      draw
      signed_in
      user
      claims
      two_cards
      0
      (run_isolation_check
        (drawing (λ s. none) (λ n. codes "7") draw)
        (on_pool marshal working connection policy)
        signed_in
        user
        (two_cards, 0))
unfolding auth_claims_from_context
run_isolation_check-IsTruthful_example =
    run_isolation_check-IsTruthful marshal working connection policy policy-IsReadOnly (λ s. none)
      (λ n. codes "7") draw signed_in user claims two_cards 0 refl

flashcard_create-IsBounded_example :
    IsBounded
      (drawing (λ s. some 1) (λ n. codes "7") draw)
      (on_pool marshal working connection policy)
      (two_cards, 0)
      posted
      (Flashcards.flashcard_create
        (drawing (λ s. some 1) (λ n. codes "7") draw)
        (on_pool marshal working connection policy)
        (two_cards, 0)
        posted
        empty_response)
flashcard_create-IsBounded_example =
    flashcard_create-IsBounded (drawing (λ s. some 1) (λ n. codes "7") draw)
      (on_pool marshal working connection policy) (two_cards, 0) posted empty_response

all_of_it : Unit {0}
unfolding text_eq trim_space valid_claims identity_of finished run_as in_scope or_not_found or_error
    scoped one_row plain flashcard_list_by_user is_htmx_request with_auth_claims
    auth_claims_from_context truncate_id isolation_identity counted after_own run_isolation_check
    flashcard_isolation one_flashcard_props flashcard_props show_cards flashcards_page create_with
    flashcard_create flashcard_set_known flashcard_delete Flashcards.flashcard_create
    Flashcards.flashcard_set_known Flashcards.flashcard_delete
all_of_it = tt

abbrev uuids : Uuids (Cards × ℕ)
uuids = drawing (λ s. if text_eq s (codes "1") then some 1 else none) (λ n. codes "7") draw

abbrev repo : FlashcardRepository (Cards × ℕ)
repo = on_pool marshal working connection policy

abbrev sent : (Context → Context) → Request
sent change = record posted { context = change signed_in }

abbrev from_htmx : Request
from_htmx = record posted { header = λ name. codes "true" }

abbrev status_of : (Cards × ℕ) × Shown → Option ℕ
status_of answer = answer.1.0.status

-- The card is stored; without a user, and with an empty form, nothing is.
create_tests :
    (length (Flashcards.flashcard_create uuids repo (two_cards, 0) posted empty_response).0.0 ≡ 3)
    × ((status_of (Flashcards.flashcard_create uuids repo (two_cards, 0) posted empty_response)
          ≡ some 303)
        × ((status_of (
                Flashcards.flashcard_create uuids repo
                  (two_cards, 0)
                  (record posted { post_form = λ key. codes "  " })
                  empty_response)
              ≡ some 422)
            × (length
                  (Flashcards.flashcard_create uuids repo
                    (two_cards, 0)
                    (sent (λ ctx. record ctx { user = none }))
                    empty_response).0.0
                ≡ 2)))
unfolding all_of_it
create_tests = (refl, (refl, (refl, refl)))

abbrev counts : View → ℕ × ℕ
counts (isolation_result props) = (props.own_rows, props.stranger_rows)
counts (page banner cards props) = (props.own_rows, props.stranger_rows)
counts v = (9, 9)

-- Without the policy, the check shows the leak.
abbrev leaking : FlashcardRepository (Cards × ℕ)
leaking =
    on_pool marshal working connection
      (record policy { list_flashcards_by_user = λ user_id who d. (d, ok (cards_of user_id d)) })

isolation_tests :
    (counts (flashcard_isolation uuids repo (two_cards, 0) from_htmx empty_response).1.1 ≡ (1, 0))
    × ((counts (flashcards_page uuids repo (codes "1") (two_cards, 0) posted empty_response).1.1
          ≡ (1, 0))
        × (counts (flashcard_isolation uuids leaking (two_cards, 0) from_htmx empty_response).1.1
            ≡ (1, 1))
        × (status_of (flashcard_isolation uuids repo (two_cards, 0) posted empty_response)
            ≡ some 303))
unfolding all_of_it
isolation_tests = (refl, (refl, refl, refl))

change_tests :
    (status_of
        (Flashcards.flashcard_set_known uuids repo (codes "1") (two_cards, 0) posted empty_response)
      ≡ some 404)
    × ((status_of (
            Flashcards.flashcard_delete uuids repo (codes "x") (two_cards, 0) posted empty_response)
          ≡ some 404)
        × (status_of (
              Flashcards.flashcard_delete uuids repo
                (codes "1")
                (two_cards, 0)
                from_htmx
                empty_response)
            ≡ some 200))
unfolding all_of_it
change_tests = (refl, (refl, refl))
