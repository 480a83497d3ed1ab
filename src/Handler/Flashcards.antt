-- ===== src/Handler/Flashcards.antt =====
-- internal/handler/flashcard_handlers.go and flashcard_isolation.go: the review of flashcards and the
-- check of row-level security. Package uuid is a parameter; the repository is the interface of the
-- code, of which each call takes the claims of its context. What is rendered is a value.
mod Check
pub mod Isolation
pub mod Bounded
mod Tests
unfoldable pub use Check.*
use go_performance_starter.Prelude.{
  ℕ, Bool, true, false, not, ◌||◌, ◌&&◌, Option, none, some, List, [], ◌∷◌, ◌++◌, ltb, leb, length,
  take, map, if◌then◌else◌,
}
use go_performance_starter.Prelude.Text.{Text, codes, text_eq, trim_space}
use go_performance_starter.Http.{
  Failure, failure, Result, ok, err, is_empty, AuthClaims, User, Context, Request, Response,
  set_header, write_header, http_error, redirect, see_other, not_found, internal_server_error,
  is_htmx_request, role_authenticated, with_auth_claims, auth_claims_from_context,
}
use go_performance_starter.Middleware.Users.{RepoError, entity_not_found, other_error}
use go_performance_starter.Handler.Upgrade.{byte_length}

-- What is rendered, if anything.
pub data View : Type 0 where
  nothing : View
  teaser : View
  teaser_page : View
  card_list : List FlashcardProps → View
  page : (guest_banner : Bool) (cards : List FlashcardProps) → IsolationProps → View
  save_error : View
  card_saved : View
  one_card : FlashcardProps → View
  isolation_result : IsolationProps → View

abbrev pub Shown : Type 0
Shown = Response × View

-- view.Render
abbrev render : ℕ → View → Response → Shown
render status v w =
    (write_header status (set_header "Content-Type" (codes "text/html; charset=utf-8") w), v)

abbrev fails : Response → Shown
fails w = (http_error internal_server_error w, nothing)

abbrev missing : Response → Shown
missing w = (http_error not_found w, nothing)

abbrev goes_to : Text → Response → Shown
goes_to url w = (redirect url see_other w, nothing)

-- view.SetHXTrigger
abbrev pub set_hx_trigger : Response → Text → Response
set_hx_trigger w event = set_header "HX-Trigger" event w

-- flashcardFieldMax
abbrev pub flashcard_field_max : ℕ
flashcard_field_max = 500

module _ {W : Type 0} (uuids : Uuids W) (repo : FlashcardRepository W) where
  abbrev show_check : Response → W × Result Failure IsolationProps → W × Shown
  show_check w (world, err e) = (world, fails w)
  show_check w (world, ok props) = (world, render 200 (isolation_result props) w)

  abbrev isolation_for : Request → Option User → W → Response → W × Shown
  isolation_for r none world w = (world, goes_to (codes "/auth/page") w)
  isolation_for r (some user) world w =
      if not (is_htmx_request r)
      then (world, goes_to (codes "/learn/flashcards?check=1") w)
      else show_check w (run_isolation_check uuids repo r.context user world)

  -- flashcardIsolation
  unfoldable pub flashcard_isolation : W → Request → Response → W × Shown
  unfolding run_isolation_check is_htmx_request
  flashcard_isolation world r w = isolation_for r r.context.user world w

  -- flashcardsPage: the page, with the result of the check where it has run
  abbrev show_page :
      User → List FlashcardProps → Response → W × Result Failure IsolationProps → W × Shown
  show_page user cards w (world, err e) = (world, fails w)
  show_page user cards w (world, ok isolation) =
      (world, render 200 (page user.is_anonymous cards isolation) w)

  -- flashcardsPage, after the cards are listed; `check` is the parameter of the query
  unfoldable pub show_cards :
      User → Text → Request → Response → W × Result RepoError (List Flashcard) → W × Shown
  unfolding text_eq is_htmx_request flashcard_props isolation_identity run_isolation_check
  show_cards user check r w (world, err e) = (world, fails w)
  show_cards user check r w (world, ok cards) =
      let props = flashcard_props uuids cards in
      let isolation = isolation_identity uuids r.context user (length cards) in
      if is_htmx_request r
      then (world, render 200 (card_list props) w)
      else show_page user props w (
          if text_eq check (codes "1") && isolation.has_cards
          then run_isolation_check uuids repo r.context user world
          else (world, ok isolation))

  abbrev page_for : Text → Request → Option User → W → Response → W × Shown
  page_for check r none world w =
      (world, render 200 (if is_htmx_request r then teaser else teaser_page) w)
  page_for check r (some user) world w =
      show_cards user check r w
        (repo.list_by_user (auth_claims_from_context r.context) user.id world)

  -- flashcardsPage
  unfoldable pub flashcards_page : Text → W → Request → Response → W × Shown
  unfolding is_htmx_request show_cards auth_claims_from_context
  flashcards_page check world r w = page_for check r r.context.user world w

  abbrev pub created : Request → Response → W × Result RepoError Flashcard → W × Shown
  created r w (world, err e) = (world, fails w)
  created r w (world, ok card) =
      if is_htmx_request r
      then (world, render 200 card_saved (set_hx_trigger w (codes "Flashcard saved.")))
      else (world, goes_to (codes "/learn/flashcards") w)

  -- flashcardCreate, with the fields
  unfoldable pub create_with : User → Request → (front back : Text) → W → Response → W × Shown
  unfolding is_htmx_request auth_claims_from_context
  create_with user r front back world w =
      if is_empty front
        || is_empty back
        || ltb flashcard_field_max (byte_length front)
        || ltb flashcard_field_max (byte_length back)
      then (world, render 422 save_error w)
      else created r w (
          repo.create (auth_claims_from_context r.context)
            (record { user_id = user.id; front = front; back = back }) world)

  abbrev pub create_for : Request → Option User → W → Response → W × Shown
  create_for r none world w = (world, goes_to (codes "/auth/page") w)
  create_for r (some user) world w =
      create_with user r (trim_space (r.post_form (codes "front")))
        (trim_space (r.post_form (codes "back"))) world w

  -- flashcardCreate
  unfoldable pub flashcard_create : W → Request → Response → W × Shown
  unfolding create_with trim_space
  flashcard_create world r w = create_for r r.context.user world w

  abbrev pub known_set : Request → Response → W × Result RepoError Flashcard → W × Shown
  known_set r w (world, err entity_not_found) = (world, missing w)
  known_set r w (world, err other_error) = (world, fails w)
  known_set r w (world, ok card) =
      if is_htmx_request r
      then (world, render 200 (one_card (one_flashcard_props uuids card)) w)
      else (world, goes_to (codes "/learn/flashcards") w)

  abbrev pub known_for : Request → Option User → Option ℕ → W → Response → W × Shown
  known_for r none id world w = (world, goes_to (codes "/auth/page") w)
  known_for r (some user) none world w = (world, missing w)
  known_for r (some user) (some id) world w = known_set r w (
      repo.set_known (auth_claims_from_context r.context) id
        (text_eq (r.post_form (codes "known")) (codes "true")) world)

  -- flashcardSetKnown, with the id of the path
  unfoldable pub flashcard_set_known : Text → W → Request → Response → W × Shown
  unfolding is_htmx_request auth_claims_from_context one_flashcard_props text_eq
  flashcard_set_known id world r w = known_for r r.context.user (uuids.parse id) world w

  abbrev deleted : Request → Response → W × Result RepoError (Unit {0}) → W × Shown
  deleted r w (world, err e) = (world, fails w)
  deleted r w (world, ok _) =
      if is_htmx_request r
      then (world, (write_header 200 (set_hx_trigger w (codes "Flashcard deleted.")), nothing))
      else (world, goes_to (codes "/learn/flashcards") w)

  abbrev delete_for : Request → Option User → Option ℕ → W → Response → W × Shown
  delete_for r none id world w = (world, goes_to (codes "/auth/page") w)
  delete_for r (some user) none world w = (world, missing w)
  delete_for r (some user) (some id) world w =
      deleted r w (repo.delete (auth_claims_from_context r.context) id user.id world)

  -- flashcardDelete, with the id of the path
  unfoldable pub flashcard_delete : Text → W → Request → Response → W × Shown
  unfolding is_htmx_request auth_claims_from_context
  flashcard_delete id world r w = delete_for r r.context.user (uuids.parse id) world w
