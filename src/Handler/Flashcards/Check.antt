-- ===== src/Handler/Flashcards/Check.antt =====
-- The cards, and the check of row-level security of flashcard_isolation.go.
use go_performance_starter.Prelude.{
  ◌≡◌, refl, ℕ, Bool, true, false, Option, none, some, List, [], ◌++◌, ltb, leb, length, take, map,
  if◌then◌else◌,
}
use go_performance_starter.Prelude.Text.{Text, codes}
use go_performance_starter.Http.{
  Failure, failure, Result, ok, err, AuthClaims, User, Context, role_authenticated,
  with_auth_claims, auth_claims_from_context,
}
use go_performance_starter.Middleware.Users.{RepoError}

-- database.Flashcard, without its question and its times
pub record Flashcard : Type 0 where
  pub id : ℕ
  pub user_id : ℕ
  pub front : Text
  pub back : Text
  pub is_known : Bool

-- database.CreateFlashcardParams; the handler leaves the question unset
pub record CreateFlashcardParams : Type 0 where
  pub user_id : ℕ
  pub front : Text
  pub back : Text

-- The calls of repository.FlashcardRepository that the handlers make.
pub record FlashcardRepository (W : Type 0) : Type 0 where
  pub list_by_user : Option AuthClaims → ℕ → W → W × Result RepoError (List Flashcard)
  pub create : Option AuthClaims → CreateFlashcardParams → W → W × Result RepoError Flashcard
  pub set_known : Option AuthClaims → ℕ → Bool → W → W × Result RepoError Flashcard
  pub delete : Option AuthClaims → (id user_id : ℕ) → W → W × Result RepoError (Unit {0})

-- Package uuid.
pub record Uuids (W : Type 0) : Type 0 where
  pub parse : Text → Option ℕ
  pub string : ℕ → Text
  pub new_string : W → W × Text

-- partials.FlashcardProps
pub record FlashcardProps : Type 0 where
  pub id : Text
  pub front : Text
  pub back : Text
  pub is_known : Bool

-- partials.IsolationProps
pub record IsolationProps : Type 0 where
  pub user_id : Text
  pub has_cards : Bool
  pub own_rows : ℕ
  pub sub : Text
  pub role : Text
  pub is_anonymous : Bool
  pub ran : Bool
  pub stranger_sub : Text
  pub stranger_rows : ℕ

-- truncateID, of an identifier in ASCII
unfoldable pub truncate_id : Text → Text
truncate_id id = if leb (length id) 8 then id else take 8 id ++ codes "…"

-- The claims of the stranger.
abbrev pub stranger_with : Text → AuthClaims
stranger_with sub = record { sub = sub; role = role_authenticated; is_anonymous = true }

module _ {W : Type 0} (uuids : Uuids W) where
  -- oneFlashcardProps
  unfoldable pub one_flashcard_props : Flashcard → FlashcardProps
  one_flashcard_props card = record {
    id = uuids.string card.id;
    front = card.front;
    back = card.back;
    is_known = card.is_known;
  }

  -- flashcardProps
  unfoldable pub flashcard_props : List Flashcard → List FlashcardProps
  unfolding one_flashcard_props
  flashcard_props cards = map one_flashcard_props cards

  abbrev with_claims : Option AuthClaims → IsolationProps → IsolationProps
  with_claims none props = props
  with_claims (some c) props = record props {
    sub = truncate_id c.sub;
    role = c.role;
    is_anonymous = c.is_anonymous;
  }

  -- isolationIdentity
  unfoldable pub isolation_identity : Context → User → ℕ → IsolationProps
  unfolding truncate_id auth_claims_from_context
  isolation_identity ctx user card_count = with_claims (auth_claims_from_context ctx) (record {
    user_id = truncate_id (uuids.string user.id);
    has_cards = ltb 0 card_count;
    own_rows = card_count;
    sub = [];
    role = [];
    is_anonymous = false;
    ran = false;
    stranger_sub = [];
    stranger_rows = 0;
  })

  module _ (repo : FlashcardRepository W) where
    -- runIsolationCheck, from the end of its second read
    unfoldable pub counted :
        Context
        → User
        → (own : ℕ) → (stranger : Text) → W × Result RepoError (List Flashcard)
        → W × Result Failure IsolationProps
    unfolding isolation_identity truncate_id
    counted ctx user own stranger (world, err e) = (world, err failure)
    counted ctx user own stranger (world, ok foreign) = (
      world,
      ok (record (isolation_identity ctx user own) {
        ran = true;
        stranger_sub = truncate_id stranger;
        stranger_rows = length foreign;
      }),
    )

    abbrev as_stranger : Context → User → ℕ → W × Text → W × Result Failure IsolationProps
    as_stranger ctx user own (world, sub) = counted ctx user own sub (
        repo.list_by_user (auth_claims_from_context (with_auth_claims ctx (stranger_with sub)))
          user.id world)

    -- runIsolationCheck, from the end of its first read
    unfoldable pub after_own :
        Context → User → W × Result RepoError (List Flashcard) → W × Result Failure IsolationProps
    unfolding counted with_auth_claims auth_claims_from_context
    after_own ctx user (world, err e) = (world, err failure)
    after_own ctx user (world, ok own) = as_stranger ctx user (length own) (uuids.new_string world)

    abbrev pub with_identity :
        Context → User → Option AuthClaims → W → W × Result Failure IsolationProps
    with_identity ctx user none world = (world, err failure)
    with_identity ctx user (some c) world =
        after_own ctx user (repo.list_by_user (some c) user.id world)

    -- runIsolationCheck
    unfoldable pub run_isolation_check : Context → User → W → W × Result Failure IsolationProps
    unfolding after_own auth_claims_from_context
    run_isolation_check ctx user world = with_identity ctx user (auth_claims_from_context ctx) world

  with_claims_own :
      (claims : Option AuthClaims) (props : IsolationProps)
      → (with_claims claims props).own_rows ≡ props.own_rows
  with_claims_own none props = refl
  with_claims_own (some c) props = refl

  -- The panel shows the number of cards that it is given, whoever asks.
  pub isolation_identity_own :
      (ctx : Context) (user : User) (n : ℕ) → (isolation_identity ctx user n).own_rows ≡ n
  unfolding isolation_identity
  isolation_identity_own ctx user n = with_claims_own (auth_claims_from_context ctx) _
