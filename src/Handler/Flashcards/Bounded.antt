-- ===== src/Handler/Flashcards/Bounded.antt =====
-- What a submitted card may store, and what is said to be stored.
use go_performance_starter.Prelude.{
  ◌≤◌, ◌≡◌, refl, ◌⊎◌, inl, inr, Bool, false, ◌||◌, Option, none, some, arith, Bool-cases, ltb,
}
use go_performance_starter.Prelude.Text.{Text, codes, trim_space}
use go_performance_starter.Http.{
  Result, ok, err, is_empty, User, Request, Response, is_htmx_request, auth_claims_from_context,
}
use go_performance_starter.Middleware.Users.{RepoError}
use go_performance_starter.Handler.Upgrade.{byte_length}
use go_performance_starter.Handler.Flashcards.{
  Flashcard, CreateFlashcardParams, FlashcardRepository, Uuids, Shown, card_saved,
  flashcard_field_max, created, create_with, create_for, flashcard_create,
}

-- A side of a card: the trimmed field of the form, not empty and of 500 bytes at most.
abbrev pub IsSide : Text → Text → Type 0
IsSide sent side =
    (side ≡ trim_space sent) × (is_empty side ≡ false) × (byte_length side ≤ flashcard_field_max)

module _ {W : Type 0} (uuids : Uuids W) (repo : FlashcardRepository W) (world : W)
    (r : Request) where
  abbrev pub IsCard : User → CreateFlashcardParams → Type 0
  IsCard user params =
      (params.user_id ≡ user.id)
      × IsSide (r.post_form (codes "front")) params.front
      × IsSide (r.post_form (codes "back")) params.back

  abbrev stored : CreateFlashcardParams → W × Result RepoError Flashcard
  stored params = repo.create (auth_claims_from_context r.context) params world

  -- Nothing is stored and nothing is said to be, or one card of the requester is sent to the
  -- repository, and it is said to be saved only where the repository has stored it.
  abbrev pub IsBounded : W × Shown → Type 0
  IsBounded answer =
      ((answer.0 ≡ world) × ¬ (answer.1.1 ≡ card_saved))
      ⊎ ((user : User) × (params : CreateFlashcardParams) × (r.context.user ≡ some user)
          × IsCard user params
          × (answer.0 ≡ (stored params).0)
          × (answer.1.1 ≡ card_saved → (card : Flashcard) × (stored params ≡ (answer.0, ok card))))

  created-IsBounded :
      (user : User) (params : CreateFlashcardParams) (w : Response)
      (answer : W × Result RepoError Flashcard)
      → r.context.user ≡ some user
      → IsCard user params
      → stored params ≡ answer
      → IsBounded (created uuids repo r w answer)
  created-IsBounded user params w (t, err e) known is_card gives =
      inr (user, params, known, is_card, cc gives, λ says. absurd (cc says))
  created-IsBounded user params w (t, ok card) known is_card gives =
      elim (Bool-cases (is_htmx_request r)) [
        | inl e ↦ rw e (inr (user, params, known, is_card, cc gives, λ says. (card, gives)))
        | inr e ↦ rw e (inr (user, params, known, is_card, cc gives, λ says. (card, gives)))
      ]

  abbrev is_refused : (front back : Text) → Bool
  is_refused front back =
      is_empty front
      || is_empty back
      || ltb flashcard_field_max (byte_length front)
      || ltb flashcard_field_max (byte_length back)

  is_refused_lem :
      (front back : Text)
      → is_refused front back ≡ false
      → (is_empty front ≡ false)
        × (byte_length front ≤ flashcard_field_max)
        × (is_empty back ≡ false)
        × (byte_length back ≤ flashcard_field_max)
  is_refused_lem front back e =
      (ground (arith, e), ground (arith, e), ground (arith, e), ground (arith, e))

  create_with-IsBounded :
      (user : User) (front back : Text) (w : Response)
      → r.context.user ≡ some user
      → front ≡ trim_space (r.post_form (codes "front"))
      → back ≡ trim_space (r.post_form (codes "back"))
      → IsBounded (create_with uuids repo user r front back world w)
  unfolding create_with
  create_with-IsBounded user front back w known is_front is_back =
      elim (Bool-cases (is_refused front back)) [
        | inl e ↦ rw e (inl (refl, λ says. absurd (cc says)))
        | inr e ↦
            let (some_front, short_front, some_back, short_back) = is_refused_lem front back e in
            rw e (
              created-IsBounded user (record { user_id = user.id; front = front; back = back }) w _
                known (refl, (is_front, some_front, short_front), (is_back, some_back, short_back))
                refl)
      ]

  create_for-IsBounded :
      (found : Option User) (w : Response)
      → r.context.user ≡ found
      → IsBounded (create_for uuids repo r found world w)
  create_for-IsBounded none w known = inl (refl, λ says. absurd (cc says))
  create_for-IsBounded (some user) w known = create_with-IsBounded user _ _ w known refl refl

  -- A submitted card either stores nothing and does not say that it has, or it makes one call of the
  -- repository: for the user of the request, with the trimmed fields of the form, neither of which is
  -- empty or longer than 500 bytes. "Saved" is said only where that call has stored the card.
  pub flashcard_create-IsBounded :
      (w : Response) → IsBounded (flashcard_create uuids repo world r w)
  unfolding flashcard_create
  flashcard_create-IsBounded w = create_for-IsBounded r.context.user w refl
