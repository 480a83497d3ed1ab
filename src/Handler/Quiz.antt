-- ===== src/Handler/Quiz.antt =====
-- internal/handler/quiz_handlers.go: the quiz. The repository and the decoder of the jsonb column are
-- parameters; an index out of range is an outcome of its own.
mod Run
pub mod Indices
pub mod InRange
mod Tests
unfoldable pub use Run.*
use go_performance_starter.Prelude.{
  ℕ, zero, suc, ◌+◌, ◌-◌, Bool, true, false, not, ◌||◌, Option, none, some, List, [], ◌∷◌, ◌==◌,
  leb, any, length, get_elem?, if◌then◌else◌,
}
use go_performance_starter.Prelude.Text.{Text, text_eq}
use go_performance_starter.Http.{Failure, Result, ok, err, ℤ, pos, negsuc, is_empty, User}
use go_performance_starter.Config.{atoi}

-- database.CreateQuizAttemptParams
pub record Attempt : Type 0 where
  pub user_id : ℕ
  pub question_id : ℕ
  pub selected_index : ℕ
  pub is_correct : Bool

-- The calls of repository.QuizRepository; of an attempt that is listed only its question is read.
pub record QuizRepository (W : Type 0) : Type 0 where
  pub list_questions : W → W × Result Failure (List QuizQuestion)
  pub list_attempts_by_user : ℕ → (limit offset : ℕ) → W → W × Result Failure (List ℕ)
  pub record_attempt : Attempt → W → W × Result Failure (Unit {0})
  pub count_correct_by_user : ℕ → W → W × Result Failure ℕ

-- What the two handlers read of a request, but for whether it comes from HTMX.
pub record QuizRequest : Type 0 where
  pub user : Option User
  pub topic : Text
  pub q : Text
  pub slug : Text
  pub choice : Text

-- view.QuizScore
pub record QuizScore : Type 0 where
  pub correct : ℕ
  pub total : ℕ

-- partials.QuizResultProps
pub record QuizResultProps : Type 0 where
  pub correct : Bool
  pub explanation : Text
  pub next_slug : Text
  pub done : Bool
  pub run_topic : Text
  pub offer_flashcard : Bool
  pub flashcard_front : Text
  pub flashcard_back : Text
  pub score : QuizScore

-- How a request is answered: what the fragment shows. The page around it (a banner for guests, the
-- score beside an error) is left out.
pub data QuizOutcome : Type 0 where
  to_login : QuizOutcome
  teaser : QuizOutcome
  empty_state : QuizOutcome
  internal_error : QuizOutcome
  question_not_found : QuizOutcome
  question : QuizQuestion → List Text → (run_topic : Text) → QuizScore → QuizOutcome
  pick_one : QuizQuestion → List Text → (run_topic : Text) → QuizOutcome
  result : QuizResultProps → QuizOutcome
  index_out_of_range : QuizOutcome

-- quizTopicAttemptWindow
abbrev pub quiz_topic_attempt_window : ℕ
quiz_topic_attempt_window = 200

-- The choice that is sent: a number of one of the choices.
abbrev choice_of : Option ℤ → ℕ → Option ℕ
choice_of none n = none
choice_of (some (negsuc i)) n = none
choice_of (some (pos i)) n = if leb n i then none else some i

-- int32(selected) == question.CorrectIndex; there are fewer than 2 ^ 31 choices
abbrev equals : ℕ → ℤ → Bool
equals i (pos j) = i == j
equals i (negsuc j) = false

module _ {W : Type 0} where
  -- if err != nil { http.Error(…, 500); return }
  abbrev pub on_ok :
      {A : Type 0} → W × Result Failure A → (A → W → W × QuizOutcome) → W × QuizOutcome
  on_ok (world, err _) rest = (world, internal_error)
  on_ok (world, ok a) rest = rest a world

  abbrev on_decoded : W → Option (List Text) → (List Text → W × QuizOutcome) → W × QuizOutcome
  on_decoded world none rest = (world, internal_error)
  on_decoded world (some choices) rest = rest choices

  abbrev on_index : W → Option QuizQuestion → (QuizQuestion → W × QuizOutcome) → W × QuizOutcome
  on_index world none rest = (world, index_out_of_range)
  on_index world (some q) rest = rest q

  abbrev on_slug : W → Option ℕ → (ℕ → W × QuizOutcome) → W × QuizOutcome
  on_slug world none rest = (world, question_not_found)
  on_slug world (some idx) rest = rest idx

module _ {W : Type 0} (decode : Text → Option (List Text)) (repo : QuizRepository W) where
  open repo use {list_questions, list_attempts_by_user, record_attempt, count_correct_by_user}

  -- quizPage, once it knows the index
  unfoldable pub show_question :
      User → (total : ℕ) → Text → List QuizQuestion → ℕ → W → W × QuizOutcome
  show_question user total topic run idx world = on_index world (get_elem? run idx) (λ q.
      on_decoded world (decode q.choices) (λ choices.
        on_ok (count_correct_by_user user.id world) (λ correct world'.
          (world', question q choices topic (record { correct = correct; total = total })))))

  -- quizPage's choice of the question
  unfoldable pub choose_question :
      User → QuizRequest → (total : ℕ) → Text → List QuizQuestion → W → W × QuizOutcome
  choose_question user r total topic run world =
      if not (is_empty r.q)
      then on_slug world (question_index_by_slug run r.q)
          (λ idx. show_question user total topic run idx world)
      else if not (is_empty topic)
      then on_ok (list_attempts_by_user user.id quiz_topic_attempt_window 0 world)
          (λ attempts world'.
            show_question user total topic run (first_unattempted run attempts) world')
      else show_question user total topic run 0 world

  unfoldable pub page_of : User → QuizRequest → List QuizQuestion → W → W × QuizOutcome
  page_of user r [] world = (world, empty_state)
  page_of user r (q ∷ questions) world =
      let topic = resolve_quiz_topic (q ∷ questions) r.topic in
      choose_question user r (suc (length questions)) topic (quiz_run (q ∷ questions) topic) world

  unfoldable pub page_for : QuizRequest → Option User → W → W × QuizOutcome
  page_for r none world = (world, teaser)
  page_for r (some user) world = on_ok (list_questions world) (page_of user r)

  -- quizPage
  unfoldable pub quiz_page : QuizRequest → W → W × QuizOutcome
  quiz_page r world = page_for r r.user world

  -- quizAnswer's props for the result, by the next question of the run, if there is one
  unfoldable pub result_props :
      QuizQuestion → Bool → Text → QuizScore → Option QuizQuestion → QuizResultProps
  result_props q is_correct topic score next = record {
    correct = is_correct;
    explanation = q.explanation;
    next_slug = elim next [ none ↦ [] | some n ↦ n.slug ];
    done = elim next [ none ↦ true | some n ↦ false ];
    run_topic = topic;
    offer_flashcard = not is_correct;
    flashcard_front = q.prompt;
    flashcard_back = q.explanation;
    score = score;
  }

  -- quizAnswer, after the attempt was recorded; run[idx+1] is read unless the question is the last one
  unfoldable pub answered :
      User → (total : ℕ) → Text → List QuizQuestion → ℕ → QuizQuestion → Bool → W → W × QuizOutcome
  answered user total topic run idx q is_correct world =
      on_ok (count_correct_by_user user.id world) (λ correct world'.
        let score : QuizScore = record { correct = correct; total = total } in
        if idx == length run - 1
        then (world', result (result_props q is_correct topic score none))
        else on_index world' (get_elem? run (idx + 1))
            (λ n. (world', result (result_props q is_correct topic score (some n)))))

  unfoldable pub chosen :
      User
      → (total : ℕ) → Text
      → List QuizQuestion
      → ℕ
      → QuizQuestion
      → List Text
      → Option ℕ
      → W
      → W × QuizOutcome
  chosen user total topic run idx q choices none world = (world, pick_one q choices topic)
  chosen user total topic run idx q choices (some selected) world =
      let is_correct = equals selected q.correct_index in
      on_ok
        (record_attempt
          (record {
            user_id = user.id;
            question_id = q.id;
            selected_index = selected;
            is_correct = is_correct;
          })
          world)
        (λ _ world'. answered user total topic run idx q is_correct world')

  unfoldable pub answer_at :
      User → QuizRequest → (total : ℕ) → Text → List QuizQuestion → ℕ → W → W × QuizOutcome
  answer_at user r total topic run idx world = on_index world (get_elem? run idx) (λ q.
      on_decoded world (decode q.choices) (λ choices.
        chosen user total topic run idx q choices (choice_of (atoi r.choice) (length choices))
          world))

  unfoldable pub answer_for : QuizRequest → Option User → W → W × QuizOutcome
  answer_for r none world = (world, to_login)
  answer_for r (some user) world = on_ok (list_questions world) (λ questions world'.
      let topic = resolve_quiz_topic questions r.topic in
      let run = quiz_run questions topic in
      on_slug world' (question_index_by_slug run r.slug)
        (λ idx. answer_at user r (length questions) topic run idx world'))

  -- quizAnswer
  unfoldable pub quiz_answer : QuizRequest → W → W × QuizOutcome
  quiz_answer r world = answer_for r r.user world
