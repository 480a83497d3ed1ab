-- ===== src/Handler/Quiz/Tests.antt =====
-- A quiz of two topics. The world lists the attempts that were recorded.
use go_performance_starter.Prelude.{
  ℕ, ◌≡◌, ◌≢◌, refl, true, Option, none, some, List, [], ◌∷◌, length,
}
use go_performance_starter.Prelude.Text.{Text, codes, text_eq}
use go_performance_starter.Http.{ok, pos, User}
use go_performance_starter.Config.{atoi, digits_from}
use go_performance_starter.Handler.Quiz.{
  QuizQuestion, Attempt, QuizRepository, QuizRequest, index_out_of_range, question, pick_one,
  question_not_found, resolve_quiz_topic, of_topic, quiz_run, unattempted_from, first_unattempted,
  index_from, question_index_by_slug, show_question, choose_question, page_of, page_for, quiz_page,
  result_props, answered, chosen, answer_at, answer_for, quiz_answer,
}
use go_performance_starter.Handler.Quiz.InRange.{quiz_in_range}

abbrev asked : ℕ → Text → Text → QuizQuestion
asked id slug topic = record {
  id = id;
  slug = slug;
  topic = topic;
  prompt = [];
  choices = [];
  correct_index = pos 1;
  explanation = [];
}

abbrev first : QuizQuestion
first = asked 1 (codes "a") (codes "http")

abbrev second : QuizQuestion
second = asked 2 (codes "b") (codes "sql")

abbrev third : QuizQuestion
third = asked 3 (codes "c") (codes "http")

abbrev questions : List QuizQuestion
questions = first ∷ second ∷ third ∷ []

-- Question 1 was attempted before.
abbrev recording : QuizRepository (List Attempt)
recording = record {
  list_questions = λ w. (w, ok questions);
  list_attempts_by_user = λ user limit offset w. (w, ok (1 ∷ []));
  record_attempt = λ a w. (a ∷ w, ok tt);
  count_correct_by_user = λ user w. (w, ok (length w));
}

abbrev decode : Text → Option (List Text)
decode raw = some (codes "x" ∷ codes "y" ∷ [])

abbrev player : User
player = record { id = 9; email = []; name = none; auth_id = none; is_anonymous = true }

abbrev request : Text → Text → Text → QuizRequest
request topic slug choice = record {
  user = some player;
  topic = topic;
  q = [];
  slug = slug;
  choice = choice;
}

all_of_it : Unit {0}
unfolding text_eq atoi digits_from resolve_quiz_topic of_topic quiz_run unattempted_from
    first_unattempted index_from question_index_by_slug show_question choose_question page_of
    page_for quiz_page result_props answered chosen answer_at answer_for quiz_answer
all_of_it = tt

quiz_tests :
    ((quiz_page decode recording (request (codes "http") [] []) []).1
      ≡ question third
          (codes "x" ∷ codes "y" ∷ [])
          (codes "http")
          (record { correct = 0; total = 3 }))
    × ((quiz_answer decode recording (request [] (codes "z") []) []).1 ≡ question_not_found)
    × ((quiz_answer decode recording (request [] (codes "a") (codes "1")) []).0
        ≡ record { user_id = 9; question_id = 1; selected_index = 1; is_correct = true } ∷ [])
    × (quiz_answer decode recording (request [] (codes "a") (codes "2")) []
        ≡ ([], pick_one first (codes "x" ∷ codes "y" ∷ []) []))
unfolding all_of_it
quiz_tests = (refl, refl, refl, refl)

quiz_in_range_example :
    ((quiz_page decode recording (request (codes "http") [] []) []).1 ≢ index_out_of_range)
    × ((quiz_answer decode recording (request (codes "http") [] []) []).1 ≢ index_out_of_range)
quiz_in_range_example = quiz_in_range decode recording (request (codes "http") [] []) []
