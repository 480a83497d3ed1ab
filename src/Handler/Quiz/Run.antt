-- ===== src/Handler/Quiz/Run.antt =====
-- internal/handler/quiz_handlers.go: the questions of a run, and positions in it.
use go_performance_starter.Prelude.{
  ℕ, suc, Option, none, some, List, [], ◌∷◌, ◌==◌, any, if◌then◌else◌,
}
use go_performance_starter.Prelude.Text.{Text, text_eq}
use go_performance_starter.Http.{ℤ, is_empty}

-- database.QuizQuestion
pub record QuizQuestion : Type 0 where
  pub id : ℕ
  pub slug : Text
  pub topic : Text
  pub prompt : Text
  pub choices : Text
  pub correct_index : ℤ
  pub explanation : Text

-- resolveQuizTopic
unfoldable pub resolve_quiz_topic : List QuizQuestion → Text → Text
resolve_quiz_topic [] topic = []
resolve_quiz_topic (q ∷ questions) topic =
    let rest = resolve_quiz_topic questions topic in if text_eq q.topic topic then topic else rest

-- The loop of quizRun.
unfoldable pub of_topic : Text → List QuizQuestion → List QuizQuestion
of_topic topic [] = []
of_topic topic (q ∷ questions) =
    let rest = of_topic topic questions in if text_eq q.topic topic then q ∷ rest else rest

-- quizRun
unfoldable pub quiz_run : List QuizQuestion → Text → List QuizQuestion
quiz_run questions topic = if is_empty topic then questions else of_topic topic questions

-- The loop of firstUnattempted, from position `i`.
unfoldable pub unattempted_from : ℕ → List ℕ → List QuizQuestion → Option ℕ
unattempted_from i attempted [] = none
unattempted_from i attempted (q ∷ run) =
    let rest = unattempted_from (suc i) attempted run in
    if any (λ id. id == q.id) attempted then rest else some i

abbrev or_first : Option ℕ → ℕ
or_first none = 0
or_first (some i) = i

-- firstUnattempted
unfoldable pub first_unattempted : List QuizQuestion → List ℕ → ℕ
first_unattempted run attempts = or_first (unattempted_from 0 attempts run)

-- The loop of questionIndexBySlug, from position `i`.
unfoldable pub index_from : ℕ → List QuizQuestion → Text → Option ℕ
index_from i [] slug = none
index_from i (q ∷ questions) slug =
    let rest = index_from (suc i) questions slug in if text_eq q.slug slug then some i else rest

-- questionIndexBySlug
unfoldable pub question_index_by_slug : List QuizQuestion → Text → Option ℕ
question_index_by_slug questions slug = index_from 0 questions slug
