-- ===== src/Handler/Quiz/InRange.antt =====
-- The two handlers of the quiz, with every index that they read.
use go_performance_starter.Prelude.{
  ℕ, ◌+◌, ◌-◌, ◌≢◌, ◌<◌, Bool, Option, none, some, List, [], ◌∷◌, ◌==◌, length, get_elem?,
  get_elem?_in_range, arith, Bool-cases, Option-cases, inl, inr,
}
use go_performance_starter.Prelude.Text.{Text}
use go_performance_starter.Http.{Failure, Result, ok, err, is_empty, User}
use go_performance_starter.Handler.Quiz.{
  QuizQuestion, QuizRepository, QuizRequest, QuizOutcome, index_out_of_range, page_for, answer_for,
  resolve_quiz_topic, quiz_run, index_from, question_index_by_slug, on_ok, on_decoded, on_index,
  on_slug, show_question, choose_question, page_of, quiz_page, answered, chosen, answer_at,
  quiz_answer,
}
use go_performance_starter.Handler.Quiz.Indices.{
  index_from_bounds, first_unattempted_bound, quiz_run_nonempty,
}

-- The answer is not that of an index that is out of range.
abbrev IsInRange : {W : Type 0} → W × QuizOutcome → Type 0
IsInRange answer = answer.1 ≢ index_out_of_range

module _ {W : Type 0} where
  on_ok-IsInRange :
      {A : Type 0} (answer : W × Result Failure A) (rest : A → W → W × QuizOutcome)
      → ((a : A) (w : W) → IsInRange (rest a w))
      → IsInRange (on_ok answer rest)
  on_ok-IsInRange (w, err e) rest h = λ f. cc
  on_ok-IsInRange (w, ok a) rest h = h a w

  on_decoded-IsInRange :
      (w : W) (found : Option (List Text)) (rest : List Text → W × QuizOutcome)
      → ((choices : List Text) → IsInRange (rest choices))
      → IsInRange (on_decoded w found rest)
  on_decoded-IsInRange w none rest h = λ f. cc
  on_decoded-IsInRange w (some choices) rest h = h choices

  on_index-IsInRange :
      (w : W) (run : List QuizQuestion) (i : ℕ) (rest : QuizQuestion → W × QuizOutcome)
      → i < length run
      → ((q : QuizQuestion) → IsInRange (rest q))
      → IsInRange (on_index w (get_elem? run i) rest)
  on_index-IsInRange w run i rest within h =
      let (q, e) = get_elem?_in_range run i within in rw e (h q)

  on_slug-IsInRange :
      (w : W) (run : List QuizQuestion) (slug : Text) (rest : ℕ → W × QuizOutcome)
      → ((i : ℕ) → i < length run → IsInRange (rest i))
      → IsInRange (on_slug w (question_index_by_slug run slug) rest)
  unfolding question_index_by_slug
  on_slug-IsInRange w run slug rest h = elim (Option-cases (index_from 0 run slug)) [
    | inl e ↦ rw e (λ f. cc)
    | inr (i, e) ↦ let (low, high) = index_from_bounds 0 run slug i e in rw e (h i (omega arith))
  ]

module _ {W : Type 0} (decode : Text → Option (List Text)) (repo : QuizRepository W) where
  show_question-IsInRange :
      (user : User) (total : ℕ) (topic : Text) (run : List QuizQuestion) (i : ℕ) (w : W)
      → i < length run
      → IsInRange (show_question decode repo user total topic run i w)
  unfolding show_question
  show_question-IsInRange user total topic run i w within =
      on_index-IsInRange w run i _ within (λ q.
        on_decoded-IsInRange w (decode q.choices) _
          (λ choices. on_ok-IsInRange (repo.count_correct_by_user user.id w) _ (λ n w' f. cc)))

  choose_question-IsInRange :
      (user : User) (r : QuizRequest) (total : ℕ) (topic : Text) (run : List QuizQuestion) (w : W)
      → 0 < length run
      → IsInRange (choose_question decode repo user r total topic run w)
  unfolding choose_question
  choose_question-IsInRange user r total topic run w some_question =
      elim (Bool-cases (is_empty r.q)) [
        | inr e ↦ rw e (
            on_slug-IsInRange w run r.q _
              (λ i within. show_question-IsInRange user total topic run i w within))
        | inl e ↦ elim (Bool-cases (is_empty topic)) [
          | inr f ↦
              rw (e, f)
                (on_ok-IsInRange _ _ (λ attempts w'.
                  show_question-IsInRange user total topic run _ w'
                    (first_unattempted_bound run attempts some_question)))
          | inl f ↦ rw (e, f) (show_question-IsInRange user total topic run 0 w some_question)
        ]
      ]

  page_of-IsInRange :
      (user : User) (r : QuizRequest) (questions : List QuizQuestion) (w : W)
      → IsInRange (page_of decode repo user r questions w)
  unfolding page_of
  page_of-IsInRange user r [] w = λ f. cc
  page_of-IsInRange user r (q ∷ questions) w =
      choose_question-IsInRange user r _ _ _ w (quiz_run_nonempty q questions r.topic)

  answered-IsInRange :
      (user : User) (total : ℕ) (topic : Text) (run : List QuizQuestion) (i : ℕ) (q : QuizQuestion)
      (is_correct : Bool) (w : W)
      → i < length run
      → IsInRange (answered decode repo user total topic run i q is_correct w)
  unfolding answered
  answered-IsInRange user total topic run i q is_correct w within =
      on_ok-IsInRange (repo.count_correct_by_user user.id w) _ (λ n w'.
        elim (Bool-cases (i == length run - 1)) [
          | inl e ↦ rw e (λ f. cc)
          | inr e ↦
              rw e (on_index-IsInRange w' run (i + 1) _ (ground (arith, e, within)) (λ next f. cc))
        ])

  chosen-IsInRange :
      (user : User) (total : ℕ) (topic : Text) (run : List QuizQuestion) (i : ℕ) (q : QuizQuestion)
      (choices : List Text) (choice : Option ℕ) (w : W)
      → i < length run
      → IsInRange (chosen decode repo user total topic run i q choices choice w)
  unfolding chosen
  chosen-IsInRange user total topic run i q choices none w within = λ f. cc
  chosen-IsInRange user total topic run i q choices (some selected) w within =
      on_ok-IsInRange _ _ (λ done w'. answered-IsInRange user total topic run i q _ w' within)

  answer_at-IsInRange :
      (user : User) (r : QuizRequest) (total : ℕ) (topic : Text) (run : List QuizQuestion) (i : ℕ)
      (w : W)
      → i < length run
      → IsInRange (answer_at decode repo user r total topic run i w)
  unfolding answer_at
  answer_at-IsInRange user r total topic run i w within = on_index-IsInRange w run i _ within (λ q.
      on_decoded-IsInRange w (decode q.choices) _
        (λ choices. chosen-IsInRange user total topic run i q choices _ w within))

  page_for-IsInRange :
      (r : QuizRequest) (user : Option User) (w : W) → IsInRange (page_for decode repo r user w)
  unfolding page_for
  page_for-IsInRange r none w = λ f. cc
  page_for-IsInRange r (some user) w =
      on_ok-IsInRange (repo.list_questions w) _
        (λ questions w'. page_of-IsInRange user r questions w')

  answer_for-IsInRange :
      (r : QuizRequest) (user : Option User) (w : W) → IsInRange (answer_for decode repo r user w)
  unfolding answer_for
  answer_for-IsInRange r none w = λ f. cc
  answer_for-IsInRange r (some user) w = on_ok-IsInRange (repo.list_questions w) _ (λ questions w'.
      on_slug-IsInRange w' (quiz_run questions (resolve_quiz_topic questions r.topic)) r.slug _
        (λ i within. answer_at-IsInRange user r _ _ _ i w' within))

  -- Neither handler ever reads a question outside of its run, whatever the questions, the request and
  -- the attempts: no request can make the quiz panic.
  pub quiz_in_range :
      (r : QuizRequest) (w : W)
      → ((quiz_page decode repo r w).1 ≢ index_out_of_range)
        × ((quiz_answer decode repo r w).1 ≢ index_out_of_range)
  unfolding quiz_page quiz_answer
  quiz_in_range r w = (page_for-IsInRange r r.user w, answer_for-IsInRange r r.user w)
