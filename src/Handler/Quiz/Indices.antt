-- ===== src/Handler/Quiz/Indices.antt =====
-- The positions that the quiz computes stay inside of its run.
use go_performance_starter.Prelude.{
  ℕ, suc, ◌+◌, ◌≡◌, refl, sym, ap, ◌∙◌, subst, ◌≤◌, ◌<◌, Bool, true, false, ◌++◌, ◌⊎◌, All, none,
  some, List, [], ◌∷◌, ◌==◌, any, length, arith, Bool-cases, Option-cases, inl, inr,
}
use go_performance_starter.Prelude.Text.{Text, text_eq}
use go_performance_starter.Http.{is_empty}
use go_performance_starter.Handler.Quiz.{
  QuizQuestion, resolve_quiz_topic, of_topic, quiz_run, unattempted_from, first_unattempted,
  index_from,
}

pub index_from_bounds :
    (i : ℕ) (run : List QuizQuestion) (slug : Text) (j : ℕ)
    → index_from i run slug ≡ some j
    → (i ≤ j) × (j < i + length run)
unfolding index_from
index_from_bounds i [] slug j h = absurd cc
index_from_bounds i (q ∷ run) slug j h = ground (arith, index_from_bounds (suc i) run slug j)

unattempted_from_bounds :
    (i : ℕ) (attempted : List ℕ) (run : List QuizQuestion) (j : ℕ)
    → unattempted_from i attempted run ≡ some j
    → (i ≤ j) × (j < i + length run)
unfolding unattempted_from
unattempted_from_bounds i attempted [] j h = absurd cc
unattempted_from_bounds i attempted (q ∷ run) j h =
    ground (arith, unattempted_from_bounds (suc i) attempted run j)

abbrev pub is_attempted : List ℕ → QuizQuestion → Bool
is_attempted attempts q = any (λ id. id == q.id) attempts

abbrev pub IsAttempted : List ℕ → List QuizQuestion → Type 0
IsAttempted attempts run = All (λ q. is_attempted attempts q ≡ true) run

unattempted_cases :
    (i : ℕ) (attempts : List ℕ) (run : List QuizQuestion)
    → ((earlier : List QuizQuestion) × (q : QuizQuestion) × (later : List QuizQuestion) × (run
          ≡ earlier ++ q ∷ later)
        × (unattempted_from i attempts run ≡ some (i + length earlier))
        × IsAttempted attempts earlier
        × (is_attempted attempts q ≡ false))
      ⊎ (IsAttempted attempts run × (unattempted_from i attempts run ≡ none))
unfolding unattempted_from
unattempted_cases i attempts [] = inr (tt, refl)
unattempted_cases i attempts (q ∷ run) = elim (Bool-cases (is_attempted attempts q)) [
  | inr e ↦ inl ([], q, run, refl, rw e (ap some (omega arith)), tt, e)
  | inl e ↦ elim (unattempted_cases (suc i) attempts run) [
    | inl (earlier, p, later, split, found, before, fresh) ↦ inl (
      q ∷ earlier,
      p,
      later,
      ap (◌∷◌ q) split,
      rw e (found ∙ ap some (omega arith)),
      (e, before),
      fresh,
    )
    | inr (done, found) ↦ inr ((e, done), rw e found)
  ]
]

pub first_unattempted_bound :
    (run : List QuizQuestion) (attempts : List ℕ)
    → 0 < length run
    → first_unattempted run attempts < length run
unfolding first_unattempted
first_unattempted_bound run attempts h = elim (Option-cases (unattempted_from 0 attempts run)) [
  | inl e ↦ rw e h
  | inr (j, e) ↦ let (low, high) = unattempted_from_bounds 0 attempts run j e in rw e (omega arith)
]

longer :
    (q : QuizQuestion) (topic : Text) (questions : List QuizQuestion)
    → 0 < length (of_topic topic questions)
    → 0 < length (of_topic topic (q ∷ questions))
unfolding of_topic
longer q topic questions h = ground (arith, h)

of_topic_nonempty :
    (questions : List QuizQuestion) (topic : Text)
    → is_empty (resolve_quiz_topic questions topic) ≡ false
    → 0 < length (of_topic (resolve_quiz_topic questions topic) questions)
unfolding resolve_quiz_topic of_topic
of_topic_nonempty [] topic h = absurd cc
of_topic_nonempty (q ∷ questions) topic h = elim (Bool-cases (text_eq q.topic topic)) [
  | inl e ↦
      let here : resolve_quiz_topic (q ∷ questions) topic ≡ topic = rw e refl in
      subst (λ t. 0 < length (of_topic t (q ∷ questions))) (sym here) (rw e (omega arith))
  | inr e ↦
      let later : resolve_quiz_topic (q ∷ questions) topic ≡ resolve_quiz_topic questions topic =
        rw e refl in
      subst (λ t. 0 < length (of_topic t (q ∷ questions))) (sym later)
        (longer q _ questions
          (of_topic_nonempty questions topic (subst (λ t. is_empty t ≡ false) later h)))
]

-- A topic that was resolved is the empty one, or that of a question.
pub quiz_run_nonempty :
    (q : QuizQuestion) (questions : List QuizQuestion) (topic : Text)
    → 0 < length (quiz_run (q ∷ questions) (resolve_quiz_topic (q ∷ questions) topic))
unfolding quiz_run
quiz_run_nonempty q questions topic =
    elim (Bool-cases (is_empty (resolve_quiz_topic (q ∷ questions) topic))) [
      | inl e ↦ rw e (omega arith)
      | inr e ↦ rw e (of_topic_nonempty (q ∷ questions) topic e)
    ]

-- Where a run is entered by its topic: at the first question that the user has never attempted; and at
-- the first one of all, once every question of the run was attempted.
pub first_unattempted_lem :
    (run : List QuizQuestion) (attempts : List ℕ)
    → ((earlier : List QuizQuestion) × (q : QuizQuestion) × (later : List QuizQuestion) × (run
          ≡ earlier ++ q ∷ later)
        × (first_unattempted run attempts ≡ length earlier)
        × IsAttempted attempts earlier
        × (is_attempted attempts q ≡ false))
      ⊎ (IsAttempted attempts run × (first_unattempted run attempts ≡ 0))
unfolding first_unattempted
first_unattempted_lem run attempts = elim (unattempted_cases 0 attempts run) [
  | inl (earlier, q, later, split, found, before, fresh) ↦
      inl (earlier, q, later, split, rw found (omega arith), before, fresh)
  | inr (all_done, found) ↦ inr (all_done, rw found refl)
]
