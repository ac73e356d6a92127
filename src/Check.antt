-- ===== src/Check.antt =====
-- model.go: the check of the engine's prediction against the questions, and the typed helpers.
use laya_go.Prelude.{str_eq, not, none, some, List, [], ◌∷◌, length, ◌==◌}
use laya_go.Prelude.Float.{FloatOps}
use laya_go.Errors.{nil_dereference, Outcome, ok, err, ◌>>=◌, ◌>>◌, refuse}
use laya_go.Question.{
  ChoiceCriterion, ChoiceQuestion, ScoreLevel, ScoreQuestion, Question, question_id, bad_request,
}
use laya_go.Prediction.{
  CriterionProbability, ChoiceResult, ScoreProbability, ScoreResult, NoulResult, Result, choice,
  choice_pointer, score, score_pointer, noul, noul_pointer, Prediction, bad_output,
  validate_prediction, result_question_id,
}

module _ {F : Type 0} where
  unfoldable pub choice_result : Result F → Outcome (ChoiceResult F)
  choice_result (choice r) = ok r
  choice_result (choice_pointer (some r)) = ok r
  choice_result _ = err bad_output

  unfoldable pub score_result : Result F → Outcome (ScoreResult F)
  score_result (score r) = ok r
  score_result (score_pointer (some r)) = ok r
  score_result _ = err bad_output

  unfoldable pub noul_result : Result F → Outcome (NoulResult F)
  noul_result (noul r) = ok r
  noul_result (noul_pointer (some r)) = ok r
  noul_result _ = err bad_output

  -- The loop over the criteria, with a probability for each.
  unfoldable pub match_criteria :
      List ChoiceCriterion → List (CriterionProbability F) → Outcome (Unit {0})
  match_criteria [] ps = ok tt
  match_criteria (c ∷ cs) [] = ok tt
  match_criteria (c ∷ cs) (p ∷ ps) = do
    refuse (not (str_eq p.criterion_id c.id)) bad_output
    match_criteria cs ps

  unfoldable pub match_levels : List ScoreLevel → List (ScoreProbability F) → Outcome (Unit {0})
  match_levels [] ps = ok tt
  match_levels (l ∷ ls) [] = ok tt
  match_levels (l ∷ ls) (p ∷ ps) = do
    refuse (not (str_eq p.label l.label)) bad_output
    match_levels ls ps

  unfoldable pub validate_choice_result_for_question :
      Result F → ChoiceQuestion → Outcome (Unit {0})
  unfolding choice_result match_criteria
  validate_choice_result_for_question result q = do
    r ← choice_result result
    refuse (not (length r.probabilities == length q.criteria)) bad_output
    match_criteria q.criteria r.probabilities

  unfoldable pub validate_score_result_for_question : Result F → ScoreQuestion → Outcome (Unit {0})
  unfolding score_result match_levels
  validate_score_result_for_question result q = do
    r ← score_result result
    refuse (not (length r.distribution == length q.rubric)) bad_output
    match_levels q.rubric r.distribution

  unfoldable pub validate_noul_result_for_question : Result F → Outcome (Unit {0})
  unfolding noul_result
  validate_noul_result_for_question result = do r ← noul_result result; ok tt

  -- A nil pointer to a choice or a score question is read, which panics.
  unfoldable pub validate_result_for_question : Result F → Question → Outcome (Unit {0})
  unfolding validate_choice_result_for_question validate_score_result_for_question
      validate_noul_result_for_question
  validate_result_for_question r (Question.choice q) = validate_choice_result_for_question r q
  validate_result_for_question r (Question.choice_pointer (some q)) =
      validate_choice_result_for_question r q
  validate_result_for_question r (Question.choice_pointer none) = err nil_dereference
  validate_result_for_question r (Question.score q) = validate_score_result_for_question r q
  validate_result_for_question r (Question.score_pointer (some q)) =
      validate_score_result_for_question r q
  validate_result_for_question r (Question.score_pointer none) = err nil_dereference
  validate_result_for_question r (Question.noul q) = validate_noul_result_for_question r
  validate_result_for_question r (Question.noul_pointer q) = validate_noul_result_for_question r
  validate_result_for_question r Question.unsupported = err bad_request

  -- The loop over the results, which are as many as the questions.
  unfoldable pub match_results : List (Result F) → List Question → Outcome (Unit {0})
  match_results [] qs = ok tt
  match_results (r ∷ rs) [] = ok tt
  match_results (r ∷ rs) (q ∷ qs) = do
    got ← result_question_id r
    want ← question_id q
    refuse (not (str_eq got want)) bad_output
    validate_result_for_question r q
    match_results rs qs

  unfoldable pub validate_prediction_for_questions :
      ⦃ops : FloatOps F⦄ → Prediction F → List Question → Outcome (Unit {0})
  unfolding match_results
  validate_prediction_for_questions p qs = do
    validate_prediction p
    refuse (not (length p.results == length qs)) bad_output
    match_results p.results qs
