-- ===== src/Predict/Helpers.antt =====
-- The typed helpers of a `Model`: a successful prediction always has the answer that they take out.
use laya_go.Prelude.{
  ◌≡◌, refl, subst, eq_iff, not, none, some, List, [], ◌∷◌, map, length, ◌==◌, arith,
}
use laya_go.Prelude.Float.{FloatOps}
use laya_go.Errors.{ok, err, refuse, ok_injective, index_out_of_range}
use laya_go.State.{State, validate_state}
use laya_go.Question.{
  Question, ChoiceCriterion, ChoiceQuestion, ScoreLevel, ScoreQuestion, choice, score,
  validate_questions, question_id,
}
use laya_go.Prediction.{
  CriterionProbability, ScoreProbability, Result, ChoiceResult, ScoreResult, NoulResult, Prediction,
  bad_output, validate_prediction, result_question_id,
}
use laya_go.Prediction
use laya_go.Check.{
  validate_prediction_for_questions, match_results, match_criteria, match_levels,
  validate_result_for_question, choice_result, score_result,
}
use laya_go.Output.Matching.{bind-eq-ok}
use laya_go.Predict.{Caller, Engine, live, first_result, predict, predict_choice, predict_score}

module _ {F : Type 0} where
  match_criteria-ids :
      (cs : List ChoiceCriterion) (ps : List (CriterionProbability F))
      → length ps ≡ length cs
      → match_criteria cs ps ≡ ok tt
      → map (λ (p : CriterionProbability F). p.criterion_id) ps
        ≡ map (λ (c : ChoiceCriterion). c.id) cs
  unfolding match_criteria
  match_criteria-ids [] [] n e = refl
  match_criteria-ids [] (p ∷ ps) n e = absurd (omega arith)
  match_criteria-ids (c ∷ cs) [] n e = absurd (omega arith)
  match_criteria-ids (c ∷ cs) (p ∷ ps) n e =
      ground (arith, eq_iff p.criterion_id c.id, match_criteria-ids cs ps)

  match_levels-labels :
      (ls : List ScoreLevel) (ps : List (ScoreProbability F))
      → length ps ≡ length ls
      → match_levels ls ps ≡ ok tt
      → map (λ (p : ScoreProbability F). p.label) ps ≡ map (λ (l : ScoreLevel). l.label) ls
  unfolding match_levels
  match_levels-labels [] [] n e = refl
  match_levels-labels [] (p ∷ ps) n e = absurd (omega arith)
  match_levels-labels (l ∷ ls) [] n e = absurd (omega arith)
  match_levels-labels (l ∷ ls) (p ∷ ps) n e =
      ground (arith, eq_iff p.label l.label, match_levels-labels ls ps)

  -- An answer to a choice question: with its ID, and a probability for each criterion in order.
  abbrev pub AnswersChoice : ChoiceQuestion → ChoiceResult F → Type 0
  AnswersChoice q r =
      (r.question_id ≡ q.id)
      × (map (λ (p : CriterionProbability F). p.criterion_id) r.probabilities
          ≡ map (λ (c : ChoiceCriterion). c.id) q.criteria)

  abbrev pub AnswersScore : ScoreQuestion → ScoreResult F → Type 0
  AnswersScore q r =
      (r.question_id ≡ q.id)
      × (map (λ (p : ScoreProbability F). p.label) r.distribution
          ≡ map (λ (l : ScoreLevel). l.label) q.rubric)

  choice_result-Answers :
      (q : ChoiceQuestion) (r : Result F)
      → match_results (r ∷ []) (choice q ∷ []) ≡ ok tt
      → (c : ChoiceResult F) × (choice_result r ≡ ok c) × AnswersChoice q c
  unfolding match_results choice_result result_question_id question_id validate_result_for_question
  choice_result-Answers q (Prediction.choice c) e = (
    c,
    refl,
    ground (arith, eq_iff c.question_id q.id, match_criteria-ids q.criteria c.probabilities),
  )
  choice_result-Answers q (Prediction.choice_pointer (some c)) e = (
    c,
    refl,
    ground (arith, eq_iff c.question_id q.id, match_criteria-ids q.criteria c.probabilities),
  )
  choice_result-Answers q (Prediction.choice_pointer none) e = cc
  choice_result-Answers q (Prediction.score r) e = absurd (ground arith)
  choice_result-Answers q (Prediction.score_pointer none) e = cc
  choice_result-Answers q (Prediction.score_pointer (some r)) e = absurd (ground arith)
  choice_result-Answers q (Prediction.noul r) e = absurd (ground arith)
  choice_result-Answers q (Prediction.noul_pointer none) e = cc
  choice_result-Answers q (Prediction.noul_pointer (some r)) e = absurd (ground arith)
  choice_result-Answers q Prediction.unsupported e = cc

  score_result-Answers :
      (q : ScoreQuestion) (r : Result F)
      → match_results (r ∷ []) (score q ∷ []) ≡ ok tt
      → (c : ScoreResult F) × (score_result r ≡ ok c) × AnswersScore q c
  unfolding match_results score_result result_question_id question_id validate_result_for_question
  score_result-Answers q (Prediction.score c) e = (
    c,
    refl,
    ground (arith, eq_iff c.question_id q.id, match_levels-labels q.rubric c.distribution),
  )
  score_result-Answers q (Prediction.score_pointer (some c)) e = (
    c,
    refl,
    ground (arith, eq_iff c.question_id q.id, match_levels-labels q.rubric c.distribution),
  )
  score_result-Answers q (Prediction.score_pointer none) e = cc
  score_result-Answers q (Prediction.choice r) e = absurd (ground arith)
  score_result-Answers q (Prediction.choice_pointer none) e = cc
  score_result-Answers q (Prediction.choice_pointer (some r)) e = absurd (ground arith)
  score_result-Answers q (Prediction.noul r) e = absurd (ground arith)
  score_result-Answers q (Prediction.noul_pointer none) e = cc
  score_result-Answers q (Prediction.noul_pointer (some r)) e = absurd (ground arith)
  score_result-Answers q Prediction.unsupported e = cc

  -- The only result of a prediction that the check accepted for one question.
  only_result :
      ⦃ops : FloatOps F⦄ (p : Prediction F) (q : Question)
      → validate_prediction_for_questions p (q ∷ []) ≡ ok tt
      → (r : Result F) × (first_result p ≡ ok r) × (match_results (r ∷ []) (q ∷ []) ≡ ok tt)
  unfolding validate_prediction_for_questions first_result
  only_result p q e =
      let (_, _, e₁) = bind-eq-ok (validate_prediction p) _ e in
      let (_, n, e₂) = bind-eq-ok (refuse (not (length p.results == 1)) bad_output) _ e₁ in
      go p.results n e₂
    where
      go :
          (rs : List (Result F)) {u : Unit {0}}
          → refuse (not (length rs == 1)) bad_output ≡ ok u
          → match_results rs (q ∷ []) ≡ ok tt
          → (r : Result F) × ((elim rs [ [] ↦ err index_out_of_range | r ∷ rs ↦ ok r ]) ≡ ok r)
            × (match_results (r ∷ []) (q ∷ []) ≡ ok tt)
      go [] n e = cc
      go (r ∷ []) n e = (r, refl, e)
      go (r ∷ s ∷ rs) n e = absurd (ground arith)

  module _ ⦃ops : FloatOps F⦄ (caller : Caller) (engine : Engine F) (state : State) where
    predict-checked :
        (qs : List Question) (p : Prediction F)
        → predict caller engine state qs ≡ ok p
        → validate_prediction_for_questions p qs ≡ ok tt
    unfolding predict
    predict-checked qs p e =
        let (_, _, e₁) = bind-eq-ok (live caller.entry) _ e in
        let (_, _, e₂) = bind-eq-ok (validate_state caller.json_valid state) _ e₁ in
        let (_, _, e₃) = bind-eq-ok (validate_questions qs) _ e₂ in
        let (_, _, e₄) = bind-eq-ok caller.acquired _ e₃ in
        let (r, _, e₅) = bind-eq-ok (engine state qs) _ e₄ in
        let (_, v, e₆) = bind-eq-ok (validate_prediction_for_questions r qs) _ e₅ in
        subst (λ (p : Prediction F). validate_prediction_for_questions p qs ≡ ok tt)
          (ok_injective e₆) v

    -- Whatever the engine, where `Predict` succeeds with one choice question, `Choice` succeeds with
    -- a choice result that has the question's ID and the probabilities of its criteria in order: the
    -- index and the type that it takes out of the prediction are always there.
    pub predict_choice-answers :
        (q : ChoiceQuestion) (p : Prediction F)
        → predict caller engine state (choice q ∷ []) ≡ ok p
        → (r : ChoiceResult F) × (predict_choice caller engine state q ≡ ok r) × AnswersChoice q r
    unfolding predict_choice
    predict_choice-answers q p e =
        let (r, f, m) = only_result p (choice q) (predict-checked (choice q ∷ []) p e) in
        let (c, g, a) = choice_result-Answers q r m in (c, rw (e, f) g, a)

    -- The same of `Score`, with the labels of the rubric in order.
    pub predict_score-answers :
        (q : ScoreQuestion) (p : Prediction F)
        → predict caller engine state (score q ∷ []) ≡ ok p
        → (r : ScoreResult F) × (predict_score caller engine state q ≡ ok r) × AnswersScore q r
    unfolding predict_score
    predict_score-answers q p e =
        let (r, f, m) = only_result p (score q) (predict-checked (score q ∷ []) p e) in
        let (c, g, a) = score_result-Answers q r m in (c, rw (e, f) g, a)
