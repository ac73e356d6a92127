-- ===== src/Prediction.antt =====
-- result.go: the typed results of a prediction, and their validation.
pub mod Valid
pub mod Whole
use laya_go.Prelude.{
  ℕ, suc, ◌-◌, String, str_eq, Bool, true, false, ◌||◌, ◌&&◌, not, Option, none, some, List, [],
  ◌∷◌, length, ◌==◌, if◌then◌else◌,
}
use laya_go.Prelude.Int.{ℤ, pos, ltb_ℤ, eqb_ℤ}
use laya_go.Prelude.Float.{FloatOps}
use laya_go.Errors.{
  Error, sentinel, invalid_output, Outcome, ok, err, ◌>>=◌, ◌>>◌, refuse, nil_dereference,
}
use laya_go.Question.{seen_before}

pub record Usage : Type 0 where
  pub input_tokens : ℤ
  pub output_tokens : ℤ

pub record TruncationMetadata : Type 0 where
  pub truncated : Bool
  pub original_input_tokens : ℤ
  pub effective_input_tokens : ℤ

pub record PredictionMetadata : Type 0 where
  pub model_id : String
  pub bundle_id : String
  pub runtime_id : String
  pub truncation : TruncationMetadata

pub record CriterionProbability (F : Type 0) : Type 0 where
  pub criterion_id : String
  pub probability : F

pub record ChoiceResult (F : Type 0) : Type 0 where
  pub question_id : String
  pub selected : String
  pub probabilities : List (CriterionProbability F)
  pub confidence : F
  pub action_probability : F

-- What `NewChoiceResult` is given beside the question's ID.
pub record ChoiceAnswer (F : Type 0) : Type 0 where
  pub selected : String
  pub probabilities : List (CriterionProbability F)
  pub confidence : F
  pub action_probability : F

pub record ScoreProbability (F : Type 0) : Type 0 where
  pub level : ℤ
  pub label : String
  pub probability : F

pub record ScoreResult (F : Type 0) : Type 0 where
  pub question_id : String
  pub expected_level : F
  pub distribution : List (ScoreProbability F)
  pub confidence : F
  pub action_probability : F

pub record ScoreAnswer (F : Type 0) : Type 0 where
  pub expected_level : F
  pub distribution : List (ScoreProbability F)
  pub confidence : F
  pub action_probability : F

pub record NoulResult (F : Type 0) : Type 0 where
  pub question_id : String
  pub true_probability : F
  pub action_probability : F

pub record NoulAnswer (F : Type 0) : Type 0 where
  pub true_probability : F
  pub action_probability : F

-- A value of the interface, as for questions.
pub data Result (F : Type 0) : Type 0 where
  choice : ChoiceResult F → Result F
  choice_pointer : Option (ChoiceResult F) → Result F
  score : ScoreResult F → Result F
  score_pointer : Option (ScoreResult F) → Result F
  noul : NoulResult F → Result F
  noul_pointer : Option (NoulResult F) → Result F
  unsupported : Result F

pub record Prediction (F : Type 0) : Type 0 where
  pub results : List (Result F)
  pub usage : Usage
  pub metadata : PredictionMetadata

abbrev pub bad_output : Error
bad_output = sentinel invalid_output

module _ {F : Type 0} ⦃ops : FloatOps F⦄ where
  unfoldable pub validate_probability : F → Outcome (Unit {0})
  validate_probability p =
      refuse (ops.is_nan p || ops.is_inf p || ops.lt p (ops.of_ℕ 0) || ops.lt (ops.of_ℕ 1) p)
        bad_output

  -- The loop over probabilities, with the keys seen and whether the selected one was among them.
  unfoldable pub validate_criteria :
      String → List String → Bool → List (CriterionProbability F) → Outcome Bool
  unfolding seen_before
  validate_criteria selected seen found [] = ok found
  validate_criteria selected seen found (p ∷ ps) = do
    refuse (str_eq p.criterion_id "") bad_output
    refuse (seen_before seen p.criterion_id) bad_output
    validate_probability p.probability
    validate_criteria selected (p.criterion_id ∷ seen) (found || str_eq p.criterion_id selected) ps

  unfoldable pub validate_choice_result : ChoiceResult F → Outcome (Unit {0})
  validate_choice_result r = do
    refuse (str_eq r.question_id "") bad_output
    refuse (str_eq r.selected "") bad_output
    refuse (length r.probabilities == 0) bad_output
    found ← validate_criteria r.selected [] false r.probabilities
    refuse (not found) bad_output
    validate_probability r.confidence
    validate_probability r.action_probability

  -- The loop over the distribution, from index `i`.
  unfoldable pub validate_levels : ℕ → List (ScoreProbability F) → Outcome (Unit {0})
  validate_levels i [] = ok tt
  validate_levels i (p ∷ ps) = do
    refuse (not (eqb_ℤ p.level (pos i))) bad_output
    refuse (str_eq p.label "") bad_output
    validate_probability p.probability
    validate_levels (suc i) ps

  unfoldable pub validate_score_result : ScoreResult F → Outcome (Unit {0})
  validate_score_result r = do
    refuse (str_eq r.question_id "") bad_output
    refuse (length r.distribution == 0) bad_output
    refuse
        (ops.is_nan r.expected_level
          || ops.is_inf r.expected_level
          || ops.lt r.expected_level (ops.of_ℕ 0)
          || ops.lt (ops.of_ℕ (length r.distribution - 1)) r.expected_level)
        bad_output
    validate_levels 0 r.distribution
    validate_probability r.confidence
    validate_probability r.action_probability

  unfoldable pub validate_noul_result : NoulResult F → Outcome (Unit {0})
  validate_noul_result r = do
    refuse (str_eq r.question_id "") bad_output
    validate_probability r.true_probability
    validate_probability r.action_probability

  unfoldable pub validate_result : Result F → Outcome (Unit {0})
  validate_result (choice r) = validate_choice_result r
  validate_result (choice_pointer none) = err bad_output
  validate_result (choice_pointer (some r)) = validate_choice_result r
  validate_result (score r) = validate_score_result r
  validate_result (score_pointer none) = err bad_output
  validate_result (score_pointer (some r)) = validate_score_result r
  validate_result (noul r) = validate_noul_result r
  validate_result (noul_pointer none) = err bad_output
  validate_result (noul_pointer (some r)) = validate_noul_result r
  validate_result unsupported = err bad_output

-- `result.QuestionID()`.
unfoldable pub result_question_id : {F : Type 0} → Result F → Outcome String
result_question_id (choice r) = ok r.question_id
result_question_id (choice_pointer (some r)) = ok r.question_id
result_question_id (score r) = ok r.question_id
result_question_id (score_pointer (some r)) = ok r.question_id
result_question_id (noul r) = ok r.question_id
result_question_id (noul_pointer (some r)) = ok r.question_id
result_question_id (choice_pointer none) = err nil_dereference
result_question_id (score_pointer none) = err nil_dereference
result_question_id (noul_pointer none) = err nil_dereference
result_question_id unsupported = err nil_dereference

unfoldable pub validate_truncation : TruncationMetadata → Outcome (Unit {0})
validate_truncation m = do
  refuse (ltb_ℤ m.original_input_tokens (pos 0) || ltb_ℤ m.effective_input_tokens (pos 0))
      bad_output
  refuse (m.truncated && not (ltb_ℤ m.effective_input_tokens m.original_input_tokens)) bad_output
  refuse (not m.truncated && not (eqb_ℤ m.original_input_tokens m.effective_input_tokens))
      bad_output

module _ {F : Type 0} ⦃ops : FloatOps F⦄ where
  -- The loop of `Prediction.validate`.
  unfoldable pub validate_results : List String → List (Result F) → Outcome (Unit {0})
  validate_results seen [] = ok tt
  validate_results seen (r ∷ rs) = do
    validate_result r
    id ← result_question_id r
    if seen_before seen id then err bad_output else validate_results (id ∷ seen) rs

  unfoldable pub validate_prediction : Prediction F → Outcome (Unit {0})
  validate_prediction p = do
    refuse (length p.results == 0) bad_output
    validate_results [] p.results
    refuse (ltb_ℤ p.usage.input_tokens (pos 0) || ltb_ℤ p.usage.output_tokens (pos 0)) bad_output
    validate_truncation p.metadata.truncation

  -- The struct that a constructor builds before it validates it.
  abbrev pub choice_of : String → ChoiceAnswer F → ChoiceResult F
  choice_of id a = record {
    question_id = id;
    selected = a.selected;
    probabilities = a.probabilities;
    confidence = a.confidence;
    action_probability = a.action_probability;
  }

  abbrev pub score_of : String → ScoreAnswer F → ScoreResult F
  score_of id a = record {
    question_id = id;
    expected_level = a.expected_level;
    distribution = a.distribution;
    confidence = a.confidence;
    action_probability = a.action_probability;
  }

  abbrev pub noul_of : String → NoulAnswer F → NoulResult F
  noul_of id a = record {
    question_id = id;
    true_probability = a.true_probability;
    action_probability = a.action_probability;
  }

  unfoldable pub new_choice_result : String → ChoiceAnswer F → Outcome (ChoiceResult F)
  new_choice_result id a = do validate_choice_result (choice_of id a); ok (choice_of id a)

  unfoldable pub new_score_result : String → ScoreAnswer F → Outcome (ScoreResult F)
  new_score_result id a = do validate_score_result (score_of id a); ok (score_of id a)

  unfoldable pub new_noul_result : String → NoulAnswer F → Outcome (NoulResult F)
  new_noul_result id a = do validate_noul_result (noul_of id a); ok (noul_of id a)

  unfoldable pub new_prediction :
      List (Result F) → Usage → PredictionMetadata → Outcome (Prediction F)
  new_prediction results usage metadata = do
    let p : Prediction F = record { results = results; usage = usage; metadata = metadata }
    validate_prediction p
    ok p
