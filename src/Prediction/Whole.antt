-- ===== src/Prediction/Whole.antt =====
-- Validation of a whole prediction: its results, its usage and its truncation metadata.
use laya_go.Prelude.{◌≡◌, ◌≢◌, inl, inr, refl, String, none, some, List, [], ◌∷◌, map, All, arith}
use laya_go.Prelude.Int.{neg_part}
use laya_go.Prelude.Float.{FloatOps}
use laya_go.Errors.{ok, Decides}
use laya_go.Question.Valid.{seen_before-Fresh, Admits, Admits-cons}
use laya_go.Prediction.{
  Result, choice, choice_pointer, score, score_pointer, noul, noul_pointer, unsupported, Prediction,
  bad_output, validate_result, result_question_id, validate_results, validate_prediction,
}
use laya_go.Prediction.Valid.{
  IsTruncation, validate_truncation-Decides, IsChoiceResult, validate_choice_result-Decides,
  IsScoreResult, validate_score_result-Decides, IsNoulResult, validate_noul_result-Decides,
}

-- The question that a well-formed result answers.
abbrev pub result_id : {F : Type 0} → Result F → String
result_id (choice r) = r.question_id
result_id (choice_pointer (some r)) = r.question_id
result_id (score r) = r.question_id
result_id (score_pointer (some r)) = r.question_id
result_id (noul r) = r.question_id
result_id (noul_pointer (some r)) = r.question_id
result_id (choice_pointer none) = ""
result_id (score_pointer none) = ""
result_id (noul_pointer none) = ""
result_id unsupported = ""

module _ {F : Type 0} ⦃ops : FloatOps F⦄ where
  abbrev pub IsResult : Result F → Type 0
  IsResult (choice r) = IsChoiceResult r
  IsResult (choice_pointer (some r)) = IsChoiceResult r
  IsResult (score r) = IsScoreResult r
  IsResult (score_pointer (some r)) = IsScoreResult r
  IsResult (noul r) = IsNoulResult r
  IsResult (noul_pointer (some r)) = IsNoulResult r
  IsResult (choice_pointer none) = ⊥
  IsResult (score_pointer none) = ⊥
  IsResult (noul_pointer none) = ⊥
  IsResult unsupported = ⊥

  pub validate_result-Decides : (r : Result F) → Decides (IsResult r) (validate_result r) bad_output
  unfolding validate_result
  validate_result-Decides (choice r) = validate_choice_result-Decides r
  validate_result-Decides (choice_pointer (some r)) = validate_choice_result-Decides r
  validate_result-Decides (score r) = validate_score_result-Decides r
  validate_result-Decides (score_pointer (some r)) = validate_score_result-Decides r
  validate_result-Decides (noul r) = validate_noul_result-Decides r
  validate_result-Decides (noul_pointer (some r)) = validate_noul_result-Decides r
  validate_result-Decides (choice_pointer none) = inr ((λ h. h), refl)
  validate_result-Decides (score_pointer none) = inr ((λ h. h), refl)
  validate_result-Decides (noul_pointer none) = inr ((λ h. h), refl)
  validate_result-Decides unsupported = inr ((λ h. h), refl)

  pub result_question_id-IsResult :
      (r : Result F) → IsResult r → result_question_id r ≡ ok (result_id r)
  unfolding result_question_id
  result_question_id-IsResult (choice r) h = refl
  result_question_id-IsResult (choice_pointer (some r)) h = refl
  result_question_id-IsResult (score r) h = refl
  result_question_id-IsResult (score_pointer (some r)) h = refl
  result_question_id-IsResult (noul r) h = refl
  result_question_id-IsResult (noul_pointer (some r)) h = refl
  result_question_id-IsResult (choice_pointer none) h = absurd h
  result_question_id-IsResult (score_pointer none) h = absurd h
  result_question_id-IsResult (noul_pointer none) h = absurd h
  result_question_id-IsResult unsupported h = absurd h

  abbrev pub AreResults : List String → List (Result F) → Type 0
  AreResults seen rs = All IsResult rs × Admits seen (map result_id rs)

  validate_results-Decides :
      (seen : List String) (rs : List (Result F))
      → Decides (AreResults seen rs) (validate_results seen rs) bad_output
  unfolding validate_results
  validate_results-Decides seen [] = inl ((tt, (tt, tt)), refl)
  validate_results-Decides seen (r ∷ rs) = elim (validate_result-Decides r) [
    | inl (h, e) ↦
        rw (e, result_question_id-IsResult r h)
          (ground (
            arith,
            h,
            seen_before-Fresh seen (result_id r),
            Admits-cons (result_id r) seen (map result_id rs),
            validate_results-Decides (result_id r ∷ seen) rs,
          ))
    | inr (n, e) ↦ rw e (inr ((λ ((h, _), _). n h), refl))
  ]

  -- Results for different questions, each well-formed, with counts that make sense.
  pub record IsPrediction (p : Prediction F) : Type 0 where
    pub filled : p.results ≢ []
    pub results : AreResults [] p.results
    pub input : neg_part p.usage.input_tokens ≡ 0
    pub output : neg_part p.usage.output_tokens ≡ 0
    pub truncation : IsTruncation p.metadata.truncation

  -- `Prediction.validate` accepts exactly the well-formed predictions; any other is refused as an
  -- invalid output.
  pub validate_prediction-Decides :
      (p : Prediction F) → Decides (IsPrediction p) (validate_prediction p) bad_output
  unfolding validate_prediction
  validate_prediction-Decides p = ground (
    arith,
    validate_results-Decides [] p.results,
    validate_truncation-Decides p.metadata.truncation,
  )
