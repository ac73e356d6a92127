-- ===== src/Predict.antt =====
-- `Predict`, `Choice`, `Score` and `Noul` of a `Model` in model.go, in front of any engine.
pub mod Engine
pub mod Agreement
pub mod Helpers
use laya_go.Prelude.{String, Bool, Option, none, some, List, [], ◌∷◌}
use laya_go.Prelude.Float.{FloatOps}
use laya_go.Errors.{Category, sentinel, index_out_of_range, Outcome, ok, err, ◌>>=◌, ◌>>◌}
use laya_go.State.{State, validate_state}
use laya_go.Question.{
  Question, ChoiceQuestion, ScoreQuestion, NoulQuestion, choice, score, noul, validate_questions,
}
use laya_go.Prediction.{Result, ChoiceResult, ScoreResult, NoulResult, Prediction}
use laya_go.Check.{validate_prediction_for_questions, choice_result, score_result, noul_result}

-- What a context gives at one moment: nothing while it is live.
abbrev pub Context : Type 0
Context = Option Category

abbrev pub live : Context → Outcome (Unit {0})
live none = ok tt
live (some c) = err (sentinel c)

-- What surrounds a call: `json.Valid`, the context at its entry, and what `acquire` gives.
pub record Caller : Type 0 where
  pub json_valid : String → Bool
  pub entry : Context
  pub acquired : Outcome (Unit {0})

-- `engine.Predict`, with the context that the caller passed on.
abbrev pub Engine : Type 0 → Type 0
Engine F = State → List Question → Outcome (Prediction F)

module _ {F : Type 0} where
  -- `prediction.Results()[0]`.
  unfoldable pub first_result : Prediction F → Outcome (Result F)
  first_result p = elim p.results [ [] ↦ err index_out_of_range | r ∷ rs ↦ ok r ]

  module _ ⦃ops : FloatOps F⦄ where
    unfoldable pub predict : Caller → Engine F → State → List Question → Outcome (Prediction F)
    predict caller engine state questions = do
      live caller.entry
      validate_state caller.json_valid state
      validate_questions questions
      caller.acquired
      prediction ← engine state questions
      validate_prediction_for_questions prediction questions
      ok prediction

    unfoldable pub predict_choice :
        Caller → Engine F → State → ChoiceQuestion → Outcome (ChoiceResult F)
    unfolding first_result
    predict_choice caller engine state q = do
      prediction ← predict caller engine state (choice q ∷ [])
      result ← first_result prediction
      choice_result result

    unfoldable pub predict_score :
        Caller → Engine F → State → ScoreQuestion → Outcome (ScoreResult F)
    unfolding first_result
    predict_score caller engine state q = do
      prediction ← predict caller engine state (score q ∷ [])
      result ← first_result prediction
      score_result result

    unfoldable pub predict_noul : Caller → Engine F → State → NoulQuestion → Outcome (NoulResult F)
    unfolding first_result
    predict_noul caller engine state q = do
      prediction ← predict caller engine state (noul q ∷ [])
      result ← first_result prediction
      noul_result result
