-- ===== src/Tests/Predict.antt =====
-- A call of a model in front of the native engine, and one native call that is canceled.
use laya_go.Prelude.{◌≤◌, ℕ, ◌≡◌, refl, true, false, none, some, [], ◌∷◌}
use laya_go.Errors.{Error, canceled, matches, ok, err, ◌>>◌}
use laya_go.State.{text_state, text_of_kind, validate_kind, validate_state}
use laya_go.Question.{
  ScoreQuestion, choice, score, question_id, seen_before, validate_choice, validate_each,
  validate_entries, validate_question, validate_question_header, validate_questions, validate_score,
}
use laya_go.Prelude.Int.{pos}
use laya_go.Prediction.{
  CriterionProbability, ScoreProbability, ChoiceResult, ScoreResult, Prediction, result_question_id,
  validate_choice_result, validate_criteria, validate_levels, validate_prediction,
  validate_probability, validate_result, validate_results, validate_score_result,
  validate_truncation,
}
use laya_go.Prediction
use laya_go.Check.{
  choice_result, match_criteria, match_levels, match_results, score_result,
  validate_choice_result_for_question, validate_prediction_for_questions,
  validate_result_for_question, validate_score_result_for_question,
}
use laya_go.Native.Run.{
  Call, stopped, fresh, gone, run, count_terminated, execute_cancelable_native_call,
  execute_cancelable_native_call-gone, execute_cancelable_native_call-canceled,
}
use laya_go.Predict.{Caller, live, predict, predict_choice}
use laya_go.Predict.Engine.{Native, World}
use laya_go.Predict.Engine
use laya_go.Predict.Agreement.{predict-native}
use laya_go.Predict.Helpers.{AnswersChoice, predict_choice-answers}
use laya_go.Tests.Data.{scaled, options, manifest, tokenizer, questions, route}

abbrev caller : Caller
caller = record { json_valid = λ _. true; entry = none; acquired = ok tt }

abbrev native : Native ℕ
native = record {
  closed = false;
  tokenizer = some tokenizer;
  has_session = true;
  manifest = manifest;
  model_id = "m";
  bundle_id = "b";
  runtime_id = "r";
  calibration = record { by_qtype = 10000 ∷ 10000 ∷ 10000 ∷ []; by_options = [] };
  model_opts = options;
}

abbrev world : World ℕ
world = record {
  json_valid = λ _. true;
  entry = none;
  prepared = none;
  ran = none;
  run = λ batch. ok (record {
    logits = (20000 ∷ 10000 ∷ []) ∷ (10000 ∷ 10000 ∷ []) ∷ [];
    action_logits = (10000 ∷ 10000 ∷ []) ∷ (10000 ∷ 10000 ∷ []) ∷ [];
  });
}

predict-native_example : predict caller (Engine.predict native world) (text_state "s") questions ≡ (
    live none
    >> (validate_state (λ _. true) (text_state "s")
        >> (validate_questions questions
            >> (ok tt >> Engine.predict native world (text_state "s") questions))))
predict-native_example = predict-native caller native world (text_state "s") questions

-- An engine that gives one prediction, whatever it is asked.
abbrev only : Prediction.Result ℕ → Prediction ℕ
only r = record {
  results = r ∷ [];
  usage = record { input_tokens = pos 9; output_tokens = pos 0 };
  metadata = record {
    model_id = "m";
    bundle_id = "b";
    runtime_id = "r";
    truncation = record {
      truncated = false;
      original_input_tokens = pos 9;
      effective_input_tokens = pos 9;
    };
  };
}

abbrev routed : Prediction ℕ
routed = only (
    Prediction.choice (record {
      question_id = "route";
      selected = "review";
      confidence = 1000;
      action_probability = 2000;
      probabilities =
          record { criterion_id = "accept"; probability = 4000 }
          ∷ record { criterion_id = "review"; probability = 6000 }
          ∷ [];
    }))

route_predicted :
    predict caller (λ s qs. ok routed) (text_state "s") (choice route ∷ []) ≡ ok routed
unfolding predict validate_state text_state validate_kind text_of_kind validate_questions
    validate_each validate_question validate_choice validate_question_header validate_entries
    seen_before question_id validate_prediction_for_questions validate_prediction validate_results
    validate_result validate_choice_result validate_criteria validate_probability
    validate_truncation result_question_id match_results validate_result_for_question choice_result
    validate_choice_result_for_question match_criteria
route_predicted = refl

predict_choice-answers_example :
    (r : ChoiceResult ℕ) × (predict_choice caller (λ s qs. ok routed) (text_state "s") route ≡ ok r)
    × AnswersChoice route r
predict_choice-answers_example =
    predict_choice-answers caller (λ s qs. ok routed) (text_state "s") route routed route_predicted

abbrev rating : ScoreQuestion
rating = record {
  id = "rating";
  instructions = "Rate.";
  rubric =
      record { label = "low"; description = "bad" }
      ∷ record { label = "high"; description = "good" }
      ∷ [];
}

abbrev rated : Prediction ℕ
rated = only (
    Prediction.score (record {
      question_id = "rating";
      expected_level = 6000;
      confidence = 1000;
      action_probability = 2000;
      distribution =
          record { level = pos 0; label = "low"; probability = 4000 }
          ∷ record { level = pos 1; label = "high"; probability = 6000 }
          ∷ [];
    }))

rating_predicted : predict caller (λ s qs. ok rated) (text_state "s") (score rating ∷ []) ≡ ok rated
unfolding predict validate_state text_state validate_kind text_of_kind validate_questions
    validate_each validate_question validate_score validate_question_header validate_entries
    seen_before question_id validate_prediction_for_questions validate_prediction validate_results
    validate_result validate_score_result validate_levels validate_probability validate_truncation
    result_question_id match_results validate_result_for_question score_result
    validate_score_result_for_question match_levels
rating_predicted = refl

abbrev works : Call ℕ
works = record { execute = ok 5; terminate = ok tt; close = ok tt }

execute_cancelable_native_call-gone_example :
    (run fresh (execute_cancelable_native_call none (some works) (stopped 0 canceled)).events
      ≡ gone)
    × (count_terminated
          (execute_cancelable_native_call none (some works) (stopped 0 canceled)).events
        ≤ 1)
execute_cancelable_native_call-gone_example =
    execute_cancelable_native_call-gone none works (stopped 0 canceled)

execute_cancelable_native_call-canceled_example :
    (e : Error) × ((execute_cancelable_native_call none (some works) (stopped 0 canceled)).outcome
      ≡ err e)
    × (matches e canceled ≡ true)
execute_cancelable_native_call-canceled_example =
    execute_cancelable_native_call-canceled none works (stopped 0 canceled) canceled refl
