-- ===== src/Tests/Output.antt =====
-- Two questions prepared, answered and formatted.
use laya_go.Prelude.{ℕ, ◌≡◌, refl, true, false, some, [], ◌∷◌}
use laya_go.Errors.{Outcome, ok, err}
use laya_go.State.{text_state, model_state_text, text_of_kind, validate_kind, validate_state}
use laya_go.Prelude.Int.{pos}
use laya_go.Prediction.{
  Prediction, PredictionMetadata, new_choice_result, new_noul_result, new_prediction,
  new_score_result, result_question_id, validate_choice_result, validate_criteria, validate_levels,
  validate_noul_result, validate_prediction, validate_probability, validate_result,
  validate_results, validate_score_result, validate_truncation,
}
use laya_go.Batch.{
  PreparedBatch, prepare_inference_batch, collate_prepared, add_totals, copy, effective_limit,
  longest, padded, prepare_items, require,
}
use laya_go.Output.{
  RowDerivation, RawModelOutputs, CalibrationConfig, format_inference_prediction, all_finite,
  bucket_size, confidence_from_probabilities, criterion_rows, derive_output_row, entropy_from,
  expected_from, expected_score, find_bucket, find_qtype, format_rows, level_rows, maximum_from,
  maximum_index, result_from_derivation, result_of_kind, round_four, scale, select_value,
  stable_softmax, temperature_bucket, true_probability, validate_raw_outputs, validate_rows,
}
use laya_go.Output.Matching.{format_inference_prediction-matches}
use laya_go.Question.{
  question_id, seen_before, validate_choice, validate_each, validate_entries, validate_noul,
  validate_question, validate_question_header, validate_questions, validate_score,
}
use laya_go.Options.{validate_options}
use laya_go.Preprocess.{
  encode_options, encode_text, fit_options, fit_state, lay_out, level_options, normalize_choice,
  normalize_noul, normalize_question, normalize_score, prepare_item, retained,
}
use laya_go.Preprocess.Text.{decimal, has_prefix, replace_from, replace_mask}
use laya_go.Check.{validate_prediction_for_questions}
use laya_go.Tests.Data.{route, scaled, options, manifest, tokenizer, questions}

abbrev value_of : {A : Type 0} → A → Outcome A → A
value_of a (ok b) = b
value_of a (err e) = a

abbrev batch : PreparedBatch
batch = value_of (collate_prepared [] 0) (
    prepare_inference_batch (λ _. true) (text_state "s") questions manifest (some tokenizer)
      options)

batch_prepared :
    prepare_inference_batch (λ _. true) (text_state "s") questions manifest (some tokenizer) options
    ≡ ok batch
unfolding prepare_inference_batch validate_state text_state validate_questions validate_each
    validate_question validate_choice validate_question_header validate_entries question_id
    validate_noul validate_options effective_limit model_state_text prepare_items normalize_question
    prepare_item normalize_choice add_totals collate_prepared copy longest padded require decimal
    has_prefix replace_from replace_mask encode_options encode_text fit_options fit_state lay_out
    level_options normalize_noul normalize_score retained seen_before validate_score text_of_kind
    validate_kind
batch_prepared = refl

abbrev outputs : RawModelOutputs ℕ
outputs = record {
  logits = (20000 ∷ 10000 ∷ []) ∷ (10000 ∷ 10000 ∷ []) ∷ [];
  action_logits = (10000 ∷ 10000 ∷ []) ∷ (10000 ∷ 10000 ∷ []) ∷ [];
}

abbrev calibration : CalibrationConfig ℕ
calibration = record { by_qtype = 10000 ∷ 10000 ∷ 10000 ∷ []; by_options = [] }

abbrev metadata : PredictionMetadata
metadata = record {
  model_id = "m";
  bundle_id = "b";
  runtime_id = "r";
  truncation = record {
    truncated = false;
    original_input_tokens = pos 0;
    effective_input_tokens = pos 0;
  };
}

abbrev prediction : Prediction ℕ
prediction =
    value_of
      (record {
        results = [];
        usage = record { input_tokens = pos 0; output_tokens = pos 0 };
        metadata = metadata;
      })
      (format_inference_prediction batch outputs calibration metadata)

prediction_formatted :
    format_inference_prediction batch outputs calibration metadata ≡ ok prediction
unfolding format_inference_prediction prepare_inference_batch validate_state text_state
    validate_questions validate_each validate_question validate_choice validate_question_header
    validate_entries question_id validate_noul validate_options effective_limit model_state_text
    prepare_items normalize_question prepare_item normalize_choice add_totals collate_prepared copy
    longest padded require decimal has_prefix replace_from replace_mask encode_options encode_text
    fit_options fit_state lay_out level_options normalize_noul normalize_score retained seen_before
    validate_score text_of_kind validate_kind all_finite bucket_size confidence_from_probabilities
    criterion_rows derive_output_row entropy_from expected_from expected_score find_bucket
    find_qtype format_rows level_rows maximum_from maximum_index result_from_derivation
    result_of_kind round_four scale select_value stable_softmax temperature_bucket true_probability
    validate_raw_outputs validate_rows new_choice_result new_noul_result new_prediction
    new_score_result result_question_id validate_choice_result validate_criteria validate_levels
    validate_noul_result validate_prediction validate_probability validate_result validate_results
    validate_score_result validate_truncation
prediction_formatted = refl

format_inference_prediction-matches_example :
    validate_prediction_for_questions prediction questions ≡ ok tt
format_inference_prediction-matches_example =
    format_inference_prediction-matches (λ _. true) (text_state "s") questions manifest
      (some tokenizer) options batch outputs calibration metadata prediction batch_prepared
      prediction_formatted

abbrev row : RowDerivation ℕ
row =
    value_of
      (record {
        probabilities = [];
        action_probabilities = [];
        confidence = 0;
        expected_score = 0;
        true_probability = 0;
        temperature = 0;
      })
      (derive_output_row (normalize_choice route manifest) (20000 ∷ 10000 ∷ []) (10000 ∷ 10000 ∷ [])
        calibration)

row_derived :
    derive_output_row
      (normalize_choice route manifest)
      (20000 ∷ 10000 ∷ [])
      (10000 ∷ 10000 ∷ [])
      calibration
    ≡ ok row
unfolding derive_output_row normalize_choice stable_softmax scale select_value find_qtype
    find_bucket temperature_bucket bucket_size confidence_from_probabilities entropy_from
    expected_score expected_from true_probability
row_derived = refl
