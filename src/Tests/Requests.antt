-- ===== src/Tests/Requests.antt =====
-- Questions, items and batches.
use laya_go.Prelude.{ℕ, ◌-◌, ◌≡◌, ◌⊎◌, refl, true, false, some, [], ◌∷◌, ◌++◌, get_elem?, replicate}
use laya_go.Prelude.Int.{pos}
use laya_go.Errors.{Error, ok, err, Decides}
use laya_go.Question.{bad_request, validate_questions}
use laya_go.Question.Valid.{AreQuestions, validate_questions-Decides}
use laya_go.State.{text_state}
use laya_go.Options.{truncate_overflow}
use laya_go.Prediction.{Prediction, bad_output, validate_prediction, noul}
use laya_go.Prediction.Whole.{IsPrediction, validate_prediction-Decides}
use laya_go.Preprocess.{PreparedQuestion, PreparedItem, normalize_choice, prepare_item}
use laya_go.Preprocess.Budget.{IsItem}
use laya_go.Preprocess.Prepared.{IsMade, IsRefused, prepare_item-prepares}
use laya_go.Batch.{PreparedBatch, prepare_inference_batch, collate_prepared}
use laya_go.Batch.Collated.{IsLongest, collate_prepared-row}
use laya_go.Batch.Prepared.{IsBatch, IsBatchError, prepare_inference_batch-total}
use laya_go.Tests.Data.{scaled, options, manifest, tokenizer, route, questions}

validate_questions-Decides_example :
    Decides (AreQuestions questions) (validate_questions questions) bad_request
validate_questions-Decides_example = validate_questions-Decides questions

abbrev prediction : Prediction ℕ
prediction = record {
  results =
      noul (record { question_id = "sure"; true_probability = 9000; action_probability = 100 })
      ∷ [];
  usage = record { input_tokens = pos 12; output_tokens = pos 0 };
  metadata = record {
    model_id = "m";
    bundle_id = "b";
    runtime_id = "r";
    truncation = record {
      truncated = false;
      original_input_tokens = pos 12;
      effective_input_tokens = pos 12;
    };
  };
}

validate_prediction-Decides_example :
    Decides (IsPrediction prediction) (validate_prediction prediction) bad_output
validate_prediction-Decides_example = validate_prediction-Decides prediction

abbrev prepared : PreparedQuestion
prepared = normalize_choice route manifest

prepare_item-prepares_example :
    ((item : PreparedItem) × (prepare_item "state" prepared manifest tokenizer 13 truncate_overflow
        ≡ ok item)
      × (IsItem manifest 13 truncate_overflow prepared item
          × IsMade "state" prepared manifest tokenizer 13 item))
    ⊎ ((e : Error) × (prepare_item "state" prepared manifest tokenizer 13 truncate_overflow ≡ err e)
        × IsRefused "state" prepared manifest tokenizer 13 truncate_overflow e)
prepare_item-prepares_example =
    prepare_item-prepares "state" prepared manifest tokenizer 13 truncate_overflow

abbrev small : PreparedItem
small = record {
  question = prepared;
  input_ids = 1 ∷ 3 ∷ 2 ∷ [];
  marker_positions = 1 ∷ [];
  original_tokens = 3;
  truncated = false;
}

abbrev large : PreparedItem
large = record {
  question = prepared;
  input_ids = 1 ∷ 3 ∷ 3 ∷ 8 ∷ 2 ∷ [];
  marker_positions = 1 ∷ 2 ∷ [];
  original_tokens = 5;
  truncated = false;
}

padded_rows :
    (collate_prepared (small ∷ large ∷ []) 9).input_ids
    ≡ (1 ∷ 3 ∷ 2 ∷ 9 ∷ 9 ∷ []) ∷ (1 ∷ 3 ∷ 3 ∷ 8 ∷ 2 ∷ []) ∷ []
unfolding collate_prepared
padded_rows = refl

collate_prepared-row_example :
    let items = small ∷ large ∷ [] in
    let batch = collate_prepared items 9 in
    (wide : ℕ) × (few : ℕ) × IsLongest (λ (x : PreparedItem). x.input_ids) items wide
    × IsLongest (λ (x : PreparedItem). x.marker_positions) items few
    × (get_elem? batch.input_ids 0 ≡ some ((1 ∷ 3 ∷ 2 ∷ []) ++ replicate (wide - 3) 9))
    × (get_elem? batch.attention_mask 0 ≡ some (replicate 3 1 ++ replicate (wide - 3) 0))
    × (get_elem? batch.marker_pos 0 ≡ some ((1 ∷ []) ++ replicate (few - 1) 0))
    × (get_elem? batch.marker_mask 0 ≡ some (replicate 1 true ++ replicate (few - 1) false))
    × (get_elem? batch.qtype 0 ≡ some prepared.qtype)
collate_prepared-row_example = collate_prepared-row (small ∷ large ∷ []) 9 0 small refl

prepare_inference_batch-total_example :
    let run =
      prepare_inference_batch
        (λ _. true)
        (text_state "s")
        questions
        manifest
        (some tokenizer)
        options in
    ((b : PreparedBatch) × (run ≡ ok b) × IsBatch manifest options questions b)
    ⊎ ((e : Error) × (run ≡ err e) × IsBatchError e)
prepare_inference_batch-total_example =
    prepare_inference_batch-total (λ _. true) (text_state "s") questions manifest (some tokenizer)
      options
