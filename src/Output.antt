-- ===== src/Output.antt =====
-- postprocess.go: raw outputs formatted as a prediction; and the calibration that calibration.go
-- selects for a question. Floats are abstract.
pub mod Matching
pub mod Rows
use laya_go.Prelude.{
  ℕ, zero, suc, ◌+◌, ◌≡◌, String, str_eq, Bool, true, false, ◌&&◌, ◌||◌, not, Option, none, some,
  List, [], ◌∷◌, length, map, take, get_or, ltb, leb, ◌==◌, if◌then◌else◌,
}
use laya_go.Prelude.Int.{pos}
use laya_go.Prelude.Float.{FloatOps, is_finite}
use laya_go.Errors.{Outcome, ok, err, ◌>>=◌, ◌>>◌, refuse}
use laya_go.Prediction.{
  CriterionProbability, ScoreProbability, Result, choice, score, noul, Prediction,
  PredictionMetadata, bad_output, new_choice_result, new_score_result, new_noul_result,
  new_prediction,
}
use laya_go.Preprocess.{
  PreparedQuestion, PreparedQuestionKind, prepared_choice, prepared_score, prepared_noul,
  PreparedItem, question_kind_name,
}
use laya_go.Batch.{PreparedBatch}
use Prim.Native.String.{◌++◌ as str_append}

-- `float32` values are widened to `float64` where they are read.
pub record RawModelOutputs (F : Type 0) : Type 0 where
  pub logits : List (List F)
  pub action_logits : List (List F)

-- `config.byQType` and `config.byOptions`, with the effective temperatures.
pub record CalibrationConfig (F : Type 0) : Type 0 where
  pub by_qtype : List F
  pub by_options : List (String × F)

pub record RowDerivation (F : Type 0) : Type 0 where
  pub probabilities : List F
  pub action_probabilities : List F
  pub confidence : F
  pub expected_score : F
  pub true_probability : F
  pub temperature : F

unfoldable pub bucket_size : ℕ → String
bucket_size n =
    if leb n 2 then "2" else if leb n 5 then "3-5" else if leb n 10 then "6-10" else "11+"

unfoldable pub temperature_bucket : String → ℕ → String
unfolding bucket_size
temperature_bucket kind n = str_append kind (str_append ":" (bucket_size n))

-- `c.byOptions[bucket]`.
unfoldable pub find_bucket : {F : Type 0} → String → List (String × F) → Option F
find_bucket k [] = none
find_bucket k ((j, v) ∷ m) = if str_eq j k then some v else find_bucket k m

-- `c.byQType[index]`, with the test of the range above it.
unfoldable pub find_qtype : {F : Type 0} → ℕ → List F → Outcome F
find_qtype i [] = err bad_output
find_qtype zero (v ∷ vs) = ok v
find_qtype (suc i) (v ∷ vs) = find_qtype i vs

unfoldable pub select_value : {F : Type 0} → CalibrationConfig F → PreparedQuestion → Outcome F
unfolding find_qtype find_bucket temperature_bucket
select_value c q = do
  fallback ← find_qtype q.qtype c.by_qtype
  elim (find_bucket (temperature_bucket (question_kind_name q.kind) (length q.options))
      c.by_options) [ some v ↦ ok v | none ↦ ok fallback ]

-- `len(batch.markerPos[0])`, if there is a row.
abbrev pub first_width : List (List ℕ) → ℕ
first_width [] = 0
first_width (row ∷ rows) = length row

module _ {F : Type 0} ⦃ops : FloatOps F⦄ where
  unfoldable pub all_finite : List F → Bool
  all_finite [] = true
  all_finite (x ∷ xs) = is_finite x && all_finite xs

  -- The first loop of `stableSoftmax`: the scaled logits and their maximum.
  unfoldable pub scale : F → F → List F → Outcome (List F × F)
  scale temperature top [] = ok ([], top)
  scale temperature top (x ∷ xs) = do
    refuse (not (is_finite x)) bad_output
    rest ← scale temperature (ops.fmax top (ops.div x temperature)) xs
    ok (ops.div x temperature ∷ rest.0, rest.1)

  abbrev pub sum_from : F → List F → F
  sum_from total [] = total
  sum_from total (x ∷ xs) = sum_from (ops.add total x) xs

  unfoldable pub stable_softmax : List F → F → Outcome (List F)
  unfolding scale
  stable_softmax logits temperature = do
    refuse (length logits == 0) bad_output
    refuse (not (is_finite temperature) || not (ops.lt (ops.of_ℕ 0) temperature)) bad_output
    scaled ← scale temperature (ops.neg ops.max_float) logits
    let powers = map (λ v. ops.exp (ops.sub v scaled.1)) scaled.0
    let total = sum_from (ops.of_ℕ 0) powers
    refuse (not (is_finite total) || not (ops.lt (ops.of_ℕ 0) total)) bad_output
    ok (map (λ v. ops.div v total) powers)

  -- The loop of `confidenceFromProbabilities`.
  unfoldable pub entropy_from : F → List F → F
  entropy_from entropy [] = entropy
  entropy_from entropy (p ∷ ps) =
      entropy_from
        (ops.sub entropy (ops.mul p (ops.log (ops.fmin (ops.of_ℕ 1) (ops.fmax ops.tiny p))))) ps

  unfoldable pub confidence_from_probabilities : List F → F
  unfolding entropy_from
  confidence_from_probabilities ps =
      if ltb (length ps) 2
      then ops.of_ℕ 1
      else ops.fmin (ops.of_ℕ 1) (
          ops.fmax (ops.of_ℕ 0) (
            ops.sub (ops.of_ℕ 1)
              (ops.div (entropy_from (ops.of_ℕ 0) ps) (ops.log (ops.of_ℕ (length ps))))))

  -- The loop of `maximumIndex`: the best index and its value, the index at hand, and the rest.
  unfoldable pub maximum_from : ℕ → F → ℕ → List F → ℕ
  maximum_from best top i [] = best
  maximum_from best top i (v ∷ vs) =
      let better = maximum_from i v (suc i) vs in
      let same = maximum_from best top (suc i) vs in if ops.lt top v then better else same

  unfoldable pub maximum_index : List F → ℕ
  unfolding maximum_from
  maximum_index [] = 0
  maximum_index (v ∷ vs) = maximum_from 0 v 1 vs

  unfoldable pub round_four : F → F
  round_four v = ops.div (ops.round (ops.mul v (ops.of_ℕ 10000))) (ops.of_ℕ 10000)

  unfoldable pub expected_from : ℕ → F → List F → F
  expected_from i total [] = total
  expected_from i total (p ∷ ps) = expected_from (suc i) (ops.add total (ops.mul (ops.of_ℕ i) p)) ps

  unfoldable pub expected_score : PreparedQuestionKind → List F → F
  unfolding expected_from
  expected_score prepared_choice ps = ops.of_ℕ 0
  expected_score prepared_score ps = expected_from 0 (ops.of_ℕ 0) ps
  expected_score prepared_noul ps = ops.of_ℕ 0

  -- `probabilities[1]`: a question of this kind has two options, so the index is in range.
  unfoldable pub true_probability : PreparedQuestionKind → List F → F
  true_probability prepared_choice ps = ops.of_ℕ 0
  true_probability prepared_score ps = ops.of_ℕ 0
  true_probability prepared_noul ps = get_or ps 1 (ops.of_ℕ 0)

  unfoldable pub derive_output_row :
      PreparedQuestion → List F → List F → CalibrationConfig F → Outcome (RowDerivation F)
  unfolding stable_softmax confidence_from_probabilities expected_score true_probability
  derive_output_row q logits action_logits calibration = do
    refuse (not (length logits == length q.options)) bad_output
    temperature ← select_value calibration q
    probabilities ← stable_softmax logits temperature
    action_probabilities ← stable_softmax action_logits (ops.of_ℕ 1)
    ok (record {
      probabilities = probabilities;
      action_probabilities = action_probabilities;
      confidence = confidence_from_probabilities probabilities;
      expected_score = expected_score q.kind probabilities;
      true_probability = true_probability q.kind probabilities;
      temperature = temperature;
    })

  -- The two loops over the options, from index `i`. The derivation has a probability for each
  -- option, so the index is in range.
  unfoldable pub criterion_rows : ℕ → List F → List String → List (CriterionProbability F)
  criterion_rows i ps [] = []
  criterion_rows i ps (id ∷ ids) =
      record { criterion_id = id; probability = round_four (get_or ps i (ops.of_ℕ 0)) }
      ∷ criterion_rows (suc i) ps ids

  unfoldable pub level_rows : ℕ → List F → List String → List (ScoreProbability F)
  level_rows i ps [] = []
  level_rows i ps (label ∷ labels) =
      record { level = pos i; label = label; probability = round_four (get_or ps i (ops.of_ℕ 0)) }
      ∷ level_rows (suc i) ps labels

  -- `actionProbabilities[0]`: both action logits are there.
  abbrev pub action_of : RowDerivation F → F
  action_of d = round_four (get_or d.action_probabilities 0 (ops.of_ℕ 0))

  unfoldable pub result_of_kind :
      PreparedQuestionKind → PreparedQuestion → RowDerivation F → Outcome (Result F)
  unfolding criterion_rows level_rows maximum_index
  result_of_kind prepared_choice q d = do
    r ← new_choice_result q.id (record {
      selected = get_or q.option_ids (maximum_index d.probabilities) "";
      probabilities = criterion_rows 0 d.probabilities q.option_ids;
      confidence = round_four d.confidence;
      action_probability = action_of d;
    })
    ok (choice r)
  result_of_kind prepared_score q d = do
    r ← new_score_result q.id (record {
      expected_level = round_four d.expected_score;
      distribution = level_rows 0 d.probabilities q.option_labels;
      confidence = round_four d.confidence;
      action_probability = action_of d;
    })
    ok (score r)
  result_of_kind prepared_noul q d = do
    r ← new_noul_result q.id (record {
      true_probability = round_four d.true_probability;
      action_probability = action_of d;
    })
    ok (noul r)

  unfoldable pub result_from_derivation : PreparedQuestion → RowDerivation F → Outcome (Result F)
  unfolding result_of_kind
  result_from_derivation q d = result_of_kind q.kind q d

  -- The loop of `validateRawOutputs` over the rows, which are as many on both sides.
  unfoldable pub validate_rows : ℕ → List (List F) → List (List F) → Outcome (Unit {0})
  unfolding all_finite
  validate_rows width [] actions = ok tt
  validate_rows width (row ∷ rows) [] = ok tt
  validate_rows width (row ∷ rows) (action ∷ actions) = do
    refuse (not (length row == width)) bad_output
    refuse (not (length action == 2)) bad_output
    refuse (not (all_finite row)) bad_output
    refuse (not (all_finite action)) bad_output
    validate_rows width rows actions

  unfoldable pub validate_raw_outputs : PreparedBatch → RawModelOutputs F → Outcome (Unit {0})
  unfolding validate_rows
  validate_raw_outputs b o = do
    refuse
        (not (length o.logits == length b.items) || not (length o.action_logits == length b.items))
        bad_output
    validate_rows (first_width b.marker_pos) o.logits o.action_logits

  -- The loop over the items, with a row of each output for each item. `validate_raw_outputs` has
  -- seen that a row is as wide as the batch, so it is as long as the options of its item.
  unfoldable pub format_rows :
      CalibrationConfig F
      → List PreparedItem
      → List (List F)
      → List (List F)
      → Outcome (List (Result F))
  format_rows calibration [] logits actions = ok []
  format_rows calibration (i ∷ is) [] actions = err bad_output
  format_rows calibration (i ∷ is) (row ∷ rows) [] = err bad_output
  format_rows calibration (i ∷ is) (row ∷ rows) (action ∷ actions) = do
    derivation ←
        derive_output_row i.question (take (length i.question.options) row) action calibration
    result ← result_from_derivation i.question derivation
    rest ← format_rows calibration is rows actions
    ok (result ∷ rest)

  unfoldable pub format_inference_prediction :
      PreparedBatch
      → RawModelOutputs F
      → CalibrationConfig F
      → PredictionMetadata
      → Outcome (Prediction F)
  unfolding validate_raw_outputs format_rows
  format_inference_prediction b o calibration metadata = do
    validate_raw_outputs b o
    results ← format_rows calibration b.items o.logits o.action_logits
    new_prediction results b.usage (record metadata { truncation = b.truncation })
