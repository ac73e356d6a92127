-- ===== src/Predict/Engine.antt =====
-- `nativeModelEngine.Predict` of native_lifecycle.go: prepare, run the session, format.
use laya_go.Prelude.{String, Bool, true, false, not, ◌||◌, Option, none, some, List, if◌then◌else◌}
use laya_go.Prelude.Int.{pos}
use laya_go.Prelude.Float.{FloatOps}
use laya_go.Errors.{
  Category, Error, sentinel, stage_error, joined, matches, model_closed, invalid_state,
  invalid_output, native_failure, Outcome, ok, err, ◌>>=◌, ◌>>◌, refuse,
}
use laya_go.State.{State}
use laya_go.Question.{Question}
use laya_go.Options.{ModelOptions}
use laya_go.Prediction.{Prediction, PredictionMetadata}
use laya_go.Preprocess.{Manifest, Tokenizer}
use laya_go.Batch.{PreparedBatch, prepare_inference_batch}
use laya_go.Output.{RawModelOutputs, CalibrationConfig, format_inference_prediction}

abbrev pub Context : Type 0
Context = Option Category

-- The fields of `nativeModelEngine` that `Predict` reads; `has_session` says that it is not nil.
-- `bundle_id` is `manifest.ID()`.
pub record Native (F : Type 0) : Type 0 where
  pub closed : Bool
  pub tokenizer : Option Tokenizer
  pub has_session : Bool
  pub manifest : Manifest
  pub model_id : String
  pub bundle_id : String
  pub runtime_id : String
  pub calibration : CalibrationConfig F
  pub model_opts : ModelOptions

-- What the context gives at the places where it is asked, and `session.Run`.
pub record World (F : Type 0) : Type 0 where
  pub json_valid : String → Bool
  pub entry : Context
  pub prepared : Context
  pub ran : Context
  pub run : PreparedBatch → Outcome (RawModelOutputs F)

abbrev pub checked : Context → Outcome (Unit {0})
checked none = ok tt
checked (some c) = err (sentinel c)

abbrev pub is_none {ℓ} : {A : Type ℓ} → Option A → Bool
is_none none = true
is_none (some a) = false

-- The error of a run that failed, by what the context gives then.
unfoldable pub run_failure : Context → Error → Error
run_failure (some c) e = stage_error c (joined (sentinel c) e)
run_failure none e =
    if matches e invalid_output then stage_error invalid_output e else stage_error native_failure e

unfoldable pub run_session : {F : Type 0} → World F → PreparedBatch → Outcome (RawModelOutputs F)
unfolding run_failure
run_session w batch = elim (w.run batch) [
  | ok outputs ↦ ok outputs
  | err e ↦ err (run_failure w.ran e)
]

abbrev pub metadata_of : {F : Type 0} → Native F → PredictionMetadata
metadata_of n = record {
  model_id = n.model_id;
  bundle_id = n.bundle_id;
  runtime_id = n.runtime_id;
  truncation = record {
    truncated = false;
    original_input_tokens = pos 0;
    effective_input_tokens = pos 0;
  };
}

unfoldable pub predict :
    {F : Type 0} ⦃ops : FloatOps F⦄
    → Native F
    → World F
    → State
    → List Question
    → Outcome (Prediction F)
unfolding run_session
predict n w state questions = do
  checked w.entry
  refuse n.closed (sentinel model_closed)
  refuse (is_none n.tokenizer || not n.has_session) (sentinel invalid_state)
  batch ← prepare_inference_batch w.json_valid state questions n.manifest n.tokenizer n.model_opts
  checked w.prepared
  outputs ← run_session w batch
  checked w.ran
  format_inference_prediction batch outputs n.calibration (metadata_of n)
