-- ===== src/Predict/Agreement.antt =====
-- What a call of a model returns, and that the native engine never fails the model's check.
use laya_go.Prelude.{◌≡◌, inl, inr, refl, not, ◌||◌, List}
use laya_go.Prelude.Float.{FloatOps}
use laya_go.Errors.{sentinel, model_closed, invalid_state, ok, ◌>>◌, refuse, Outcome-cases}
use laya_go.State.{State, validate_state}
use laya_go.Question.{Question, validate_questions}
use laya_go.Prediction.{Prediction}
use laya_go.Check.{validate_prediction_for_questions}
use laya_go.Batch.{prepare_inference_batch}
use laya_go.Output.Matching.{bind-eq-ok, format_inference_prediction-matches}
use laya_go.Predict.{Caller, live, predict}
use laya_go.Predict.Engine.{Native, World, checked, is_none, run_session, metadata_of}
use laya_go.Predict.Engine

module _ {F : Type 0} ⦃ops : FloatOps F⦄ where
  -- A prediction of the native engine passes the model's check against its questions.
  pub predict-matches :
      (n : Native F) (w : World F) (state : State) (qs : List Question) (p : Prediction F)
      → Engine.predict n w state qs ≡ ok p
      → validate_prediction_for_questions p qs ≡ ok tt
  unfolding Engine.predict
  predict-matches n w state qs p e =
      let (_, _, e₁) = bind-eq-ok (checked w.entry) _ e in
      let (_, _, e₂) = bind-eq-ok (refuse n.closed (sentinel model_closed)) _ e₁ in
      let (_, _, e₃) =
        bind-eq-ok (refuse (is_none n.tokenizer || not n.has_session) (sentinel invalid_state)) _
          e₂ in
      let (b, f, e₄) =
        bind-eq-ok
          (prepare_inference_batch w.json_valid state qs n.manifest n.tokenizer n.model_opts) _
          e₃ in
      let (_, _, e₅) = bind-eq-ok (checked w.prepared) _ e₄ in
      let (outputs, _, e₆) = bind-eq-ok (run_session w b) _ e₅ in
      let (_, _, e₇) = bind-eq-ok (checked w.ran) _ e₆ in
      format_inference_prediction-matches w.json_valid state qs n.manifest n.tokenizer n.model_opts
        b outputs n.calibration (metadata_of n) p f e₇

  -- In front of the native engine the model's check of the prediction never fails: the call returns
  -- what the engine returns, once the context is live, the state and the questions are valid and the
  -- call is admitted.
  pub predict-native :
      (caller : Caller) (n : Native F) (w : World F) (state : State) (qs : List Question)
      → predict caller (Engine.predict n w) state qs ≡ (
          live caller.entry
          >> (validate_state caller.json_valid state
              >> (validate_questions qs >> (caller.acquired >> Engine.predict n w state qs))))
  unfolding predict
  predict-native caller n w state qs = elim (Outcome-cases (Engine.predict n w state qs)) [
    | inl (p, e) ↦ rw (e, predict-matches n w state qs p e) refl
    | inr (x, e) ↦ rw e refl
  ]
