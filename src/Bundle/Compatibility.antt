-- ===== src/Bundle/Compatibility.antt =====
-- compatibility.go: the one declaration that this build supports.
-- Two values are compared there by the texts that `fmt.Sprint` makes of them, which are equal
-- exactly if the values are: numbers are compared here as numbers, and texts as texts.
pub mod Budget
use laya_go.Prelude.{
  ℕ, ◌≡◌, ◌⊎◌, inl, inr, refl, ap, String, str_eq, Bool, true, false, ◌&&◌, not, List, [], ◌∷◌, map,
  arith,
}
use laya_go.Prelude.Int.{ℤ, pos, eqb_ℤ}
use laya_go.Prelude.Float.{FloatOps}
use laya_go.Errors.{
  Error, sentinel, unsupported_bundle, Outcome, ok, err, ◌>>=◌, ◌>>◌, refuse, Decides,
}
use laya_go.Question.Valid.{Tests, str_eq-Tests}
use laya_go.Bundle.Manifest.{TensorDescriptor, License, Action, Manifest}
use laya_go.Bundle.Valid.{◌&◌}

abbrev pub unsupported : Error
unsupported = sentinel unsupported_bundle

unfoldable pub equal_texts : List String → List String → Bool
equal_texts [] [] = true
equal_texts [] (t ∷ ts) = false
equal_texts (s ∷ ss) [] = false
equal_texts (s ∷ ss) (t ∷ ts) = str_eq s t && equal_texts ss ts

unfoldable pub equal_tensor_descriptors : List TensorDescriptor → List TensorDescriptor → Bool
unfolding equal_texts
equal_tensor_descriptors [] [] = true
equal_tensor_descriptors [] (w ∷ ws) = false
equal_tensor_descriptors (g ∷ gs) [] = false
equal_tensor_descriptors (g ∷ gs) (w ∷ ws) =
    str_eq g.name w.name
    && str_eq g.dtype w.dtype
    && equal_texts g.dimensions w.dimensions
    && equal_tensor_descriptors gs ws

unfoldable pub equal_licenses : List License → List License → Bool
equal_licenses [] [] = true
equal_licenses [] (w ∷ ws) = false
equal_licenses (g ∷ gs) [] = false
equal_licenses (g ∷ gs) (w ∷ ws) =
    str_eq g.component w.component
    && str_eq g.spdx w.spdx
    && str_eq g.path w.path
    && equal_licenses gs ws

abbrev tensor : String → String → List String → TensorDescriptor
tensor name dtype dimensions = record { name = name; dtype = dtype; dimensions = dimensions }

abbrev pub supported_inputs : List TensorDescriptor
supported_inputs =
    tensor "input_ids" "int64" ("batch" ∷ "sequence" ∷ [])
    ∷ tensor "attention_mask" "int64" ("batch" ∷ "sequence" ∷ [])
    ∷ tensor "marker_pos" "int64" ("batch" ∷ "markers" ∷ [])
    ∷ tensor "marker_mask" "bool" ("batch" ∷ "markers" ∷ [])
    ∷ tensor "qtype" "int64" ("batch" ∷ [])
    ∷ []

abbrev pub supported_outputs : List TensorDescriptor
supported_outputs =
    tensor "logits" "float32" ("batch" ∷ "markers" ∷ [])
    ∷ tensor "act_logits" "float32" ("batch" ∷ "actions" ∷ [])
    ∷ []

abbrev pub supported_licenses : List License
supported_licenses =
    record { component = "source-model"; spdx = "Apache-2.0"; path = "LICENSE.model" }
    ∷ record { component = "sdk-derived-exporter-code"; spdx = "Apache-2.0"; path = "LICENSE.sdk" }
    ∷ []

-- One action, of index 0 with the identifier `escalate`.
unfoldable pub is_escalate : List Action → Bool
is_escalate [] = false
is_escalate (a ∷ []) = eqb_ℤ a.index (pos 0) && str_eq a.id "escalate"
is_escalate (a ∷ b ∷ as') = false

-- A row of the table: two texts, two numbers, or two floats.
pub data Check (F : Type 0) : Type 0 where
  text : String → String → Check F
  number : ℤ → ℤ → Check F
  float : F → F → Check F

module _ {F : Type 0} ⦃ops : FloatOps F⦄ where
  unfoldable pub agrees : Check F → Bool
  agrees (text s t) = str_eq s t
  agrees (number a b) = eqb_ℤ a b
  agrees (float x y) = ops.eq x y

  abbrev pub checks : Manifest F → List (Check F)
  checks m =
      number m.schema_version (pos 1)
      ∷ text m.provenance.source_model.id "convaiinnovations/laya-multilingual"
      ∷ text m.provenance.source_model.revision "052592a15d198d9ad47da779604259b10b47b7aa"
      ∷ text m.provenance.sdk.repository "NandhaKishorM/laya"
      ∷ text m.provenance.sdk.revision "573e5b62696ba441230cd6be71d593331b5d23af"
      ∷ text m.provenance.sdk.version "0.3.5"
      ∷ text m.provenance.profile.id "laya-multilingual-v1"
      ∷ text m.provenance.profile.sha256
          "2dc717bbbf2bacb9c00d57f2ba7279c6a4332900bca84d12c000ebd6401a0235"
      ∷ text m.provenance.exporter.name "laya-go-export"
      ∷ text m.provenance.lock.path "tools/export/uv.lock"
      ∷ number m.preprocessing.version (pos 1)
      ∷ number m.preprocessing.max_len (pos 1024)
      ∷ number m.preprocessing.head_max_len (pos 256)
      ∷ number m.preprocessing.option_max_len (pos 48)
      ∷ number m.preprocessing.head_reserve (pos 16)
      ∷ text m.preprocessing.truncation_side "right"
      ∷ number m.preprocessing.qtypes.choice (pos 0)
      ∷ number m.preprocessing.qtypes.score (pos 1)
      ∷ number m.preprocessing.qtypes.noul (pos 2)
      ∷ text m.model.path "model.onnx"
      ∷ text m.model.format "onnx"
      ∷ number m.model.opset (pos 18)
      ∷ text m.model.precision "fp32"
      ∷ text m.tokenizer.json_path "tokenizer/tokenizer.json"
      ∷ text m.tokenizer.config_path "tokenizer/tokenizer_config.json"
      ∷ text m.calibration.config_path "rl_agent_config.json"
      ∷ float m.calibration.temperature_min (ops.div (ops.of_ℕ 1) (ops.of_ℕ 2))
      ∷ float m.calibration.temperature_max (ops.of_ℕ 5)
      ∷ float m.calibration.invalid_temperature (ops.of_ℕ 1)
      ∷ text m.runtime.engine "onnxruntime"
      ∷ text m.runtime.minimum_version "1.20.0"
      ∷ text m.runtime.maximum_exclusive "2.0.0"
      ∷ []

  -- The loop over the table.
  unfoldable pub validate_checks : List (Check F) → Outcome (Unit {0})
  unfolding agrees
  validate_checks [] = ok tt
  validate_checks (c ∷ cs) = do refuse (not (agrees c)) unsupported; validate_checks cs

  unfoldable pub validate_compatibility : Manifest F → Outcome (Unit {0})
  unfolding validate_checks equal_tensor_descriptors equal_texts is_escalate equal_licenses
  validate_compatibility m = do
    validate_checks (checks m)
    refuse (not (equal_tensor_descriptors m.model.inputs supported_inputs)) unsupported
    refuse (not (equal_tensor_descriptors m.model.outputs supported_outputs)) unsupported
    refuse
        (not
          (equal_texts m.calibration.selection_order ("option_bucket" ∷ "qtype" ∷ "default" ∷ [])))
        unsupported
    refuse (not (is_escalate m.calibration.actions)) unsupported
    refuse (not (equal_texts m.runtime.execution_providers ("CPUExecutionProvider" ∷ [])))
        unsupported
    refuse (not (equal_licenses m.provenance.licenses supported_licenses)) unsupported
    refuse (not (str_eq m.provenance.redistribution "approved")) unsupported

pub both :
    {P Q : Type 0} {m n : Outcome (Unit {0})} (e : Error)
    → Decides P m e
    → Decides Q n e
    → Decides (P & Q) (m >> n) e
both x (inl (p, e)) (inl (q, d)) = inl ((p, q), rw e d)
both x (inl (p, e)) (inr (nope, d)) = inr ((λ (_, q). nope q), rw e d)
both x (inr (nope, d)) b = inr ((λ (p, _). nope p), rw d refl)

pub needs : {P : Type 0} {b : Bool} → Tests P b → Decides P (refuse (not b) unsupported) unsupported
needs (inl (p, e)) = inl (p, rw e refl)
needs (inr (n, e)) = inr (n, rw e refl)

pub equal_texts-Tests : (ss ts : List String) → Tests (ss ≡ ts) (equal_texts ss ts)
unfolding equal_texts
equal_texts-Tests [] [] = inl (refl, refl)
equal_texts-Tests [] (t ∷ ts) = inr ((λ e. cc), refl)
equal_texts-Tests (s ∷ ss) [] = inr ((λ e. cc), refl)
equal_texts-Tests (s ∷ ss) (t ∷ ts) = ground (arith, str_eq-Tests s t, equal_texts-Tests ss ts)

pub equal_tensor_descriptors-Tests :
    (gs ws : List TensorDescriptor) → Tests (gs ≡ ws) (equal_tensor_descriptors gs ws)
unfolding equal_tensor_descriptors
equal_tensor_descriptors-Tests [] [] = inl (refl, refl)
equal_tensor_descriptors-Tests [] (w ∷ ws) = inr ((λ e. cc), refl)
equal_tensor_descriptors-Tests (g ∷ gs) [] = inr ((λ e. cc), refl)
equal_tensor_descriptors-Tests (g ∷ gs) (w ∷ ws) = ground (
  arith,
  str_eq-Tests g.name w.name,
  str_eq-Tests g.dtype w.dtype,
  equal_texts-Tests g.dimensions w.dimensions,
  equal_tensor_descriptors-Tests gs ws,
)

pub equal_licenses-Tests : (gs ws : List License) → Tests (gs ≡ ws) (equal_licenses gs ws)
unfolding equal_licenses
equal_licenses-Tests [] [] = inl (refl, refl)
equal_licenses-Tests [] (w ∷ ws) = inr ((λ e. cc), refl)
equal_licenses-Tests (g ∷ gs) [] = inr ((λ e. cc), refl)
equal_licenses-Tests (g ∷ gs) (w ∷ ws) = ground (
  arith,
  str_eq-Tests g.component w.component,
  str_eq-Tests g.spdx w.spdx,
  str_eq-Tests g.path w.path,
  equal_licenses-Tests gs ws,
)

pub is_escalate-Tests :
    (as' : List Action)
    → Tests (as' ≡ record { index = pos 0; id = "escalate" } ∷ []) (is_escalate as')
unfolding is_escalate
is_escalate-Tests [] = inr ((λ e. cc), refl)
is_escalate-Tests (a ∷ []) = ground (arith, str_eq-Tests a.id "escalate")
is_escalate-Tests (a ∷ b ∷ as') = inr ((λ e. cc), refl)
