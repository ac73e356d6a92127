-- ===== src/Bundle/Compatibility/Budget.antt =====
-- What the check of compatibility accepts, and that its lengths leave room for any question of a
-- moderate number of options.
use laya_go.Prelude.{ℕ, ◌≤◌, ◌≡◌, inl, inr, refl, String, true, List, [], ◌∷◌, All, length, arith}
use laya_go.Prelude.Int.{pos}
use laya_go.Prelude.Float.{FloatOps}
use laya_go.Errors.{ok, Decides}
use laya_go.Question.Valid.{Tests, str_eq-Tests}
use laya_go.Options.{truncate_overflow}
use laya_go.Preprocess.{PreparedQuestion, PreparedItem, prepare_item}
use laya_go.Preprocess
use laya_go.Preprocess.Fits.{HasLengths, prepare_item-fits}
use laya_go.Bundle.Manifest.{TensorDescriptor, Manifest, preprocessing_of}
use laya_go.Bundle.Valid.{◌&◌}
use laya_go.Bundle.Compatibility.{
  unsupported, Check, text, number, float, agrees, checks, validate_checks, validate_compatibility,
  supported_inputs, supported_outputs, supported_licenses, both, needs, equal_texts-Tests,
  equal_tensor_descriptors-Tests, equal_licenses-Tests, is_escalate-Tests,
}

abbrev descriptor : String → String → List String → TensorDescriptor
descriptor name dtype dimensions = record { name = name; dtype = dtype; dimensions = dimensions }

module _ {F : Type 0} ⦃ops : FloatOps F⦄ where
  -- A row of the table holds: the two values are equal, floats as floats are.
  abbrev pub Holds : Check F → Type 0
  Holds (text s t) = s ≡ t
  Holds (number a b) = a ≡ b
  Holds (float x y) = ops.eq x y ≡ true

  agrees-Tests : (c : Check F) → Tests (Holds c) (agrees c)
  unfolding agrees
  agrees-Tests (text s t) = str_eq-Tests s t
  agrees-Tests (number a b) = ground arith
  agrees-Tests (float x y) = ground arith

  validate_checks-Decides :
      (cs : List (Check F)) → Decides (All Holds cs) (validate_checks cs) unsupported
  unfolding validate_checks
  validate_checks-Decides [] = inl (tt, refl)
  validate_checks-Decides (c ∷ cs) =
      both unsupported (needs (agrees-Tests c)) (validate_checks-Decides cs)

  -- The values that the one supported bundle has; floats are compared as floats are.
  abbrev pub HasSupportedValues : Manifest F → Type 0
  HasSupportedValues m =
      (m.schema_version ≡ pos 1)
      & (m.provenance.source_model.id ≡ "convaiinnovations/laya-multilingual")
      & (m.provenance.source_model.revision ≡ "052592a15d198d9ad47da779604259b10b47b7aa")
      & (m.provenance.sdk.repository ≡ "NandhaKishorM/laya")
      & (m.provenance.sdk.revision ≡ "573e5b62696ba441230cd6be71d593331b5d23af")
      & (m.provenance.sdk.version ≡ "0.3.5")
      & (m.provenance.profile.id ≡ "laya-multilingual-v1")
      & (m.provenance.profile.sha256
          ≡ "2dc717bbbf2bacb9c00d57f2ba7279c6a4332900bca84d12c000ebd6401a0235")
      & (m.provenance.exporter.name ≡ "laya-go-export")
      & (m.provenance.lock.path ≡ "tools/export/uv.lock")
      & (m.preprocessing.version ≡ pos 1)
      & (m.preprocessing.max_len ≡ pos 1024)
      & (m.preprocessing.head_max_len ≡ pos 256)
      & (m.preprocessing.option_max_len ≡ pos 48)
      & (m.preprocessing.head_reserve ≡ pos 16)
      & (m.preprocessing.truncation_side ≡ "right")
      & (m.preprocessing.qtypes.choice ≡ pos 0)
      & (m.preprocessing.qtypes.score ≡ pos 1)
      & (m.preprocessing.qtypes.noul ≡ pos 2)
      & (m.model.path ≡ "model.onnx")
      & (m.model.format ≡ "onnx")
      & (m.model.opset ≡ pos 18)
      & (m.model.precision ≡ "fp32")
      & (m.tokenizer.json_path ≡ "tokenizer/tokenizer.json")
      & (m.tokenizer.config_path ≡ "tokenizer/tokenizer_config.json")
      & (m.calibration.config_path ≡ "rl_agent_config.json")
      & (ops.eq m.calibration.temperature_min (ops.div (ops.of_ℕ 1) (ops.of_ℕ 2)) ≡ true)
      & (ops.eq m.calibration.temperature_max (ops.of_ℕ 5) ≡ true)
      & (ops.eq m.calibration.invalid_temperature (ops.of_ℕ 1) ≡ true)
      & (m.runtime.engine ≡ "onnxruntime")
      & (m.runtime.minimum_version ≡ "1.20.0")
      & (m.runtime.maximum_exclusive ≡ "2.0.0")
      & Unit {0}

  abbrev pub IsSupported : Manifest F → Type 0
  IsSupported m =
      HasSupportedValues m
      & (m.model.inputs
          ≡ descriptor "input_ids" "int64" ("batch" ∷ "sequence" ∷ [])
            ∷ descriptor "attention_mask" "int64" ("batch" ∷ "sequence" ∷ [])
            ∷ descriptor "marker_pos" "int64" ("batch" ∷ "markers" ∷ [])
            ∷ descriptor "marker_mask" "bool" ("batch" ∷ "markers" ∷ [])
            ∷ descriptor "qtype" "int64" ("batch" ∷ [])
            ∷ [])
      & (m.model.outputs
          ≡ descriptor "logits" "float32" ("batch" ∷ "markers" ∷ [])
            ∷ descriptor "act_logits" "float32" ("batch" ∷ "actions" ∷ [])
            ∷ [])
      & (m.calibration.selection_order ≡ "option_bucket" ∷ "qtype" ∷ "default" ∷ [])
      & (m.calibration.actions ≡ record { index = pos 0; id = "escalate" } ∷ [])
      & (m.runtime.execution_providers ≡ "CPUExecutionProvider" ∷ [])
      & (m.provenance.licenses
          ≡ record { component = "source-model"; spdx = "Apache-2.0"; path = "LICENSE.model" }
            ∷ record {
              component = "sdk-derived-exporter-code";
              spdx = "Apache-2.0";
              path = "LICENSE.sdk";
            }
            ∷ [])
      & (m.provenance.redistribution ≡ "approved")

  -- `validateCompatibility` accepts exactly the manifests with each supported value, the supported tensors, selection order, action, execution provider and licenses, whose
  -- redistribution is approved; any other is refused as an unsupported bundle.
  pub validate_compatibility-Decides :
      (m : Manifest F) → Decides (IsSupported m) (validate_compatibility m) unsupported
  unfolding validate_compatibility
  validate_compatibility-Decides m = both unsupported (validate_checks-Decides (checks m)) (
      both unsupported (needs (equal_tensor_descriptors-Tests m.model.inputs supported_inputs)) (
        both unsupported (needs (equal_tensor_descriptors-Tests m.model.outputs supported_outputs))
          (both unsupported (needs (equal_texts-Tests m.calibration.selection_order _)) (
            both unsupported (needs (is_escalate-Tests m.calibration.actions)) (
              both unsupported (needs (equal_texts-Tests m.runtime.execution_providers _)) (
                both unsupported
                  (needs (equal_licenses-Tests m.provenance.licenses supported_licenses))
                  (needs (str_eq-Tests m.provenance.redistribution "approved"))))))))

  IsSupported-HasLengths : (m : Manifest F) → IsSupported m → HasLengths (preprocessing_of m)
  IsSupported-HasLengths m h = ground arith

  -- With a bundle that the check of compatibility accepts, and its own token limit, a question of at
  -- most 253 options is never too long under the truncating policy: where the tokenizer answers every
  -- text, `prepareItem` returns an item, whatever the state and the question say.
  pub validate_compatibility-fits :
      (m : Manifest F) (state : String) (q : PreparedQuestion) (tokenizer : Preprocess.Tokenizer)
      → validate_compatibility m ≡ ok tt
      → length q.options ≤ 253
      → ((text : String) → (ids : List ℕ) × (tokenizer text ≡ ok ids))
      → (item : PreparedItem) × (prepare_item state q
            (preprocessing_of m)
            tokenizer
            (preprocessing_of m).max_len
            truncate_overflow
          ≡ ok item)
  validate_compatibility-fits m state q tokenizer e k total =
      elim (validate_compatibility-Decides m) [
        | inl (h, _) ↦
            prepare_item-fits state q (preprocessing_of m) tokenizer (preprocessing_of m).max_len
              (IsSupported-HasLengths m h) (omega arith) k total
        | inr (_, d) ↦ cc
      ]
