-- ===== src/Bundle/Json/Shape.antt =====
-- `validateExactFields` of parse.go: a value against the type that it is decoded into. Go finds the
-- types by reflection; `manifest_shape` is what it finds of `Manifest` and the types in it.
use laya_go.Prelude.{String, str_eq, not, Option, none, some, List, [], ◌∷◌, if◌then◌else◌}
use laya_go.Errors.{Outcome, ok, err, ◌>>◌, refuse}
use laya_go.Question.{seen_before}
use laya_go.Bundle.Rules.{bad_bundle}
use laya_go.Bundle.Json.Value.{
  Json, null, plain, string, array, object, Elements, nil, element, Fields, end, field, keys,
}

-- A type: a struct with the names of its exported fields in JSON, a slice, or any other.
mutual
  pub data Shape : Type 0 where
    struct : Shapes → Shape
    slice : Shape → Shape
    simple : Shape

  pub data Shapes : Type 0 where
    last : Shapes
    member : String → Shape → Shapes → Shapes

unfoldable pub find_shape : String → Shapes → Option Shape
find_shape k last = none
find_shape k (member name sh rest) =
    let later = find_shape k rest in if str_eq name k then some sh else later

unfoldable pub require_fields : Shapes → List String → Outcome (Unit {0})
require_fields last ks = ok tt
require_fields (member name sh rest) ks = do
  refuse (not (seen_before ks name)) bad_bundle
  require_fields rest ks

-- An object is a Go map: no key twice, which is checked before.
unfoldable mutual
  unfolding find_shape require_fields

  pub validate_exact_fields : Json → Shape → Outcome (Unit {0})
  validate_exact_fields null sh = ok tt
  validate_exact_fields plain (struct shapes) = err bad_bundle
  validate_exact_fields plain (slice sh) = err bad_bundle
  validate_exact_fields plain simple = ok tt
  validate_exact_fields (string s) (struct shapes) = err bad_bundle
  validate_exact_fields (string s) (slice sh) = err bad_bundle
  validate_exact_fields (string s) simple = ok tt
  validate_exact_fields (array es) (struct shapes) = err bad_bundle
  validate_exact_fields (array es) (slice sh) = validate_elements es sh
  validate_exact_fields (array es) simple = ok tt
  validate_exact_fields (object fs) (struct shapes) = do
    validate_known fs shapes
    require_fields shapes (keys fs)
  validate_exact_fields (object fs) (slice sh) = err bad_bundle
  validate_exact_fields (object fs) simple = ok tt

  pub validate_elements : Elements → Shape → Outcome (Unit {0})
  validate_elements nil sh = ok tt
  validate_elements (element v es) sh = do validate_exact_fields v sh; validate_elements es sh

  -- The loop over the fields of an object.
  pub validate_known : Fields → Shapes → Outcome (Unit {0})
  validate_known end shapes = ok tt
  validate_known (field k v fs) shapes = do
    elim (find_shape k shapes) [ none ↦ err bad_bundle | some sh ↦ validate_exact_fields v sh ]
    validate_known fs shapes

abbrev fields_of : List (String × Shape) → Shapes
fields_of [] = last
fields_of ((name, sh) ∷ rest) = member name sh (fields_of rest)

abbrev simples : List String → Shapes
simples [] = last
simples (name ∷ rest) = member name simple (simples rest)

abbrev record_of : List String → Shape
record_of names = struct (simples names)

abbrev provenance_shape : Shape
provenance_shape = struct (
    fields_of (
      ("source_model", record_of ("id" ∷ "revision" ∷ []))
      ∷ ("sdk", record_of ("repository" ∷ "revision" ∷ "version" ∷ []))
      ∷ ("profile", record_of ("id" ∷ "sha256" ∷ []))
      ∷ ("exporter", record_of ("name" ∷ "version" ∷ "source_sha256" ∷ "git_revision" ∷ []))
      ∷ ("lock", record_of ("path" ∷ "sha256" ∷ []))
      ∷ ("created_at", simple)
      ∷ ("source_date_epoch", simple)
      ∷ ("redistribution", simple)
      ∷ ("licenses", slice (record_of ("component" ∷ "spdx" ∷ "path" ∷ [])))
      ∷ []))

abbrev preprocessing_shape : Shape
preprocessing_shape = struct (
    fields_of (
      ("version", simple)
      ∷ ("max_len", simple)
      ∷ ("head_max_len", simple)
      ∷ ("option_max_len", simple)
      ∷ ("head_reserve", simple)
      ∷ ("truncation_side", simple)
      ∷ ("qtypes", record_of ("choice" ∷ "score" ∷ "noul" ∷ []))
      ∷ []))

abbrev tensor_shape : Shape
tensor_shape =
    struct (fields_of (("name", simple) ∷ ("dtype", simple) ∷ ("dimensions", slice simple) ∷ []))

abbrev model_shape : Shape
model_shape = struct (
    fields_of (
      ("path", simple)
      ∷ ("format", simple)
      ∷ ("opset", simple)
      ∷ ("precision", simple)
      ∷ ("external_data", slice simple)
      ∷ ("inputs", slice tensor_shape)
      ∷ ("outputs", slice tensor_shape)
      ∷ []))

abbrev tokenizer_shape : Shape
tokenizer_shape = struct (
    fields_of (
      ("json_path", simple)
      ∷ ("config_path", simple)
      ∷ ("special_tokens", record_of ("cls" ∷ "sep" ∷ "mask" ∷ "pad" ∷ []))
      ∷ []))

abbrev calibration_shape : Shape
calibration_shape = struct (
    fields_of (
      ("config_path", simple)
      ∷ ("temperature_min", simple)
      ∷ ("temperature_max", simple)
      ∷ ("invalid_temperature", simple)
      ∷ ("selection_order", slice simple)
      ∷ ("actions", slice (record_of ("index" ∷ "id" ∷ [])))
      ∷ []))

abbrev runtime_shape : Shape
runtime_shape = struct (
    fields_of (
      ("engine", simple)
      ∷ ("minimum_version", simple)
      ∷ ("maximum_exclusive", simple)
      ∷ ("execution_providers", slice simple)
      ∷ []))

abbrev pub manifest_fields : Shapes
manifest_fields = fields_of (
    ("schema_version", simple)
    ∷ ("bundle", record_of ("id" ∷ "version" ∷ []))
    ∷ ("provenance", provenance_shape)
    ∷ ("preprocessing", preprocessing_shape)
    ∷ ("model", model_shape)
    ∷ ("tokenizer", tokenizer_shape)
    ∷ ("calibration", calibration_shape)
    ∷ ("runtime", runtime_shape)
    ∷ ("files", slice (record_of ("role" ∷ "path" ∷ "size" ∷ "sha256" ∷ [])))
    ∷ [])

abbrev pub manifest_shape : Shape
manifest_shape = struct manifest_fields
