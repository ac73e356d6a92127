-- ===== src/Tests/Sample.antt =====
-- The sample manifest, and the JSON that it is decoded from.
use laya_go.Prelude.{ℕ, String, List, [], ◌∷◌}
use laya_go.Prelude.Int.{pos}
use laya_go.Bundle.Manifest.{TensorDescriptor, File, Manifest}
use laya_go.Bundle.Compatibility.{supported_inputs, supported_outputs, supported_licenses}
use laya_go.Bundle.Json.Value.{
  Json, plain, string, array, object, Elements, nil, element, Fields, end, field,
}

abbrev pub sha : String
sha = "2dc717bbbf2bacb9c00d57f2ba7279c6a4332900bca84d12c000ebd6401a0235"

abbrev revision : String
revision = "052592a15d198d9ad47da779604259b10b47b7aa"

abbrev file : String → String → File
file role path = record { role = role; path = path; size = pos 2; sha256 = sha }

abbrev pub files : List File
files =
    file "license" "LICENSE.model"
    ∷ file "license" "LICENSE.sdk"
    ∷ file "notice" "NOTICE.model"
    ∷ file "notice" "NOTICE.sdk"
    ∷ file "model" "model.onnx"
    ∷ file "agent-config" "rl_agent_config.json"
    ∷ file "tokenizer" "tokenizer/tokenizer.json"
    ∷ file "tokenizer-config" "tokenizer/tokenizer_config.json"
    ∷ []

abbrev pub supported : Manifest ℕ
supported = record {
  schema_version = pos 1;
  bundle = record { id = "laya/demo"; version = "1.0.0" };
  provenance = record {
    source_model = record { id = "convaiinnovations/laya-multilingual"; revision = revision };
    sdk = record {
      repository = "NandhaKishorM/laya";
      revision = "573e5b62696ba441230cd6be71d593331b5d23af";
      version = "0.3.5";
    };
    profile = record { id = "laya-multilingual-v1"; sha256 = sha };
    exporter = record {
      name = "laya-go-export";
      version = "0.1.0";
      source_sha256 = sha;
      git_revision = revision;
    };
    lock = record { path = "tools/export/uv.lock"; sha256 = sha };
    created_at = "2023-11-14T22:13:20Z";
    source_date_epoch = pos 1700000000;
    redistribution = "approved";
    licenses = supported_licenses;
  };
  preprocessing = record {
    version = pos 1;
    max_len = pos 1024;
    head_max_len = pos 256;
    option_max_len = pos 48;
    head_reserve = pos 16;
    truncation_side = "right";
    qtypes = record { choice = pos 0; score = pos 1; noul = pos 2 };
  };
  model = record {
    path = "model.onnx";
    format = "onnx";
    opset = pos 18;
    precision = "fp32";
    external_data = [];
    inputs = supported_inputs;
    outputs = supported_outputs;
  };
  tokenizer = record {
    json_path = "tokenizer/tokenizer.json";
    config_path = "tokenizer/tokenizer_config.json";
    special_tokens = record { cls = pos 1; sep = pos 2; mask = pos 3; pad = pos 0 };
  };
  calibration = record {
    config_path = "rl_agent_config.json";
    temperature_min = 5000;
    temperature_max = 50000;
    invalid_temperature = 10000;
    selection_order = "option_bucket" ∷ "qtype" ∷ "default" ∷ [];
    actions = record { index = pos 0; id = "escalate" } ∷ [];
  };
  runtime = record {
    engine = "onnxruntime";
    minimum_version = "1.20.0";
    maximum_exclusive = "2.0.0";
    execution_providers = "CPUExecutionProvider" ∷ [];
  };
  files = files;
}

abbrev object_of : List (String × Json) → Fields
object_of [] = end
object_of ((k, v) ∷ rest) = field k v (object_of rest)

abbrev source_model_json : Json
source_model_json = object (
    object_of
      (("id", string "convaiinnovations/laya-multilingual") ∷ ("revision", string revision) ∷ []))

abbrev sdk_json : Json
sdk_json = object (
    object_of (
      ("repository", string "NandhaKishorM/laya")
      ∷ ("revision", string "573e5b62696ba441230cd6be71d593331b5d23af")
      ∷ ("version", string "0.3.5")
      ∷ []))

abbrev profile_json : Json
profile_json =
    object (object_of (("id", string "laya-multilingual-v1") ∷ ("sha256", string sha) ∷ []))

abbrev exporter_json : Json
exporter_json = object (
    object_of (
      ("name", string "laya-go-export")
      ∷ ("version", string "0.1.0")
      ∷ ("source_sha256", string sha)
      ∷ ("git_revision", string revision)
      ∷ []))

abbrev lock_json : Json
lock_json =
    object (object_of (("path", string "tools/export/uv.lock") ∷ ("sha256", string sha) ∷ []))

abbrev model_license_json : Json
model_license_json = object (
    object_of (
      ("component", string "source-model")
      ∷ ("spdx", string "Apache-2.0")
      ∷ ("path", string "LICENSE.model")
      ∷ []))

abbrev sdk_license_json : Json
sdk_license_json = object (
    object_of (
      ("component", string "sdk-derived-exporter-code")
      ∷ ("spdx", string "Apache-2.0")
      ∷ ("path", string "LICENSE.sdk")
      ∷ []))

abbrev provenance_json : Json
provenance_json = object (
    object_of (
      ("source_model", source_model_json)
      ∷ ("sdk", sdk_json)
      ∷ ("profile", profile_json)
      ∷ ("exporter", exporter_json)
      ∷ ("lock", lock_json)
      ∷ ("created_at", string "2023-11-14T22:13:20Z")
      ∷ ("source_date_epoch", plain)
      ∷ ("redistribution", string "approved")
      ∷ ("licenses", array (element model_license_json (element sdk_license_json nil)))
      ∷ []))

abbrev qtypes_json : Json
qtypes_json = object (object_of (("choice", plain) ∷ ("score", plain) ∷ ("noul", plain) ∷ []))

abbrev preprocessing_json : Json
preprocessing_json = object (
    object_of (
      ("version", plain)
      ∷ ("max_len", plain)
      ∷ ("head_max_len", plain)
      ∷ ("option_max_len", plain)
      ∷ ("head_reserve", plain)
      ∷ ("truncation_side", string "right")
      ∷ ("qtypes", qtypes_json)
      ∷ []))

abbrev strings : List String → Elements
strings [] = nil
strings (s ∷ ss) = element (string s) (strings ss)

abbrev tensors : List TensorDescriptor → Elements
tensors [] = nil
tensors (t ∷ ts) =
    element
      (object (
        object_of (
          ("name", string t.name)
          ∷ ("dtype", string t.dtype)
          ∷ ("dimensions", array (strings t.dimensions))
          ∷ [])))
      (tensors ts)

abbrev model_json : Json
model_json = object (
    object_of (
      ("path", string "model.onnx")
      ∷ ("format", string "onnx")
      ∷ ("opset", plain)
      ∷ ("precision", string "fp32")
      ∷ ("external_data", array nil)
      ∷ ("inputs", array (tensors supported_inputs))
      ∷ ("outputs", array (tensors supported_outputs))
      ∷ []))

abbrev special_tokens_json : Json
special_tokens_json =
    object (object_of (("cls", plain) ∷ ("sep", plain) ∷ ("mask", plain) ∷ ("pad", plain) ∷ []))

abbrev tokenizer_json : Json
tokenizer_json = object (
    object_of (
      ("json_path", string "tokenizer/tokenizer.json")
      ∷ ("config_path", string "tokenizer/tokenizer_config.json")
      ∷ ("special_tokens", special_tokens_json)
      ∷ []))

abbrev escalate_json : Json
escalate_json = object (object_of (("index", plain) ∷ ("id", string "escalate") ∷ []))

abbrev calibration_json : Json
calibration_json = object (
    object_of (
      ("config_path", string "rl_agent_config.json")
      ∷ ("temperature_min", plain)
      ∷ ("temperature_max", plain)
      ∷ ("invalid_temperature", plain)
      ∷ ("selection_order", array (strings ("option_bucket" ∷ "qtype" ∷ "default" ∷ [])))
      ∷ ("actions", array (element escalate_json nil))
      ∷ []))

abbrev runtime_json : Json
runtime_json = object (
    object_of (
      ("engine", string "onnxruntime")
      ∷ ("minimum_version", string "1.20.0")
      ∷ ("maximum_exclusive", string "2.0.0")
      ∷ ("execution_providers", array (strings ("CPUExecutionProvider" ∷ [])))
      ∷ []))

abbrev file_elements : List File → Elements
file_elements [] = nil
file_elements (f ∷ fs) =
    element
      (object (
        object_of (
          ("role", string f.role)
          ∷ ("path", string f.path)
          ∷ ("size", plain)
          ∷ ("sha256", string f.sha256)
          ∷ [])))
      (file_elements fs)

abbrev bundle_json : Json
bundle_json = object (object_of (("id", string "laya/demo") ∷ ("version", string "1.0.0") ∷ []))

abbrev pub manifest_json : Fields
manifest_json = object_of (
    ("schema_version", plain)
    ∷ ("bundle", bundle_json)
    ∷ ("provenance", provenance_json)
    ∷ ("preprocessing", preprocessing_json)
    ∷ ("model", model_json)
    ∷ ("tokenizer", tokenizer_json)
    ∷ ("calibration", calibration_json)
    ∷ ("runtime", runtime_json)
    ∷ ("files", array (file_elements files))
    ∷ [])
