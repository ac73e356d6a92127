-- ===== src/Tests/Bundle.antt =====
-- A bundle that this build supports, and what the checks say of it.
use laya_go.Prelude.{
  ℕ, ◌≡◌, ◌↔◌, ◌≤◌, refl, String, str_eq, true, false, not, none, List, [], ◌∷◌, All, Has, length,
  ◌==◌, if◌then◌else◌, arith,
}
use laya_go.Prelude.Int.{pos}
use laya_go.Errors.{ok, Decides}
use laya_go.Question.{seen_before}
use laya_go.Options.{truncate_overflow}
use laya_go.Preprocess.{PreparedItem, normalize_choice, prepare_item}
use laya_go.Bundle.Manifest.{File, preprocessing_of}
use laya_go.Bundle.Text.{all_chars, begins_alphanumeric, byte_count, codes_lt, is_hex, is_sorted}
use laya_go.Bundle.Rules.{
  Library, validate_manifest, valid_role, validate_actions, validate_calibration,
  validate_created_at, validate_external, validate_files, validate_hex, validate_identifier,
  validate_licenses, validate_model, validate_path, validate_positive, validate_preprocessing,
  validate_provenance, validate_runtime, validate_string, validate_tokenizer, validate_version,
}
use laya_go.Bundle.Valid.{Accepts}
use laya_go.Bundle.Valid.Whole.{IsManifest, validate_manifest-Accepts}
use laya_go.Bundle.Compatibility.{
  validate_compatibility, validate_checks, agrees, equal_texts, equal_tensor_descriptors,
  equal_licenses, is_escalate, unsupported,
}
use laya_go.Bundle.Compatibility.Budget.{
  IsSupported, validate_compatibility-Decides, validate_compatibility-fits,
}
use laya_go.Bundle.Verify.{
  count_role, find_file, none_is_manifest, read_all, require_role, require_seen, validate_required,
  validate_role_counts, verify_declared, verify_entry, verify_file, verify_kind, walk, directory,
  regular, ends, gives, Entry, validate_layout, verify_files,
}
use laya_go.Bundle.Verify.Exact.{IsEntry, Found, verify_files-Exact}
use laya_go.Bundle.Layout.{IsLayout, validate_layout-Accepts}
use laya_go.Bundle.Parse.{Document, parse, verify, verify-ok}
use laya_go.Tests.Sample.{sha, files, supported, manifest_json}
use laya_go.Bundle.Json.{consume_json_value, reject_duplicate_fields, require_eof}
use laya_go.Bundle.Json.Value.{plain, object, Fields, end, field, tokens, keys}
use laya_go.Bundle.Json.Unique.{IsUnique, reject_duplicate_fields-Accepts}
use laya_go.Bundle.Json.Shape.{
  find_shape, require_fields, validate_exact_fields, manifest_fields, manifest_shape,
}
use laya_go.Bundle.Json.Exact.{names, occurrences, validate_exact_fields-once}
use laya_go.Bundle.Reading.{Source, explained, read_limited, read_manifest, verify_source}
use laya_go.Bundle.Reading.Exact.{IsReadable, read_manifest-Exact}
use laya_go.Tests.Data.{scaled, route, tokenizer}

-- A digest that only looks at the length.
abbrev digest : List ℕ → String
digest bytes = if length bytes == 2 then sha else ""

abbrev lib : Library
lib = record {
  valid_path = λ p. not (str_eq p "");
  to_lower = λ s. s;
  has_backslash = λ p. false;
  unix_seconds = λ t. ok (pos 1700000000);
}

validate_manifest-Accepts_example :
    Accepts (IsManifest lib supported) (validate_manifest lib supported)
validate_manifest-Accepts_example = validate_manifest-Accepts lib supported

validate_compatibility-Decides_example :
    Decides (IsSupported supported) (validate_compatibility supported) unsupported
validate_compatibility-Decides_example = validate_compatibility-Decides supported

supported_is_compatible : validate_compatibility supported ≡ ok tt
unfolding validate_compatibility validate_checks agrees equal_texts equal_tensor_descriptors
    equal_licenses is_escalate
supported_is_compatible = refl

two_options : length (normalize_choice route (preprocessing_of supported)).options ≤ 253
unfolding normalize_choice
two_options = omega arith

validate_compatibility-fits_example :
    (item : PreparedItem) × (prepare_item "s"
        (normalize_choice route (preprocessing_of supported))
        (preprocessing_of supported)
        tokenizer
        1024
        truncate_overflow
      ≡ ok item)
validate_compatibility-fits_example =
    validate_compatibility-fits supported "s" (normalize_choice route (preprocessing_of supported))
      tokenizer supported_is_compatible two_options (λ text. (_, refl))

validate_layout-Accepts_example :
    Accepts (IsLayout (λ a b. str_eq a b) supported) (validate_layout (λ a b. str_eq a b) supported)
validate_layout-Accepts_example = validate_layout-Accepts (λ a b. str_eq a b) supported

-- A file of two bytes, read in two steps.
abbrev artifact : String → Entry
artifact path = record {
  path = path;
  walk_error = none;
  context = none;
  kind = regular;
  open_file = ok (record { stat = ok (regular, pos 2); reads = gives (7 ∷ []) (ends (9 ∷ [])) });
}

abbrev entries : List Entry
entries =
    record (artifact ".") { kind = directory }
    ∷ artifact "LICENSE.model"
    ∷ artifact "LICENSE.sdk"
    ∷ artifact "NOTICE.model"
    ∷ artifact "NOTICE.sdk"
    ∷ artifact "manifest.json"
    ∷ artifact "model.onnx"
    ∷ artifact "rl_agent_config.json"
    ∷ record (artifact "tokenizer") { kind = directory }
    ∷ artifact "tokenizer/tokenizer.json"
    ∷ artifact "tokenizer/tokenizer_config.json"
    ∷ []

verify_files-Exact_example : (verify_files digest files entries ≡ ok tt) ↔ (
    All (IsEntry digest files) entries
    × All (λ (f : File). Found digest files f.path entries) files)
verify_files-Exact_example = verify_files-Exact digest files entries

manifest_json_is_unique : reject_duplicate_fields (tokens (object manifest_json) []) ≡ ok tt
unfolding reject_duplicate_fields consume_json_value require_eof tokens byte_count seen_before
manifest_json_is_unique = refl

manifest_json_is_exact : validate_exact_fields (object manifest_json) manifest_shape ≡ ok tt
unfolding validate_exact_fields find_shape require_fields seen_before
manifest_json_is_exact = refl

abbrev repeated : Fields
repeated = field "id" plain (field "id" plain end)

reject_duplicate_fields-Accepts_example :
    Accepts (IsUnique 0 (object repeated)) (reject_duplicate_fields (tokens (object repeated) []))
reject_duplicate_fields-Accepts_example = reject_duplicate_fields-Accepts (object repeated)

validate_exact_fields-once_example :
    All (λ name. occurrences name (keys manifest_json) ≡ 1) (names manifest_fields)
    × All (λ k. Has k (names manifest_fields)) (keys manifest_json)
validate_exact_fields-once_example =
    validate_exact_fields-once manifest_json manifest_fields manifest_json_is_unique
      manifest_json_is_exact

abbrev document : Document ℕ
document = record {
  size = 4000;
  is_utf8 = true;
  is_json = true;
  value = object manifest_json;
  unmarshaled = ok tt;
  decoded = ok supported;
  trailing = ok tt;
}

supported_verifies : verify lib (λ a b. str_eq a b) digest (ok document) entries ≡ ok supported
unfolding verify reject_duplicate_fields consume_json_value require_eof tokens validate_exact_fields
    find_shape require_fields parse validate_manifest valid_role validate_actions
    validate_calibration validate_created_at validate_external validate_files validate_hex
    validate_identifier validate_licenses validate_model validate_path validate_positive
    validate_preprocessing validate_provenance validate_runtime validate_string validate_tokenizer
    validate_version all_chars begins_alphanumeric byte_count codes_lt is_hex is_sorted seen_before
    validate_compatibility validate_checks agrees equal_texts equal_tensor_descriptors
    equal_licenses is_escalate validate_layout count_role find_file none_is_manifest read_all
    require_role require_seen validate_required validate_role_counts verify_files verify_declared
    verify_entry verify_file verify_kind walk
supported_verifies = refl

verify-ok_example :
    IsManifest lib supported
    × IsSupported supported
    × IsLayout (λ a b. str_eq a b) supported
    × All (IsEntry digest files) entries
    × All (λ (f : File). Found digest files f.path entries) files
verify-ok_example =
    verify-ok lib (λ a b. str_eq a b) digest (ok document) entries supported supported_verifies

abbrev source : Source ℕ
source = record {
  has_context = true;
  has_file_system = true;
  root = ".";
  context = none;
  sub = ok tt;
  manifest_file =
      ok (record { stat = ok (regular, pos 2); bytes = 123 ∷ 125 ∷ []; ending = ok tt });
  has_checkpoint = false;
  document = λ contents. document;
  entries = entries;
}

read_manifest-Exact_example :
    (read_manifest source.manifest_file ≡ ok (123 ∷ 125 ∷ []))
    ↔ IsReadable source.manifest_file (123 ∷ 125 ∷ [])
read_manifest-Exact_example = read_manifest-Exact source.manifest_file (123 ∷ 125 ∷ [])

source_verifies : verify_source lib (λ a b. str_eq a b) digest source ≡ ok supported
unfolding verify_source read_manifest read_limited explained verify reject_duplicate_fields
    consume_json_value require_eof tokens validate_exact_fields find_shape require_fields parse
    validate_manifest valid_role validate_actions validate_calibration validate_created_at
    validate_external validate_files validate_hex validate_identifier validate_licenses
    validate_model validate_path validate_positive validate_preprocessing validate_provenance
    validate_runtime validate_string validate_tokenizer validate_version all_chars
    begins_alphanumeric byte_count codes_lt is_hex is_sorted seen_before validate_compatibility
    validate_checks agrees equal_texts equal_tensor_descriptors equal_licenses is_escalate
    validate_layout count_role find_file none_is_manifest read_all require_role require_seen
    validate_required validate_role_counts verify_files verify_declared verify_entry verify_file
    verify_kind walk
source_verifies = refl
