-- ===== src/Bundle/Rules.antt =====
-- `validateManifest` of parse.go, cut at the manifest's sections; each part fails as the code does,
-- with an error of category `ErrInvalid`. Values of a Go map are checked in one order, which only
-- the text of an error shows. A string that was decoded from JSON is valid UTF-8, so
-- `utf8.ValidString` holds of every text here.
use laya_go.Prelude.{ℕ, suc, String, str_eq, Bool, not, ◌&&◌, ◌||◌, List, [], ◌∷◌, length, map, ltb}
use laya_go.Prelude.Int.{ℤ, pos, ltb_ℤ, eqb_ℤ}
use laya_go.Prelude.Float.{FloatOps, is_finite}
use laya_go.Errors.{Error, sentinel, stage_error, invalid_bundle, Outcome, ok, err, ◌>>◌, refuse}
use laya_go.Question.{seen_before}
use laya_go.Bundle.Manifest.{
  Provenance, License, Preprocessing, Model, Tokenizer, Action, Calibration, Runtime, File,
  Manifest,
}
use laya_go.Bundle.Text.{
  byte_length, is_hex, begins_alphanumeric, codes, is_identifier_char, is_version_char, is_sorted,
}

-- What the code calls of Go's library: `fs.ValidPath`, `strings.ToLower`, whether a text contains a
-- backslash, and `time.Parse` with `Unix`.
pub record Library : Type 0 where
  pub valid_path : String → Bool
  pub to_lower : String → String
  pub has_backslash : String → Bool
  pub unix_seconds : String → Outcome ℤ

-- `invalid(...)` with no cause.
abbrev pub bad_bundle : Error
bad_bundle = sentinel invalid_bundle

unfoldable pub validate_string : ℕ → String → Outcome (Unit {0})
validate_string limit s = do
  refuse (str_eq s "") bad_bundle
  refuse (ltb limit (byte_length s) || ltb 512 (byte_length s)) bad_bundle

unfoldable pub validate_identifier : String → Outcome (Unit {0})
unfolding validate_string begins_alphanumeric
validate_identifier s = do
  validate_string 128 s
  refuse (not (begins_alphanumeric is_identifier_char (codes s))) bad_bundle

unfoldable pub validate_version : String → Outcome (Unit {0})
unfolding validate_string begins_alphanumeric
validate_version s = do
  validate_string 64 s
  refuse (not (begins_alphanumeric is_version_char (codes s))) bad_bundle

unfoldable pub validate_positive : ℤ → Outcome (Unit {0})
validate_positive n = refuse (not (ltb_ℤ (pos 0) n)) bad_bundle

unfoldable pub validate_hex : ℕ → String → Outcome (Unit {0})
unfolding is_hex
validate_hex n s = refuse (not (is_hex n s)) bad_bundle

abbrev pub validate_sha256 : String → Outcome (Unit {0})
validate_sha256 s = validate_hex 64 s

abbrev pub validate_revision : String → Outcome (Unit {0})
validate_revision s = validate_hex 40 s

unfoldable pub valid_role : String → Bool
valid_role r =
    str_eq r "model"
    || str_eq r "model-external-data"
    || str_eq r "tokenizer"
    || str_eq r "tokenizer-config"
    || str_eq r "agent-config"
    || str_eq r "license"
    || str_eq r "notice"

abbrev pub non_negative : ℤ → Outcome (Unit {0})
non_negative n = refuse (ltb_ℤ n (pos 0)) bad_bundle

-- Entries from `lo` to `hi`.
abbrev pub validate_count : ℕ → ℕ → ℕ → Outcome (Unit {0})
validate_count lo hi n = refuse (ltb n lo || ltb hi n) bad_bundle

unfoldable pub validate_preprocessing : Preprocessing → Outcome (Unit {0})
unfolding validate_positive
validate_preprocessing p = do
  validate_positive p.max_len
  validate_positive p.head_max_len
  validate_positive p.option_max_len
  validate_positive p.head_reserve
  refuse (ltb_ℤ p.max_len p.head_max_len) bad_bundle

unfoldable pub validate_actions : ℕ → List String → List Action → Outcome (Unit {0})
unfolding validate_identifier
validate_actions i seen [] = ok tt
validate_actions i seen (a ∷ as') = do
  refuse (not (eqb_ℤ a.index (pos i))) bad_bundle
  validate_identifier a.id
  refuse (seen_before seen a.id) bad_bundle
  validate_actions (suc i) (a.id ∷ seen) as'

unfoldable pub validate_runtime : Runtime → Outcome (Unit {0})
unfolding validate_string
validate_runtime r = do
  validate_string 64 r.engine
  validate_string 64 r.minimum_version
  validate_string 64 r.maximum_exclusive
  validate_count 1 16 (length r.execution_providers)

module _ (lib : Library) where
  unfoldable pub validate_path : String → Outcome (Unit {0})
  validate_path p = do
    refuse (ltb 255 (byte_length p)) bad_bundle
    refuse (str_eq p "." || not (lib.valid_path p) || lib.has_backslash p) bad_bundle

  unfoldable pub validate_licenses : List String → List License → Outcome (Unit {0})
  unfolding validate_identifier validate_string validate_path
  validate_licenses seen [] = ok tt
  validate_licenses seen (l ∷ ls) = do
    validate_identifier l.component
    refuse (seen_before seen (lib.to_lower l.component)) bad_bundle
    validate_string 64 l.spdx
    validate_path l.path
    validate_licenses (lib.to_lower l.component ∷ seen) ls

  unfoldable pub validate_created_at : String → ℤ → Outcome (Unit {0})
  validate_created_at created_at epoch = elim (lib.unix_seconds created_at) [
    | err e ↦ err (stage_error invalid_bundle e)
    | ok seconds ↦ do non_negative epoch; refuse (not (eqb_ℤ seconds epoch)) bad_bundle
  ]

  unfoldable pub validate_provenance : Provenance → Outcome (Unit {0})
  unfolding validate_licenses validate_created_at validate_hex validate_version
  validate_provenance p = do
    validate_identifier p.source_model.id
    validate_revision p.source_model.revision
    validate_identifier p.sdk.repository
    validate_revision p.sdk.revision
    validate_version p.sdk.version
    validate_identifier p.profile.id
    validate_sha256 p.profile.sha256
    validate_identifier p.exporter.name
    validate_version p.exporter.version
    validate_sha256 p.exporter.source_sha256
    validate_revision p.exporter.git_revision
    validate_path p.lock.path
    validate_sha256 p.lock.sha256
    validate_created_at p.created_at p.source_date_epoch
    refuse
        (not (str_eq p.redistribution "review-required")
          && not (str_eq p.redistribution "approved"))
        bad_bundle
    validate_count 2 16 (length p.licenses)
    validate_licenses [] p.licenses

  unfoldable pub validate_external : List String → List String → Outcome (Unit {0})
  unfolding validate_path
  validate_external seen [] = ok tt
  validate_external seen (p ∷ ps) = do
    validate_path p
    refuse (seen_before seen (lib.to_lower p)) bad_bundle
    validate_external (lib.to_lower p ∷ seen) ps

  unfoldable pub validate_model : Model → Outcome (Unit {0})
  unfolding validate_external is_sorted
  validate_model m = do
    validate_path m.path
    validate_count 0 64 (length m.external_data)
    validate_external [] m.external_data
    refuse (not (is_sorted m.external_data)) bad_bundle

  unfoldable pub validate_tokenizer : Tokenizer → Outcome (Unit {0})
  unfolding validate_path
  validate_tokenizer t = do
    validate_path t.json_path
    validate_path t.config_path
    non_negative t.special_tokens.cls
    non_negative t.special_tokens.sep
    non_negative t.special_tokens.mask
    non_negative t.special_tokens.pad

  unfoldable pub validate_calibration :
      {F : Type 0} ⦃ops : FloatOps F⦄ → Calibration F → Outcome (Unit {0})
  unfolding validate_path validate_actions
  validate_calibration ⦃ops⦄ c = do
    validate_path c.config_path
    refuse (not (is_finite c.temperature_min)) bad_bundle
    refuse (not (is_finite c.temperature_max)) bad_bundle
    refuse (not (is_finite c.invalid_temperature)) bad_bundle
    refuse
        (ops.lt c.temperature_min (ops.of_ℕ 0)
          || ops.eq c.temperature_min (ops.of_ℕ 0)
          || ops.lt c.temperature_max c.temperature_min)
        bad_bundle
    validate_count 1 32 (length c.actions)
    validate_actions 0 [] c.actions

  unfoldable pub validate_files : List String → List File → Outcome (Unit {0})
  unfolding validate_path validate_hex valid_role
  validate_files seen [] = ok tt
  validate_files seen (f ∷ fs) = do
    refuse (not (valid_role f.role)) bad_bundle
    validate_path f.path
    refuse (seen_before seen (lib.to_lower f.path)) bad_bundle
    non_negative f.size
    validate_sha256 f.sha256
    validate_files (lib.to_lower f.path ∷ seen) fs

  unfoldable pub validate_manifest :
      {F : Type 0} ⦃ops : FloatOps F⦄ → Manifest F → Outcome (Unit {0})
  unfolding validate_identifier validate_version validate_provenance validate_preprocessing
      validate_model validate_tokenizer validate_calibration validate_runtime validate_files
      is_sorted
  validate_manifest m = do
    non_negative m.schema_version
    validate_identifier m.bundle.id
    validate_version m.bundle.version
    validate_provenance m.provenance
    validate_preprocessing m.preprocessing
    validate_model m.model
    validate_tokenizer m.tokenizer
    validate_calibration m.calibration
    validate_runtime m.runtime
    validate_count 6 256 (length m.files)
    validate_files [] m.files
    refuse (not (is_sorted (map (λ (f : File). f.path) m.files))) bad_bundle
