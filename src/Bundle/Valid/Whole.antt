-- ===== src/Bundle/Valid/Whole.antt =====
-- Which manifests `validateManifest` accepts.
use laya_go.Prelude.{
  ◌≤◌, ◌≡◌, ◌⊎◌, inl, inr, refl, String, str_eq, true, false, not, ◌||◌, ◌&&◌, [], length, map,
  arith,
}
use laya_go.Prelude.Int.{ℤ}
use laya_go.Prelude.Float.{FloatOps, is_finite}
use laya_go.Errors.{
  stage_error, invalid_bundle, matches_sentinel, matches_stage_error, ok, refuse, Outcome-cases,
}
use laya_go.Question.Valid.{str_eq-Tests, Admits}
use laya_go.Bundle.Manifest.{Provenance, Model, Tokenizer, Calibration, File, Manifest}
use laya_go.Bundle.Text.{IsHex, IsSorted, is_sorted-Tests}
use laya_go.Bundle.Rules.{
  Library, bad_bundle, validate_count, validate_created_at, validate_provenance, validate_model,
  validate_tokenizer, validate_calibration, validate_manifest,
}
use laya_go.Bundle.Valid.{
  Accepts, ◌&◌, ◌next◌, need, IsIdentifier, validate_identifier-Accepts, IsVersion,
  validate_version-Accepts, validate_hex-Accepts, IsNonNegative, non_negative-Accepts,
  validate_count-Accepts,
}
use laya_go.Bundle.Valid.Sections.{
  IsPreprocessing, validate_preprocessing-Accepts, IsRuntime, validate_runtime-Accepts, AreActions,
  action_ids, validate_actions-Accepts, IsPath, validate_path-Accepts, AreLicenses,
  validate_licenses-Accepts, AreExternal, validate_external-Accepts, AreFiles,
  validate_files-Accepts,
}

module _ (lib : Library) where
  -- The time of creation, in whole seconds, is the epoch that the manifest declares.
  abbrev pub IsCreated : String → ℤ → Type 0
  IsCreated created_at epoch = (lib.unix_seconds created_at ≡ ok epoch) & IsNonNegative epoch

  validate_created_at-Accepts :
      (created_at : String) (epoch : ℤ)
      → Accepts (IsCreated created_at epoch) (validate_created_at lib created_at epoch)
  unfolding validate_created_at
  validate_created_at-Accepts created_at epoch =
      elim (Outcome-cases (lib.unix_seconds created_at)) [
        | inr (x, e) ↦
            rw (e, validate_created_at)
              (inr (
                (λ (p, _). cc),
                stage_error invalid_bundle x,
                refl,
                matches_stage_error invalid_bundle x,
              ))
        | inl (seconds, e) ↦
            rw (e, validate_created_at) (ground (arith, matches_sentinel invalid_bundle))
      ]

  abbrev pub IsDecided : String → Type 0
  IsDecided r = (r ≡ "review-required") ⊎ (r ≡ "approved")

  abbrev pub IsProvenance : Provenance → Type 0
  IsProvenance p =
      IsIdentifier p.source_model.id
      & IsHex 40 p.source_model.revision
      & IsIdentifier p.sdk.repository
      & IsHex 40 p.sdk.revision
      & IsVersion p.sdk.version
      & IsIdentifier p.profile.id
      & IsHex 64 p.profile.sha256
      & IsIdentifier p.exporter.name
      & IsVersion p.exporter.version
      & IsHex 64 p.exporter.source_sha256
      & IsHex 40 p.exporter.git_revision
      & IsPath lib p.lock.path
      & IsHex 64 p.lock.sha256
      & IsCreated p.created_at p.source_date_epoch
      & IsDecided p.redistribution
      & ((2 ≤ length p.licenses) & (length p.licenses ≤ 16))
      & AreLicenses lib [] p.licenses

  decided :
      (r : String)
      → Accepts
          (IsDecided r)
          (refuse (not (str_eq r "review-required") && not (str_eq r "approved")) bad_bundle)
  decided r = ground (
    arith,
    str_eq-Tests r "review-required",
    str_eq-Tests r "approved",
    matches_sentinel invalid_bundle,
  )

  validate_provenance-Accepts :
      (p : Provenance) → Accepts (IsProvenance p) (validate_provenance lib p)
  unfolding validate_provenance
  validate_provenance-Accepts p =
      validate_identifier-Accepts p.source_model.id
      next validate_hex-Accepts 40 p.source_model.revision
      next validate_identifier-Accepts p.sdk.repository
      next validate_hex-Accepts 40 p.sdk.revision
      next validate_version-Accepts p.sdk.version
      next validate_identifier-Accepts p.profile.id
      next validate_hex-Accepts 64 p.profile.sha256
      next validate_identifier-Accepts p.exporter.name
      next validate_version-Accepts p.exporter.version
      next validate_hex-Accepts 64 p.exporter.source_sha256
      next validate_hex-Accepts 40 p.exporter.git_revision
      next validate_path-Accepts lib p.lock.path
      next validate_hex-Accepts 64 p.lock.sha256
      next validate_created_at-Accepts p.created_at p.source_date_epoch
      next decided p.redistribution
      next validate_count-Accepts 2 16 (length p.licenses)
      next validate_licenses-Accepts lib [] p.licenses

  abbrev pub IsModel : Model → Type 0
  IsModel m =
      IsPath lib m.path
      & (length m.external_data ≤ 64)
      & AreExternal lib [] m.external_data
      & IsSorted m.external_data

  validate_model-Accepts : (m : Model) → Accepts (IsModel m) (validate_model lib m)
  unfolding validate_model
  validate_model-Accepts m =
      validate_path-Accepts lib m.path
      next at_most
      next validate_external-Accepts lib [] m.external_data
      next need (is_sorted-Tests m.external_data)
    where
      at_most : Accepts (length m.external_data ≤ 64) (validate_count 0 64 (length m.external_data))
      at_most = ground (arith, matches_sentinel invalid_bundle)

  abbrev pub IsTokenizer : Tokenizer → Type 0
  IsTokenizer t =
      IsPath lib t.json_path
      & IsPath lib t.config_path
      & IsNonNegative t.special_tokens.cls
      & IsNonNegative t.special_tokens.sep
      & IsNonNegative t.special_tokens.mask
      & IsNonNegative t.special_tokens.pad

  validate_tokenizer-Accepts : (t : Tokenizer) → Accepts (IsTokenizer t) (validate_tokenizer lib t)
  unfolding validate_tokenizer
  validate_tokenizer-Accepts t =
      validate_path-Accepts lib t.json_path
      next validate_path-Accepts lib t.config_path
      next non_negative-Accepts t.special_tokens.cls
      next non_negative-Accepts t.special_tokens.sep
      next non_negative-Accepts t.special_tokens.mask
      next non_negative-Accepts t.special_tokens.pad

  module _ {F : Type 0} ⦃ops : FloatOps F⦄ where
    -- Positive and ordered bounds of the temperature, all three numbers finite.
    abbrev pub HasBounds : Calibration F → Type 0
    HasBounds c =
        (ops.lt c.temperature_min (ops.of_ℕ 0) ≡ false)
        & (ops.eq c.temperature_min (ops.of_ℕ 0) ≡ false)
        & (ops.lt c.temperature_max c.temperature_min ≡ false)

    abbrev pub IsCalibration : Calibration F → Type 0
    IsCalibration c =
        IsPath lib c.config_path
        & (is_finite c.temperature_min ≡ true)
        & (is_finite c.temperature_max ≡ true)
        & (is_finite c.invalid_temperature ≡ true)
        & HasBounds c
        & ((1 ≤ length c.actions) & (length c.actions ≤ 32))
        & (AreActions 0 c.actions & Admits [] (action_ids c.actions))

    finite : (x : F) → Accepts (is_finite x ≡ true) (refuse (not (is_finite x)) bad_bundle)
    finite x = ground (arith, matches_sentinel invalid_bundle)

    validate_calibration-Accepts :
        (c : Calibration F) → Accepts (IsCalibration c) (validate_calibration lib c)
    unfolding validate_calibration
    validate_calibration-Accepts c =
        validate_path-Accepts lib c.config_path
        next finite c.temperature_min
        next finite c.temperature_max
        next finite c.invalid_temperature
        next bounded
        next validate_count-Accepts 1 32 (length c.actions)
        next validate_actions-Accepts 0 [] c.actions
      where
        bounded : Accepts (HasBounds c) (
            refuse
              (ops.lt c.temperature_min (ops.of_ℕ 0)
                || ops.eq c.temperature_min (ops.of_ℕ 0)
                || ops.lt c.temperature_max c.temperature_min)
              bad_bundle)
        bounded = ground (arith, matches_sentinel invalid_bundle)

    abbrev pub IsManifest : Manifest F → Type 0
    IsManifest m =
        IsNonNegative m.schema_version
        & IsIdentifier m.bundle.id
        & IsVersion m.bundle.version
        & IsProvenance m.provenance
        & IsPreprocessing m.preprocessing
        & IsModel m.model
        & IsTokenizer m.tokenizer
        & IsCalibration m.calibration
        & IsRuntime m.runtime
        & ((6 ≤ length m.files) & (length m.files ≤ 256))
        & AreFiles lib [] m.files
        & IsSorted (map (λ (f : File). f.path) m.files)

    -- `validateManifest` accepts exactly the manifests whose every section is well-formed: the
    -- identifiers, versions and digests have their form, the paths are contained, the counts are
    -- within their bounds, nothing that must be unique is declared twice (paths and components
    -- without regard to case), the paths of the files are sorted, and the time of creation agrees
    -- with the epoch. Any other manifest is refused as an invalid bundle.
    pub validate_manifest-Accepts :
        (m : Manifest F) → Accepts (IsManifest m) (validate_manifest lib m)
    unfolding validate_manifest
    validate_manifest-Accepts m =
        non_negative-Accepts m.schema_version
        next validate_identifier-Accepts m.bundle.id
        next validate_version-Accepts m.bundle.version
        next validate_provenance-Accepts m.provenance
        next validate_preprocessing-Accepts m.preprocessing
        next validate_model-Accepts m.model
        next validate_tokenizer-Accepts m.tokenizer
        next validate_calibration-Accepts m.calibration
        next validate_runtime-Accepts m.runtime
        next validate_count-Accepts 6 256 (length m.files)
        next validate_files-Accepts lib [] m.files
        next need (is_sorted-Tests (map (λ (f : File). f.path) m.files))
