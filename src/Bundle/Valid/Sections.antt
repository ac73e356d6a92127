-- ===== src/Bundle/Valid/Sections.antt =====
-- Which sections of a manifest the parts of `validateManifest` accept.
use laya_go.Prelude.{
  ℕ, suc, ◌≤◌, ◌≡◌, ◌≢◌, ◌⊎◌, inl, refl, String, true, false, List, [], ◌∷◌, All, Fresh, length,
  map, arith,
}
use laya_go.Prelude.Int.{ℤ, pos, pos_part, ltb_ℤ, eqb_ℤ}
use laya_go.Errors.{invalid_bundle, matches_sentinel, refuse}
use laya_go.Question.{seen_before}
use laya_go.Question.Valid.{Tests, str_eq-Tests, seen_before-Fresh, Admits, Admits-cons}
use laya_go.Bundle.Manifest.{License, Preprocessing, Action, Runtime, File}
use laya_go.Bundle.Text.{byte_length, IsHex}
use laya_go.Bundle.Rules.{
  Library, bad_bundle, valid_role, validate_path, validate_licenses, validate_preprocessing,
  validate_external, validate_actions, validate_runtime, validate_files,
}
use laya_go.Bundle.Valid.{
  Accepts, ◌&◌, ◌next◌, need, Accepts-iff, IsText, validate_string-Accepts, IsIdentifier,
  validate_identifier-Accepts, validate_hex-Accepts, IsPositive, validate_positive-Accepts,
  IsNonNegative, non_negative-Accepts, validate_count-Accepts,
}

pub Fresh-Tests :
    (seen : List String) (k : String)
    → Accepts (Fresh k seen) (refuse (seen_before seen k) bad_bundle)
Fresh-Tests seen k = ground (arith, seen_before-Fresh seen k, matches_sentinel invalid_bundle)

-- The roles that an artifact can have.
abbrev pub IsRole : String → Type 0
IsRole r =
    (r ≡ "model")
    ⊎ (r ≡ "model-external-data")
    ⊎ (r ≡ "tokenizer")
    ⊎ (r ≡ "tokenizer-config")
    ⊎ (r ≡ "agent-config")
    ⊎ (r ≡ "license")
    ⊎ (r ≡ "notice")

valid_role-Tests : (r : String) → Tests (IsRole r) (valid_role r)
unfolding valid_role
valid_role-Tests r = ground (
  arith,
  str_eq-Tests r "model",
  str_eq-Tests r "model-external-data",
  str_eq-Tests r "tokenizer",
  str_eq-Tests r "tokenizer-config",
  str_eq-Tests r "agent-config",
  str_eq-Tests r "license",
  str_eq-Tests r "notice",
)

abbrev pub InOrder : ℤ → ℤ → Type 0
InOrder a b = ltb_ℤ b a ≡ false

abbrev pub IsPreprocessing : Preprocessing → Type 0
IsPreprocessing p =
    IsPositive p.max_len
    & IsPositive p.head_max_len
    & IsPositive p.option_max_len
    & IsPositive p.head_reserve
    & (pos_part p.head_max_len ≤ pos_part p.max_len)

pub validate_preprocessing-Accepts :
    (p : Preprocessing) → Accepts (IsPreprocessing p) (validate_preprocessing p)
unfolding validate_preprocessing
validate_preprocessing-Accepts p = ground (
  arith,
  validate_positive-Accepts p.max_len,
  validate_positive-Accepts p.head_max_len,
  validate_positive-Accepts p.option_max_len,
  validate_positive-Accepts p.head_reserve,
  matches_sentinel invalid_bundle,
)

abbrev pub IsRuntime : Runtime → Type 0
IsRuntime r =
    IsText 64 r.engine
    & IsText 64 r.minimum_version
    & IsText 64 r.maximum_exclusive
    & (1 ≤ length r.execution_providers)
    & (length r.execution_providers ≤ 16)

pub validate_runtime-Accepts : (r : Runtime) → Accepts (IsRuntime r) (validate_runtime r)
unfolding validate_runtime
validate_runtime-Accepts r =
    validate_string-Accepts 64 r.engine
    next validate_string-Accepts 64 r.minimum_version
    next validate_string-Accepts 64 r.maximum_exclusive
    next validate_count-Accepts 1 16 (length r.execution_providers)

abbrev pub AreActions : ℕ → List Action → Type 0
AreActions i [] = Unit
AreActions i (a ∷ as') = (a.index ≡ pos i) & IsIdentifier a.id & AreActions (suc i) as'

abbrev pub action_ids : List Action → List String
action_ids as' = map (λ (a : Action). a.id) as'

eqb_ℤ-Tests : (a b : ℤ) → Tests (a ≡ b) (eqb_ℤ a b)
eqb_ℤ-Tests a b = ground arith

pub validate_actions-Accepts :
    (i : ℕ) (seen : List String) (as' : List Action)
    → Accepts (AreActions i as' & Admits seen (action_ids as')) (validate_actions i seen as')
unfolding validate_actions
validate_actions-Accepts i seen [] = inl ((tt, (tt, tt)), refl)
validate_actions-Accepts i seen (a ∷ as') =
    Accepts-iff
      (λ (x, (d, (f, (t, m)))). ((x, (d, t)), (Admits-cons a.id seen (action_ids as')).0 (f, m)))
      (λ ((x, (d, t)), m).
        let (f, n) = (Admits-cons a.id seen (action_ids as')).1 m in (x, (d, (f, (t, n)))))
      (need (eqb_ℤ-Tests a.index (pos i))
        next validate_identifier-Accepts a.id
        next Fresh-Tests seen a.id
        next validate_actions-Accepts (suc i) (a.id ∷ seen) as')

module _ (lib : Library) where
  -- A contained path in its normal form, of at most 255 bytes.
  abbrev pub IsPath : String → Type 0
  IsPath p =
      (byte_length p ≤ 255) & (p ≢ ".") & (lib.valid_path p ≡ true) & (lib.has_backslash p ≡ false)

  pub validate_path-Accepts : (p : String) → Accepts (IsPath p) (validate_path lib p)
  unfolding validate_path
  validate_path-Accepts p = ground (arith, str_eq-Tests p ".", matches_sentinel invalid_bundle)

  abbrev pub IsLicense : License → Type 0
  IsLicense l = IsIdentifier l.component & IsText 64 l.spdx & IsPath l.path

  abbrev pub folded_components : List License → List String
  folded_components ls = map (λ (l : License). lib.to_lower l.component) ls

  abbrev pub AreLicenses : List String → List License → Type 0
  AreLicenses seen ls = All IsLicense ls & Admits seen (folded_components ls)

  pub validate_licenses-Accepts :
      (seen : List String) (ls : List License)
      → Accepts (AreLicenses seen ls) (validate_licenses lib seen ls)
  unfolding validate_licenses
  validate_licenses-Accepts seen [] = inl ((tt, (tt, tt)), refl)
  validate_licenses-Accepts seen (l ∷ ls) =
      Accepts-iff
        (λ (c, (f, (x, (p, (a, m))))). (
          ((c, (x, p)), a),
          (Admits-cons (lib.to_lower l.component) seen (folded_components ls)).0 (f, m),
        ))
        (λ (((c, (x, p)), a), m).
          let (f, n) = (Admits-cons (lib.to_lower l.component) seen (folded_components ls)).1 m in
          (c, (f, (x, (p, (a, n))))))
        (validate_identifier-Accepts l.component
          next Fresh-Tests seen (lib.to_lower l.component)
          next validate_string-Accepts 64 l.spdx
          next validate_path-Accepts l.path
          next validate_licenses-Accepts (lib.to_lower l.component ∷ seen) ls)

  abbrev pub AreExternal : List String → List String → Type 0
  AreExternal seen ps = All IsPath ps & Admits seen (map lib.to_lower ps)

  pub validate_external-Accepts :
      (seen ps : List String) → Accepts (AreExternal seen ps) (validate_external lib seen ps)
  unfolding validate_external
  validate_external-Accepts seen [] = inl ((tt, (tt, tt)), refl)
  validate_external-Accepts seen (p ∷ ps) =
      Accepts-iff
        (λ (c, (f, (a, m))).
          ((c, a), (Admits-cons (lib.to_lower p) seen (map lib.to_lower ps)).0 (f, m)))
        (λ ((c, a), m).
          let (f, n) = (Admits-cons (lib.to_lower p) seen (map lib.to_lower ps)).1 m in
          (c, (f, (a, n))))
        (validate_path-Accepts p
          next Fresh-Tests seen (lib.to_lower p)
          next validate_external-Accepts (lib.to_lower p ∷ seen) ps)

  abbrev pub IsFile : File → Type 0
  IsFile f = IsRole f.role & IsPath f.path & IsNonNegative f.size & IsHex 64 f.sha256

  abbrev pub folded_paths : List File → List String
  folded_paths fs = map (λ (f : File). lib.to_lower f.path) fs

  abbrev pub AreFiles : List String → List File → Type 0
  AreFiles seen fs = All IsFile fs & Admits seen (folded_paths fs)

  pub validate_files-Accepts :
      (seen : List String) (fs : List File)
      → Accepts (AreFiles seen fs) (validate_files lib seen fs)
  unfolding validate_files
  validate_files-Accepts seen [] = inl ((tt, (tt, tt)), refl)
  validate_files-Accepts seen (f ∷ fs) =
      Accepts-iff
        (λ (r, (p, (u, (z, (h, (a, m)))))). (
          ((r, (p, (z, h))), a),
          (Admits-cons (lib.to_lower f.path) seen (folded_paths fs)).0 (u, m),
        ))
        (λ (((r, (p, (z, h))), a), m).
          let (u, n) = (Admits-cons (lib.to_lower f.path) seen (folded_paths fs)).1 m in
          (r, (p, (u, (z, (h, (a, n)))))))
        (need (valid_role-Tests f.role)
          next validate_path-Accepts f.path
          next Fresh-Tests seen (lib.to_lower f.path)
          next non_negative-Accepts f.size
          next validate_hex-Accepts 64 f.sha256
          next validate_files-Accepts (lib.to_lower f.path ∷ seen) fs)
