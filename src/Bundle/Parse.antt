-- ===== src/Bundle/Parse.antt =====
-- `Parse` of parse.go and `Verify` of verify.go: the checks of a bundle, one after the other. What
-- the JSON decoder and the hash make of the bytes are arguments.
use laya_go.Prelude.{ℕ, ◌≡◌, inl, inr, subst, String, Bool, not, List, [], All, ltb, ◌==◌}
use laya_go.Prelude.Float.{FloatOps}
use laya_go.Errors.{
  stage_error, foreign, invalid_bundle, Outcome, ok, ◌>>=◌, ◌>>◌, refuse, ok_injective,
}
use laya_go.Output.Matching.{bind-eq-ok}
use laya_go.Bundle.Manifest.{File, Manifest}
use laya_go.Bundle.Rules.{Library, bad_bundle, validate_manifest}
use laya_go.Bundle.Valid.Whole.{IsManifest, validate_manifest-Accepts}
use laya_go.Bundle.Compatibility.{validate_compatibility}
use laya_go.Bundle.Compatibility.Budget.{IsSupported, validate_compatibility-Decides}
use laya_go.Bundle.Json.{reject_duplicate_fields}
use laya_go.Bundle.Json.Value.{Json, tokens}
use laya_go.Bundle.Json.Shape.{validate_exact_fields, manifest_shape}
use laya_go.Bundle.Verify.{Entry, validate_layout, as_invalid, verify_files}
use laya_go.Bundle.Layout.{IsLayout, validate_layout-Accepts}
use laya_go.Bundle.Verify.Exact.{IsEntry, Found, verify_files-Exact}

-- The bytes of a manifest: how many, whether they are valid UTF-8 and valid JSON, the value that they
-- are if so, whether `json.Unmarshal` can hold it in any value, what the decoder gives, and what
-- `requireEOF` finds behind it.
pub record Document (F : Type 0) : Type 0 where
  pub size : ℕ
  pub is_utf8 : Bool
  pub is_json : Bool
  pub value : Json
  pub unmarshaled : Outcome (Unit {0})
  pub decoded : Outcome (Manifest F)
  pub trailing : Outcome (Unit {0})

module _ (lib : Library) {F : Type 0} ⦃ops : FloatOps F⦄ where
  -- The field `id`, the digest of the bytes, is left out of the result. The error of `json.Unmarshal` on bytes that are not JSON is number 2 of Go's library.
  unfoldable pub parse : Document F → Outcome (Manifest F)
  parse d = do
    refuse (d.size == 0) bad_bundle
    refuse (ltb 1048576 d.size) bad_bundle
    refuse (not d.is_utf8) bad_bundle
    refuse (not d.is_json) (stage_error invalid_bundle (foreign 2))
    reject_duplicate_fields (tokens d.value [])
    as_invalid d.unmarshaled
    validate_exact_fields d.value manifest_shape
    m ← as_invalid d.decoded
    as_invalid d.trailing
    validate_manifest lib m
    validate_compatibility m
    ok m

  -- `Verify` once the manifest is read: its bytes, and the walk over the files.
  unfoldable pub verify :
      (String → String → Bool)
      → (List ℕ → String)
      → Outcome (Document F)
      → List Entry
      → Outcome (Manifest F)
  unfolding parse
  verify equal_fold digest read entries = do
    bytes ← read
    m ← parse bytes
    validate_layout equal_fold m
    verify_files digest m.files entries
    ok m

  parse-ok : (d : Document F) (m : Manifest F) → parse d ≡ ok m → IsManifest lib m × IsSupported m
  unfolding parse
  parse-ok d m e =
      let (_, _, e₁) = bind-eq-ok (refuse (d.size == 0) bad_bundle) _ e in
      let (_, _, e₂) = bind-eq-ok (refuse (ltb 1048576 d.size) bad_bundle) _ e₁ in
      let (_, _, e₃) = bind-eq-ok (refuse (not d.is_utf8) bad_bundle) _ e₂ in
      let (_, _, e₄) =
        bind-eq-ok (refuse (not d.is_json) (stage_error invalid_bundle (foreign 2))) _ e₃ in
      let (_, _, e₅) = bind-eq-ok (reject_duplicate_fields (tokens d.value [])) _ e₄ in
      let (_, _, eᵤ) = bind-eq-ok (as_invalid d.unmarshaled) _ e₅ in
      let (_, _, e₆) = bind-eq-ok (validate_exact_fields d.value manifest_shape) _ eᵤ in
      let (n, _, e₇) = bind-eq-ok (as_invalid d.decoded) _ e₆ in
      let (_, _, e₈) = bind-eq-ok (as_invalid d.trailing) _ e₇ in
      let (_, v, e₉) = bind-eq-ok (validate_manifest lib n) _ e₈ in
      let (_, c, f) = bind-eq-ok (validate_compatibility n) _ e₉ in
      subst (λ (m : Manifest F). IsManifest lib m × IsSupported m) (ok_injective f)
        (
          elim (validate_manifest-Accepts lib n) [ inl (h, _) ↦ h | inr (_, x, g, _) ↦ cc ],
          elim (validate_compatibility-Decides n) [ inl (h, _) ↦ h | inr (_, g) ↦ cc ],
        )

-- A bundle that `Verify` accepts has a well-formed and supported manifest, of the required layout;
-- each entry of its tree is a directory, the manifest, or a declared file with the declared size and
-- digest; and each declared file is there.
pub verify-ok :
    (lib : Library) {F : Type 0} ⦃ops : FloatOps F⦄ (equal_fold : String → String → Bool)
    (digest : List ℕ → String) (read : Outcome (Document F)) (entries : List Entry) (m : Manifest F)
    → verify lib equal_fold digest read entries ≡ ok m
    → IsManifest lib m
      × IsSupported m
      × IsLayout equal_fold m
      × All (IsEntry digest m.files) entries
      × All (λ (f : File). Found digest m.files f.path entries) m.files
unfolding verify
verify-ok lib {F} equal_fold digest read entries m e =
    let (bytes, _, e₁) = bind-eq-ok read _ e in
    let (n, p, e₂) = bind-eq-ok (parse lib bytes) _ e₁ in
    let (_, l, e₃) = bind-eq-ok (validate_layout equal_fold n) _ e₂ in
    let (_, v, e₄) = bind-eq-ok (verify_files digest n.files entries) _ e₃ in
    let (a, b) = parse-ok lib bytes n p in
    let (c, d) = (verify_files-Exact digest n.files entries).0 v in
    let k : IsLayout equal_fold n = elim (validate_layout-Accepts equal_fold n) [
      | inl (h, _) ↦ h
      | inr (_, x, g, _) ↦ cc
    ] in
    subst
      (λ (m : Manifest F).
        IsManifest lib m
        × IsSupported m
        × IsLayout equal_fold m
        × All (IsEntry digest m.files) entries
        × All (λ (f : File). Found digest m.files f.path entries) m.files)
      (ok_injective e₄) (a, b, k, c, d)
