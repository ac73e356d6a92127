-- ===== src/Bundle/Reading.antt =====
-- `readManifest` of verify.go, and `Verify` with its arguments.
pub mod Exact
use laya_go.Prelude.{
  ℕ, suc, ◌≤◌, ◌≡◌, ◌↔◌, inl, inr, refl, sym, ap, ◌∙◌, String, str_eq, Bool, Bool-cases, true,
  false, not, ◌&&◌, ◌||◌, Option, none, some, List, length, length-take, take, min, leb, ltb, ◌==◌,
  if◌then◌else◌, arith,
}
use laya_go.Prelude.Int.{ℤ, pos, pos_part, neg_part, ltb_ℤ}
use laya_go.Prelude.Float.{FloatOps}
use laya_go.Errors.{
  Category, Error, stage_error, joined, foreign, invalid_bundle, Outcome, ok, err, ◌>>=◌, ◌>>◌,
  refuse, ok_injective,
}
use laya_go.Output.Matching.{bind-eq-ok}
use laya_go.Bundle.Manifest.{Manifest}
use laya_go.Bundle.Rules.{Library, bad_bundle}
use laya_go.Bundle.Verify.{
  Kind, directory, regular, other, is_regular, Entry, as_invalid, canceled_by,
}
use laya_go.Bundle.Parse.{Document, verify}

-- An open file: its facts, its bytes, and how reading ends behind them.
pub record Stream : Type 0 where
  pub stat : Outcome (Kind × ℤ)
  pub bytes : List ℕ
  pub ending : Outcome (Unit {0})

-- `io.ReadAll(io.LimitReader(file, limit))`: the limit hides what comes behind it.
unfoldable pub read_limited : ℕ → Stream → Outcome (List ℕ)
read_limited limit f =
    if leb limit (length f.bytes) then ok (take limit f.bytes) else (f.ending >>= λ _. ok f.bytes)

unfoldable pub read_manifest : Outcome Stream → Outcome (List ℕ)
unfolding read_limited
read_manifest opened = do
  file ← as_invalid opened
  info ← as_invalid file.stat
  refuse (not (is_regular info.0)) bad_bundle
  refuse (ltb_ℤ info.1 (pos 0) || ltb_ℤ (pos 1048576) info.1) bad_bundle
  contents ← as_invalid (read_limited 1048577 file)
  refuse (ltb 1048576 (length contents)) bad_bundle
  ok contents

-- `errors.Is(err, fs.ErrNotExist)`: of the errors of Go's library, 1 is that one.
unfoldable pub is_missing : Error → Bool
is_missing (foreign n) = n == 1
is_missing (stage_error c e) = is_missing e
is_missing (joined a b) = is_missing a || is_missing b
is_missing _ = false

-- What `Verify` is given, and what it meets: whether the context and the file system are there, the
-- context's answer, `fs.Sub`, the open manifest, whether there is a regular `model.safetensors`, what
-- JSON makes of the manifest's bytes, and the walk.
pub record Source (F : Type 0) : Type 0 where
  pub has_context : Bool
  pub has_file_system : Bool
  pub root : String
  pub context : Option Category
  pub sub : Outcome (Unit {0})
  pub manifest_file : Outcome Stream
  pub has_checkpoint : Bool
  pub document : List ℕ → Document F
  pub entries : List Entry

abbrev pub not_canceled : Option Category → Outcome (Unit {0})
not_canceled none = ok tt
not_canceled (some c) = err (canceled_by c)

-- A checkpoint in place of a bundle has an error of its own.
unfoldable pub explained : Bool → Outcome (List ℕ) → Outcome (List ℕ)
unfolding is_missing
explained has_checkpoint (ok contents) = ok contents
explained has_checkpoint (err e) =
    if is_missing e && has_checkpoint then err (stage_error invalid_bundle e) else err e

unfoldable pub verify_source :
    (lib : Library) {F : Type 0} ⦃ops : FloatOps F⦄
    → (String → String → Bool)
    → (List ℕ → String)
    → Source F
    → Outcome (Manifest F)
unfolding read_manifest explained
verify_source lib equal_fold digest s = do
  refuse (not s.has_context) bad_bundle
  refuse (not s.has_file_system) bad_bundle
  refuse
      (str_eq s.root ""
        || not (str_eq s.root ".") && (not (lib.valid_path s.root) || lib.has_backslash s.root))
      bad_bundle
  not_canceled s.context
  as_invalid s.sub
  verify lib equal_fold digest
      (explained s.has_checkpoint (read_manifest s.manifest_file) >>= λ contents.
        ok (s.document contents))
      s.entries
