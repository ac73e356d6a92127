-- ===== src/Bundle/Verify.antt =====
-- verify.go: the declared layout of a bundle, and its files against their declarations.
-- The file system answers as data: `fs.WalkDir` gives the entries in the order of its calls, and a
-- file that is opened gives its facts and its reads. The digest is an argument.
pub mod Exact
use laya_go.Prelude.{
  ℕ, suc, ◌+◌, String, str_eq, Bool, true, false, not, ◌&&◌, ◌||◌, Option, none, some, List, [],
  ◌∷◌, ◌++◌, length, map, ◌==◌, if◌then◌else◌,
}
use laya_go.Prelude.Int.{ℤ, pos, eqb_ℤ}
use laya_go.Errors.{
  Category, Error, sentinel, stage_error, foreign, invalid_bundle, integrity, Outcome, ok, err,
  ◌>>=◌, ◌>>◌, refuse,
}
use laya_go.Question.{seen_before}
use laya_go.Bundle.Manifest.{License, File, Manifest}
use laya_go.Bundle.Rules.{bad_bundle}

-- `integrity(...)` with no cause.
abbrev pub bad_content : Error
bad_content = sentinel integrity

-- `declared[path]`, where a later declaration of a path would win; paths are unique.
unfoldable pub find_file : String → List File → Option File
find_file p [] = none
find_file p (f ∷ fs) = elim (find_file p fs) [
  | some g ↦ some g
  | none ↦ if str_eq f.path p then some f else none
]

unfoldable pub count_role : String → List File → ℕ
count_role r [] = 0
count_role r (f ∷ fs) = let n = count_role r fs in if str_eq f.role r then suc n else n

-- `equal_fold` is `strings.EqualFold`.
unfoldable pub none_is_manifest : (String → String → Bool) → List File → Outcome (Unit {0})
none_is_manifest equal_fold [] = ok tt
none_is_manifest equal_fold (f ∷ fs) = do
  refuse (equal_fold f.path "manifest.json") bad_bundle
  none_is_manifest equal_fold fs

unfoldable pub validate_role_counts : List File → List (String × ℕ) → Outcome (Unit {0})
unfolding count_role
validate_role_counts files [] = ok tt
validate_role_counts files ((r, n) ∷ rest) = do
  refuse (not (count_role r files == n)) bad_bundle
  validate_role_counts files rest

unfoldable pub require_role : String → Option File → Outcome (Unit {0})
require_role role none = err bad_bundle
require_role role (some f) = refuse (not (str_eq f.role role)) bad_bundle

unfoldable pub validate_required : List File → List (String × String) → Outcome (Unit {0})
unfolding find_file require_role
validate_required files [] = ok tt
validate_required files ((p, role) ∷ rest) = do
  require_role role (find_file p files)
  validate_required files rest

module _ {F : Type 0} where
  abbrev pub role_counts : Manifest F → List (String × ℕ)
  role_counts m =
      ("model", 1)
      ∷ ("model-external-data", length m.model.external_data)
      ∷ ("tokenizer", 1)
      ∷ ("tokenizer-config", 1)
      ∷ ("agent-config", 1)
      ∷ ("license", length m.provenance.licenses)
      ∷ ("notice", length m.provenance.licenses)
      ∷ []

  abbrev pub required : Manifest F → List (String × String)
  required m =
      ((m.model.path, "model")
        ∷ (m.tokenizer.json_path, "tokenizer")
        ∷ (m.tokenizer.config_path, "tokenizer-config")
        ∷ (m.calibration.config_path, "agent-config")
        ∷ [])
      ++ (map (λ p. (p, "model-external-data")) m.model.external_data
          ++ map (λ (l : License). (l.path, "license")) m.provenance.licenses)

  unfoldable pub validate_layout : (String → String → Bool) → Manifest F → Outcome (Unit {0})
  unfolding none_is_manifest validate_role_counts validate_required
  validate_layout equal_fold m = do
    none_is_manifest equal_fold m.files
    validate_role_counts m.files (role_counts m)
    validate_required m.files (required m)

pub data Kind : Type 0 where
  directory regular other : Kind

abbrev pub is_directory : Kind → Bool
is_directory directory = true
is_directory regular = false
is_directory other = false

abbrev pub is_regular : Kind → Bool
is_regular regular = true
is_regular directory = false
is_regular other = false

-- The reads of a file to its end: the context is done before a read, a read ends or fails the file
-- with the bytes that it gave, or there are more.
pub data Reads : Type 0 where
  stopped : Category → Reads
  ends : List ℕ → Reads
  fails : List ℕ → Error → Reads
  gives : List ℕ → Reads → Reads

pub record Opened : Type 0 where
  pub stat : Outcome (Kind × ℤ)
  pub reads : Reads

pub record Entry : Type 0 where
  pub path : String
  pub walk_error : Option Error
  pub context : Option Category
  pub kind : Kind
  pub open_file : Outcome Opened

-- `canceled(...)`.
abbrev pub canceled_by : Category → Error
canceled_by c = stage_error invalid_bundle (sentinel c)

-- The loop of `verifyFile`, with the bytes that were hashed so far. Of the errors of Go's library,
-- 0 stands for `io.ErrNoProgress` and 1 for `fs.ErrNotExist`.
unfoldable pub read_all : List ℕ → Reads → Outcome (List ℕ)
read_all done (stopped c) = err (canceled_by c)
read_all done (ends bytes) = ok (done ++ bytes)
read_all done (fails bytes e) = err (stage_error integrity e)
read_all done (gives [] r) = err (stage_error integrity (foreign 0))
read_all done (gives (b ∷ bytes) r) = read_all (done ++ (b ∷ bytes)) r

abbrev pub as_invalid {ℓ} : {A : Type ℓ} → Outcome A → Outcome A
as_invalid (ok a) = ok a
as_invalid (err e) = err (stage_error invalid_bundle e)

unfoldable pub require_seen : List String → List File → Outcome (Unit {0})
require_seen seen [] = ok tt
require_seen seen (f ∷ fs) = do
  refuse (not (seen_before seen f.path)) (stage_error invalid_bundle (foreign 1))
  require_seen seen fs

module _ (digest : List ℕ → String) (files : List File) where
  unfoldable pub verify_file : File → Outcome Opened → Outcome (Unit {0})
  unfolding read_all
  verify_file f opened = do
    file ← as_invalid opened
    info ← as_invalid file.stat
    refuse (not (is_regular info.0)) bad_bundle
    refuse (not (eqb_ℤ info.1 f.size)) bad_content
    bytes ← read_all [] file.reads
    refuse (not (eqb_ℤ (pos (length bytes)) f.size)) bad_content
    refuse (not (str_eq (digest bytes) f.sha256)) bad_content

  unfoldable pub verify_declared : Option File → Entry → Outcome (Unit {0})
  unfolding verify_file
  verify_declared none e = err bad_bundle
  verify_declared (some f) e = do
    refuse (not (is_regular e.kind)) bad_bundle
    verify_file f e.open_file

  -- What the callback of the walk does after its two checks, and whether the entry is then `seen`.
  unfoldable pub verify_kind : Entry → Outcome Bool
  unfolding verify_declared find_file
  verify_kind e =
      if str_eq e.path "." || is_directory e.kind
      then ok false
      else if str_eq e.path "manifest.json"
      then if is_regular e.kind then ok false else err bad_bundle
      else verify_declared (find_file e.path files) e >>= λ _. ok true

  unfoldable pub verify_entry : Option Error → Option Category → Entry → Outcome Bool
  unfolding verify_kind
  verify_entry (some x) context e = err (stage_error invalid_bundle x)
  verify_entry none (some c) e = err (canceled_by c)
  verify_entry none none e = verify_kind e

  -- The walk, which gives the paths that were seen.
  unfoldable pub walk : List Entry → Outcome (List String)
  unfolding verify_entry
  walk [] = ok []
  walk (e ∷ es) = do
    here ← verify_entry e.walk_error e.context e
    rest ← walk es
    ok (if here then e.path ∷ rest else rest)

  unfoldable pub verify_files : List Entry → Outcome (Unit {0})
  unfolding walk require_seen
  verify_files entries = do seen ← walk entries; require_seen seen files
