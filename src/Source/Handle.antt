-- ===== src/Source/Handle.antt =====
-- `Path`, `ReadFile` and `Close` of a `Bundle` in source.go.
use laya_go.Prelude.{
  ℕ, String, Bool, true, false, not, ◌&&◌, ◌||◌, Option, none, some, List, [], ◌∷◌, ◌++◌, length,
  ltb, if◌then◌else◌,
}
use laya_go.Prelude.Int.{ℤ, pos, pos_part, ltb_ℤ}
use laya_go.Errors.{
  Category, Error, sentinel, stage_error, foreign, invalid_bundle, integrity, unsupported_source,
  source_closed, Outcome, ok, err, ◌>>=◌, ◌>>◌, refuse,
}
use laya_go.Question.{seen_before}
use laya_go.Bundle.Rules.{Library, bad_bundle}
use laya_go.Bundle.Verify.{Kind, is_regular, bad_content}
use laya_go.Source.{Root, still, canceled_as, as_kind, valid_logical_path, close_roots, backwards}

-- A `Bundle` that is not nil. `sourceFS` is nil or not; the manifest is left out.
pub record Handle : Type 0 where
  pub roots : List (Option Root)
  pub has_fs : Bool
  pub root_path : String
  pub allowed : List String
  pub closed : Bool

abbrev pub is_empty {ℓ} : {A : Type ℓ} → List A → Bool
is_empty [] = true
is_empty (x ∷ xs) = false

-- The test of `Path` and of `ReadFile` that the handle is open and declares the path.
unfoldable pub require_declared : Handle → String → Outcome (Unit {0})
unfolding seen_before
require_declared h path = do
  refuse (h.closed || is_empty h.roots || not h.has_fs) (sentinel source_closed)
  refuse (not (seen_before h.allowed path)) (stage_error invalid_bundle (foreign 1))

-- `fs.Stat` gives the kind; `join` is `filepath.Join` with `filepath.FromSlash`.
unfoldable pub path_of :
    Library
    → (String → String → String)
    → Option Handle
    → (String → Outcome Kind)
    → String
    → Outcome String
unfolding require_declared
path_of lib join none stat path = err (sentinel source_closed)
path_of lib join (some h) stat path = do
  refuse (not (valid_logical_path lib path)) bad_bundle
  require_declared h path
  kind ← as_kind invalid_bundle (stat path)
  refuse (not (is_regular kind)) (sentinel unsupported_source)
  ok (join h.root_path path)

-- The reads of a file to its end: the context is done before or after a read, a count is out of the
-- buffer, a read ends or fails the file with the bytes that it gave, or there are more.
pub data Stream : Type 0 where
  stopped : Category → Stream
  miscounts : Stream
  ends : List ℕ → Stream
  fails : List ℕ → Error → Stream
  gives : List ℕ → Stream → Stream

-- `count > 0` and the data would pass the limit.
abbrev pub too_long : ℕ → List ℕ → List ℕ → Bool
too_long limit done bytes = not (is_empty bytes) && ltb limit (length (done ++ bytes))

-- The loop of `ReadFile`, with the data so far. Of the errors of Go's library, 0 is `io.ErrNoProgress`,
-- 1 `fs.ErrNotExist`, and 8 stands for "invalid reader count".
unfoldable pub read_within : ℕ → List ℕ → Stream → Outcome (List ℕ)
read_within limit done (stopped c) = err (canceled_as c)
read_within limit done miscounts = err (stage_error integrity (foreign 8))
read_within limit done (ends bytes) = do
  refuse (too_long limit done bytes) bad_content
  ok (done ++ bytes)
read_within limit done (fails bytes e) = do
  refuse (too_long limit done bytes) bad_content
  err (stage_error integrity e)
read_within limit done (gives [] s) = err (stage_error integrity (foreign 0))
read_within limit done (gives (b ∷ bytes) s) =
    let rest = read_within limit (done ++ (b ∷ bytes)) s in
    refuse (too_long limit done (b ∷ bytes)) bad_content >> rest

pub record File : Type 0 where
  pub stat : Outcome (Kind × ℤ)
  pub stream : Stream

-- A context that is not nil.
unfoldable pub read_file :
    Library
    → Option Category
    → Option Handle
    → (String → Outcome File)
    → String
    → ℤ
    → Outcome (List ℕ)
unfolding require_declared read_within
read_file lib context none open_file path limit = do still context; err (sentinel source_closed)
read_file lib context (some h) open_file path limit = do
  still context
  refuse (not (valid_logical_path lib path) || ltb_ℤ limit (pos 0)) bad_bundle
  require_declared h path
  file ← as_kind invalid_bundle (open_file path)
  info ← as_kind invalid_bundle file.stat
  refuse (not (is_regular info.0) || ltb_ℤ info.1 (pos 0) || ltb_ℤ limit info.1) bad_bundle
  read_within (pos_part limit) [] file.stream

pub record Turn : Type 0 where
  pub after : Handle
  pub released : List Root
  pub outcome : Outcome (Unit {0})

unfoldable pub close : (Root → Outcome (Unit {0})) → Handle → Turn
unfolding close_roots
close closing h =
    if h.closed
    then record { after = h; released = []; outcome = ok tt }
    else if is_empty h.roots
    then record { after = record h { closed = true }; released = []; outcome = ok tt }
    else record {
      after = record h { roots = []; has_fs = false; closed = true };
      released = backwards h.roots;
      outcome = close_roots closing h.roots (ok tt);
    }
