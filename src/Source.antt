-- ===== src/Source.antt =====
-- internal/source: bundles in directories of the local machine. What the file system answers is an
-- argument; a root is an open directory, by a number.
pub mod Handle
pub mod Reading
pub mod Directory
pub mod Copy
pub mod Recovery
pub mod Materialize
use laya_go.Prelude.{
  ℕ, String, Bool, true, false, not, ◌&&◌, ◌||◌, str_eq, Option, none, some, List, [], ◌∷◌, ◌++◌,
}
use laya_go.Errors.{Category, Error, sentinel, stage_error, joined, Outcome, ok, err}
use laya_go.Bundle.Rules.{Library}

-- `sourceError` with the error of a context as kind and cause.
abbrev pub canceled_as : Category → Error
canceled_as c = stage_error c (sentinel c)

abbrev pub still : Option Category → Outcome (Unit {0})
still none = ok tt
still (some c) = err (canceled_as c)

-- A step that failed, with the kind that it is given.
abbrev pub as_kind {ℓ} : {A : Type ℓ} → Category → Outcome A → Outcome A
as_kind k (ok a) = ok a
as_kind k (err e) = err (stage_error k e)

-- `errors.Join` of two errors that may be nil.
abbrev pub join_errors : Outcome (Unit {0}) → Outcome (Unit {0}) → Outcome (Unit {0})
join_errors (ok _) b = b
join_errors (err a) (ok _) = err a
join_errors (err a) (err b) = err (joined a b)

-- The directories `fs.ValidPath` allows below a root.
abbrev pub valid_logical_path : Library → String → Bool
valid_logical_path lib p = not (str_eq p ".") && lib.valid_path p && not (lib.has_backslash p)

abbrev pub Root : Type 0
Root = ℕ

-- The roots that are not nil, from the last to the first.
unfoldable pub backwards : List (Option Root) → List Root
backwards [] = []
backwards (none ∷ rs) = backwards rs
backwards (some r ∷ rs) = backwards rs ++ (r ∷ [])

-- The loop of `closeRoots` over them, with the errors so far.
unfoldable pub close_each :
    (Root → Outcome (Unit {0})) → List Root → Outcome (Unit {0}) → Outcome (Unit {0})
close_each closing [] errors = errors
close_each closing (r ∷ rs) errors =
    close_each closing rs (join_errors errors (as_kind Category.materialization (closing r)))

unfoldable pub close_roots :
    (Root → Outcome (Unit {0})) → List (Option Root) → Outcome (Unit {0}) → Outcome (Unit {0})
unfolding close_each backwards
close_roots closing roots cause = close_each closing (backwards roots) cause

abbrev pub is_ok {ℓ} : {A : Type ℓ} → Outcome A → Bool
is_ok (ok x) = true
is_ok (err e) = false
