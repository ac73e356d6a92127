-- ===== src/Source/Recovery.antt =====
-- `recoverStages` of materialize.go, with `validStageName` and `verifyMarker`: stages that were left
-- behind are removed. What the file system answers for each entry is data, in the order of the code.
pub mod Name
pub mod Owned
use laya_go.Prelude.{
  ℕ, ◌≡◌, ◌↔◌, inl, inr, refl, sym, ap, ◌∙◌, String, Bool, Bool-cases, true, false, not, ◌&&◌, ◌||◌,
  Option, none, some, List, [], ◌∷◌, ◌++◌, map, length, take, drop, get_or, ◌==◌, if◌then◌else◌,
  arith,
}
use laya_go.Prelude.Int.{ℤ, pos, neg_part, eqb_ℤ}
use laya_go.Errors.{
  Category, Error, sentinel, materialization, Outcome, ok, err, ◌>>=◌, ◌>>◌, refuse, Outcome-cases,
}
use laya_go.Bundle.Text.{codes, all_chars, is_lower_hex}
use laya_go.Source.{still, as_kind, is_ok}

-- 64 and 32 lower-case hexadecimal digits around a dash. A text that passes has one byte a character.
unfoldable pub valid_stage_name : String → Bool
unfolding all_chars
valid_stage_name s =
    length (codes s) == 97
    && get_or (codes s) 64 0 == b'-'
    && all_chars is_lower_hex (take 64 (codes s))
    && all_chars is_lower_hex (drop 65 (codes s))

-- A marker file: whether it is regular and its size, its opening, and the bytes of the limited read.
pub record Marker : Type 0 where
  pub lstat : Outcome (Bool × ℤ)
  pub opened : Outcome (Unit {0})
  pub read : Outcome (List ℕ)

unfoldable pub same_bytes : List ℕ → List ℕ → Bool
same_bytes [] [] = true
same_bytes [] (y ∷ ys) = false
same_bytes (x ∷ xs) [] = false
same_bytes (x ∷ xs) (y ∷ ys) = x == y && same_bytes xs ys

unfoldable pub verify_marker : Marker → List ℕ → Outcome (Unit {0})
unfolding same_bytes
verify_marker m content = do
  info ← as_kind materialization m.lstat
  refuse (not info.0 || not (eqb_ℤ info.1 (pos (length content)))) (sentinel materialization)
  as_kind materialization m.opened
  bytes ← as_kind materialization m.read
  refuse (not (same_bytes bytes content)) (sentinel materialization)

-- An entry of the staging directory: the context before it, what it is, the opening of its root, its
-- marker, the closing of its root, the hook, and the removal.
pub record Entry : Type 0 where
  pub context : Option Category
  pub name : String
  pub is_directory : Bool
  pub is_link : Bool
  pub opened : Outcome (Unit {0})
  pub marker : Marker
  pub close : Outcome (Unit {0})
  pub checkpoint : Outcome (Unit {0})
  pub remove : Outcome (Unit {0})

-- No `continue` is taken.
unfoldable pub is_owned : List ℕ → Entry → Bool
unfolding valid_stage_name verify_marker
is_owned content e =
    valid_stage_name e.name
    && e.is_directory
    && not e.is_link
    && is_ok e.opened
    && is_ok (verify_marker e.marker content)
    && is_ok e.close

-- The entries that `RemoveAll` was called for, and the result, after an entry.
unfoldable pub remove_entry :
    Entry → List String × Outcome (Unit {0}) → List String × Outcome (Unit {0})
remove_entry e rest = elim e.checkpoint [
  | err x ↦ ([], as_kind materialization (err x))
  | ok _ ↦ elim e.remove [
    | err x ↦ (e.name ∷ [], as_kind materialization (err x))
    | ok _ ↦ (e.name ∷ rest.0, rest.1)
  ]
]

-- An entry, by its context and whether it is owned.
unfoldable pub after_entry :
    Option Category
    → Bool
    → Entry
    → List String × Outcome (Unit {0})
    → List String × Outcome (Unit {0})
unfolding remove_entry
after_entry (some c) mine e rest = ([], still (some c))
after_entry none true e rest = remove_entry e rest
after_entry none false e rest = rest

unfoldable pub recover_each : List ℕ → List Entry → List String × Outcome (Unit {0})
unfolding is_owned after_entry
recover_each content [] = ([], ok tt)
recover_each content (e ∷ es) =
    after_entry e.context (is_owned content e) e (recover_each content es)

unfoldable pub recover_stages : List ℕ → Outcome (List Entry) → List String × Outcome (Unit {0})
unfolding recover_each
recover_stages content (err x) = ([], as_kind materialization (err x))
recover_stages content (ok entries) = recover_each content entries
