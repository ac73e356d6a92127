-- ===== src/Source/Directory.antt =====
-- `openDirectory` of source.go: a directory is opened, inspected, verified as a bundle, and inspected
-- again. What the file system answers comes in the order of the code.
pub mod NoLeak
use laya_go.Prelude.{
  ℕ, suc, String, str_eq, Bool, true, false, not, ◌&&◌, ◌||◌, Option, none, some, List, [], ◌∷◌,
  map, length, ◌==◌, if◌then◌else◌,
}
use laya_go.Prelude.Int.{ℤ, eqb_ℤ}
use laya_go.Errors.{Category, Error, invalid_bundle, Outcome, ok, err, ◌>>=◌, ◌>>◌, refuse}
use laya_go.Bundle.Rules.{bad_bundle}
use laya_go.Source.{Root, still, as_kind, backwards, close_roots}
use laya_go.Source.Handle.{Handle, is_empty}

-- What `sameFileIdentity` compares of two `FileInfo`: mode, size, time, and the file itself.
pub record Info : Type 0 where
  pub mode : ℕ
  pub size : ℤ
  pub mod_time : ℤ
  pub file : ℕ

unfoldable pub same_file_identity : Info → Info → Bool
same_file_identity a b =
    a.mode == b.mode && eqb_ℤ a.size b.size && eqb_ℤ a.mod_time b.mod_time && a.file == b.file

-- An entry of a walk: the walk's own error, the context, whether it is a link, and its information.
pub record Entry : Type 0 where
  pub path : String
  pub walk_error : Option Error
  pub context : Option Category
  pub is_link : Bool
  pub info : Outcome Info

abbrev pub walk_ok : Option Error → Outcome (Unit {0})
walk_ok none = ok tt
walk_ok (some e) = as_kind invalid_bundle (err e)

-- A walk meets each path once.
unfoldable pub snapshot_entries : List Entry → Outcome (List (String × Info))
snapshot_entries [] = ok []
snapshot_entries (e ∷ es) = do
  walk_ok e.walk_error
  still e.context
  info ← as_kind invalid_bundle e.info
  rest ← snapshot_entries es
  ok ((e.path, info) ∷ rest)

unfoldable pub find_links : List Entry → Outcome (List String)
find_links [] = ok []
find_links (e ∷ es) = do
  walk_ok e.walk_error
  still e.context
  rest ← find_links es
  ok (if e.is_link then e.path ∷ rest else rest)

unfoldable pub find_info : String → List (String × Info) → Option Info
find_info p [] = none
find_info p ((q, i) ∷ es) = let later = find_info p es in if str_eq q p then some i else later

abbrev pub agrees : Info → Option Info → Bool
agrees i none = false
agrees i (some j) = same_file_identity i j

-- The loop of `compareEntries`.
unfoldable pub each_same : List (String × Info) → List (String × Info) → Outcome (Unit {0})
unfolding same_file_identity find_info
each_same [] after = ok tt
each_same ((p, i) ∷ before) after = do
  refuse (not (agrees i (find_info p after))) bad_bundle
  each_same before after

unfoldable pub compare_entries : List (String × Info) → List (String × Info) → Outcome (Unit {0})
unfolding each_same
compare_entries before after = do
  refuse (not (length before == length after)) bad_bundle
  each_same before after

-- What `Lstat` and `Stat` say of a directory: whether it is one, whether it is a link, and the file.
pub record Look : Type 0 where
  pub is_directory : Bool
  pub is_link : Bool
  pub file : ℕ

-- A context that is not nil. `root` and `blobs` are the roots that are opened; `open_snapshot` and
-- `verify_stable` are those of snapshot.go, and `verify` is `bundle.Verify`, which gives the paths that
-- the manifest declares.
pub record Answers : Type 0 where
  pub entry : Option Category
  pub abs : Outcome String
  pub lstat : Outcome Look
  pub open_root : Outcome Root
  pub opened : Option Category
  pub stat : Outcome Look
  pub before : List Entry
  pub links : List Entry
  pub open_snapshot : List String → Outcome Root
  pub verify : Outcome (List String)
  pub verify_stable : Outcome (Unit {0})
  pub after : List Entry
  pub closing : Root → Outcome (Unit {0})

-- The roots that were opened, those that were closed, and the result.
pub record Turn : Type 0 where
  pub opened : List Root
  pub closed : List Root
  pub outcome : Outcome Handle

-- A call that opened a root, and what comes after it.
abbrev pub opening : Root → Turn → Turn
opening r t = record t { opened = r ∷ t.opened }

-- `fail`: `closeRoots` with a cause always gives an error.
unfoldable pub failed : Answers → List Root → Error → Turn
unfolding close_roots
failed a roots e = record {
  opened = [];
  closed = backwards (map some roots);
  outcome = close_roots a.closing (map some roots) (err e) >>= λ _. err e;
}

abbrev pub or_fail {ℓ} : {A : Type ℓ} → Answers → List Root → Outcome A → (A → Turn) → Turn
or_fail a roots (ok x) next = next x
or_fail a roots (err e) next = failed a roots e

unfoldable pub usable : Look → Outcome (Unit {0})
usable l = refuse (not l.is_directory || l.is_link) bad_bundle

-- The opened directory is the one that was looked at.
unfoldable pub inspect_opened : Look → Outcome Look → Outcome (Unit {0})
inspect_opened seen stat = do
  now ← as_kind invalid_bundle stat
  refuse (not now.is_directory || not (seen.file == now.file)) bad_bundle

-- From the verification on.
unfoldable pub finish_open : Answers → String → List Root → Bool → List (String × Info) → Turn
unfolding failed snapshot_entries compare_entries
finish_open a path roots has_links before = or_fail a roots a.verify (λ declared.
    or_fail a roots (if has_links then a.verify_stable else ok tt) (λ _.
      or_fail a roots (snapshot_entries a.after) (λ after.
        or_fail a roots (compare_entries before after) (λ _. record {
          opened = [];
          closed = [];
          outcome = ok (record {
            roots = map some roots;
            has_fs = true;
            root_path = path;
            allowed = "manifest.json" ∷ declared;
            closed = false;
          });
        }))))

-- With the root open.
unfoldable pub inspect_root : Answers → String → Look → Root → Turn
unfolding finish_open inspect_opened failed snapshot_entries find_links
inspect_root a path seen root = or_fail a (root ∷ []) (still a.opened) (λ _.
    or_fail a (root ∷ []) (inspect_opened seen a.stat) (λ _.
      or_fail a (root ∷ []) (snapshot_entries a.before) (λ before.
        or_fail a (root ∷ []) (find_links a.links) (λ links. elim (is_empty links) [
          | true ↦ finish_open a path (root ∷ []) false before
          | false ↦
              or_fail a (root ∷ []) (a.open_snapshot links)
                (λ blobs. opening blobs (finish_open a path (root ∷ blobs ∷ []) true before))
        ]))))

abbrev pub plainly {ℓ} : {A : Type ℓ} → Outcome A → (A → Turn) → Turn
plainly (ok x) next = next x
plainly (err e) next = record { opened = []; closed = []; outcome = err e }

unfoldable pub open_directory : Answers → String → Turn
unfolding inspect_root usable
open_directory a dir = plainly (still a.entry) (λ _.
    plainly (refuse (str_eq dir "") bad_bundle) (λ _.
      plainly (as_kind invalid_bundle a.abs) (λ path.
        plainly (as_kind invalid_bundle a.lstat) (λ seen. plainly (usable seen) (λ _.
          plainly (as_kind invalid_bundle a.open_root)
            (λ root. opening root (inspect_root a path seen root)))))))
