-- ===== src/Tests/Source.antt =====
-- A bundle in a directory that has links, a file that is read, one that is copied, and a publication.
use laya_go.Prelude.{
  ℕ, ◌≡◌, ◌↔◌, ◌≤◌, refl, not, String, str_eq, true, false, Option, none, some, List, [], ◌∷◌, All,
  Has, length, if◌then◌else◌, ◌==◌,
}
use laya_go.Prelude.Int.{pos, pos_part, ltb_ℤ}
use laya_go.Errors.{Category, ok, err, foreign, canceled}
use laya_go.Bundle.Rules.{Library}
use laya_go.Bundle.Text.{is_hex}
use laya_go.Bundle.Verify.{regular}
use laya_go.Source.{valid_logical_path, is_ok}
use laya_go.Source.Handle.{Handle, File, read_file}
use laya_go.Source.Handle
use laya_go.Source.Reading.{Declares, IsWithin, read_file-Exact}
use laya_go.Source.Directory
use laya_go.Source.Directory.{Info, Look, Entry}
use laya_go.Source.Directory.NoLeak.{NoLeak}
use laya_go.Source.Recovery
use laya_go.Source.Recovery.{recover_stages}
use laya_go.Source.Recovery.Owned.{IsStage, recover_stages-Owned}
use laya_go.Source.Copy
use laya_go.Source.Copy.{Writer, takes, Expected, ends, gives, copy_staged_file}
use laya_go.Source.Copy.Whole.{bytes_of, IsExpected, copy_staged_file-Whole}
use laya_go.Source.Materialize
use laya_go.Source.Materialize.{materialize}
use laya_go.Source.Materialize.Publishes.{Leaves, materialize-Leaves}

abbrev lib : Library
lib = record {
  valid_path = λ p. not (str_eq p "");
  to_lower = λ s. s;
  has_backslash = λ p. false;
  unix_seconds = λ t. ok (pos 1700000000);
}

abbrev live : Option Category
live = none

abbrev handle : Handle
handle = record {
  roots = some 4 ∷ [];
  has_fs = true;
  root_path = "/bundle";
  allowed = "manifest.json" ∷ "model.onnx" ∷ [];
  closed = false;
}

abbrev file : File
file = record {
  stat = ok (regular, pos 3);
  stream = Handle.gives (1 ∷ 2 ∷ []) (Handle.ends (3 ∷ []));
}

read_file-Exact_example :
    (read_file lib live (some handle) (λ p. ok file) "model.onnx" (pos 8) ≡ ok (1 ∷ 2 ∷ 3 ∷ [])) ↔ (
      (live ≡ none)
      × (valid_logical_path lib "model.onnx" ≡ true)
      × (ltb_ℤ (pos 8) (pos 0) ≡ false)
      × Declares handle "model.onnx"
      × IsWithin (pos 8) (ok file) (1 ∷ 2 ∷ 3 ∷ []))
read_file-Exact_example =
    read_file-Exact lib live handle (λ p. ok file) "model.onnx" (pos 8) (1 ∷ 2 ∷ 3 ∷ [])

abbrev look : Look
look = record { is_directory = true; is_link = false; file = 7 }

abbrev entries : List Entry
entries =
    record {
      path = "manifest.json";
      walk_error = none;
      context = none;
      is_link = true;
      info = ok (record { mode = 420; size = pos 3; mod_time = pos 5; file = 9 });
    }
    ∷ []

-- The bundle changes while it is verified.
abbrev changing : Directory.Answers
changing = record {
  entry = none;
  abs = ok "/bundle";
  lstat = ok look;
  open_root = ok 4;
  opened = none;
  stat = ok look;
  before = entries;
  links = entries;
  open_snapshot = λ links. ok 5;
  verify = ok [];
  verify_stable = ok tt;
  after = [];
  closing = λ root. ok tt;
}

abbrev answers : Copy.Answers
answers = record {
  open_input = ok tt;
  stat = ok (regular, pos 3);
  make_directory = ok tt;
  create = ok tt;
  chunks =
      gives (1 ∷ 2 ∷ []) (takes 1 (takes 1 (takes 1 (Copy.stopped canceled))))
        (ends (3 ∷ []) (takes 1 (Copy.stopped canceled)));
  sync = ok tt;
  close_output = ok tt;
  close_input = ok tt;
}

abbrev expected : Expected
expected = record { size = pos 3; limit = pos 3; digest = "three" }

abbrev digest : List ℕ → String
digest bytes = if length bytes == 3 then "three" else ""

copied : (copy_staged_file digest live answers expected).1 ≡ ok tt
unfolding copy_staged_file
copied = refl

copy_staged_file-Whole_example :
    (bytes : List ℕ) × ((copy_staged_file digest live answers expected).0 ≡ some bytes)
    × (bytes_of answers.chunks ≡ some bytes)
    × (length bytes ≤ pos_part expected.limit)
    × IsExpected digest expected bytes
    × (live ≡ none)
    × (answers.close_input ≡ ok tt)
    × (answers.close_output ≡ ok tt)
copy_staged_file-Whole_example = copy_staged_file-Whole digest live answers expected copied

abbrev sha : String
sha = "0123456789abcdef0123456789abcdef0123456789abcdef0123456789abcdef"

-- A first publication, whose lock cannot be released.
abbrev publication : Materialize.Answers
publication = record {
  has_fs = true;
  entry = none;
  checkpoint = none;
  digest_of = λ id. id;
  verify = ok sha;
  open_work = ok tt;
  ensure_namespace = ok tt;
  open_lock_file = ok tt;
  acquire_lock = ok tt;
  recover_stages = ok tt;
  entry_exists = ok false;
  open_existing = err (foreign 1);
  new_stage_name = ok "stage";
  make_stage = ok tt;
  write_marker = ok tt;
  stage = ok sha;
  sync_tree = ok tt;
  open_staged = ok sha;
  close_staged = ok tt;
  rename = ok true;
  open_winner = err (foreign 1);
  sync_bundles = ok tt;
  remove_published = ok tt;
  sync_staging = ok tt;
  open_published = ok sha;
  remove_stage = ok tt;
  unlock = err (foreign 1);
  close_namespace = ok tt;
  close_work = ok tt;
  close_ready = ok tt;
}

materialize-Leaves_example :
    Leaves publication (materialize lib publication "linux" "amd64" "" "/work")
materialize-Leaves_example = materialize-Leaves lib publication "linux" "amd64" "" "/work"

publication_events :
    (materialize lib publication "linux" "amd64" "" "/work").events
    ≡ Materialize.opened_work
      ∷ Materialize.opened_namespace
      ∷ Materialize.opened_lock_file
      ∷ Materialize.locked
      ∷ Materialize.made_stage
      ∷ Materialize.opened_staged sha
      ∷ Materialize.closed_staged
      ∷ Materialize.published
      ∷ Materialize.removed_stage
      ∷ Materialize.opened_ready sha
      ∷ Materialize.unlocked
      ∷ Materialize.closed_ready
      ∷ Materialize.closed_namespace
      ∷ Materialize.closed_work
      ∷ []
unfolding materialize is_hex
publication_events = refl

abbrev content : List ℕ
content = 1 ∷ 2 ∷ []

abbrev stage_name : String
stage_name =
    "0123456789abcdef0123456789abcdef0123456789abcdef0123456789abcdef-0123456789abcdef0123456789abcdef"

-- An abandoned stage, and an entry with its name that is a link.
abbrev abandoned : Recovery.Entry
abandoned = record {
  context = none;
  name = stage_name;
  is_directory = true;
  is_link = false;
  opened = ok tt;
  marker = record { lstat = ok (true, pos 2); opened = ok tt; read = ok content };
  close = ok tt;
  checkpoint = ok tt;
  remove = ok tt;
}

abbrev left_behind : List Recovery.Entry
left_behind = record abandoned { is_link = true } ∷ abandoned ∷ []

recover_stages-Owned_example :
    All
      (λ (n : String).
        (e : Recovery.Entry) × (e.name ≡ n) × (Has e left_behind × IsStage content e))
      (recover_stages content (ok left_behind)).0
    × (is_ok (recover_stages content (ok left_behind)).1 ≡ true
        → (e : Recovery.Entry) → Has e left_behind
        → IsStage content e
        → Has e.name (recover_stages content (ok left_behind)).0)
recover_stages-Owned_example = recover_stages-Owned content left_behind

one_removed : recover_stages content (ok left_behind) ≡ (stage_name ∷ [], ok tt)
unfolding recover_stages
one_removed = refl
