-- ===== src/Source/Materialize.antt =====
-- `materialize` of materialize.go: a bundle is verified, staged below a namespace that is locked, and
-- published by a rename. What the file system answers comes in the order of the code; a deferred call
-- runs after what was deferred later.
pub mod Trace
pub mod Staged
pub mod Ends
pub mod Publishes
use laya_go.Prelude.{
  String, str_eq, Bool, true, false, not, ◌&&◌, ◌||◌, Option, none, some, List, [], ◌∷◌, ◌++◌,
  if◌then◌else◌,
}
use laya_go.Errors.{
  Category, Error, sentinel, joined, invalid_bundle, integrity, unsupported_source, materialization,
  Outcome, ok, err, ◌>>=◌, ◌>>◌, refuse, join_with,
}
use laya_go.Bundle.Text.{is_hex}
use laya_go.Bundle.Rules.{Library, bad_bundle}
use laya_go.Source.{still, as_kind}

-- The roots, the lock and the stage, and the bundles that are opened, with their identity.
pub data Event : Type 0 where
  opened_work closed_work opened_namespace closed_namespace : Event
  opened_lock_file closed_lock_file locked unlocked : Event
  made_stage removed_stage published : Event
  opened_staged : String → Event
  closed_staged : Event
  opened_ready : String → Event
  closed_ready : Event

-- What happened, the identity of the bundle that is returned, and `stageOwned`.
pub record Turn : Type 0 where
  pub events : List Event
  pub outcome : Outcome String
  pub owned : Bool

-- A context that is not nil. `checkpoint` is the hook; a bundle is its identity; `rename` says whether
-- the stage was renamed, and `digest_of` is `strings.TrimPrefix`.
pub record Answers : Type 0 where
  pub has_fs : Bool
  pub entry : Option Category
  pub checkpoint : Option (String → Outcome (Unit {0}))
  pub digest_of : String → String
  pub verify : Outcome String
  pub open_work : Outcome (Unit {0})
  pub ensure_namespace : Outcome (Unit {0})
  pub open_lock_file : Outcome (Unit {0})
  pub acquire_lock : Outcome (Unit {0})
  pub recover_stages : Outcome (Unit {0})
  pub entry_exists : Outcome Bool
  pub open_existing : Outcome String
  pub new_stage_name : Outcome String
  pub make_stage : Outcome (Unit {0})
  pub write_marker : Outcome (Unit {0})
  pub stage : Outcome String
  pub sync_tree : Outcome (Unit {0})
  pub open_staged : Outcome String
  pub close_staged : Outcome (Unit {0})
  pub rename : Outcome Bool
  pub open_winner : Outcome String
  pub sync_bundles : Outcome (Unit {0})
  pub remove_published : Outcome (Unit {0})
  pub sync_staging : Outcome (Unit {0})
  pub open_published : Outcome String
  pub remove_stage : Outcome (Unit {0})
  pub unlock : Outcome (Unit {0})
  pub close_namespace : Outcome (Unit {0})
  pub close_work : Outcome (Unit {0})
  pub close_ready : Outcome (Unit {0})

-- `materializeHooks.step`.
unfoldable pub step : Option (String → Outcome (Unit {0})) → String → Outcome (Unit {0})
step none operation = ok tt
step (some checkpoint) operation = as_kind materialization (checkpoint operation)

abbrev pub stop : Bool → Error → Turn
stop owned e = record { events = []; outcome = err e; owned = owned }

-- `if err != nil { return nil, err }`, with `stageOwned`.
abbrev pub or_stop {ℓ} : {A : Type ℓ} → Bool → Outcome A → (A → Turn) → Turn
or_stop owned (ok x) next = next x
or_stop owned (err e) next = stop owned e

abbrev pub note : Event → Turn → Turn
note v t = record t { events = v ∷ t.events }

-- `joinMaterializeReturn` of an error: a bundle that is ready is closed and not returned.
unfoldable pub drop_ready : Outcome (Unit {0}) → Error → Turn → Turn
drop_ready closing e t = elim t.outcome [
  | ok id ↦ record {
    events = t.events ++ (closed_ready ∷ []);
    outcome = err (join_with e closing);
    owned = t.owned;
  }
  | err x ↦ record t { outcome = err (joined x e) }
]

unfoldable pub join_materialize_return : Outcome (Unit {0}) → Turn → Outcome (Unit {0}) → Turn
unfolding drop_ready
join_materialize_return closing t (ok _) = t
join_materialize_return closing t (err e) = drop_ready closing e t

-- A deferred call that leaves an event behind.
unfoldable pub finally : Answers → Event → Outcome (Unit {0}) → Turn → Turn
unfolding join_materialize_return
finally a v result t =
    join_materialize_return a.close_ready (record t { events = t.events ++ (v ∷ []) }) result

-- A bundle is opened and its identity compared.
unfoldable pub open_checked : Bool → String → Outcome String → Turn
open_checked owned id opened = or_stop owned opened (λ got.
    if str_eq got id
    then record { events = opened_ready got ∷ []; outcome = ok got; owned = owned }
    else record {
      events = opened_ready got ∷ closed_ready ∷ [];
      outcome = err (sentinel integrity);
      owned = owned;
    })

-- After the rename: the stage is removed and given up.
unfoldable pub finish : Answers → String → Turn
unfolding step open_checked
finish a id = or_stop true (step a.checkpoint "sync publication") (λ _.
    or_stop true a.sync_bundles (λ _.
      or_stop true (step a.checkpoint "remove published stage") (λ _.
        or_stop true (as_kind materialization a.remove_published) (λ _. note removed_stage (
          or_stop false a.sync_staging (λ _.
            or_stop false (step a.checkpoint "open publication")
              (λ _. open_checked false id a.open_published)))))))

unfoldable pub publish : Answers → String → Turn
unfolding step open_checked finish
publish a id = or_stop true (step a.checkpoint "publish bundle") (λ _.
    or_stop true a.rename (λ renamed.
      if renamed then note published (finish a id) else open_checked true id a.open_winner))

-- The staged copy is opened, compared and closed.
unfoldable pub check_stage : Answers → String → Turn
unfolding step publish
check_stage a id = or_stop true (step a.checkpoint "verify stage") (λ _.
    or_stop true a.open_staged (λ got. note (opened_staged got) (
      note closed_staged (
        if str_eq got id
        then or_stop true a.close_staged (λ _. publish a id)
        else stop true (sentinel integrity)))))

unfoldable pub fill_stage : Answers → String → Turn
unfolding step check_stage
fill_stage a id = or_stop true (step a.checkpoint "write stage marker") (λ _.
    or_stop true a.write_marker (λ _. or_stop true (step a.checkpoint "copy bundle") (λ _.
      or_stop true a.stage (λ staged.
        or_stop true (refuse (not (str_eq staged id)) (sentinel integrity)) (λ _.
          or_stop true (step a.checkpoint "sync stage")
            (λ _. or_stop true a.sync_tree (λ _. check_stage a id)))))))

-- The deferred removal of a stage that is still owned, with the result of hook and removal.
unfoldable pub remove_with : Answers → Outcome (Unit {0}) → Turn → Turn
unfolding join_materialize_return
remove_with a (err e) t = join_materialize_return a.close_ready t (err e)
remove_with a (ok _) t = record t { events = t.events ++ (removed_stage ∷ []) }

unfoldable pub remove_owned : Answers → Turn → Turn
unfolding step remove_with
remove_owned a t =
    let removed = step a.checkpoint "cleanup stage" >> as_kind materialization a.remove_stage in
    if t.owned then remove_with a removed t else t

-- With the lock.
unfoldable pub under_lock : Answers → String → Turn
unfolding step open_checked fill_stage remove_owned
under_lock a id = or_stop false (step a.checkpoint "recover stages") (λ _.
    or_stop false a.recover_stages (λ _. or_stop false a.entry_exists (λ there.
      if there
      then or_stop false (step a.checkpoint "verify ready")
          (λ _. open_checked false id a.open_existing)
      else or_stop false a.new_stage_name (λ name.
        or_stop false (step a.checkpoint "create stage") (λ _.
          or_stop false (as_kind materialization a.make_stage)
            (λ _. note made_stage (remove_owned a (fill_stage a id))))))))

-- With the result of the wait for the lock, and what runs under it.
unfoldable pub take_lock : Outcome (Unit {0}) → Turn → Turn
take_lock (err e) t = note closed_lock_file (stop false e)
take_lock (ok _) t = note locked t

unfoldable pub with_lock : Answers → String → Turn
unfolding step take_lock under_lock finally
with_lock a id = or_stop false (step a.checkpoint "open lock") (λ _.
    or_stop false a.open_lock_file (λ _. note opened_lock_file (
      take_lock (step a.checkpoint "wait lock" >> a.acquire_lock)
        (finally a unlocked a.unlock (under_lock a id)))))

unfoldable pub in_namespace : Answers → String → Turn
unfolding step with_lock finally
in_namespace a id = or_stop false (step a.checkpoint "ensure namespace") (λ _.
    or_stop false a.ensure_namespace (λ _.
      note opened_namespace
        (finally a closed_namespace (as_kind materialization a.close_namespace) (with_lock a id))))

unfoldable pub in_work : Answers → String → Turn
unfolding in_namespace finally
in_work a id = or_stop false a.open_work (λ _.
    note opened_work
      (finally a closed_work (as_kind materialization a.close_work) (in_namespace a id)))

unfoldable pub materialization_platform_supported : String → String → Bool
materialization_platform_supported goos goarch = str_eq goos "linux" && str_eq goarch "amd64"

unfoldable pub validate_root : Library → String → Outcome (Unit {0})
validate_root lib root =
    let path = if str_eq root "" then "." else root in
    refuse (not (str_eq path ".") && (not (lib.valid_path path) || lib.has_backslash path))
      bad_bundle

unfoldable pub materialize : Library → Answers → String → String → String → String → Turn
unfolding step in_work materialization_platform_supported validate_root
materialize lib a goos goarch root work_dir =
    or_stop false
      (refuse (not (materialization_platform_supported goos goarch)) (sentinel unsupported_source))
      (λ _. or_stop false (refuse (not a.has_fs) bad_bundle) (λ _.
        or_stop false (validate_root lib root) (λ _.
          or_stop false (refuse (str_eq work_dir "") (sentinel materialization)) (λ _.
            or_stop false (still a.entry) (λ _.
              or_stop false (step a.checkpoint "verify source") (λ _. or_stop false a.verify (λ id.
                or_stop false (refuse (not (is_hex 64 (a.digest_of id))) (sentinel integrity))
                  (λ _. in_work a id))))))))
