-- ===== src/Source/Materialize/Publishes.antt =====
-- What `materialize` leaves behind.
use laya_go.Prelude.{
  ◌≡◌, ◌⊎◌, inl, inr, refl, subst, ◌∙◌, String, str_eq, eq_iff, Bool, Bool-cases, true, false, not,
  some, [], ◌∷◌, ◌++◌, if◌then◌else◌,
}
use laya_go.Errors.{
  sentinel, integrity, unsupported_source, materialization, Outcome, ok, err, ◌>>◌, refuse,
}
use laya_go.Bundle.Text.{is_hex}
use laya_go.Bundle.Rules.{Library, bad_bundle}
use laya_go.Source.{is_ok, as_kind, still}
use laya_go.Source.Materialize.{
  opened_work, closed_work, opened_namespace, closed_namespace, opened_lock_file, closed_lock_file,
  locked, unlocked, made_stage, removed_stage, Turn, Answers, step, stop, or_stop, note, drop_ready,
  join_materialize_return, finally, open_checked, fill_stage, remove_with, remove_owned, under_lock,
  take_lock, with_lock, in_namespace, in_work, validate_root, materialization_platform_supported,
  materialize,
}
use laya_go.Source.Materialize.Trace.{Phase, absent, made, next, run, run-step}
use laya_go.Source.Materialize.Staged.{at, Owns, Returns, Goes, fill_stage-Goes}
use laya_go.Source.Materialize.Ends.{
  Ends, snoc-run, drop_ready-Ends, failed-Ends, finally-Ends, or_stop-Ends, note-Ends,
}

-- From a stage that was made.
abbrev pub EndsMade : String → Turn → Type 0
EndsMade id t =
    (q : Phase) × (run id (at 4 made false) t.events ≡ some (at 4 q (is_ok t.outcome)))
    × (is_ok t.outcome ≡ true → q ≡ absent)
    × Returns id t.outcome

note-Made : (id : String) (t : Turn) → EndsMade id t → Ends id 4 4 (note made_stage t)
note-Made id t (q, r, k, g) = (
  q,
  run-step id (at 4 absent false) made_stage t.events {g = at 4 made false} (unfold next in refl)
      ∙ r,
  k,
  g,
)

unowned : (id : String) (t : Turn) → t.owned ≡ false → Goes id made t → EndsMade id t
unowned id t e (q, r, w, g) = (q, r, (λ _. subst (λ (b : Bool). Owns b q) e w), g)

remove_with-Ends :
    (a : Answers) (id : String) (o : Outcome (Unit {0})) (t : Turn)
    → t.owned ≡ true
    → Goes id made t
    → Ends id 4 4 (note made_stage (remove_with a o t))
unfolding remove_with join_materialize_return
remove_with-Ends a id (ok _) t e (q, r, w, g) =
    let u = subst (λ (b : Bool). Owns b q) e w in
    note-Made id (record t { events = t.events ++ (removed_stage ∷ []) })
      (
        absent,
        snoc-run id (at 4 made false) (at 4 q (is_ok t.outcome)) (at 4 absent (is_ok t.outcome))
            t.events removed_stage r (unfold next in rw u refl),
        (λ _. refl),
        g,
      )
remove_with-Ends a id (err x) t e (q, r, w, g) =
    let (p, f, k) = drop_ready-Ends id 4 4 made a.close_ready x t (q, r) in
    failed-Ends id 4 4 (note made_stage (drop_ready a.close_ready x t))
      (run-step id (at 4 absent false) made_stage (drop_ready a.close_ready x t).events
          {g = at 4 made false} (unfold next in refl)
        ∙ f)
      k

-- A stage that is still owned is removed, or an error says that it is not.
remove_owned-Ends :
    (a : Answers) (id : String) (t : Turn)
    → Goes id made t
    → Ends id 4 4 (note made_stage (remove_owned a t))
unfolding remove_owned
remove_owned-Ends a id t h =
    either (note made_stage) t.owned _ t id (λ o. remove_with-Ends a id _ t o h)
      (λ o. note-Made id t (unowned id t o h))
  where
    either :
        (f : Turn → Turn) (b : Bool) (x y : Turn) (id : String)
        → (b ≡ true → Ends id 4 4 (f x))
        → (b ≡ false → Ends id 4 4 (f y))
        → Ends id 4 4 (f (if b then x else y))
    either f true x y id h k = h refl
    either f false x y id h k = k refl

existing-Ends : (id : String) (o : Outcome String) → Ends id 4 4 (open_checked false id o)
unfolding open_checked
existing-Ends id o = or_stop-Ends id 4 o _ (λ got. elim (Bool-cases (str_eq got id)) [
  | inl e ↦ rw e (absent, unfold run in unfold next in refl, (λ _. refl), (eq_iff got id).0 e)
  | inr e ↦ rw e (absent, unfold run in unfold next in refl, (λ _. refl), tt)
])

under_lock-Ends : (a : Answers) (id : String) → Ends id 4 4 (under_lock a id)
unfolding under_lock
under_lock-Ends a id = or_stop-Ends id 4 (step a.checkpoint "recover stages") _ (λ _.
    or_stop-Ends id 4 a.recover_stages _ (λ _. or_stop-Ends id 4 a.entry_exists _ (λ (there : Bool).
      elim there
        as (λ (there : Bool). Ends id 4 4 (
          if there
          then or_stop false (step a.checkpoint "verify ready")
              (λ _. open_checked false id a.open_existing)
          else or_stop false a.new_stage_name (λ name.
            or_stop false (step a.checkpoint "create stage") (λ _.
              or_stop false (as_kind materialization a.make_stage)
                (λ _. note made_stage (remove_owned a (fill_stage a id))))))) [
                  | true ↦
                      or_stop-Ends id 4 (step a.checkpoint "verify ready") _
                        (λ _. existing-Ends id a.open_existing)
                  | false ↦ or_stop-Ends id 4 a.new_stage_name _ (λ _.
                      or_stop-Ends id 4 (step a.checkpoint "create stage") _ (λ _.
                        or_stop-Ends id 4 (as_kind materialization a.make_stage) _
                          (λ _. remove_owned-Ends a id (fill_stage a id) (fill_stage-Goes a id))))
                ])))

take_lock-Ends :
    (id : String) (o : Outcome (Unit {0})) (t : Turn) → Ends id 4 2 t → Ends id 3 2 (take_lock o t)
unfolding take_lock
take_lock-Ends id (err e) t h =
    note-Ends id 3 2 2 closed_lock_file (stop false e) (unfold next in refl)
      (absent, unfold run in refl, (λ _. refl), tt)
take_lock-Ends id (ok _) t h = note-Ends id 3 4 2 locked t (unfold next in refl) h

with_lock-Ends : (a : Answers) (id : String) → Ends id 2 2 (with_lock a id)
unfolding with_lock
with_lock-Ends a id = or_stop-Ends id 2 (step a.checkpoint "open lock") _ (λ _.
    or_stop-Ends id 2 a.open_lock_file _ (λ _.
      note-Ends id 2 3 2 opened_lock_file
        (take_lock (step a.checkpoint "wait lock" >> a.acquire_lock)
          (finally a unlocked a.unlock (under_lock a id)))
        (unfold next in refl)
        (take_lock-Ends id (step a.checkpoint "wait lock" >> a.acquire_lock)
          (finally a unlocked a.unlock (under_lock a id))
          (finally-Ends a id 4 4 2 unlocked a.unlock (under_lock a id) (λ q r. unfold next in refl)
            (under_lock-Ends a id)))))

in_namespace-Ends : (a : Answers) (id : String) → Ends id 1 1 (in_namespace a id)
unfolding in_namespace
in_namespace-Ends a id = or_stop-Ends id 1 (step a.checkpoint "ensure namespace") _ (λ _.
    or_stop-Ends id 1 a.ensure_namespace _ (λ _.
      note-Ends id 1 2 1 opened_namespace
        (finally a closed_namespace (as_kind materialization a.close_namespace) (with_lock a id))
        (unfold next in refl)
        (finally-Ends a id 2 2 1 closed_namespace (as_kind materialization a.close_namespace)
          (with_lock a id) (λ q r. unfold next in refl) (with_lock-Ends a id))))

in_work-Ends : (a : Answers) (id : String) → Ends id 0 0 (in_work a id)
unfolding in_work
in_work-Ends a id = or_stop-Ends id 0 a.open_work _ (λ _.
    note-Ends id 0 1 0 opened_work
      (finally a closed_work (as_kind materialization a.close_work) (in_namespace a id))
      (unfold next in refl)
      (finally-Ends a id 1 1 0 closed_work (as_kind materialization a.close_work)
        (in_namespace a id) (λ q r. unfold next in refl) (in_namespace-Ends a id)))

-- Nothing was done and an error is returned; or the source was verified, and the events are allowed for
-- its identity: in the end work directory, namespace and lock are released, and a bundle is open exactly
-- if it is returned, which then has that identity, and no stage is left.
abbrev pub Leaves : Answers → Turn → Type 0
Leaves a t =
    ((t.events ≡ []) × (is_ok t.outcome ≡ false))
    ⊎ ((id : String) × (a.verify ≡ ok id) × Ends id 0 0 t)

or_stop-Leaves :
    {A : Type 0} (a : Answers) (o : Outcome A) (go : A → Turn)
    → ((x : A) → o ≡ ok x → Leaves a (go x))
    → Leaves a (or_stop false o go)
or_stop-Leaves a (ok x) go h = h x refl
or_stop-Leaves a (err e) go h = inl (refl, refl)

-- Whatever the file system answers, `Materialize` publishes only under the lock, and only a stage whose
-- copy was opened, had the identity of the verified source, and was closed; it always releases the work
-- directory, the namespace and the lock; and it returns an open bundle of that identity with no stage
-- left behind, or an error with no bundle open.
pub materialize-Leaves :
    (lib : Library) (a : Answers) (goos goarch root work_dir : String)
    → Leaves a (materialize lib a goos goarch root work_dir)
unfolding materialize
materialize-Leaves lib a goos goarch root work_dir =
    or_stop-Leaves a
      (refuse (not (materialization_platform_supported goos goarch)) (sentinel unsupported_source))
      _
      (λ _ _. or_stop-Leaves a (refuse (not a.has_fs) bad_bundle) _ (λ _ _.
        or_stop-Leaves a (validate_root lib root) _ (λ _ _.
          or_stop-Leaves a (refuse (str_eq work_dir "") (sentinel materialization)) _ (λ _ _.
            or_stop-Leaves a (still a.entry) _ (λ _ _.
              or_stop-Leaves a (step a.checkpoint "verify source") _ (λ _ _.
                or_stop-Leaves a a.verify _ (λ id e.
                  or_stop-Leaves a (refuse (not (is_hex 64 (a.digest_of id))) (sentinel integrity))
                    _ (λ _ _. inr (id, e, in_work-Ends a id)))))))))
