-- ===== src/Source/Materialize/Staged.antt =====
-- What happens to a stage of `materialize`, from the lock on.
use laya_go.Prelude.{
  ℕ, ◌≡◌, inl, inr, refl, ◌∙◌, String, str_eq, eq_iff, Bool, Bool-cases, true, false, not, some,
  if◌then◌else◌,
}
use laya_go.Errors.{sentinel, integrity, materialization, Outcome, ok, err, refuse}
use laya_go.Source.{is_ok, as_kind}
use laya_go.Source.Materialize.{
  Event, removed_stage, published, opened_staged, closed_staged, Turn, Answers, step, or_stop, note,
  open_checked, finish, publish, check_stage, fill_stage,
}
use laya_go.Source.Materialize.Trace.{
  Phase, absent, made, sound, renamed, checking, Held, removable, next, run, run-step,
}

abbrev pub at : ℕ → Phase → Bool → Held
at d p r = record { depth = d; phase = p; ready = r }

-- `stageOwned` at the end of a part, and the stage.
abbrev pub Owns : Bool → Phase → Type 0
Owns true p = removable p ≡ true
Owns false p = p ≡ absent

abbrev pub Returns : String → Outcome String → Type 0
Returns id (ok got) = got ≡ id
Returns id (err e) = Unit {0}

-- Under the lock: the events are allowed, and a bundle is open exactly if it is returned.
abbrev pub Goes : String → Phase → Turn → Type 0
Goes id p t =
    (q : Phase) × (run id (at 4 p false) t.events ≡ some (at 4 q (is_ok t.outcome)))
    × Owns t.owned q
    × Returns id t.outcome

pub or_stop-Goes :
    {A : Type 0} (id : String) (p : Phase) (owned : Bool) (o : Outcome A) (go : A → Turn)
    → Owns owned p
    → ((x : A) → Goes id p (go x))
    → Goes id p (or_stop owned o go)
or_stop-Goes id p owned (ok x) go w h = h x
or_stop-Goes id p owned (err e) go w h = (p, unfold run in refl, w, tt)

pub note-Goes :
    (id : String) (p q : Phase) (v : Event) (t : Turn)
    → next id (at 4 p false) v ≡ some (at 4 q false)
    → Goes id q t
    → Goes id p (note v t)
note-Goes id p q v t e (r, g, w, u) = (r, run-step id (at 4 p false) v t.events e ∙ g, w, u)

pub open_checked-Goes :
    (id : String) (p : Phase) (owned : Bool) (o : Outcome String)
    → Owns owned p
    → Goes id p (open_checked owned id o)
unfolding open_checked
open_checked-Goes id p owned o w = or_stop-Goes id p owned o _ w (λ got.
    elim (Bool-cases (str_eq got id)) [
      | inl e ↦ rw e (p, unfold run in unfold next in refl, w, (eq_iff got id).0 e)
      | inr e ↦ rw e (p, unfold run in unfold next in refl, w, tt)
    ])

finish-Goes : (a : Answers) (id : String) → Goes id renamed (finish a id)
unfolding finish
finish-Goes a id = or_stop-Goes id renamed true (step a.checkpoint "sync publication") _ refl (λ _.
    or_stop-Goes id renamed true a.sync_bundles _ refl (λ _.
      or_stop-Goes id renamed true (step a.checkpoint "remove published stage") _ refl (λ _.
        or_stop-Goes id renamed true (as_kind materialization a.remove_published) _ refl (λ _.
          note-Goes id renamed absent removed_stage _ (unfold next in refl) (
            or_stop-Goes id absent false a.sync_staging _ refl (λ _.
              or_stop-Goes id absent false (step a.checkpoint "open publication") _ refl
                (λ _. open_checked-Goes id absent false a.open_published refl)))))))

publish-Goes : (a : Answers) (id : String) → Goes id sound (publish a id)
unfolding publish
publish-Goes a id = or_stop-Goes id sound true (step a.checkpoint "publish bundle") _ refl (λ _.
    or_stop-Goes id sound true a.rename _ refl (λ (r : Bool).
      elim r
        as (λ (r : Bool).
          Goes id sound
            (if r then note published (finish a id) else open_checked true id a.open_winner)) [
              | true ↦
                  note-Goes id sound renamed published _ (unfold next in refl) (finish-Goes a id)
              | false ↦ open_checked-Goes id sound true a.open_winner refl
            ]))

check_stage-Goes : (a : Answers) (id : String) → Goes id made (check_stage a id)
unfolding check_stage
check_stage-Goes a id = or_stop-Goes id made true (step a.checkpoint "verify stage") _ refl (λ _.
    or_stop-Goes id made true a.open_staged _ refl (λ got.
      note-Goes id made (checking got) (opened_staged got) _ (unfold next in refl)
        (elim (Bool-cases (str_eq got id)) [
          | inl e ↦
              note-Goes id (checking got) sound closed_staged _ (unfold next in rw e refl)
                (rw e (or_stop-Goes id sound true a.close_staged _ refl (λ _. publish-Goes a id)))
          | inr e ↦
              note-Goes id (checking got) made closed_staged _ (unfold next in rw e refl)
                (rw e (made, unfold run in refl, refl, tt))
        ])))

pub fill_stage-Goes : (a : Answers) (id : String) → Goes id made (fill_stage a id)
unfolding fill_stage
fill_stage-Goes a id =
    or_stop-Goes id made true (step a.checkpoint "write stage marker") _ refl (λ _.
      or_stop-Goes id made true a.write_marker _ refl (λ _.
        or_stop-Goes id made true (step a.checkpoint "copy bundle") _ refl (λ _.
          or_stop-Goes id made true a.stage _ refl (λ staged.
            or_stop-Goes id made true (refuse (not (str_eq staged id)) (sentinel integrity)) _ refl
              (λ _. or_stop-Goes id made true (step a.checkpoint "sync stage") _ refl (λ _.
                or_stop-Goes id made true a.sync_tree _ refl (λ _. check_stage-Goes a id)))))))
