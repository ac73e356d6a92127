-- ===== src/Admission/Preserved.antt =====
-- Every step keeps the invariant, so every reachable state has it.
use laya_go.Prelude.{
  ℕ, ◌<◌, ◌≡◌, inl, inr, refl, sym, subst, true, List, [], Has, Bool-cases, arith,
}
use laya_go.Errors.{Outcome, ok, err}
use laya_go.Options.{ModelOptions}
use laya_go.Admission.{
  ModelState, opened, closing, closed, uninitialized, Model, member, remove, release, cancel_waiter,
  close_in, close_claim, begin_close, signal_idle,
}
use laya_go.Admission.Steps.{
  System, Step, enters, resumes, cancels, finishes, closes, fails, succeeds, unregisters, leaves,
  Reach, begins, next_step, resume, cancel, finish, claim, close, engine_fails, engine_succeeds,
  unregister, leave,
}
use laya_go.Admission.Queue.{
  Increasing, length-zero, length-remove, length-remove-Has, member-Has, Increasing-remove,
  Before-remove, Before-remove_waiter, Before-Has,
}
use laya_go.Admission.Invariant.{
  Slots, Inv, start-Inv, enter-Inv, release_to-Slots, release_to-Flags, release_to-keeps,
}

resume-Inv : (w : ℕ) (s : System) → Has w s.model.granted → Inv s → Inv (resume w s)
unfolding resume
resume-Inv w s g h = ground (
  arith,
  length-remove-Has w s.model.granted g,
  Before-remove w s.next s.model.granted s.model.waiters h.slots.granted_first,
  Before-Has w s.next s.model.granted s.model.waiters g h.slots.granted_first,
)

-- The slot's only holder gives it up.
module _ (s : System) (h : Inv s) (m : Model) (none_granted : m.granted ≡ [])
    (held : m.active ≡ true) (same_queue : m.waiters ≡ s.model.waiters)
    (same_opts : m.opts ≡ s.model.opts) (same_ready : m.ready_closed ≡ s.model.ready_closed) where
  released-Slots : (running : List ℕ) → running ≡ [] → Slots (release m) running s.next
  unfolding release
  released-Slots running e =
      subst (λ r. Slots (release m) r s.next) (sym e)
        (release_to-Slots m s.next none_granted held m.waiters refl (ground arith)
          (subst (λ ws. Increasing 0 ws s.next) (sym same_queue) h.slots.ordered)
          (rw (same_queue, same_ready) h.slots.ready_first))

finish-Inv : (c : ℕ) (s : System) → Has c s.running → Inv s → Inv (finish c s)
unfolding finish
finish-Inv c s r h = record {
  slots = released-Slots s h s.model free held refl refl refl (remove c s.running) gone;
  flags =
      release_to-Flags s.model s.next free held s.model.waiters refl h.slots.ready_first h.flags;
  closers = ground (arith, release_to-keeps s.model.waiters s.model, h.closers);
}
  where
    held : s.model.active ≡ true
    held = ground (arith, length-remove-Has c s.running r)

    free : s.model.granted ≡ []
    free = length-zero s.model.granted (ground (arith, length-remove-Has c s.running r))

    gone : remove c s.running ≡ []
    gone = length-zero (remove c s.running) (ground (arith, length-remove-Has c s.running r))

-- A call that was granted the slot and gives up passes it on.
cancel_granted-Inv :
    (w : ℕ) (s : System)
    → Has w s.model.granted
    → Inv s
    → Inv (record s { model = release (record s.model { granted = remove w s.model.granted }) })
unfolding release
cancel_granted-Inv w s g h = record {
  slots = released-Slots s h m gone held refl refl refl s.running free;
  flags =
      release_to-Flags m s.next gone held m.waiters refl h.slots.ready_first
        (ground (arith, h.flags));
  closers = ground (arith, release_to-keeps m.waiters m, h.closers);
}
  where
    m : Model
    m = record s.model { granted = remove w s.model.granted }

    held : s.model.active ≡ true
    held = ground (arith, length-remove-Has w s.model.granted g)

    free : s.running ≡ []
    free = length-zero s.running (ground (arith, length-remove-Has w s.model.granted g))

    gone : remove w s.model.granted ≡ []
    gone =
        length-zero (remove w s.model.granted)
          (ground (arith, length-remove-Has w s.model.granted g))

-- A call that gives up while queued leaves the queue.
cancel_queued-Inv :
    (w : ℕ) (s : System)
    → Inv s
    → Inv (record s { model = signal_idle (record s.model { waiters = remove w s.model.waiters }) })
unfolding signal_idle
cancel_queued-Inv w s h = ground (
  arith,
  length-remove w s.model.waiters,
  Increasing-remove w 0 s.next s.model.waiters h.slots.ordered,
  Before-remove_waiter w s.next s.model.granted s.model.waiters h.slots.granted_first,
  Before-remove_waiter w s.next s.running s.model.waiters h.slots.running_first,
  Before-remove_waiter w s.next s.model.ready_closed s.model.waiters h.slots.ready_first,
)

cancel-Inv : (w : ℕ) (s : System) → Inv s → Inv (cancel w s)
unfolding cancel
cancel-Inv w s h = elim (Bool-cases (member w s.model.granted)) [
  | inl g ↦ rw (g, cancel_waiter) (cancel_granted-Inv w s (member-Has w s.model.granted g) h)
  | inr g ↦ rw (g, cancel_waiter) (cancel_queued-Inv w s h)
]

engine_fails-Inv : (s : System) → 0 < s.in_engine → Inv s → Inv (engine_fails s)
unfolding engine_fails
engine_fails-Inv s p h = ground arith

engine_succeeds-Inv : (s : System) → 0 < s.in_engine → Inv s → Inv (engine_succeeds s)
unfolding engine_succeeds
engine_succeeds-Inv s p h = ground arith

unregister-Inv : (s : System) → 0 < s.engine_closed → Inv s → Inv (unregister s)
unfolding unregister
unregister-Inv s p h = ground arith

leave-Inv : (s : System) → 0 < s.leaving → Inv s → Inv (leave s)
unfolding leave
leave-Inv s p h = ground arith

-- A round of `Close`, from the claim on.
close_claim-Inv :
    (s : System) (m : Model)
    → Inv (record s { model = m })
    → m.state ≡ closing
    → Inv (claim (close_claim m).1 (record s { model = (close_claim m).0 }))
unfolding close_claim claim
close_claim-Inv s m h c = ground arith

begin_close-closing : (m : Model) → (begin_close m).state ≡ closing
unfolding begin_close
begin_close-closing m = ground arith

begin_close-Inv :
    (s : System) → s.model.state ≡ opened → Inv s → Inv (record s { model = begin_close s.model })
unfolding begin_close
begin_close-Inv s e h = ground arith

close_in-Inv :
    (st : ModelState) (ctx : Outcome (Unit {0})) (s : System)
    → s.model.state ≡ st
    → Inv s
    → Inv (claim (close_in st ctx s.model).1 (record s { model = (close_in st ctx s.model).0 }))
unfolding close_in claim
close_in-Inv closed ctx s e h = h
close_in-Inv uninitialized ctx s e h = h
close_in-Inv opened (err x) s e h = h
close_in-Inv closing (err x) s e h = h
close_in-Inv closing (ok u) s e h = close_claim-Inv s s.model h e
close_in-Inv opened (ok u) s e h =
    close_claim-Inv s (begin_close s.model) (begin_close-Inv s e h) (begin_close-closing s.model)

pub close-Inv : (ctx : Outcome (Unit {0})) (s : System) → Inv s → Inv (close ctx s)
unfolding close
close-Inv ctx s h = close_in-Inv s.model.state ctx s refl h

Step-Inv : {s t : System} → Step s t → Inv s → Inv t
Step-Inv {s} enters h = enter-Inv s h
Step-Inv {s} (resumes w g) h = resume-Inv w s g h
Step-Inv {s} (cancels w g) h = cancel-Inv w s h
Step-Inv {s} (finishes c g) h = finish-Inv c s g h
Step-Inv {s} (closes ctx) h = close-Inv ctx s h
Step-Inv {s} (fails p) h = engine_fails-Inv s p h
Step-Inv {s} (succeeds p) h = engine_succeeds-Inv s p h
Step-Inv {s} (unregisters p) h = unregister-Inv s p h
Step-Inv {s} (leaves p) h = leave-Inv s p h

-- Whatever calls of `Predict` and `Close` do to a new model, in any order, the invariant holds.
pub Reach-Inv : {opts : ModelOptions} {s : System} → Reach opts s → Inv s
Reach-Inv {opts} begins = start-Inv opts
Reach-Inv (next_step r st) = Step-Inv st (Reach-Inv r)
