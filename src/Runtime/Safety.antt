-- ===== src/Runtime/Safety.antt =====
-- What holds of a runtime between any two steps.
use laya_go.Prelude.{ℕ, ◌+◌, ◌-◌, ◌≤◌, ◌<◌, ◌≡◌, ◌≢◌, ◌⊎◌, refl, true, [], ◌∷◌, arith}
use laya_go.Errors.{sentinel, models_open, Outcome, ok, err}
use laya_go.Admission.Invariant.{bit}
use laya_go.Runtime.{
  RuntimeState, opened, closing, closed, uninitialized, Opened, open_error, nil_engine, engine,
  finish_open, returns, close_in, close_round,
}
use laya_go.Runtime.Steps.{
  System, start, begin, complete, drop_model, claim, close, engine_fails, engine_succeeds, Step,
  begins, completes, drops, closes, fails, succeeds, Reach, starts, next_step,
}

abbrev closed_bit : RuntimeState → ℕ
closed_bit closed = 1
closed_bit opened = 0
closed_bit closing = 0
closed_bit uninitialized = 0

-- Once a runtime is closing it has no model and no open in progress.
pub record Inv (s : System) : Type 0 where
  pub counted : s.runtime.opening ≡ s.in_flight
  pub alone : s.runtime.state ≢ opened → (s.in_flight ≡ 0) × (s.runtime.models ≡ [])
  pub initialized : s.runtime.state ≢ uninitialized
  pub one : s.in_engine ≡ bit s.runtime.close_in_progress
  pub busy : s.runtime.close_in_progress ≡ true → s.runtime.state ≡ closing
  pub once : s.released ≡ closed_bit s.runtime.state

start-Inv : Inv start
unfolding start
start-Inv = ground arith

begin-Inv : (s : System) → Inv s → Inv (begin s)
unfolding begin
begin-Inv s h = ground arith

complete-Inv : (result : Opened) (s : System) → 0 < s.in_flight → Inv s → Inv (complete result s)
unfolding complete
complete-Inv (open_error e) s p h = ground arith
complete-Inv nil_engine s p h = ground arith
complete-Inv engine s p h = ground arith

drop_model-Inv : (id : ℕ) (s : System) → Inv s → Inv (drop_model id s)
unfolding drop_model
drop_model-Inv id s h = ground arith

close_in-Inv :
    (st : RuntimeState) (ctx : Outcome (Unit {0})) (s : System)
    → s.runtime.state ≡ st
    → Inv s
    → Inv
        (claim (close_in st ctx s.runtime).1 (record s { runtime = (close_in st ctx s.runtime).0 }))
unfolding close_in claim
close_in-Inv closed ctx s e h = h
close_in-Inv uninitialized ctx s e h = h
close_in-Inv opened (err x) s e h = h
close_in-Inv opened (ok u) s e h = ground arith
close_in-Inv closing (err x) s e h = h
close_in-Inv closing (ok u) s e h = ground arith

close-Inv : (ctx : Outcome (Unit {0})) (s : System) → Inv s → Inv (close ctx s)
unfolding close
close-Inv ctx s h = close_in-Inv s.runtime.state ctx s refl h

engine_fails-Inv : (s : System) → 0 < s.in_engine → Inv s → Inv (engine_fails s)
unfolding engine_fails
engine_fails-Inv s p h = ground arith

engine_succeeds-Inv : (s : System) → 0 < s.in_engine → Inv s → Inv (engine_succeeds s)
unfolding engine_succeeds
engine_succeeds-Inv s p h = ground arith

Step-Inv : {s t : System} → Step s t → Inv s → Inv t
Step-Inv {s} begins h = begin-Inv s h
Step-Inv {s} (completes result p) h = complete-Inv result s p h
Step-Inv {s} (drops id p) h = drop_model-Inv id s h
Step-Inv {s} (closes ctx) h = close-Inv ctx s h
Step-Inv {s} (fails p) h = engine_fails-Inv s p h
Step-Inv {s} (succeeds p) h = engine_succeeds-Inv s p h

pub Reach-Inv : {s : System} → Reach s → Inv s
Reach-Inv starts = start-Inv
Reach-Inv (next_step r st) = Step-Inv st (Reach-Inv r)

-- In every reachable state, while the engine is being closed or has been, no model is registered
-- and no open is in progress; at most one call of `Close` is inside the engine; and the engine is
-- closed successfully exactly once if the runtime is closed, and otherwise not at all.
pub Reach-released :
    {s : System}
    → Reach s
    → ((0 < s.in_engine + s.released) → (s.runtime.models ≡ []) × (s.in_flight ≡ 0))
      × (s.in_engine ≤ 1)
      × ((s.runtime.state ≡ closed → s.released ≡ 1) × (s.runtime.state ≢ closed → s.released ≡ 0))
Reach-released r = let h = Reach-Inv r in ground (arith, h)

-- No open ends on a stopped runtime: in every reachable state with an open in progress, an engine
-- that was opened becomes a registered model, so it is never dropped without being closed.
pub Reach-finish_open :
    {s : System}
    → Reach s
    → 0 < s.in_flight
    → finish_open s.next engine s.runtime ≡ (
      record s.runtime { opening = s.runtime.opening - 1; models = s.next ∷ s.runtime.models },
      ok s.next,
    )
unfolding finish_open
Reach-finish_open {s} r p = let h = Reach-Inv r in ground (arith, h)

-- While a model is registered, or an open is in progress, a round of `Close` in a reachable state
-- whose context is live returns `ErrModelsOpen` and leaves the runtime as it was, open.
pub Reach-refuses :
    {s : System}
    → Reach s
    → (s.runtime.models ≢ []) ⊎ (0 < s.in_flight)
    → (close_round (ok tt) s.runtime ≡ (s.runtime, returns (err (sentinel models_open))))
      × (s.runtime.state ≡ opened)
unfolding close_round
Reach-refuses {s} r p = let h = Reach-Inv r in ground (arith, h)
