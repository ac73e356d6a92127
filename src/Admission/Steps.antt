-- ===== src/Admission/Steps.antt =====
-- The calls that share one model, as interleaved steps: each step is one locked part of a call, or
-- the return of a call of the engine.
use laya_go.Prelude.{ℕ, suc, ◌-◌, ◌<◌, Bool, true, false, List, [], ◌∷◌, ◌++◌, Has}
use laya_go.Errors.{Outcome}
use laya_go.Options.{ModelOptions}
use laya_go.Admission.{
  Model, new_model, remove, release, Verdict, admitted, queued, refused, acquire, cancel_waiter,
  Round, returns, waits_idle, waits_done, closes_engine, close_round, close_finish,
}

-- `running` holds the calls inside `engine.Predict`. The counts are of the `Close` calls inside
-- `engine.Close`, of those for which it has succeeded, and of those that have unregistered the
-- model. `registered` says whether the runtime still lists the model; `released` counts the
-- successes of `engine.Close`.
pub record System : Type 0 where
  pub model : Model
  pub next : ℕ
  pub running : List ℕ
  pub in_engine : ℕ
  pub engine_closed : ℕ
  pub leaving : ℕ
  pub registered : Bool
  pub released : ℕ

unfoldable pub start : ModelOptions → System
unfolding new_model
start opts = record {
  model = new_model opts;
  next = 0;
  running = [];
  in_engine = 0;
  engine_closed = 0;
  leaving = 0;
  registered = true;
  released = 0;
}

unfoldable pub admit : Verdict → System → System
admit admitted s = record s { running = s.next ∷ s.running; next = suc s.next }
admit queued s = record s { next = suc s.next }
admit (refused e) s = record s { next = suc s.next }

unfoldable pub enter : System → System
unfolding admit acquire
enter s = let (m, v) = acquire s.next s.model in admit v (record s { model = m })

unfoldable pub resume : ℕ → System → System
resume w s = record s {
  model = record s.model { granted = remove w s.model.granted };
  running = w ∷ s.running;
}

unfoldable pub cancel : ℕ → System → System
unfolding cancel_waiter
cancel w s = record s { model = cancel_waiter w s.model }

unfoldable pub finish : ℕ → System → System
unfolding release
finish c s = record s { model = release s.model; running = remove c s.running }

unfoldable pub claim : Round → System → System
claim (returns o) s = s
claim waits_idle s = s
claim waits_done s = s
claim closes_engine s = record s { in_engine = suc s.in_engine }

unfoldable pub close : Outcome (Unit {0}) → System → System
unfolding claim close_round
close ctx s = let (m, r) = close_round ctx s.model in claim r (record s { model = m })

unfoldable pub engine_fails : System → System
unfolding close_finish
engine_fails s = record s { model = close_finish true s.model; in_engine = s.in_engine - 1 }

unfoldable pub engine_succeeds : System → System
engine_succeeds s = record s {
  in_engine = s.in_engine - 1;
  engine_closed = suc s.engine_closed;
  released = suc s.released;
}

unfoldable pub unregister : System → System
unregister s = record s {
  engine_closed = s.engine_closed - 1;
  leaving = suc s.leaving;
  registered = false;
}

unfoldable pub leave : System → System
unfolding close_finish
leave s = record s { model = close_finish false s.model; leaving = s.leaving - 1 }

-- A call of `Predict` enters; a queued call sees its `ready` channel closed, or gives up; a
-- running call returns; a round of `Close` takes the lock; and `Close` goes on.
pub data Step (s : System) : System → Type 0 where
  enters : Step s (enter s)
  resumes : (w : ℕ) → Has w s.model.granted → Step s (resume w s)
  cancels : (w : ℕ) → Has w (s.model.waiters ++ s.model.granted) → Step s (cancel w s)
  finishes : (c : ℕ) → Has c s.running → Step s (finish c s)
  closes : (ctx : Outcome (Unit {0})) → Step s (close ctx s)
  fails : 0 < s.in_engine → Step s (engine_fails s)
  succeeds : 0 < s.in_engine → Step s (engine_succeeds s)
  unregisters : 0 < s.engine_closed → Step s (unregister s)
  leaves : 0 < s.leaving → Step s (leave s)

-- What a new model and any calls of it can reach.
pub data Reach (opts : ModelOptions) : System → Type 0 where
  begins : Reach opts (start opts)
  next_step : {s t : System} → Reach opts s → Step s t → Reach opts t
