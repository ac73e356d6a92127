-- ===== src/Runtime/Steps.antt =====
-- The calls that share one runtime, as interleaved steps on its locked parts.
use laya_go.Prelude.{ℕ, suc, ◌-◌, ◌<◌, true, false, Has}
use laya_go.Errors.{Outcome, ok, err}
use laya_go.Runtime.{
  Runtime, new_runtime, begin_open, Opened, finish_open, unregister, Round, returns, waits_done,
  closes_engine, close_round, close_finish,
}

-- `in_flight` counts the opens between `beginOpen` and `finishOpen`, `in_engine` the calls of
-- `Close` inside `engine.Close`, and `released` its successes.
pub record System : Type 0 where
  pub runtime : Runtime
  pub next : ℕ
  pub in_flight : ℕ
  pub in_engine : ℕ
  pub released : ℕ

unfoldable pub start : System
unfolding new_runtime
start = record { runtime = new_runtime; next = 0; in_flight = 0; in_engine = 0; released = 0 }

unfoldable pub count_begun : Outcome (Unit {0}) → System → System
count_begun (ok _) s = record s { in_flight = suc s.in_flight }
count_begun (err e) s = s

unfoldable pub begin : System → System
unfolding begin_open count_begun
begin s = let (r, o) = begin_open s.runtime in count_begun o (record s { runtime = r })

unfoldable pub complete : Opened → System → System
unfolding finish_open
complete result s = record s {
  runtime = (finish_open s.next result s.runtime).0;
  next = suc s.next;
  in_flight = s.in_flight - 1;
}

unfoldable pub drop_model : ℕ → System → System
unfolding unregister
drop_model id s = record s { runtime = unregister id s.runtime }

unfoldable pub claim : Round → System → System
claim (returns o) s = s
claim waits_done s = s
claim closes_engine s = record s { in_engine = suc s.in_engine }

unfoldable pub close : Outcome (Unit {0}) → System → System
unfolding claim close_round
close ctx s = let (r, round) = close_round ctx s.runtime in claim round (record s { runtime = r })

unfoldable pub engine_fails : System → System
unfolding close_finish
engine_fails s = record s { runtime = close_finish true s.runtime; in_engine = s.in_engine - 1 }

unfoldable pub engine_succeeds : System → System
unfolding close_finish
engine_succeeds s = record s {
  runtime = close_finish false s.runtime;
  in_engine = s.in_engine - 1;
  released = suc s.released;
}

-- An open begins, and ends with whatever the engine gave; a model that closes is unregistered; and
-- `Close` takes the lock, and goes on after the engine's answer.
pub data Step (s : System) : System → Type 0 where
  begins : Step s (begin s)
  completes : (result : Opened) → 0 < s.in_flight → Step s (complete result s)
  drops : (id : ℕ) → Has id s.runtime.models → Step s (drop_model id s)
  closes : (ctx : Outcome (Unit {0})) → Step s (close ctx s)
  fails : 0 < s.in_engine → Step s (engine_fails s)
  succeeds : 0 < s.in_engine → Step s (engine_succeeds s)

pub data Reach : System → Type 0 where
  starts : Reach start
  next_step : {s t : System} → Reach s → Step s t → Reach t
