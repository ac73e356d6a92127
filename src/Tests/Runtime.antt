-- ===== src/Tests/Runtime.antt =====
-- A runtime with a model and an open in progress, and its end.
use laya_go.Prelude.{◌+◌, ◌-◌, ◌≤◌, ◌<◌, ◌≡◌, ◌≢◌, inl, inr, refl, [], ◌∷◌, arith}
use laya_go.Errors.{sentinel, models_open, ok, err}
use laya_go.Runtime.{opened, closed, engine, finish_open, returns, close_round}
use laya_go.Runtime.Steps.{
  System, start, begin, complete, drop_model, close, engine_succeeds, begins, completes, drops,
  closes, succeeds, Reach, starts, next_step,
}
use laya_go.Runtime.Safety.{Reach-released, Reach-finish_open, Reach-refuses}

abbrev shared : System
shared = begin (complete engine (begin start))

shared-Reach : Reach shared
unfolding start begin complete
shared-Reach =
    next_step (next_step (next_step starts begins) (completes engine (omega arith))) begins

-- The model closes with no open in progress, and then the runtime.
abbrev ended : System
ended = engine_succeeds (close (ok tt) (drop_model 0 (complete engine (begin start))))

ended-Reach : Reach ended
unfolding start begin complete drop_model close engine_succeeds
ended-Reach =
    next_step
      (next_step
        (next_step (next_step (next_step starts begins) (completes engine (omega arith)))
          (drops 0 (inl refl)))
        (closes (ok tt)))
      (succeeds (omega arith))

Reach-released_example :
    ((0 < ended.in_engine + ended.released) → (ended.runtime.models ≡ []) × (ended.in_flight ≡ 0))
    × (ended.in_engine ≤ 1)
    × ((ended.runtime.state ≡ closed → ended.released ≡ 1)
        × (ended.runtime.state ≢ closed → ended.released ≡ 0))
Reach-released_example = Reach-released ended-Reach

Reach-finish_open_example : finish_open shared.next engine shared.runtime ≡ (
  record shared.runtime {
    opening = shared.runtime.opening - 1;
    models = shared.next ∷ shared.runtime.models;
  },
  ok shared.next,
)
unfolding start begin complete
Reach-finish_open_example = Reach-finish_open shared-Reach (omega arith)

Reach-refuses_example :
    (close_round (ok tt) shared.runtime ≡ (shared.runtime, returns (err (sentinel models_open))))
    × (shared.runtime.state ≡ opened)
unfolding start begin complete
Reach-refuses_example = Reach-refuses shared-Reach (inr (omega arith))
