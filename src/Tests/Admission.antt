-- ===== src/Tests/Admission.antt =====
-- Two calls on a model with a queue, and its end.
use laya_go.Prelude.{◌+◌, ◌≤◌, ◌<◌, ◌≡◌, refl, inl, true, false, [], ◌∷◌, length, arith}
use laya_go.Prelude.Int.{pos_part}
use laya_go.Errors.{ok}
use laya_go.Admission.{closing, closed}
use laya_go.Admission.Steps.{
  System, Reach, begins, next_step, enters, resumes, finishes, closes, succeeds, unregisters,
  leaves, start, enter, finish, resume, close, engine_succeeds, unregister, leave,
}
use laya_go.Admission.Safety.{Reach-exclusive, Reach-fifo, Reach-bounded, Reach-closed, Reach-idle}
use laya_go.Tests.Data.{options}

-- The first call runs, the second waits.
abbrev contended : System
contended = enter (enter (start options))

contended-Reach : Reach options contended
contended-Reach = next_step (next_step begins enters) enters

contended_lists :
    (contended.running ≡ 0 ∷ [])
    × (contended.model.waiters ≡ 1 ∷ [])
    × (contended.model.granted ≡ [])
unfolding enter start
contended_lists = (refl, refl, refl)

-- `Close` comes while both are there, and then both end.
abbrev drained : System
drained = finish 1 (resume 1 (finish 0 (close (ok tt) contended)))

drained-Reach : Reach options drained
unfolding enter start close finish resume
drained-Reach =
    next_step
      (next_step (next_step (next_step contended-Reach (closes (ok tt))) (finishes 0 (inl refl)))
        (resumes 1 (inl refl)))
      (finishes 1 (inl refl))

abbrev ended : System
ended = leave (unregister (engine_succeeds (close (ok tt) drained)))

ended-Reach : Reach options ended
unfolding enter start close finish resume engine_succeeds unregister leave
ended-Reach =
    next_step
      (next_step (next_step (next_step drained-Reach (closes (ok tt))) (succeeds (omega arith)))
        (unregisters (omega arith)))
      (leaves (omega arith))

ended_closed : ended.model.state ≡ closed
unfolding enter start close finish resume engine_succeeds unregister leave
ended_closed = refl

Reach-exclusive_example :
    (length ended.model.granted + length ended.running ≤ 1)
    × (ended.in_engine + ended.engine_closed + ended.leaving ≤ 1)
    × (0 < ended.in_engine + ended.engine_closed + ended.leaving
        → (ended.running ≡ []) × (ended.model.granted ≡ []) × (ended.model.waiters ≡ []))
Reach-exclusive_example = Reach-exclusive ended-Reach

Reach-fifo_example : 0 < 1
unfolding enter start
Reach-fifo_example = Reach-fifo 0 1 contended-Reach (inl (inl refl)) (inl refl)

Reach-bounded_example :
    (length contended.model.waiters ≤ pos_part contended.model.opts.queue_capacity)
    × (length contended.model.granted + length contended.running ≡ 0 → contended.model.waiters ≡ [])
Reach-bounded_example = Reach-bounded contended-Reach

Reach-closed_example :
    (ended.model.panicked ≡ false)
    × (ended.released ≤ 1)
    × (ended.model.state ≡ closed
        → (ended.released ≡ 1)
          × (ended.registered ≡ false)
          × (ended.running ≡ [])
          × (ended.model.granted ≡ [])
          × (ended.model.waiters ≡ []))
Reach-closed_example = Reach-closed ended-Reach

Reach-idle_example :
    (drained.model.state ≡ closing
      → length drained.model.granted + length drained.running ≡ 0
      → drained.model.idle_closed ≡ true)
    × (drained.model.idle_closed ≡ true
        → (length drained.model.granted + length drained.running ≡ 0)
          × (drained.model.waiters ≡ []))
Reach-idle_example = Reach-idle drained-Reach
