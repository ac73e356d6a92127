-- ===== src/Admission/Safety.antt =====
-- What callers of one model can rely on, whatever the interleaving of their calls.
use laya_go.Prelude.{
  ℕ, suc, ◌+◌, ◌≤◌, ◌<◌, ◌≡◌, ◌⊎◌, inl, inr, true, false, List, [], ◌∷◌, length, Has, arith,
}
use laya_go.Prelude.Int.{pos_part}
use laya_go.Options.{ModelOptions}
use laya_go.Admission.{closing, closed}
use laya_go.Admission.Steps.{System, Reach}
use laya_go.Admission.Queue.{Increasing, Before-Has, length-zero}
use laya_go.Admission.Invariant.{Inv}
use laya_go.Admission.Preserved.{Reach-Inv}

Increasing-Has : (lo hi w : ℕ) (ws : List ℕ) → Increasing lo ws hi → Has w ws → lo ≤ w
Increasing-Has lo hi w [] i h = absurd h
Increasing-Has lo hi w (x ∷ ws) (l, i) (inl e) = omega arith
Increasing-Has lo hi w (x ∷ ws) (l, i) (inr h) = omega (arith, Increasing-Has (suc x) hi w ws i h)

-- In every reachable state at most one call has the engine's slot, running or about to resume; and
-- at most one call of `Close` is past its claim. While one is, no call runs, none is about to
-- resume, and none waits.
pub Reach-exclusive :
    {opts : ModelOptions} {s : System}
    → Reach opts s
    → (length s.model.granted + length s.running ≤ 1)
      × (s.in_engine + s.engine_closed + s.leaving ≤ 1)
      × (0 < s.in_engine + s.engine_closed + s.leaving
          → (s.running ≡ []) × (s.model.granted ≡ []) × (s.model.waiters ≡ []))
Reach-exclusive {s = s} r = (one_slot, one_closer, alone)
  where
    h : Inv s
    h = Reach-Inv r

    one_slot : length s.model.granted + length s.running ≤ 1
    one_slot = ground (arith, h.slots)

    one_closer : s.in_engine + s.engine_closed + s.leaving ≤ 1
    one_closer = ground (arith, h.closers)

    idle : 0 < s.in_engine + s.engine_closed + s.leaving → s.model.active ≡ false
    idle p = ground (arith, h.closers, h.flags)

    alone :
        0 < s.in_engine + s.engine_closed + s.leaving
        → (s.running ≡ []) × (s.model.granted ≡ []) × (s.model.waiters ≡ [])
    alone p =
        let free = idle p in
        (
          length-zero s.running (ground (arith, h.slots)),
          length-zero s.model.granted (ground (arith, h.slots)),
          h.slots.eager free,
        )

-- First come, first served: in every reachable state a call that runs, or was granted the slot,
-- arrived before every call that still waits.
pub Reach-fifo :
    {opts : ModelOptions} {s : System} (c w : ℕ)
    → Reach opts s
    → Has c s.running ⊎ Has c s.model.granted
    → Has w s.model.waiters
    → c < w
Reach-fifo {s = s} c w r (inl p) q =
    let h = Reach-Inv r in
    Increasing-Has (suc c) s.next w s.model.waiters
      (Before-Has c s.next s.running s.model.waiters p h.slots.running_first) q
Reach-fifo {s = s} c w r (inr p) q =
    let h = Reach-Inv r in
    Increasing-Has (suc c) s.next w s.model.waiters
      (Before-Has c s.next s.model.granted s.model.waiters p h.slots.granted_first) q

-- In every reachable state the queue is within its capacity, and nobody waits while the slot is
-- free.
pub Reach-bounded :
    {opts : ModelOptions} {s : System}
    → Reach opts s
    → (length s.model.waiters ≤ pos_part s.model.opts.queue_capacity)
      × (length s.model.granted + length s.running ≡ 0 → s.model.waiters ≡ [])
Reach-bounded {s = s} r =
    let h = Reach-Inv r in (h.slots.bounded, λ z. h.slots.eager (ground (arith, h.slots)))

-- No reachable state has closed a channel twice, be it a waiter's, the one of the first `Close`, the one
-- that `Close` waits on, or the one of a claim, and the engine is closed successfully at most
-- once. When the model is closed it has been, exactly once, no call runs or waits, and the runtime
-- no longer lists the model.
pub Reach-closed :
    {opts : ModelOptions} {s : System}
    → Reach opts s
    → (s.model.panicked ≡ false)
      × (s.released ≤ 1)
      × (s.model.state ≡ closed
          → (s.released ≡ 1)
            × (s.registered ≡ false)
            × (s.running ≡ [])
            × (s.model.granted ≡ [])
            × (s.model.waiters ≡ []))
Reach-closed {s = s} r = (h.flags.calm, ground (arith, h.flags, h.closers), at_end)
  where
    h : Inv s
    h = Reach-Inv r

    at_end :
        s.model.state ≡ closed
        → (s.released ≡ 1)
          × (s.registered ≡ false)
          × (s.running ≡ [])
          × (s.model.granted ≡ [])
          × (s.model.waiters ≡ [])
    at_end e =
        let free = h.flags.quiet e in
        (
          ground (arith, h.flags, h.closers),
          ground (arith, h.closers),
          length-zero s.running (ground (arith, h.slots)),
          length-zero s.model.granted (ground (arith, h.slots)),
          h.slots.eager free,
        )

-- No wake-up is lost: in every reachable state of a closing model with no call that runs, is about
-- to resume, or waits, the channel that `Close` waits on is closed. And once it is closed no call
-- runs or waits.
pub Reach-idle :
    {opts : ModelOptions} {s : System}
    → Reach opts s
    → (s.model.state ≡ closing
        → length s.model.granted + length s.running ≡ 0
        → s.model.idle_closed ≡ true)
      × (s.model.idle_closed ≡ true
          → (length s.model.granted + length s.running ≡ 0) × (s.model.waiters ≡ []))
Reach-idle {s = s} r =
    let h = Reach-Inv r in
    (λ c z. ground (arith, h.slots, h.flags), λ i. ground (arith, h.slots, h.flags))
