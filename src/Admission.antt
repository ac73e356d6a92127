-- ===== src/Admission.antt =====
-- model.go: the admission queue of a `Model` and its `Close`.
-- Each part of the code that runs under `m.mu` is one function here, from the fields before it to
-- the fields after it. A channel that is only ever closed is a flag, and `panicked` records the
-- panic of closing one twice.
pub mod Steps
mod Queue
pub mod Invariant
pub mod Preserved
pub mod Safety
use laya_go.Prelude.{
  ℕ, ◌≡◌, Bool, true, false, ◌&&◌, ◌||◌, not, List, [], ◌∷◌, ◌++◌, length, ◌==◌, if◌then◌else◌,
}
use laya_go.Prelude.Int.{pos, ltb_ℤ}
use laya_go.Errors.{
  Error, sentinel, queue_error, full, wait_timeout, invalid_state, model_closed, Category, Outcome,
  ok, err,
}
use laya_go.Options.{ModelOptions}

-- `uninitialized` is the zero value, and any value but the constants.
pub data ModelState : Type 0 where
  opened closing closed uninitialized : ModelState

-- A waiter is the number that its call arrived with. `waiters` is the queue; `granted` holds the
-- waiters with their `granted` flag set and their `ready` channel closed, whose call has not
-- resumed. `ready_closed` holds each waiter whose `ready` channel was ever closed, and `done_closed`
-- says whether `closeDone` is closed, or nil.
pub record Model : Type 0 where
  pub opts : ModelOptions
  pub state : ModelState
  pub active : Bool
  pub waiters : List ℕ
  pub granted : List ℕ
  pub ready_closed : List ℕ
  pub idle_closed : Bool
  pub idle_set : Bool
  pub closing_closed : Bool
  pub close_in_progress : Bool
  pub done_closed : Bool
  pub panicked : Bool

unfoldable pub new_model : ModelOptions → Model
new_model opts = record {
  opts = opts;
  state = opened;
  active = false;
  waiters = [];
  granted = [];
  ready_closed = [];
  idle_closed = false;
  idle_set = false;
  closing_closed = false;
  close_in_progress = false;
  done_closed = true;
  panicked = false;
}

abbrev pub is_closing : ModelState → Bool
is_closing closing = true
is_closing _ = false

abbrev pub is_empty {ℓ} : {A : Type ℓ} → List A → Bool
is_empty [] = true
is_empty (x ∷ xs) = false

abbrev pub member : ℕ → List ℕ → Bool
member c [] = false
member c (x ∷ xs) = x == c || member c xs

-- The first occurrence is taken out.
abbrev pub remove : ℕ → List ℕ → List ℕ
remove c [] = []
remove c (x ∷ xs) = if x == c then xs else x ∷ remove c xs

unfoldable pub signal_idle : Model → Model
signal_idle m =
    if is_closing m.state && not m.active && is_empty m.waiters && not m.idle_set
    then record m { idle_set = true; idle_closed = true; panicked = m.panicked || m.idle_closed }
    else m

-- `releaseLocked`, split on the queue.
unfoldable pub release_to : List ℕ → Model → Model
unfolding signal_idle
release_to [] m = signal_idle (record m { active = false })
release_to (w ∷ rest) m = record m {
  waiters = rest;
  granted = w ∷ m.granted;
  ready_closed = w ∷ m.ready_closed;
  panicked = m.panicked || member w m.ready_closed;
}

unfoldable pub release : Model → Model
unfolding release_to
release m = release_to m.waiters m

-- What the locked part of `acquire` decides.
pub data Verdict : Type 0 where
  admitted queued : Verdict
  refused : Error → Verdict

-- `w` is the waiter that the call would add.
unfoldable pub acquire_open : ℕ → Model → Model × Verdict
acquire_open w m =
    if not m.active
    then (record m { active = true }, admitted)
    else if not (ltb_ℤ (pos (length m.waiters)) m.opts.queue_capacity)
    then (m, refused (queue_error full m.opts.queue_capacity (pos 0)))
    else (record m { waiters = m.waiters ++ (w ∷ []) }, queued)

unfoldable pub acquire_in : ModelState → ℕ → Model → Model × Verdict
unfolding acquire_open
acquire_in closing w m = (m, refused (sentinel model_closed))
acquire_in closed w m = (m, refused (sentinel model_closed))
acquire_in uninitialized w m = (m, refused (sentinel invalid_state))
acquire_in opened w m = acquire_open w m

unfoldable pub acquire : ℕ → Model → Model × Verdict
unfolding acquire_in
acquire w m = acquire_in m.state w m

-- The three ways out of the `select` of a queued call.
pub data Wake : Type 0 where
  ready : Wake
  done : Error → Wake
  timer : Wake

-- What the queued call returns; the timer exists only if a wait is configured.
unfoldable pub wake_outcome : ModelOptions → Wake → Outcome (Unit {0})
wake_outcome o ready = ok tt
wake_outcome o (done e) = err e
wake_outcome o timer = err (queue_error wait_timeout o.queue_capacity o.max_queue_wait)

-- `cancelWaiter`. The call is gone afterwards, so its waiter is in neither list.
unfoldable pub cancel_waiter : ℕ → Model → Model
unfolding release signal_idle
cancel_waiter w m =
    if member w m.granted
    then release (record m { granted = remove w m.granted })
    else signal_idle (record m { waiters = remove w m.waiters })

-- What one round of the loop of `Close` does after its locked part.
pub data Round : Type 0 where
  returns : Outcome (Unit {0}) → Round
  waits_idle waits_done closes_engine : Round

-- The part of a round from the test of `m.active` on.
unfoldable pub close_claim : Model → Model × Round
close_claim m =
    if m.active || not (is_empty m.waiters)
    then (m, waits_idle)
    else if m.close_in_progress
    then (m, waits_done)
    else (record m { close_in_progress = true; done_closed = false }, closes_engine)

-- The first round of `Close` on an open model.
unfoldable pub begin_close : Model → Model
unfolding signal_idle
begin_close m =
    signal_idle (record m {
      state = closing;
      closing_closed = true;
      panicked = m.panicked || m.closing_closed;
    })

-- `ctx` is what `ctx.Err()` gives, `ok` for nil.
unfoldable pub close_in : ModelState → Outcome (Unit {0}) → Model → Model × Round
unfolding begin_close close_claim
close_in closed ctx m = (m, returns (ok tt))
close_in opened (err e) m = (m, returns (err e))
close_in opened (ok _) m = close_claim (begin_close m)
close_in closing (err e) m = (m, returns (err e))
close_in closing (ok _) m = close_claim m
close_in uninitialized ctx m = (m, returns (err (sentinel invalid_state)))

unfoldable pub close_round : Outcome (Unit {0}) → Model → Model × Round
unfolding close_in
close_round ctx m = close_in m.state ctx m

-- The locked part after `engine.Close`, which gave an error or not.
unfoldable pub close_finish : Bool → Model → Model
close_finish failed m =
    let ended = record m {
      close_in_progress = false;
      done_closed = true;
      panicked = m.panicked || m.done_closed;
    } in
    if failed then ended else record ended { state = closed }
