-- ===== src/Runtime.antt =====
-- runtime.go: the lifecycle of a `Runtime`, as its locked parts.
pub mod Steps
pub mod Safety
use laya_go.Prelude.{
  ℕ, suc, ◌+◌, ◌-◌, Bool, true, false, ◌||◌, ◌&&◌, not, Option, none, some, List, [], ◌∷◌, ltb,
  if◌then◌else◌,
}
use laya_go.Errors.{Error, sentinel, invalid_state, models_open, native_failure, Outcome, ok, err}
use laya_go.Admission.{is_empty, remove}

pub data RuntimeState : Type 0 where
  opened closing closed uninitialized : RuntimeState

-- `models` lists the models of the registry by the number that each was given.
pub record Runtime : Type 0 where
  pub state : RuntimeState
  pub models : List ℕ
  pub opening : ℕ
  pub close_in_progress : Bool

unfoldable pub new_runtime : Runtime
new_runtime = record { state = opened; models = []; opening = 0; close_in_progress = false }

abbrev pub is_opened : RuntimeState → Bool
is_opened opened = true
is_opened closing = false
is_opened closed = false
is_opened uninitialized = false

unfoldable pub begin_open : Runtime → Runtime × Outcome (Unit {0})
begin_open r =
    if is_opened r.state
    then (record r { opening = suc r.opening }, ok tt)
    else (r, err (sentinel invalid_state))

-- What the engine's `OpenModelDir` or `OpenModelFS` gave: an error, or an engine that may be nil.
pub data Opened : Type 0 where
  open_error : Error → Opened
  nil_engine engine : Opened

-- `finishOpen`, where `id` is the number of the model that it would make.
unfoldable pub finish_open : ℕ → Opened → Runtime → Runtime × Outcome ℕ
finish_open id (open_error e) r = (record r { opening = r.opening - 1 }, err e)
finish_open id nil_engine r = (record r { opening = r.opening - 1 }, err (sentinel native_failure))
finish_open id engine r =
    if not (is_opened r.state)
    then (record r { opening = r.opening - 1 }, err (sentinel invalid_state))
    else (record r { opening = r.opening - 1; models = id ∷ r.models }, ok id)

unfoldable pub unregister : ℕ → Runtime → Runtime
unregister id r = record r { models = remove id r.models }

-- What one round of the loop of `Close` does after its locked part.
pub data Round : Type 0 where
  returns : Outcome (Unit {0}) → Round
  waits_done closes_engine : Round

unfoldable pub close_claim : Runtime → Runtime × Round
close_claim r =
    if r.close_in_progress
    then (r, waits_done)
    else (record r { close_in_progress = true }, closes_engine)

-- `ctx` is what `ctx.Err()` gives, `ok` for nil.
unfoldable pub close_in : RuntimeState → Outcome (Unit {0}) → Runtime → Runtime × Round
unfolding close_claim
close_in closed ctx r = (r, returns (ok tt))
close_in opened (err e) r = (r, returns (err e))
close_in opened (ok _) r =
    if ltb 0 r.opening || not (is_empty r.models)
    then (r, returns (err (sentinel models_open)))
    else close_claim (record r { state = closing })
close_in closing (err e) r = (r, returns (err e))
close_in closing (ok _) r = close_claim r
close_in uninitialized ctx r = (r, returns (err (sentinel invalid_state)))

unfoldable pub close_round : Outcome (Unit {0}) → Runtime → Runtime × Round
unfolding close_in
close_round ctx r = close_in r.state ctx r

-- The locked part after `engine.Close`, which gave an error or not.
unfoldable pub close_finish : Bool → Runtime → Runtime
close_finish failed r =
    if failed
    then record r { close_in_progress = false }
    else record r { close_in_progress = false; state = closed }
