-- ===== src/Native/Run.antt =====
-- native_run.go: one native call with cancellation. The goroutine that executes the call runs beside
-- the `select` that waits for it; what it does before a cancellation is an argument, and the channel
-- `done` orders the rest.
use laya_go.Prelude.{
  ℕ, zero, suc, ◌≤◌, ◌++◌, take, drop, ◌≡◌, ◌↔◌, ◌||◌, refl, Bool, true, Option, none, some, List,
  [], ◌∷◌, arith,
}
use laya_go.Errors.{
  Category, Error, sentinel, stage_error, matches, invalid_state, same_category, same_category_self,
  Outcome, ok, err, join_with,
}

-- `Execute` is called and returns; `Terminate` and `Close` are called.
pub data Event : Type 0 where
  started returned terminated closed : Event

-- What a context gives: nothing while it is live.
abbrev pub Context : Type 0
Context = Option Category

-- The answers of a call that is not nil.
pub record Call (A : Type 0) : Type 0 where
  pub execute : Outcome A
  pub terminate : Outcome (Unit {0})
  pub close : Outcome (Unit {0})

-- Which channel the `select` takes, and what the context gives then. If it takes that of the context,
-- the number is how many events of the goroutine come before the call of `Terminate`.
pub data Race : Type 0 where
  finished : Context → Race
  stopped : ℕ → Category → Race

-- What the goroutine does before it sends on `done`.
abbrev pub goroutine : List Event
goroutine = started ∷ returned ∷ []

pub record Turn (A : Type 0) : Type 0 where
  pub outcome : Outcome A
  pub events : List Event

-- `errors.Join` of the context's error and three others leaves nil out.
unfoldable pub native_run_cancellation_error :
    Category → Outcome (Unit {0}) → Outcome (Unit {0}) → Outcome (Unit {0}) → Error
native_run_cancellation_error c a b d =
    stage_error c (join_with (join_with (join_with (sentinel c) a) b) d)

module _ {A : Type 0} where
  abbrev pub only_error : Outcome A → Outcome (Unit {0})
  only_error (ok a) = ok tt
  only_error (err e) = err e

  -- `errors.Join(result.err, cleanupErr)`, and the outputs if both are nil.
  unfoldable pub finish : Outcome A → Outcome (Unit {0}) → Outcome A
  finish (ok a) (ok _) = ok a
  finish (ok a) (err e) = err e
  finish (err x) c = err (join_with x c)

  unfoldable pub race : Call A → Race → Turn A
  unfolding native_run_cancellation_error finish
  race c (finished none) = record {
    outcome = finish c.execute c.close;
    events = goroutine ++ (closed ∷ []);
  }
  race c (finished (some x)) = record {
    outcome = err (native_run_cancellation_error x (only_error c.execute) (ok tt) c.close);
    events = goroutine ++ (closed ∷ []);
  }
  race c (stopped n x) = record {
    outcome = err (native_run_cancellation_error x (only_error c.execute) c.terminate c.close);
    events = take n goroutine ++ (terminated ∷ (drop n goroutine ++ (closed ∷ [])));
  }

  -- `entry` is what `validateContext` gives.
  unfoldable pub execute_cancelable_native_call : Context → Option (Call A) → Race → Turn A
  unfolding race
  execute_cancelable_native_call (some x) none r = record {
    outcome = err (sentinel x);
    events = [];
  }
  execute_cancelable_native_call (some x) (some c) r = record {
    outcome = err (native_run_cancellation_error x (ok tt) (ok tt) c.close);
    events = closed ∷ [];
  }
  execute_cancelable_native_call none none r = record {
    outcome = err (sentinel invalid_state);
    events = [];
  }
  execute_cancelable_native_call none (some c) r = race c r

-- What the resource allows, as an automaton: it is closed once, last, and never while it executes, and
-- it may be terminated at any time before.
pub data Phase : Type 0 where
  fresh running done gone broken : Phase

abbrev pub step : Phase → Event → Phase
step fresh started = running
step fresh terminated = fresh
step fresh closed = gone
step running returned = done
step running terminated = running
step done terminated = done
step done closed = gone
step _ _ = broken

abbrev pub run : Phase → List Event → Phase
run p [] = p
run p (e ∷ es) = run (step p e) es

abbrev pub count_terminated : List Event → ℕ
count_terminated [] = 0
count_terminated (started ∷ es) = count_terminated es
count_terminated (returned ∷ es) = count_terminated es
count_terminated (terminated ∷ es) = suc (count_terminated es)
count_terminated (closed ∷ es) = count_terminated es

-- A call that is handed over is closed exactly once on every path: last, and not while it executes; and
-- it is terminated at most once. Terminating may come before its execution starts, during it, or after
-- it has returned.
pub execute_cancelable_native_call-gone :
    {A : Type 0} (entry : Context) (c : Call A) (r : Race)
    → (run fresh (execute_cancelable_native_call entry (some c) r).events ≡ gone)
      × (count_terminated (execute_cancelable_native_call entry (some c) r).events ≤ 1)
unfolding execute_cancelable_native_call
execute_cancelable_native_call-gone (some x) c r = (refl, omega arith)
execute_cancelable_native_call-gone none c (finished none) = (refl, omega arith)
execute_cancelable_native_call-gone none c (finished (some x)) = (refl, omega arith)
execute_cancelable_native_call-gone none c (stopped zero x) = (refl, omega arith)
execute_cancelable_native_call-gone none c (stopped (suc zero) x) = (refl, omega arith)
execute_cancelable_native_call-gone none c (stopped (suc (suc zero)) x) = (refl, omega arith)
execute_cancelable_native_call-gone none c (stopped (suc (suc (suc n))) x) = (refl, omega arith)

-- The error of the context that the call sees, if it sees one.
abbrev pub cancellation : Context → Race → Context
cancellation (some x) r = some x
cancellation none (stopped n x) = some x
cancellation none (finished o) = o

same :
    (y x : Category)
    → ◌≡◌ {A = Context} (some y) (some x)
    → (b : Bool) → same_category y x || b ≡ true
same y x h b = let e : y ≡ x = cc in rw (e, same_category_self x) refl

-- The outputs are returned exactly if the context was live to the end, the call executed without
-- an error and it closed without one.
pub execute_cancelable_native_call-ok :
    {A : Type 0} (entry : Context) (c : Call A) (r : Race) (a : A)
    → ((execute_cancelable_native_call entry (some c) r).outcome ≡ ok a)
      ↔ ((cancellation entry r ≡ none) × (c.execute ≡ ok a) × (c.close ≡ ok tt))
unfolding execute_cancelable_native_call
execute_cancelable_native_call-ok (some x) c r a = (λ e. cc, λ (l, _, _). cc)
execute_cancelable_native_call-ok none c (finished none) a = ground arith
execute_cancelable_native_call-ok none c (finished (some x)) a = (λ e. cc, λ (l, _, _). cc)
execute_cancelable_native_call-ok none c (stopped n x) a = (λ e. cc, λ (l, _, _). cc)

-- A call whose context is done before, during or after its execution fails with an error that
-- matches the context's.
pub execute_cancelable_native_call-canceled :
    {A : Type 0} (entry : Context) (c : Call A) (r : Race) (x : Category)
    → cancellation entry r ≡ some x
    → (e : Error) × ((execute_cancelable_native_call entry (some c) r).outcome ≡ err e)
      × (matches e x ≡ true)
unfolding execute_cancelable_native_call matches
execute_cancelable_native_call-canceled (some y) c r x h = (_, refl, same y x h _)
execute_cancelable_native_call-canceled none c (finished none) x h = cc
execute_cancelable_native_call-canceled none c (finished (some y)) x h = (_, refl, same y x h _)
execute_cancelable_native_call-canceled none c (stopped n y) x h = (_, refl, same y x h _)
