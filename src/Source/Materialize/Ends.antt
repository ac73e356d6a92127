-- ===== src/Source/Materialize/Ends.antt =====
-- How a part of `materialize` ends, with what is deferred around it.
use laya_go.Prelude.{
  ℕ, ◌≡◌, inl, inr, refl, ◌∙◌, String, Bool, true, false, some, List, [], ◌∷◌, ◌++◌,
}
use laya_go.Errors.{Error, Outcome, ok, err, Outcome-cases}
use laya_go.Source.{is_ok}
use laya_go.Source.Materialize.{
  Event, closed_ready, Turn, Answers, or_stop, note, drop_ready, join_materialize_return, finally,
}
use laya_go.Source.Materialize.Trace.{Phase, absent, Held, next, run, run-step, run-append}
use laya_go.Source.Materialize.Staged.{at, Returns}

-- From one depth to another, with no stage and no bundle at first: the events are allowed, a bundle is
-- open exactly if it is returned, and then no stage is left.
abbrev pub Ends : String → ℕ → ℕ → Turn → Type 0
Ends id m n t =
    (q : Phase) × (run id (at m absent false) t.events ≡ some (at n q (is_ok t.outcome)))
    × (is_ok t.outcome ≡ true → q ≡ absent)
    × Returns id t.outcome

pub snoc-run :
    (id : String) (h g k : Held) (vs : List Event) (v : Event)
    → run id h vs ≡ some g
    → next id g v ≡ some k
    → run id h (vs ++ (v ∷ [])) ≡ some k
snoc-run id h g k vs v e f =
    run-append id h vs (v ∷ []) e ∙ run-step id g v [] f ∙ unfold run in refl

pub drop_ready-Ends :
    (id : String) (m n : ℕ) (p : Phase) (closing : Outcome (Unit {0})) (e : Error) (t : Turn)
    → (q : Phase) × (run id (at m p false) t.events ≡ some (at n q (is_ok t.outcome)))
    → (q : Phase) × (run id (at m p false) (drop_ready closing e t).events ≡ some (at n q false))
      × (is_ok (drop_ready closing e t).outcome ≡ false)
unfolding drop_ready
drop_ready-Ends id m n p closing e t (q, r) = elim (Outcome-cases t.outcome) [
  | inl (got, o) ↦ rw o (
    q,
    snoc-run id (at m p false) (at n q true) (at n q false) t.events closed_ready (r ∙ rw o refl)
        (unfold next in refl),
    refl,
  )
  | inr (x, o) ↦ rw o (q, r ∙ rw o refl, refl)
]

pub failed-Ends :
    (id : String) (m n : ℕ) (t : Turn) {q : Phase}
    → run id (at m absent false) t.events ≡ some (at n q false)
    → is_ok t.outcome ≡ false
    → Ends id m n t
failed-Ends id m n t {q} r o = elim (Outcome-cases t.outcome) [
  | inl (got, e) ↦ absurd (cc)
  | inr (x, e) ↦ (q, r ∙ rw e refl, (λ f. absurd (cc)), rw e tt)
]

pub finally-Ends :
    (a : Answers) (id : String) (l m n : ℕ) (v : Event) (o : Outcome (Unit {0})) (t : Turn)
    → ((q : Phase) (r : Bool) → next id (at m q r) v ≡ some (at n q r))
    → Ends id l m t
    → Ends id l n (finally a v o t)
unfolding finally join_materialize_return
finally-Ends a id l m n v (ok _) t h (q, r, k, g) = (
  q,
  snoc-run id (at l absent false) (at m q (is_ok t.outcome)) (at n q (is_ok t.outcome)) t.events v r
      (h q (is_ok t.outcome)),
  k,
  g,
)
finally-Ends a id l m n v (err e) t h (q, r, k, g) =
    let s = record t { events = t.events ++ (v ∷ []) } in
    let (p, f, w) = drop_ready-Ends id l n absent a.close_ready e s (
      q,
      snoc-run id (at l absent false) (at m q (is_ok t.outcome)) (at n q (is_ok t.outcome)) t.events
          v r (h q (is_ok t.outcome)),
    ) in
    failed-Ends id l n (drop_ready a.close_ready e s) f w

pub or_stop-Ends :
    {A : Type 0} (id : String) (n : ℕ) (o : Outcome A) (go : A → Turn)
    → ((x : A) → Ends id n n (go x))
    → Ends id n n (or_stop false o go)
or_stop-Ends id n (ok x) go h = h x
or_stop-Ends id n (err e) go h = (absent, unfold run in refl, (λ f. refl), tt)

pub note-Ends :
    (id : String) (l m n : ℕ) (v : Event) (t : Turn)
    → next id (at l absent false) v ≡ some (at m absent false)
    → Ends id m n t
    → Ends id l n (note v t)
note-Ends id l m n v t e (q, r, k, g) = (q, run-step id (at l absent false) v t.events e ∙ r, k, g)
