-- ===== src/Admission/Invariant.antt =====
-- What holds between any two steps of the calls that share a model.
use laya_go.Prelude.{
  ℕ, suc, ◌+◌, ◌≤◌, ◌<◌, ◌≡◌, ◌≢◌, ◌⊎◌, inl, inr, refl, Bool, true, false, List, [], ◌∷◌, ◌++◌,
  length, length-append, Bool-cases, arith,
}
use laya_go.Prelude.Int.{pos, pos_part, ltb_ℤ}
use laya_go.Errors.{Error, queue_error, full}
use laya_go.Options.{ModelOptions}
use laya_go.Admission.{
  ModelState, opened, closing, closed, uninitialized, Model, release_to, Verdict, admitted, queued,
  refused, acquire, acquire_in, acquire_open,
}
use laya_go.Admission.Steps.{System, start, enter, admit}
use laya_go.Admission.Queue.{
  Increasing, Before, Increasing-lo, Increasing-hi, Increasing-snoc, Before-hi, Before-snoc,
  Before-tail, Before-fresh,
}

abbrev pub bit : Bool → ℕ
bit false = 0
bit true = 1

-- The slot and the queue, for a model and the calls inside the engine.
pub record Slots (m : Model) (running : List ℕ) (next : ℕ) : Type 0 where
  -- The flag `active` counts the calls that have the slot, and there is one slot.
  pub slot : length m.granted + length running ≡ bit m.active
  pub bounded : length m.waiters ≤ pos_part m.opts.queue_capacity
  pub ordered : Increasing 0 m.waiters next
  pub granted_first : Before m.granted m.waiters next
  pub running_first : Before running m.waiters next
  pub ready_first : Before m.ready_closed m.waiters next
  -- Nobody waits for a free slot.
  pub eager : m.active ≡ false → m.waiters ≡ []

abbrev pub closed_bit : ModelState → ℕ
closed_bit closed = 1
closed_bit _ = 0

-- The channels and flags of a model.
pub record Flags (m : Model) : Type 0 where
  pub idle_same : m.idle_closed ≡ m.idle_set
  pub idle_only : m.idle_set ≡ true → m.active ≡ false
  pub idle_shut : m.idle_set ≡ true → m.state ≢ opened
  pub idle_due : m.state ≡ closing → m.active ≡ false → m.idle_set ≡ true
  pub shut_open : m.state ≡ opened → m.closing_closed ≡ false
  pub initialized : m.state ≢ uninitialized
  pub calm : m.panicked ≡ false
  pub busy : m.close_in_progress ≡ true → (m.state ≡ closing) × (m.active ≡ false)
  pub quiet : m.state ≡ closed → m.active ≡ false
  pub done_open : m.close_in_progress ≡ true → m.done_closed ≡ false

-- `Close`, its calls, and the runtime's list of models.
pub record Closers (s : System) : Type 0 where
  pub one : s.in_engine + s.engine_closed + s.leaving ≡ bit s.model.close_in_progress
  pub listed : s.registered ≡ true → (s.leaving ≡ 0) × (s.model.state ≢ closed)
  pub unlisted : s.registered ≡ false → (s.model.state ≡ closed) ⊎ (0 < s.leaving)
  pub once : s.released ≡ s.engine_closed + s.leaving + closed_bit s.model.state

pub record Inv (s : System) : Type 0 where
  pub slots : Slots s.model s.running s.next
  pub flags : Flags s.model
  pub closers : Closers s

pub start-Inv : (opts : ModelOptions) → Inv (start opts)
unfolding start
start-Inv opts = ground arith

-- A free slot is handed to the head of the queue, or the model falls idle.
module _ (m : Model) (next : ℕ) (none_granted : m.granted ≡ []) (held : m.active ≡ true) where
  pub release_to-Slots :
      (ws : List ℕ)
      → m.waiters ≡ ws
      → length ws ≤ pos_part m.opts.queue_capacity
      → Increasing 0 ws next
      → Before m.ready_closed ws next
      → Slots (release_to ws m) [] next
  unfolding release_to
  release_to-Slots [] e b i p = ground arith
  release_to-Slots (w ∷ rest) e b (l, i) p =
      ground (arith, Increasing-lo 0 (suc w) next rest, Before-tail w next m.ready_closed rest p)

  pub release_to-Flags :
      (ws : List ℕ)
      → m.waiters ≡ ws
      → Before m.ready_closed ws next
      → Flags m
      → Flags (release_to ws m)
  unfolding release_to
  release_to-Flags [] e p f = ground arith
  release_to-Flags (w ∷ rest) e p f = ground (arith, Before-fresh w next m.ready_closed rest p)

-- A release leaves the lifecycle alone.
pub release_to-keeps :
    (ws : List ℕ) (m : Model)
    → ((release_to ws m).state ≡ m.state)
      × ((release_to ws m).close_in_progress ≡ m.close_in_progress)
unfolding release_to
release_to-keeps [] m = ground arith
release_to-keeps (w ∷ rest) m = (refl, refl)

-- The three outcomes of `acquire`.
data Acquires (w : ℕ) (m : Model) (r : Model × Verdict) : Type 0 where
  at_once :
      m.state ≡ opened
      → m.active ≡ false
      → r ≡ (record m { active = true }, admitted)
      → Acquires w m r
  in_queue :
      m.state ≡ opened
      → m.active ≡ true
      → length m.waiters < pos_part m.opts.queue_capacity
      → r ≡ (record m { waiters = m.waiters ++ (w ∷ []) }, queued)
      → Acquires w m r
  never : (e : Error) → r ≡ (m, refused e) → Acquires w m r

acquire_open-Acquires : (w : ℕ) (m : Model) → m.state ≡ opened → Acquires w m (acquire_open w m)
unfolding acquire_open
acquire_open-Acquires w m o = elim (Bool-cases m.active) [
  | inl a ↦ elim (Bool-cases (ltb_ℤ (pos (length m.waiters)) m.opts.queue_capacity)) [
    | inl r ↦ in_queue o a (ground arith) (ground arith)
    | inr f ↦ never (queue_error full m.opts.queue_capacity (pos 0)) (ground arith)
  ]
  | inr a ↦ at_once o a (ground arith)
]

acquire_in-Acquires :
    (st : ModelState) (w : ℕ) (m : Model) → m.state ≡ st → Acquires w m (acquire_in st w m)
unfolding acquire_in
acquire_in-Acquires opened w m e = acquire_open-Acquires w m e
acquire_in-Acquires closing w m e = never _ refl
acquire_in-Acquires closed w m e = never _ refl
acquire_in-Acquires uninitialized w m e = never _ refl

acquire-Acquires : (w : ℕ) (m : Model) → Acquires w m (acquire w m)
unfolding acquire
acquire-Acquires w m = acquire_in-Acquires m.state w m refl

module _ (s : System) (r : Model × Verdict) (h : Inv s) where
  admit-Inv : Acquires s.next s.model r → Inv (admit r.1 (record s { model = r.0 }))
  unfolding admit
  admit-Inv (at_once o a e) = ground (
    arith,
    h.slots.eager a,
    Increasing-hi 0 s.next s.model.waiters h.slots.ordered,
    Before-hi s.next s.model.granted s.model.waiters h.slots.granted_first,
    Before-hi s.next s.running s.model.waiters h.slots.running_first,
    Before-hi s.next s.model.ready_closed s.model.waiters h.slots.ready_first,
  )
  admit-Inv (in_queue o a b e) = ground (
    arith,
    length-append s.model.waiters (s.next ∷ []),
    Increasing-snoc 0 s.next s.model.waiters h.slots.ordered,
    Before-snoc s.next s.model.granted s.model.waiters h.slots.granted_first,
    Before-snoc s.next s.running s.model.waiters h.slots.running_first,
    Before-snoc s.next s.model.ready_closed s.model.waiters h.slots.ready_first,
  )
  admit-Inv (never x e) = ground (
    arith,
    Increasing-hi 0 s.next s.model.waiters h.slots.ordered,
    Before-hi s.next s.model.granted s.model.waiters h.slots.granted_first,
    Before-hi s.next s.running s.model.waiters h.slots.running_first,
    Before-hi s.next s.model.ready_closed s.model.waiters h.slots.ready_first,
  )

pub enter-Inv : (s : System) → Inv s → Inv (enter s)
unfolding enter
enter-Inv s h = admit-Inv s (acquire s.next s.model) h (acquire-Acquires s.next s.model)
