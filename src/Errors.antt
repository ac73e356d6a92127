-- ===== src/Errors.antt =====
-- errors.go, and the stage error of preprocess.go: errors as values, and `errors.Is`.
-- `fmt.Errorf("...: %w", err)` only adds text in front of an error; messages are not modelled, so
-- such a wrapping is the error itself, and `fmt.Errorf("%w: ...", ErrX)` is `sentinel x`.
use laya_go.Prelude.{ℕ, ◌≡◌, refl, Bool, true, false, ◌||◌, ◌⊎◌, inl, inr, Option, none, some}
use laya_go.Prelude.Int.{ℤ}

-- The sentinel errors, and the two errors of a context.
pub data Category : Type 0 where
  invalid_config invalid_state models_open model_closed invalid_request : Category
  input_too_long queue_full queue_timeout invalid_bundle integrity : Category
  unsupported_bundle unsupported_source materialization : Category
  native_unavailable native_failure invalid_output : Category
  canceled deadline_exceeded : Category
  -- `ErrClosed` of internal/source.
  source_closed : Category

pub Category-discrete : Discrete Category
Category-discrete = hlevel

-- A kind outside the two constants is `unknown_kind`.
pub data QueueErrorKind : Type 0 where
  full wait_timeout unknown_kind : QueueErrorKind

pub data Error : Type 0 where
  sentinel : Category → Error
  -- Observed tokens, the limit, and whether a cause is attached.
  input_too_long_error : ℕ → ℕ → Bool → Error
  -- Kind, capacity, and wait in nanoseconds.
  queue_error : QueueErrorKind → ℤ → ℤ → Error
  stage_error : Category → Error → Error
  joined : Error → Error → Error
  -- An error of code that is not part of this library.
  foreign : ℕ → Error
  -- The panic of a nil pointer that is read.
  nil_dereference : Error
  -- The panic of an index out of range.
  index_out_of_range : Error

-- `QueueError.category`.
pub queue_category : QueueErrorKind → Option Category
queue_category full = some queue_full
queue_category wait_timeout = some queue_timeout
queue_category unknown_kind = none

abbrev pub same_category : Category → Category → Bool
same_category c t = elim (Category-discrete c t) [ yes _ ↦ true | no _ ↦ false ]

-- `errors.Is(err, target)` for a target that is a sentinel: the `Is` methods and `Unwrap`.
unfoldable pub matches : Error → Category → Bool
unfolding queue_category Category-discrete
matches (sentinel c) t = same_category c t
matches (input_too_long_error tokens limit cause) t = same_category input_too_long t
matches (queue_error kind capacity wait) t = elim (queue_category kind) [
  | none ↦ false
  | some c ↦ same_category c t
]
matches (stage_error c cause) t = same_category c t || matches cause t
matches (joined a b) t = matches a t || matches b t
matches (foreign n) t = false
matches nil_dereference t = false
matches index_out_of_range t = false

pub same_category_self : (c : Category) → same_category c c ≡ true
same_category_self c =
    elim (Category-discrete c c) as (λ d. elim d [ yes _ ↦ true | no _ ↦ false ] ≡ true) [
      | yes _ ↦ refl
      | no n ↦ absurd (n refl)
    ]

pub matches_sentinel : (c : Category) → matches (sentinel c) c ≡ true
unfolding matches
matches_sentinel c = same_category_self c

pub matches_stage_error : (c : Category) (e : Error) → matches (stage_error c e) c ≡ true
unfolding matches
matches_stage_error c e = rw (same_category_self c) refl

-- What a Go function that returns `(A, error)` gives back.
pub data Outcome {ℓ} (A : Type ℓ) : Type ℓ where
  ok : A → Outcome A
  err : Error → Outcome A

pub ok_injective : {A : Type 0} {a b : A} → ◌≡◌ {A = Outcome A} (ok a) (ok b) → a ≡ b
ok_injective e = cc

-- `errors.Join`, which leaves nil errors out.
abbrev pub join_with : Error → Outcome (Unit {0}) → Error
join_with e (ok _) = e
join_with e (err x) = joined e x

-- `if bad { return err }`.
abbrev pub refuse : Bool → Error → Outcome (Unit {0})
refuse false problem = ok tt
refuse true problem = err problem

-- `if err != nil { return err }` between two calls.
module _ {ℓ κ} {A : Type ℓ} {B : Type κ} where
  infixl 5 ◌>>=◌
  abbrev pub ◌>>=◌ : Outcome A → (A → Outcome B) → Outcome B
  err problem >>= next = err problem
  ok value >>= next = next value

module _ {κ} {B : Type κ} where
  infixl 5 ◌>>◌
  abbrev pub ◌>>◌ : Outcome (Unit {0}) → Outcome B → Outcome B
  check >> next = check >>= λ _. next

pub Outcome-cases {ℓ} :
    {A : Type ℓ} (o : Outcome A)
    → ((value : A) × (o ≡ ok value)) ⊎ ((problem : Error) × (o ≡ err problem))
Outcome-cases (err problem) = inr (problem, refl)
Outcome-cases (ok value) = inl (value, refl)

-- A check that accepts exactly what satisfies `P`, and otherwise fails with `e`.
abbrev pub Decides {ℓ} : Type ℓ → Outcome (Unit {0}) → Error → Type ℓ
Decides P o e = (P × (o ≡ ok tt)) ⊎ ((P → ⊥) × (o ≡ err e))
