-- ===== src/Source/Materialize/Trace.antt =====
-- What the events of `materialize` may be: an automaton that accepts them only in their order.
use laya_go.Prelude.{
  ℕ, ◌≡◌, refl, ap, String, str_eq, Bool, true, false, not, ◌&&◌, Option, none, some, List, [], ◌∷◌,
  ◌++◌, ◌==◌, if◌then◌else◌,
}
use laya_go.Source.Materialize.{
  Event, opened_work, closed_work, opened_namespace, closed_namespace, opened_lock_file,
  closed_lock_file, locked, unlocked, made_stage, removed_stage, published, opened_staged,
  closed_staged, opened_ready, closed_ready,
}

-- The stage: its copy is open with an identity, was closed with the right one, or was renamed.
pub data Phase : Type 0 where
  absent made sound renamed : Phase
  checking : String → Phase

-- How many of work directory, namespace, lock file and lock are held, the stage, and whether a bundle
-- is open.
pub record Held : Type 0 where
  pub depth : ℕ
  pub phase : Phase
  pub ready : Bool

abbrev pub nothing_held : Held
nothing_held = record { depth = 0; phase = absent; ready = false }

abbrev pub from_to : ℕ → ℕ → Held → Option Held
from_to m n h = if h.depth == m then some (record h { depth = n }) else none

abbrev pub allow : Bool → Held → Option Held
allow true h = some h
allow false h = none

-- A stage can be removed unless its copy is open.
abbrev pub removable : Phase → Bool
removable absent = false
removable made = true
removable sound = true
removable renamed = true
removable (checking got) = false

abbrev pub made_after : Phase → Option Phase
made_after absent = some made
made_after made = none
made_after sound = none
made_after renamed = none
made_after (checking got) = none

abbrev pub checked_after : String → Phase → Option Phase
checked_after got absent = none
checked_after got made = some (checking got)
checked_after got sound = none
checked_after got renamed = none
checked_after got (checking other) = none

abbrev pub closed_after : String → Phase → Option Phase
closed_after id absent = none
closed_after id made = none
closed_after id sound = none
closed_after id renamed = none
closed_after id (checking got) = some (if str_eq got id then sound else made)

abbrev pub renamed_after : Phase → Option Phase
renamed_after absent = none
renamed_after made = none
renamed_after sound = some renamed
renamed_after renamed = none
renamed_after (checking got) = none

-- The stage changes only under the lock.
abbrev pub staged : Held → Option Phase → Option Held
staged h none = none
staged h (some p) = if h.depth == 4 then some (record h { phase = p }) else none

unfoldable pub next : String → Held → Event → Option Held
next id h opened_work = from_to 0 1 h
next id h closed_work = from_to 1 0 h
next id h opened_namespace = from_to 1 2 h
next id h closed_namespace = from_to 2 1 h
next id h opened_lock_file = from_to 2 3 h
next id h closed_lock_file = from_to 3 2 h
next id h locked = from_to 3 4 h
next id h unlocked = from_to 4 2 h
next id h made_stage = staged h (made_after h.phase)
next id h removed_stage = staged h (if removable h.phase then some absent else none)
next id h published = staged h (renamed_after h.phase)
next id h (opened_staged got) = staged h (checked_after got h.phase)
next id h closed_staged = staged h (closed_after id h.phase)
next id h (opened_ready got) = allow (h.depth == 4 && not h.ready) (record h { ready = true })
next id h closed_ready = allow h.ready (record h { ready = false })

unfoldable pub run : String → Held → List Event → Option Held
run id h [] = some h
run id h (v ∷ vs) = elim (next id h v) [ none ↦ none | some g ↦ run id g vs ]

pub run-step :
    (id : String) (h : Held) (v : Event) (vs : List Event) {g : Held}
    → next id h v ≡ some g
    → run id h (v ∷ vs) ≡ run id g vs
unfolding run
run-step id h v vs e = ap (λ (o : Option Held). elim o [ none ↦ none | some k ↦ run id k vs ]) e

pub run-append :
    (id : String) (h : Held) (xs ys : List Event) {g : Held}
    → run id h xs ≡ some g
    → run id h (xs ++ ys) ≡ run id g ys
unfolding run
run-append id h [] ys {g} e = let f : h ≡ g = cc in rw f refl
run-append id h (x ∷ xs) ys {g} e =
    elim (next id h x)
        as (λ o.
          elim o [ none ↦ none | some k ↦ run id k xs ] ≡ some g
          → elim o [ none ↦ none | some k ↦ run id k (xs ++ ys) ] ≡ run id g ys) [
            | none ↦ λ (n : none ≡ some g). cc
            | some k ↦ λ r. run-append id k xs ys r
          ]
      e
