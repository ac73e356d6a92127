-- ===== src/Source/Recovery/Owned.antt =====
-- Which entries of the staging directory `recoverStages` removes.
use laya_go.Prelude.{
  ℕ, All, Has, All-append, append-nil, subst, ◌≡◌, inl, inr, refl, ap, ◌∙◌, String, Bool,
  Bool-cases, true, false, not, ◌||◌, Option, none, some, List, [], ◌∷◌, ◌++◌, length,
  if◌then◌else◌, arith,
}
use laya_go.Prelude.Int.{ℤ, pos, negsuc, eqb_ℤ}
use laya_go.Errors.{Category, sentinel, materialization, Outcome, ok, refuse, Outcome-cases}
use laya_go.Output.Matching.{bind-eq-ok}
use laya_go.Source.Reading.{as_kind-ok}
use laya_go.Source.{as_kind, is_ok}
use laya_go.Source.Recovery.Name.{
  both, IsStageName, valid_stage_name-IsStageName, IsStageName-valid_stage_name,
}
use laya_go.Source.Recovery.{
  Marker, Entry, valid_stage_name, same_bytes, verify_marker, is_owned, remove_entry, after_entry,
  recover_each, recover_stages,
}

-- The entries that are owned, by name.
abbrev pub owned : List ℕ → List Entry → List String
owned content [] = []
owned content (e ∷ es) =
    let rest = owned content es in if is_owned content e then e.name ∷ rest else rest

-- What was removed is the front of what is owned, and all of it on success.
abbrev pub Recovers : List String → List String × Outcome (Unit {0}) → Type 0
Recovers names r = (left : List String) × (names ≡ r.0 ++ left) × (is_ok r.1 ≡ true → left ≡ [])

after_entry-Recovers :
    (context : Option Category) (mine : Bool) (e : Entry) (names : List String)
    (rest : List String × Outcome (Unit {0}))
    → Recovers names rest
    → Recovers (if mine then e.name ∷ names else names) (after_entry context mine e rest)
unfolding after_entry remove_entry
after_entry-Recovers (some c) mine e names rest h = (_, refl, λ f. absurd (cc))
after_entry-Recovers none false e names rest h = h
after_entry-Recovers none true e names rest (left, h, k) = elim (Outcome-cases e.checkpoint) [
  | inr (x, c) ↦ rw c (e.name ∷ names, refl, λ f. absurd (cc))
  | inl (_, c) ↦ rw c (elim (Outcome-cases e.remove) [
    | inr (x, r) ↦ rw r (names, refl, λ f. absurd (cc))
    | inl (_, r) ↦ rw r (left, ap (λ (ns : List String). e.name ∷ ns) h, k)
  ])
]

recover_each-Recovers :
    (content : List ℕ) (es : List Entry) → Recovers (owned content es) (recover_each content es)
unfolding recover_each
recover_each-Recovers content [] = ([], refl, λ f. refl)
recover_each-Recovers content (e ∷ es) =
    after_entry-Recovers e.context (is_owned content e) e (owned content es)
      (recover_each content es) (recover_each-Recovers content es)

same_bytes-eq : (xs ys : List ℕ) → same_bytes xs ys ≡ true → xs ≡ ys
unfolding same_bytes
same_bytes-eq [] [] e = refl
same_bytes-eq [] (y ∷ ys) e = cc
same_bytes-eq (x ∷ xs) [] e = cc
same_bytes-eq (x ∷ xs) (y ∷ ys) e = ground (arith, same_bytes-eq xs ys)

-- A real directory with the name of a stage, whose marker is a regular file with the content of a
-- stage's marker.
abbrev pub IsStage : List ℕ → Entry → Type 0
IsStage content e =
    IsStageName e.name
    × (e.is_directory ≡ true)
    × (e.is_link ≡ false)
    × (is_ok e.opened ≡ true)
    × (e.marker.lstat ≡ ok (true, pos (length content)))
    × (is_ok e.marker.opened ≡ true)
    × (e.marker.read ≡ ok content)
    × (is_ok e.close ≡ true)

verify_marker-ok :
    (m : Marker) (content : List ℕ)
    → is_ok (verify_marker m content) ≡ true
    → (m.lstat ≡ ok (true, pos (length content))) × (is_ok m.opened ≡ true) × (m.read ≡ ok content)
unfolding verify_marker
verify_marker-ok m content h = elim (Outcome-cases (verify_marker m content)) [
  | inr (x, e) ↦ absurd (cc)
  | inl (_, e) ↦
      (let (info, l, e₁) = bind-eq-ok (as_kind materialization m.lstat) _ e in
        let (_, s, e₂) =
          bind-eq-ok
            (refuse (not info.0 || not (eqb_ℤ info.1 (pos (length content))))
              (sentinel materialization))
            _ e₁ in
        let (_, o, e₃) = bind-eq-ok (as_kind materialization m.opened) _ e₂ in
        let (bytes, r, f) = bind-eq-ok (as_kind materialization m.read) _ e₃ in
        let (regular, size) = described info.0 info.1 (length content) s in
        (
          as_kind-ok materialization m.lstat l ∙ ap ok (pair regular size),
          ap is_ok (as_kind-ok materialization m.opened o),
          as_kind-ok materialization m.read r
              ∙ ap ok (same_bytes-eq bytes content (holds (same_bytes bytes content) f)),
        ))
]
  where
    holds : (a : Bool) {u : Unit {0}} → refuse (not a) (sentinel materialization) ≡ ok u → a ≡ true
    holds true e = refl
    holds false e = cc

    pair : {a b : Bool} {x y : ℤ} → a ≡ b → x ≡ y → ◌≡◌ {A = Bool × ℤ} (a, x) (b, y)
    pair e f = cc

    described :
        (a : Bool) (n : ℤ) (k : ℕ) {u : Unit {0}}
        → refuse (not a || not (eqb_ℤ n (pos k))) (sentinel materialization) ≡ ok u
        → (a ≡ true) × (n ≡ pos k)
    described false n k e = cc
    described true (pos m) k e = (refl, ap pos (ground arith))
    described true (negsuc m) k e = absurd (ground arith)

is_owned-IsStage : (content : List ℕ) (e : Entry) → is_owned content e ≡ true → IsStage content e
unfolding is_owned
is_owned-IsStage content e h =
    let (h₁, c) = both _ (is_ok e.close) h in
    let (h₂, m) = both _ (is_ok (verify_marker e.marker content)) h₁ in
    let (h₃, o) = both _ (is_ok e.opened) h₂ in
    let (h₄, l) = both _ (not e.is_link) h₃ in
    let (n, d) = both (valid_stage_name e.name) e.is_directory h₄ in
    let (s, p, r) = verify_marker-ok e.marker content m in
    (valid_stage_name-IsStageName e.name n, d, ground arith, o, s, p, r, c)

owned-All :
    (content : List ℕ) (es : List Entry) (Q : Entry → Type 0)
    → ((e : Entry) → Has e es → is_owned content e ≡ true → Q e)
    → All (λ (n : String). (e : Entry) × (e.name ≡ n) × Q e) (owned content es)
owned-All content [] Q h = tt
owned-All content (e ∷ es) Q h =
    let rest = owned-All content es Q (λ x i. h x (inr i)) in
    elim (Bool-cases (is_owned content e)) [
      | inl o ↦ rw o ((e, refl, h e (inl refl) o), rest)
      | inr o ↦ rw o rest
    ]

same_bytes_refl : (xs : List ℕ) → same_bytes xs xs ≡ true
unfolding same_bytes
same_bytes_refl [] = refl
same_bytes_refl (x ∷ xs) = ground (arith, same_bytes_refl xs)

IsStage-is_owned : (content : List ℕ) (e : Entry) → IsStage content e → is_owned content e ≡ true
unfolding is_owned verify_marker
IsStage-is_owned content e (n, d, l, o, s, p, r, c) = elim (Outcome-cases e.marker.opened) [
  | inr (x, f) ↦ absurd (cc)
  | inl (_, f) ↦
      rw (IsStageName-valid_stage_name e.name n, d, l, o, s, f, r, c, same_bytes_refl content)
        (ground arith)
]

Has-owned :
    (content : List ℕ) (es : List Entry) (e : Entry)
    → Has e es
    → is_owned content e ≡ true
    → Has e.name (owned content es)
Has-owned content [] e h o = absurd h
Has-owned content (x ∷ es) e (inl d) o =
    rw (ap (λ (y : Entry). is_owned content y) d ∙ o) (inl (ap (λ (y : Entry). y.name) d))
Has-owned content (x ∷ es) e (inr h) o = elim (Bool-cases (is_owned content x)) [
  | inl t ↦ rw t (inr (Has-owned content es e h o))
  | inr t ↦ rw t (Has-owned content es e h o)
]

-- Whatever the file system answers, `recoverStages` removes nothing but entries of the staging directory
-- that are real directories, opened and closed without an error, with the name of a stage and a marker
-- of the right content; and where it succeeds, it has removed each such entry.
pub recover_stages-Owned :
    (content : List ℕ) (es : List Entry)
    → All
        (λ (n : String). (e : Entry) × (e.name ≡ n) × (Has e es × IsStage content e))
        (recover_stages content (ok es)).0
      × (is_ok (recover_stages content (ok es)).1 ≡ true
          → (e : Entry) → Has e es
          → IsStage content e
          → Has e.name (recover_stages content (ok es)).0)
unfolding recover_stages
recover_stages-Owned content es =
    let (left, h, k) = recover_each-Recovers content es in
    let all =
      owned-All content es (λ e. Has e es × IsStage content e)
        (λ e i o. (i, is_owned-IsStage content e o)) in
    let removed = (recover_each content es).0 in
    (
      (All-append _ removed left (subst (All _) h all)).0,
      λ o e i s.
          subst (λ (l : List String). Has e.name l)
            (h ∙ ap (λ (l : List String). removed ++ l) (k o) ∙ append-nil removed)
            (Has-owned content es e i (IsStage-is_owned content e s)),
    )
