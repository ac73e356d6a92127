-- ===== src/Bundle/Json/Exact.antt =====
-- Which JSON values the check of exact fields accepts, and what the two checks of fields give.
use laya_go.Prelude.{
  ℕ, suc, ◌≡◌, inl, inr, refl, sym, subst, ◌∙◌, String, str_eq, eq_iff, Option, none, some, List,
  [], ◌∷◌, All, Has, Fresh, Distinct, if◌then◌else◌, arith,
}
use laya_go.Errors.{matches_sentinel, invalid_bundle, Outcome, ok, err}
use laya_go.Question.Valid.{seen_before-Has, str_eq-Tests}
use laya_go.Bundle.Rules.{bad_bundle}
use laya_go.Bundle.Valid.{Accepts, ◌&◌, ◌next◌, need, pass}
use laya_go.Bundle.Json.{reject_duplicate_fields}
use laya_go.Bundle.Json.Value.{
  Json, null, plain, string, array, object, Elements, nil, element, Fields, end, field, tokens,
  keys,
}
use laya_go.Bundle.Json.Unique.{reject_duplicate_fields-Accepts}
use laya_go.Bundle.Json.Shape.{
  Shape, struct, slice, simple, Shapes, last, member, find_shape, require_fields,
  validate_exact_fields, validate_elements, validate_known,
}

abbrev pub names : Shapes → List String
names last = []
names (member name sh rest) = name ∷ names rest

-- A value of a type: null, an object whose keys are exactly the names, with values of their types, a
-- list of values, or anything where the type is no struct and no slice.
abbrev mutual
  pub HasShape : Json → Shape → Type 0
  HasShape null sh = Unit
  HasShape plain (struct shapes) = ⊥
  HasShape plain (slice sh) = ⊥
  HasShape plain simple = Unit
  HasShape (string s) (struct shapes) = ⊥
  HasShape (string s) (slice sh) = ⊥
  HasShape (string s) simple = Unit
  HasShape (array es) (struct shapes) = ⊥
  HasShape (array es) (slice sh) = HaveShape es sh
  HasShape (array es) simple = Unit
  HasShape (object fs) (struct shapes) =
      AreKnown fs shapes & All (λ name. Has name (keys fs)) (names shapes)
  HasShape (object fs) (slice sh) = ⊥
  HasShape (object fs) simple = Unit

  pub HaveShape : Elements → Shape → Type 0
  HaveShape nil sh = Unit
  HaveShape (element v es) sh = HasShape v sh & HaveShape es sh

  pub AreKnown : Fields → Shapes → Type 0
  AreKnown end shapes = Unit
  AreKnown (field k v fs) shapes =
      ((sh : Shape) × (find_shape k shapes ≡ some sh) × HasShape v sh) & AreKnown fs shapes

refused : Accepts ⊥ (err bad_bundle)
refused = inr ((λ x. x), bad_bundle, refl, matches_sentinel invalid_bundle)

require_fields-Accepts :
    (shapes : Shapes) (ks : List String)
    → Accepts (All (λ name. Has name ks) (names shapes)) (require_fields shapes ks)
unfolding require_fields
require_fields-Accepts last ks = pass
require_fields-Accepts (member name sh rest) ks =
    need (seen_before-Has ks name) next require_fields-Accepts rest ks

known :
    {P : Shape → Type 0} {check : Shape → Outcome (Unit {0})}
    → ((sh : Shape) → Accepts (P sh) (check sh))
    → (o : Option Shape)
    → Accepts
        ((sh : Shape) × (o ≡ some sh) × P sh)
        (elim o [ none ↦ err bad_bundle | some sh ↦ check sh ])
known h none = inr ((λ (sh, e, _). cc), bad_bundle, refl, matches_sentinel invalid_bundle)
known {P} h (some sh) = elim (h sh) [
  | inl (p, e) ↦ inl ((sh, refl, p), e)
  | inr (n, x, e, k) ↦ inr ((λ (t, d, p). n (same sh t d p)), x, e, k)
]
  where
    same : (s t : Shape) → ◌≡◌ {A = Option Shape} (some s) (some t) → P t → P s
    same s t d p = let e : s ≡ t = cc in rw e p

mutual
  unfolding validate_exact_fields

  -- `validateExactFields` accepts exactly the values of a type: null, an object whose keys are declared
  -- and include each declared name, with values of the declared types, a list of values, and anything
  -- where the type is no struct and no slice; any other value is refused as an invalid bundle.
  pub validate_exact_fields-Accepts :
      (v : Json) (sh : Shape) → Accepts (HasShape v sh) (validate_exact_fields v sh)
  validate_exact_fields-Accepts null sh = pass
  validate_exact_fields-Accepts plain (struct shapes) = refused
  validate_exact_fields-Accepts plain (slice sh) = refused
  validate_exact_fields-Accepts plain simple = pass
  validate_exact_fields-Accepts (string s) (struct shapes) = refused
  validate_exact_fields-Accepts (string s) (slice sh) = refused
  validate_exact_fields-Accepts (string s) simple = pass
  validate_exact_fields-Accepts (array es) (struct shapes) = refused
  validate_exact_fields-Accepts (array es) (slice sh) = validate_elements-Accepts es sh
  validate_exact_fields-Accepts (array es) simple = pass
  validate_exact_fields-Accepts (object fs) (struct shapes) =
      validate_known-Accepts fs shapes next require_fields-Accepts shapes (keys fs)
  validate_exact_fields-Accepts (object fs) (slice sh) = refused
  validate_exact_fields-Accepts (object fs) simple = pass

  validate_elements-Accepts :
      (es : Elements) (sh : Shape) → Accepts (HaveShape es sh) (validate_elements es sh)
  validate_elements-Accepts nil sh = pass
  validate_elements-Accepts (element v es) sh =
      validate_exact_fields-Accepts v sh next validate_elements-Accepts es sh

  validate_known-Accepts :
      (fs : Fields) (shapes : Shapes) → Accepts (AreKnown fs shapes) (validate_known fs shapes)
  validate_known-Accepts end shapes = pass
  validate_known-Accepts (field k v fs) shapes =
      known (λ sh. validate_exact_fields-Accepts v sh) (find_shape k shapes)
      next validate_known-Accepts fs shapes

unfoldable pub occurrences : String → List String → ℕ
occurrences k [] = 0
occurrences k (j ∷ ks) = let n = occurrences k ks in if str_eq j k then suc n else n

occurrences-Fresh : (k : String) (ks : List String) → Fresh k ks → occurrences k ks ≡ 0
unfolding occurrences
occurrences-Fresh k [] f = refl
occurrences-Fresh k (j ∷ ks) (n, f) = ground (arith, eq_iff j k, occurrences-Fresh k ks f)

Fresh-Has : (j k : String) (ks : List String) → Fresh j ks → Has k ks → j ≡ k → ⊥
Fresh-Has j k [] f h e = h
Fresh-Has j k (x ∷ ks) (n, f) (inl d) e = n (d ∙ sym e)
Fresh-Has j k (x ∷ ks) (n, f) (inr h) e = Fresh-Has j k ks f h e

-- A key that stands in a list without repetitions stands there once.
occurrences-Distinct :
    (k : String) (ks : List String) → Distinct ks → Has k ks → occurrences k ks ≡ 1
unfolding occurrences
occurrences-Distinct k [] d h = absurd h
occurrences-Distinct k (j ∷ ks) (f, d) (inl e) =
    let g = subst (λ x. Fresh x ks) e f in ground (arith, eq_iff j k, occurrences-Fresh k ks g)
occurrences-Distinct k (j ∷ ks) (f, d) (inr h) =
    ground (arith, eq_iff j k, Fresh-Has j k ks f h, occurrences-Distinct k ks d h)

find_shape-Has :
    (k : String) (shapes : Shapes) (sh : Shape)
    → find_shape k shapes ≡ some sh
    → Has k (names shapes)
unfolding find_shape
find_shape-Has k last sh e = cc
find_shape-Has k (member name t rest) sh e = elim (str_eq-Tests name k) [
  | inl (d, s) ↦ inl d
  | inr (n, s) ↦ inr (find_shape-Has k rest sh (rw s at e))
]

All-once :
    (ns ks : List String)
    → Distinct ks
    → All (λ n. Has n ks) ns
    → All (λ n. occurrences n ks ≡ 1) ns
All-once [] ks d h = tt
All-once (n ∷ ns) ks d (h, hs) = (occurrences-Distinct n ks d h, All-once ns ks d hs)

All-declared :
    (fs : Fields) (shapes : Shapes) → AreKnown fs shapes → All (λ k. Has k (names shapes)) (keys fs)
All-declared end shapes h = tt
All-declared (field k v fs) shapes ((sh, e, _), h) =
    (find_shape-Has k shapes sh e, All-declared fs shapes h)

-- An object that both checks of fields accept, for a struct, has each field of the struct exactly once
-- and no other key.
pub validate_exact_fields-once :
    (fs : Fields) (shapes : Shapes)
    → reject_duplicate_fields (tokens (object fs) []) ≡ ok tt
    → validate_exact_fields (object fs) (struct shapes) ≡ ok tt
    → All (λ name. occurrences name (keys fs) ≡ 1) (names shapes)
      × All (λ k. Has k (names shapes)) (keys fs)
validate_exact_fields-once fs shapes a b = elim (reject_duplicate_fields-Accepts (object fs)) [
  | inl ((_, (_, d)), _) ↦ elim (validate_exact_fields-Accepts (object fs) (struct shapes)) [
    | inl ((h, m), _) ↦ (All-once (names shapes) (keys fs) d m, All-declared fs shapes h)
    | inr (_, x, e, _) ↦ cc
  ]
  | inr (_, x, e, _) ↦ cc
]
